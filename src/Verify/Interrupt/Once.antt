-- ===== src/Verify/Interrupt/Once.antt =====
-- What a body sees of the signals that arrive.
use leansphincs.Base.{
  ℕ, zero, suc, ◌≡◌, refl, sym, ap, ◌∙◌, Bool, true, false, List, [], ◌∷◌, Option, none, some,
  Result, keyboard_interrupt,
}
use leansphincs.Verify.Interrupt.{
  Handler, ignored, installed, Body, ended, moment, play, termination_as_interrupt,
}

-- The result of a body that no signal reaches.
abbrev pub undisturbed : {A : Type 0} → Body A → Result A
undisturbed (ended x) = x
undisturbed (moment go stop) = undisturbed go

-- The result of a body that is interrupted at its moment `n`, and never again.
abbrev pub interrupted_at : {A : Type 0} → ℕ → Body A → Result A
interrupted_at n (ended x) = x
interrupted_at zero (moment go stop) = undisturbed (stop (keyboard_interrupt "SIGTERM"))
interrupted_at (suc n) (moment go stop) = interrupted_at n go

abbrev pub later : Option ℕ → Option ℕ
later none = none
later (some n) = some (suc n)

-- The moment of the first signal.
abbrev pub first_arrival : List Bool → Option ℕ
first_arrival [] = none
first_arrival (true ∷ arrivals) = some 0
first_arrival (false ∷ arrivals) = later (first_arrival arrivals)

abbrev pub seen : {A : Type 0} → Option ℕ → Body A → Result A
seen none body = undisturbed body
seen (some n) body = interrupted_at n body

module _ {A : Type 0} where
  play-undisturbed : (h : Handler) (body : Body A) → (play h body []).1 ≡ some (undisturbed body)
  unfolding play
  play-undisturbed h (ended x) = refl
  play-undisturbed h (moment go stop) = play-undisturbed h go

  play-ignored :
      (body : Body A) (arrivals : List Bool)
      → (play ignored body arrivals).1 ≡ some (undisturbed body)
  unfolding play
  play-ignored (ended x) arrivals = refl
  play-ignored (moment go stop) [] = play-ignored go []
  play-ignored (moment go stop) (false ∷ arrivals) = play-ignored go arrivals
  play-ignored (moment go stop) (true ∷ arrivals) = play-ignored go arrivals

  seen-later :
      (first : Option ℕ) (go : Body A) (stop : _)
      → seen (later first) (moment go stop) ≡ seen first go
  seen-later none go stop = refl
  seen-later (some n) go stop = refl

  seen-ended : (first : Option ℕ) (x : Result A) → seen first (ended x) ≡ x
  seen-ended none x = refl
  seen-ended (some zero) x = refl
  seen-ended (some (suc n)) x = refl

  play-installed :
      (body : Body A) (arrivals : List Bool)
      → (play installed body arrivals).1 ≡ some (seen (first_arrival arrivals) body)
  unfolding play
  play-installed (ended x) arrivals = ap some (sym (seen-ended (first_arrival arrivals) x))
  play-installed (moment go stop) [] = play-undisturbed installed go
  play-installed (moment go stop) (false ∷ arrivals) =
      play-installed go arrivals ∙ ap some (sym (seen-later (first_arrival arrivals) go stop))
  play-installed (moment go stop) (true ∷ arrivals) =
      play-ignored (stop (keyboard_interrupt "SIGTERM")) arrivals

-- However many SIGTERMs arrive during the block, the process is not ended by one: the first raises one
-- interrupt, behind which the body and its cleanup run as if no other arrived, and without a signal
-- the body runs undisturbed. Behind the block the handler of the caller is set again.
pub termination_as_interrupt-seen :
    {A : Type 0} (previous : Handler) (body : Body A) (arrivals : List Bool)
    → termination_as_interrupt previous body arrivals
      ≡ (previous, some (seen (first_arrival arrivals) body))
termination_as_interrupt-seen previous body arrivals =
    ap (λ x. (previous, x)) (play-installed body arrivals)
