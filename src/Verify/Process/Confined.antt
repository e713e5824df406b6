-- ===== src/Verify/Process/Confined.antt =====
-- `run` on a command of `systemd_command`: no code without a stopped unit.
use text.Mathlib.TextLemmas.{append_assoc as text_assoc}
use leansphincs.Base.{
  ℕ, ◌≡◌, refl, subst, ap, ◌∙◌, String, ◌<>◌, true, false, not, ◌&&◌, List, [], ◌∷◌, ◌++◌, All, leb,
  ok, raise_if_then, ok-injective,
}
use leansphincs.Base.Int.{ℤ}
use leansphincs.Base.Prefix.{starts_with, remove_prefix, starts_with-append, remove_prefix-append}
use leansphincs.Sandbox.Unit.{Environment, systemd_command}
use leansphincs.Verify.Service.Cleanup.{IsStopped, stop_service_iff}
use leansphincs.Verify.Process.{Child, units, run}
use leansphincs.Verify.Process.Stopped.{AllStopped, run_iff}

units_skip :
    (arg : String) (args : List String)
    → starts_with "--unit=leansphincs-" arg ≡ false
    → units (arg ∷ args) ≡ units args
unfolding units
units_skip arg args h = rw h

units_take :
    (arg : String) (args : List String)
    → starts_with "--unit=leansphincs-" arg ≡ true
    → units (arg ∷ args) ≡ remove_prefix "--unit=" arg ∷ units args
unfolding units
units_take arg args h = rw h

-- Words that name no unit.
units_pass :
    (known rest : List String)
    → All (λ arg. starts_with "--unit=leansphincs-" arg ≡ false) known
    → units (known ++ rest) ≡ units rest
units_pass [] rest h = refl
units_pass (arg ∷ known) rest h = units_skip arg (known ++ rest) h.0 ∙ units_pass known rest h.1

abbrev pub unit_of : String → String
unit_of hex = "leansphincs-" <> (hex <> ".service")

unit_word :
    (hex : String)
    → remove_prefix "--unit=" ("--unit=leansphincs-" <> (hex <> ".service")) ≡ unit_of hex
unit_word hex =
    ap (remove_prefix "--unit=") (text_assoc "--unit=" "leansphincs-" (hex <> ".service"))
    ∙ remove_prefix-append "--unit=" (unit_of hex)

-- The words of the command up to its environment.
words_units :
    (before : List String) (hex : String) (rest : List String)
    → All (λ arg. starts_with "--unit=leansphincs-" arg ≡ false) before
    → (tail : List String) × (units
          (before ++ (("--unit=leansphincs-" <> (hex <> ".service")) ∷ rest))
        ≡ unit_of hex ∷ tail)
words_units before hex rest h =
    let own = "--unit=leansphincs-" <> (hex <> ".service") in
    (
      units rest,
      units_pass before (own ∷ rest) h
          ∙ (units_take own rest (starts_with-append "--unit=leansphincs-" (hex <> ".service"))
              ∙ ap (λ u. u ∷ units rest) (unit_word hex)),
    )

module _ (hex : String) (command : List String) (cwd : String) (environment : Environment)
    (seconds : ℕ) where
  systemd_command-units :
      {argv : List String}
      → systemd_command hex command cwd environment seconds ≡ ok argv
      → (rest : List String) × (units argv ≡ unit_of hex ∷ rest)
  unfolding systemd_command starts_with
  systemd_command-units h =
      let (_, h₁) = raise_if_then (not (leb 1 seconds && leb seconds 4800)) _ _ h in
      subst (λ a. (rest : List String) × (units a ≡ unit_of hex ∷ rest)) (ok-injective _ _ h₁)
        (words_units ("systemd-run" ∷ "--user" ∷ "--wait" ∷ "--pipe" ∷ "--collect" ∷ "--quiet" ∷ [])
          hex _ (refl, (refl, (refl, (refl, (refl, (refl, tt)))))))

  -- Where `run` returns a code for a command of `systemd_command`, the process exited with that code,
  -- and its own transient unit is stopped: systemd has collected it, or it is inactive or failed with
  -- no process left in its group. So no descendant of the child outlives the reading of its code.
  pub run-IsStopped :
      (child : Child) (argv : List String) (code : ℤ)
      → systemd_command hex command cwd environment seconds ≡ ok argv
      → (run child argv).1 ≡ ok code
      → (child.wait ≡ ok code) × IsStopped (child.service (unit_of hex))
  run-IsStopped child argv code built ran =
      let (_, _, exited, stopped, _, _) = (run_iff child argv code).0 ran in
      let (rest, own) = systemd_command-units built in
      let (first, _) = subst (AllStopped child) own stopped in
      (exited, (stop_service_iff (child.service (unit_of hex)) (unit_of hex)).0 first)
