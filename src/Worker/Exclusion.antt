-- ===== src/Worker/Exclusion.antt =====
-- At most one process is inside the slot.
use leansphincs.Base.{
  ℕ, ◌≡◌, ◌≢◌, refl, sym, ap, ◌∙◌, inl, inr, Bool, not, Bool-cases, Option, none, some, arith, ◌==◌,
  if◌then◌else◌, Result, ok, bind-eq-ok, raise_if_then,
}
use leansphincs.Worker.{
  flock, worker_slot, close, Phase, inside, finished, System, update, Step, enter, refuse, leave,
  Reachable, initial, next,
}

-- The lock belongs to whoever is inside.
abbrev pub IsOwned : System → Type 0
IsOwned s = (p : ℕ) → s.phases p ≡ inside → s.holder ≡ some p

flock_free :
    (holder : Option ℕ) (p : ℕ) {h : Option ℕ}
    → flock holder p ≡ ok h
    → (holder ≡ none) × (h ≡ some p)
flock_free none p h = (refl, cc)
flock_free (some q) p h = cc

worker_slot_free :
    (opened : Result Bool) (holder : Option ℕ) (p : ℕ) {h : Option ℕ}
    → worker_slot opened holder p ≡ ok h
    → (holder ≡ none) × (h ≡ some p)
unfolding worker_slot
worker_slot_free opened holder p e =
    let (regular, _, e₁) = bind-eq-ok opened _ e in
    let (_, e₂) = raise_if_then (not regular) _ _ e₁ in flock_free holder p e₂

-- Where a process stands after another phase was set.
update_other :
    (phases : ℕ → Phase) (p q : ℕ) (phase : Phase)
    → update phases p phase q ≡ inside
    → phase ≢ inside
    → (phases q ≡ inside) × (q ≢ p)
update_other phases p q phase h n = elim (Bool-cases (q == p)) [
  | inl e ↦ absurd (n (sym (ap (λ b. if b then phase else phases q) e) ∙ h))
  | inr e ↦ (sym (ap (λ b. if b then phase else phases q) e) ∙ h, λ same. absurd (ground arith))
]

close_other : (holder : Option ℕ) (p q : ℕ) → q ≢ p → holder ≡ some q → close holder p ≡ some q
unfolding close
close_other holder p q n e = rw e (ground arith)

IsOwned-Step : (s t : System) → IsOwned s → Step s t → IsOwned t
IsOwned-Step s _ own (enter p opened holder idle slot) q h =
    let (free, taken) = worker_slot_free opened s.holder p slot in
    elim (Bool-cases (q == p)) [
      | inl e ↦ taken ∙ ap some (ground arith)
      | inr e ↦
          let there = sym (ap (λ b. if b then inside else s.phases q) e) ∙ h in
          absurd (cc (own q there))
    ]
IsOwned-Step s _ own (refuse p opened raised idle slot) q h =
    let (there, other) = update_other s.phases p q finished h (λ e. cc) in
    close_other s.holder p q other (own q there)
IsOwned-Step s _ own (leave p here) q h =
    let (there, other) = update_other s.phases p q finished h (λ e. cc) in
    close_other s.holder p q other (own q there)

pub IsOwned-Reachable : (s : System) → Reachable s → IsOwned s
IsOwned-Reachable _ initial = λ p h. cc
IsOwned-Reachable t (next {s} r step) = IsOwned-Step s t (IsOwned-Reachable s r) step

-- In every reachable state of the processes of one checkout, with any mix of successful and failed
-- opens, refusals, exits and deaths, two processes inside the slot are the same process.
pub Reachable-exclusive :
    (s : System) (p q : ℕ) → Reachable s → s.phases p ≡ inside → s.phases q ≡ inside → p ≡ q
Reachable-exclusive s p q r hp hq =
    let own = IsOwned-Reachable s r in some-injective (sym (own p hp) ∙ own q hq)
  where
    some-injective : {a b : ℕ} → some a ≡ some b → a ≡ b
    some-injective h = cc
