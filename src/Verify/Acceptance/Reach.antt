-- ===== src/Verify/Acceptance/Reach.antt =====
-- Runs that return, step by step: the converse of Verify/Runs.
use leansphincs.Base.{◌≡◌, ap, ◌∙◌, Bool, false, Exception, Result, ok, raise_if}
use leansphincs.Verify.Report.{Report, Outcome, returned, Run, continue, call}

-- The run returns `a` with a report of `P`.
abbrev pub Reaches : {A : Type 0} → Outcome A → A → (Report → Type 0) → Type 0
Reaches o a P = (s : Report) × (o ≡ returned a s) × P s

module _ {A B : Type 0} {b : B} (P : Report → Type 0) where
  pub call-Reaches :
      {a : A} {r : Report} (x : Result A) (k : A → Run B)
      → x ≡ ok a
      → Reaches (k a r) b P
      → Reaches (continue (call x r) k) b P
  call-Reaches {r} x k e (s, h, p) = (s, ap (λ y. continue (call y r) k) e ∙ h, p)

  pub run-Reaches :
      {a : A} {r : Report} (o : Outcome A) (k : A → Run B)
      → o ≡ returned a r
      → Reaches (k a r) b P
      → Reaches (continue o k) b P
  run-Reaches o k e (s, h, p) = (s, ap (λ y. continue y k) e ∙ h, p)

pub pass-Reaches :
    {B : Type 0} {b : B} (P : Report → Type 0) {r : Report} (c : Bool) (e : Exception)
    (k : Unit {0} → Run B)
    → c ≡ false
    → Reaches (k tt r) b P
    → Reaches (continue (call (raise_if c e) r) k) b P
pass-Reaches P {r} c e k h (s, g, p) = (s, ap (λ q. continue (call (raise_if q e) r) k) h ∙ g, p)

-- The last call of a run.
pub last-Reaches :
    {A : Type 0} {a : A} (P : Report → Type 0) {r : Report} (x : Result A)
    → x ≡ ok a
    → P r
    → Reaches (call x r) a P
last-Reaches P {r} x e p = (r, ap (λ y. call y r) e, p)
