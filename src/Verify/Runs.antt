-- ===== src/Verify/Runs.antt =====
-- How a run that returned got there, and what a run keeps.
use leansphincs.Base.{◌≡◌, refl, ap, Bool, true, false, Exception, Result, ok, err, raise_if}
use leansphincs.Verify.Report.{Report, Outcome, returned, raised, Run, continue, ◌>>=◌, ◌>>◌, call}

pub returned-injective :
    {A : Type 0} {a b : A} {r s : Report} → returned a r ≡ returned b s → (a ≡ b) × (r ≡ s)
returned-injective h = (cc, cc)

module _ {A B : Type 0} {b : B} {s : Report} where
  pub call_then :
      {r : Report} (x : Result A) (k : A → Run B)
      → continue (call x r) k ≡ returned b s
      → (a : A) × (x ≡ ok a) × (k a r ≡ returned b s)
  call_then (ok a) k h = (a, refl, h)
  call_then (err e) k h = cc

  pub run_then :
      (o : Outcome A) (k : A → Run B)
      → continue o k ≡ returned b s
      → (a : A) × (q : Report) × (o ≡ returned a q) × (k a q ≡ returned b s)
  run_then (returned a q) k h = (a, q, refl, h)
  run_then (raised e q) k h = cc

pub passed_then :
    {B : Type 0} {b : B} {r s : Report} (c : Bool) (e : Exception) (k : Unit {0} → Run B)
    → continue (call (raise_if c e) r) k ≡ returned b s
    → (c ≡ false) × (k tt r ≡ returned b s)
passed_then true e k h = cc
passed_then false e k h = (refl, h)

pub passed :
    {u : Unit {0}} {r s : Report} (c : Bool) (e : Exception)
    → call (raise_if c e) r ≡ returned u s
    → (c ≡ false) × (r ≡ s)
passed true e h = cc
passed false e h = (refl, (returned-injective h).1)

pub call_returned :
    {A : Type 0} {a : A} {r s : Report} (x : Result A)
    → call x r ≡ returned a s
    → (x ≡ ok a) × (r ≡ s)
call_returned (ok a) h = (ap ok (returned-injective h).0, (returned-injective h).1)
call_returned (err e) h = cc

-- The report that a run leaves behind.
abbrev pub report_of : {A : Type 0} → Outcome A → Report
report_of (returned a r) = r
report_of (raised e r) = r

-- What holds of the report holds after the run, whether it returned or raised.
abbrev pub Keeps : (P : Report → Type 0) {A : Type 0} → Run A → Type 0
Keeps P m = (r : Report) → P r → P (report_of (m r))

module _ (P : Report → Type 0) where
  pub Keeps-bind :
      {A B : Type 0} (m : Run A) (k : A → Run B)
      → Keeps P m
      → ((a : A) → Keeps P (k a))
      → Keeps P (m >>= k)
  Keeps-bind m k f g r p = after (m r) (f r p)
    where
      after : (o : Outcome _) → P (report_of o) → P (report_of (continue o k))
      after (returned a q) h = g a q h
      after (raised e q) h = h

  pub Keeps-then :
      {B : Type 0} (m : Run (Unit {0})) (k : Run B) → Keeps P m → Keeps P k → Keeps P (m >> k)
  Keeps-then m k f g = Keeps-bind m (λ _. k) f (λ _. g)

  pub Keeps-call : {A : Type 0} (x : Result A) → Keeps P (call x)
  Keeps-call (ok a) r p = p
  Keeps-call (err e) r p = p
