-- ===== src/Verify/Receipt/Triples.antt =====
-- What each call of the write of a receipt keeps, in every state that it passes through.
use text.Mathlib.Text.{◌==◌ as str_eq}
use text.Mathlib.TextEquality.{eq_iff}
use leansphincs.Base.{
  ℕ, ◌≡◌, ◌≢◌, inl, inr, refl, String, Bool-cases, Option, List, All, All-append, Result, ok, err,
}
use leansphincs.Verify.Receipt.{
  Directory, put, Action, effect, continue, ◌>>◌, conclude, ending, finally_do,
}

pub put_same :
    (name : String) (content : Option (List ℕ)) (dir : Directory)
    → put name content dir name ≡ content
put_same name content dir = rw ((eq_iff name name).1 refl) refl

pub put_other :
    (name n : String) (content : Option (List ℕ)) (dir : Directory)
    → n ≢ name
    → put name content dir n ≡ dir n
put_other name n content dir h = elim (Bool-cases (str_eq n name)) [
  | inl e ↦ absurd (h ((eq_iff n name).0 e))
  | inr e ↦ rw e refl
]

-- From a state of `P`, the states on the way and the last one have `C`, and the last one has `Q` if
-- the action returns.
module _ (C : Directory → Type 0) where
  abbrev pub Triple : (Directory → Type 0) → Action → (Directory → Type 0) → Type 0
  Triple P m Q =
      (dir : Directory) → P dir → All C (m dir).0 × C (m dir).1 × ((m dir).2 ≡ ok tt → Q (m dir).1)

  pub Triple-effect :
      (P Q : Directory → Type 0) (after broken : Directory → Directory) (x : Result (Unit {0}))
      → ((dir : Directory) → P dir → C (after dir) × Q (after dir))
      → ((dir : Directory) → P dir → C (broken dir))
      → Triple P (effect after broken x) Q
  Triple-effect P Q after broken (ok u) f g dir p = let (c, q) = f dir p in ((c, tt), c, λ _. q)
  Triple-effect P Q after broken (err e) f g dir p =
      let c = g dir p in ((c, tt), c, λ h. absurd (cc))

  pub Triple-then :
      (P Q R : Directory → Type 0) (m k : Action)
      → Triple P m Q
      → Triple Q k R
      → Triple P (m >> k) R
  Triple-then P Q R m k f g dir p = after (m dir) (f dir p)
    where
      after :
          (x : List Directory × Directory × Result (Unit {0}))
          → All C x.0 × C x.1 × (x.2 ≡ ok tt → Q x.1)
          → All C (continue x k).0
            × C (continue x k).1
            × ((continue x k).2 ≡ ok tt → R (continue x k).1)
      after (t, s, ok u) (cs, c, q) =
          let (cs', c', r) = g s (q refl) in (All-append C t (k s).0 cs cs', c', r)
      after (t, s, err e) (cs, c, q) = (cs, c, λ h. absurd (cc))

  -- The cleanup keeps `C` wherever it starts, and `Q` behind a body that returned.
  pub Triple-finally :
      (P Q R : Directory → Type 0) (m c : Action)
      → Triple P m Q
      → Triple Q c R
      → Triple C c C
      → Triple P (finally_do m c) R
  Triple-finally P Q R m c f g h dir p = after (m dir) (f dir p)
    where
      last :
          (t : List Directory) (y : List Directory × Directory × Result (Unit {0})) (e : _)
          → All C t
          → All C y.0 × C y.1
          → All C (conclude t (err e) y).0
            × C (conclude t (err e) y).1
            × ((conclude t (err e) y).2 ≡ ok tt → R (conclude t (err e) y).1)
      last t (s, dir, ok u) e cs (cs', c) = (All-append C t s cs cs', c, λ h. absurd (cc))
      last t (s, dir, err e') e cs (cs', c) = (All-append C t s cs cs', c, λ h. absurd (cc))

      last_ok :
          (t : List Directory) (y : List Directory × Directory × Result (Unit {0}))
          → All C t
          → All C y.0 × C y.1 × (y.2 ≡ ok tt → R y.1)
          → All C (conclude t (ok tt) y).0
            × C (conclude t (ok tt) y).1
            × ((conclude t (ok tt) y).2 ≡ ok tt → R (conclude t (ok tt) y).1)
      last_ok t (s, dir, ok u) cs (cs', c, r) = (All-append C t s cs cs', c, λ _. r refl)
      last_ok t (s, dir, err e) cs (cs', c, r) = (All-append C t s cs cs', c, λ h. absurd (cc))

      after :
          (x : List Directory × Directory × Result (Unit {0}))
          → All C x.0 × C x.1 × (x.2 ≡ ok tt → Q x.1)
          → All C (ending x c).0 × C (ending x c).1 × ((ending x c).2 ≡ ok tt → R (ending x c).1)
      after (t, s, ok u) (cs, here, q) = last_ok t (c s) cs (g s (q refl))
      after (t, s, err e) (cs, here, q) = let (cs', c', _) = h s here in last t (c s) e cs (cs', c')
