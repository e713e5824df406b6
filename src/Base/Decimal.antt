-- ===== src/Base/Decimal.antt =====
-- Decimal numerals: Python's `str` and `int` on natural numbers, over bytes.
use mathlib.Core.Logic.{ite, dite}
use mathlib.Core.WellFounded
use mathlib.Core.WellFounded.{Acc, Acc-prop}
use native.Mathlib.Decide.{dec_lt}
use Prim.Native.Nat.{ℕ, zero, suc, ◌+◌, ◌-◌, ◌*◌, ◌/◌, ◌%◌, ◌^◌, ◌≤◌, ◌<◌}
use mathlib.Core.Path.{◌≡◌, refl, ap, sym, ◌∙◌}
use mathlib.Core.Bool.{Bool, false, ◌&&◌}
use mathlib.Core.List.{List, [], ◌∷◌, ◌++◌, append_assoc, append-nil}
use native.Mathlib.Nat.{pow-suc}
use native.Mathlib.Omega.{arith}
use leansphincs.Base.Order.{lt_wf}
use leansphincs.Base.Tests.{leb}
use leansphincs.Base.Lists.{length, length-append, All, All-append}

abbrev pub is_digit : ℕ → Bool
is_digit c = leb b'0' c && leb c b'9'

decimal_acc : (n : ℕ) → Acc ◌<◌ n → List ℕ
decimal_acc n (Acc.intro _ smaller) =
    dite (dec_lt 9 n)
      (λ h. decimal_acc (n / 10) (smaller (n / 10) (omega arith)) ++ ((48 + n % 10) ∷ []))
      (λ _. (48 + n) ∷ [])

-- `str(n)`
unfoldable pub decimal : ℕ → List ℕ
unfolding decimal_acc lt_wf dec_lt
decimal n = decimal_acc n (lt_wf.apply n)

decimal_acc_step :
    (n : ℕ) (w : Acc ◌<◌ n) (w' : Acc ◌<◌ (n / 10))
    → decimal_acc n w
      ≡ ite (dec_lt 9 n) (decimal_acc (n / 10) w' ++ ((48 + n % 10) ∷ [])) ((48 + n) ∷ [])
unfolding decimal_acc
decimal_acc_step n (Acc.intro _ smaller) w' = λ i.
    dite (dec_lt 9 n)
      (λ h.
        decimal_acc (n / 10) (Acc-prop (smaller (n / 10) (omega arith)) w' i)
        ++ ((48 + n % 10) ∷ []))
      (λ _. (48 + n) ∷ [])

decimal_step :
    (n : ℕ)
    → decimal n ≡ ite (dec_lt 9 n) (decimal (n / 10) ++ ((48 + n % 10) ∷ [])) ((48 + n) ∷ [])
unfolding decimal
decimal_step n = decimal_acc_step n (lt_wf.apply n) (lt_wf.apply (n / 10))

decimal_small : (n : ℕ) → n ≤ 9 → decimal n ≡ (48 + n) ∷ []
decimal_small n h = ground (arith, decimal_step n)

decimal_large : (n : ℕ) → 9 < n → decimal n ≡ decimal (n / 10) ++ ((48 + n % 10) ∷ [])
decimal_large n h = ground (arith, decimal_step n)

-- The number that digits spell behind `acc`.
unfoldable pub value : ℕ → List ℕ → ℕ
value acc [] = acc
value acc (c ∷ cs) = value (acc * 10 + (c - 48)) cs

value-append : (acc : ℕ) (xs ys : List ℕ) → value acc (xs ++ ys) ≡ value (value acc xs) ys
unfolding value
value-append acc [] ys = refl
value-append acc (x ∷ xs) ys = value-append (acc * 10 + (x - 48)) xs ys

value_last : (acc d : ℕ) → value acc ((48 + d) ∷ []) ≡ acc * 10 + d
unfolding value
value_last acc d = omega arith

pub le-value : (cs : List ℕ) (acc : ℕ) → acc ≤ value acc cs
unfolding value
le-value [] acc = omega arith
le-value (c ∷ cs) acc = omega (arith, le-value cs (acc * 10 + (c - 48)))

pub value-decimal : (n : ℕ) → value 0 (decimal n) ≡ n
value-decimal n = WellFounded.induction lt_wf {C = λ m. value 0 (decimal m) ≡ m} n λ m ih.
    elim (dec_lt 9 m) [
      | yes p ↦
          rw (decimal_large m p, value-append, ih (m / 10) (omega arith), value_last) (omega arith)
      | no p ↦ rw (decimal_small m (omega arith), value_last) (omega arith)
    ]

pub decimal-append_digit :
    (n d : ℕ) → 0 < n → d ≤ 9 → decimal (n * 10 + d) ≡ decimal n ++ ((48 + d) ∷ [])
decimal-append_digit n d h k =
    let q : (n * 10 + d) / 10 ≡ n = omega arith in
    let r : (n * 10 + d) % 10 ≡ d = omega arith in
    decimal_large (n * 10 + d) (omega arith) ∙ rw (q, r)

abbrev pub IsDigit : ℕ → Type 0
IsDigit c = (48 ≤ c) × (c ≤ 57)

-- Digits behind a positive number are read without loss.
pub decimal-value :
    (n : ℕ) (ds : List ℕ) → 0 < n → All IsDigit ds → decimal (value n ds) ≡ decimal n ++ ds
unfolding value
decimal-value n [] h k = rw append-nil
decimal-value n (c ∷ cs) h k =
    let e : 48 + (c - 48) ≡ c = omega arith in
    rw (
      decimal-value (n * 10 + (c - 48)) cs (omega arith) k.1,
      decimal-append_digit n (c - 48) h (omega arith),
      e,
      append_assoc,
    )

pub decimal-IsDigit : (n : ℕ) → All IsDigit (decimal n)
decimal-IsDigit n = WellFounded.induction lt_wf {C = λ m. All IsDigit (decimal m)} n λ m ih.
    elim (dec_lt 9 m) [
      | yes p ↦
          rw (decimal_large m p)
            (All-append IsDigit (decimal (m / 10)) _ (ih (m / 10) (omega arith)) (omega arith))
      | no p ↦ rw (decimal_small m (omega arith)) (omega arith)
    ]

-- A positive number has no leading zero.
abbrev pub IsCanonical : List ℕ → Type 0
IsCanonical [] = ⊥
IsCanonical (c ∷ cs) = (49 ≤ c) × (c ≤ 57) × All IsDigit cs

IsCanonical-append : (xs ys : List ℕ) → IsCanonical xs → All IsDigit ys → IsCanonical (xs ++ ys)
IsCanonical-append [] ys h k = absurd h
IsCanonical-append (x ∷ xs) ys h k = (h.0, h.1, All-append IsDigit xs ys h.2 k)

pub decimal-IsCanonical : (n : ℕ) → 0 < n → IsCanonical (decimal n)
decimal-IsCanonical n =
    WellFounded.induction lt_wf {C = λ m. 0 < m → IsCanonical (decimal m)} n λ m ih pos.
      elim (dec_lt 9 m) [
        | yes p ↦ rw (decimal_large m p) (
            IsCanonical-append (decimal (m / 10)) _ (ih (m / 10) (omega arith) (omega arith))
              (omega arith))
        | no p ↦ rw (decimal_small m (omega arith)) (omega arith)
      ]

value_head : (c : ℕ) (cs : List ℕ) → value 0 (c ∷ cs) ≡ value (c - 48) cs
unfolding value
value_head c cs = ap (λ (t : ℕ). value t cs) (omega arith)

-- A numeral with no leading zero is the print of its value, which is positive.
pub decimal-value_canonical :
    (cs : List ℕ) → IsCanonical cs → (decimal (value 0 cs) ≡ cs) × (0 < value 0 cs)
decimal-value_canonical [] h = absurd h
decimal-value_canonical (c ∷ cs) h =
    let e : 48 + (c - 48) ≡ c = omega arith in
    (
      rw (
        value_head c cs,
        decimal-value (c - 48) cs (omega arith) h.2,
        decimal_small (c - 48) (omega arith),
        e,
      ),
      omega (arith, value_head c cs, le-value cs (c - 48)),
    )

below_tenth : (k n : ℕ) → n < 10 ^ suc (suc k) → n / 10 < 10 ^ suc k
below_tenth k n h = let h' = rw pow-suc at h in omega arith

-- A number below 10 ^ k has at most `k` digits.
pub length-decimal : (k n : ℕ) → n < 10 ^ suc k → length (decimal n) ≤ suc k
length-decimal zero n h = rw (decimal_small n (omega arith)) (omega arith)
length-decimal (suc k) n h = elim (dec_lt 9 n) [
  | yes p ↦ rw (decimal_large n p) (
      omega (
        arith,
        length-append {0} (decimal (n / 10)) ((48 + n % 10) ∷ []),
        length-decimal k (n / 10) (below_tenth k n h),
      ))
  | no p ↦ rw (decimal_small n (omega arith)) (omega arith)
]

-- What follows a numeral in a text does not begin with a digit.
abbrev pub Stops : List ℕ → Type 0
Stops [] = Unit
Stops (c ∷ cs) = is_digit c ≡ false

digits_cancel :
    (xs ys r s : List ℕ)
    → All IsDigit xs
    → All IsDigit ys
    → Stops r
    → Stops s
    → xs ++ r ≡ ys ++ s
    → (xs ≡ ys) × (r ≡ s)
digits_cancel [] [] r s hx hy hr hs e = (refl, e)
digits_cancel [] (y ∷ ys) [] s hx hy hr hs e = cc
digits_cancel [] (y ∷ ys) (c ∷ r) s hx hy hr hs e = ground arith
digits_cancel (x ∷ xs) [] r [] hx hy hr hs e = cc
digits_cancel (x ∷ xs) [] r (c ∷ s) hx hy hr hs e = ground arith
digits_cancel (x ∷ xs) (y ∷ ys) r s hx hy hr hs e =
    ground (arith, digits_cancel xs ys r s hx.1 hy.1 hr hs)

-- A numeral can be read off the front of a text.
pub decimal_cancel :
    (n m : ℕ) (r s : List ℕ)
    → Stops r
    → Stops s
    → decimal n ++ r ≡ decimal m ++ s
    → (n ≡ m) × (r ≡ s)
decimal_cancel n m r s hr hs e =
    let (d, t) =
      digits_cancel (decimal n) (decimal m) r s (decimal-IsDigit n) (decimal-IsDigit m) hr hs e in
    (sym (value-decimal n) ∙ ap (value 0) d ∙ value-decimal m, t)
