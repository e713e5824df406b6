-- ===== src/Base/Names.antt =====
-- Python's order on `str`: by code points, a prefix first.
use Prim.Native.Nat.{ℕ}
use Prim.Native.String.{String}
use mathlib.Core.Path.{◌≡◌, refl, ap₂}
use mathlib.Core.HLevel.{Discrete, hedberg}
use mathlib.Core.Logic.{inl, inr}
use mathlib.Core.Bool.{Bool, true, false, ◌&&◌, ◌||◌}
use mathlib.Core.List.{List, [], ◌∷◌}
use native.Mathlib.Omega.{arith}
use text.Mathlib.Text.{◌==◌ as str_eq}
use text.Mathlib.TextEquality.{eq_iff, Char-path}
use leansphincs.Base.Tests.{ltb, ◌==◌, Bool-cases}
use leansphincs.Base.Text.{codes}

unfoldable pub codes_le : List ℕ → List ℕ → Bool
codes_le [] s = true
codes_le (c ∷ r) [] = false
codes_le (c ∷ r) (d ∷ s) = ltb c d || (c == d && codes_le r s)

unfoldable pub name_le : String → String → Bool
unfolding codes_le
name_le a b = codes_le (codes a) (codes b)

codes_le_total : (r s : List ℕ) → codes_le r s ≡ false → codes_le s r ≡ true
unfolding codes_le
codes_le_total [] s h = cc
codes_le_total (c ∷ r) [] h = refl
codes_le_total (c ∷ r) (d ∷ s) h = ground (arith, codes_le_total r s)

codes_le_trans : (r s t : List ℕ) → codes_le r s ≡ true → codes_le s t ≡ true → codes_le r t ≡ true
unfolding codes_le
codes_le_trans [] s t h k = refl
codes_le_trans (c ∷ r) [] t h k = cc
codes_le_trans (c ∷ r) (d ∷ s) [] h k = cc
codes_le_trans (c ∷ r) (d ∷ s) (e ∷ t) h k = ground (arith, codes_le_trans r s t)

pub name_le_total : (a b : String) → name_le a b ≡ false → name_le b a ≡ true
unfolding name_le
name_le_total a b h = codes_le_total (codes a) (codes b) h

pub name_le_trans : (a b c : String) → name_le a b ≡ true → name_le b c ≡ true → name_le a c ≡ true
unfolding name_le
name_le_trans a b c h k = codes_le_trans (codes a) (codes b) (codes c) h k

codes_le_antisym : (r s : List ℕ) → codes_le r s ≡ true → codes_le s r ≡ true → r ≡ s
unfolding codes_le
codes_le_antisym [] [] h k = refl
codes_le_antisym [] (d ∷ s) h k = cc
codes_le_antisym (c ∷ r) [] h k = cc
codes_le_antisym (c ∷ r) (d ∷ s) h k =
    ap₂ ◌∷◌ (ground arith) (codes_le_antisym r s (ground arith) (ground arith))

-- A text is its code points.
codes-injective : (a b : String) → codes a ≡ codes b → a ≡ b
codes-injective String.[] String.[] h = refl
codes-injective String.[] (String.◌∷◌ d b) h = cc
codes-injective (String.◌∷◌ c a) String.[] h = cc
codes-injective (String.◌∷◌ c a) (String.◌∷◌ d b) h =
    ap₂ String.◌∷◌ (Char-path c d (cc)) (codes-injective a b (cc))

pub name_le_antisym : (a b : String) → name_le a b ≡ true → name_le b a ≡ true → a ≡ b
unfolding name_le
name_le_antisym a b h k = codes-injective a b (codes_le_antisym (codes a) (codes b) h k)

String-Discrete : Discrete String
String-Discrete a b = elim (Bool-cases (str_eq a b)) [
  | inl e ↦ yes ((eq_iff a b).0 e)
  | inr e ↦ no (λ h. cc ((eq_iff a b).1 h))
]

pub String-IsSet : IsSet String
String-IsSet = hedberg String-Discrete
