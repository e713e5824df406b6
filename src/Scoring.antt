-- ===== src/Scoring.antt =====
-- scripts/scoring_policy.py: the organizer's product score and its profile.
pub mod Product
pub mod Profile
use text.Mathlib.Text.{◌==◌ as str_eq}
use leansphincs.Base.{
  ℕ, zero, suc, ◌+◌, ◌*◌, String, Bool, true, false, not, ◌&&◌, ◌||◌, List, [], ◌∷◌, Option, none,
  some, ◌==◌, if◌then◌else◌, Result, ok, err, value_error, key_error, ◌>>=◌, ◌>>◌, raise_if,
}
use leansphincs.Base.Int.{pos}
use leansphincs.Base.Decimal.{decimal}
use leansphincs.Base.Fraction.{Fraction, times, plus}
use leansphincs.Base.Value.{Value, int, str, obj, Fields, field?, keys_eq, is_text}
use leansphincs.Meter.{meter_id}

-- `CLAIM_ID`
abbrev pub claim_id : String
claim_id = "suf-cma-total-work-pk32-adaptive-availability-v2"

-- The three arguments after `map(Fraction, …)`.
unfoldable pub additive_score : Fraction → Fraction → Fraction → Result Fraction
additive_score size verification price = do
  raise_if (size.num == 0 || verification.num == 0 || price.num == 0)
      (value_error "positive size, verification work and bandwidth price required")
  ok (plus (times price size) verification)

-- `type(value) is int and value > 0`
abbrev pub positive_int : Value → Option ℕ
positive_int (int (pos (suc n))) = some (suc n)
positive_int _ = none

unfoldable pub product_score : Value → Value → Result ℕ
product_score size verification = elim (positive_int size) [
  | none ↦ err (value_error "positive integer size and verification work required")
  | some s ↦ elim (positive_int verification) [
    | none ↦ err (value_error "positive integer size and verification work required")
    | some v ↦ ok (s * v)
  ]
]

abbrev pub scoring_fields : List String
scoring_fields = "schema" ∷ "id" ∷ "verification_meter" ∷ []

-- `profile[key] == text`
abbrev pub field_is : String → String → Fields → Bool
field_is key text fs = elim (field? key fs) [ none ↦ false | some v ↦ is_text v text ]

-- `isinstance(v, str) and v`
abbrev pub is_named : Option Value → Bool
is_named (some (str s)) = not (str_eq s "")
is_named _ = false

-- The checks on what `json.loads(path.read_text(…))` returned.
unfoldable pub load_scoring_profile : Value → Result Fields
load_scoring_profile (obj fs) = do
  raise_if (not (keys_eq fs scoring_fields))
      (value_error "invalid organizer scoring profile fields")
  raise_if
      (not (field_is "schema" "leansphincs-product-profile-v1" fs)
        || not (field_is "verification_meter" meter_id fs))
      (value_error "unsupported scoring schema or verification meter")
  raise_if (not (is_named (field? "id" fs))) (value_error "scoring profile requires an identifier")
  ok fs
load_scoring_profile _ = err (value_error "invalid organizer scoring profile fields")

pub record Score : Type 0 where
  pub value : List ℕ
  pub eligible : Bool
  pub diagnostic : Bool
  pub objective : String
  pub units : String
  pub profile_id : Value
  pub direction : String
  pub tie_break : ℕ

-- `profile[key]`
abbrev pub item : String → Fields → Result Value
item key fs = elim (field? key fs) [ none ↦ err (key_error key) | some v ↦ ok v ]

-- `value` is `str(value)`. The caller's numbers are those of `metrics`.
unfoldable pub score_entry : Fields → ℕ → ℕ → Result Score
score_entry profile sigma verification = do
  value ← product_score (int (pos sigma)) (int (pos verification))
  id ← item "id" profile
  ok (record {
    value = decimal value;
    eligible = false;
    diagnostic = true;
    objective = "signatureBytes * verification";
    units = "signature bytes * verification work units";
    profile_id = id;
    direction = "minimize";
    tie_break = sigma;
  })
