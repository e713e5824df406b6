-- ===== src/Tests/Scoring.antt =====
-- scripts/oracle_meter.py and scripts/scoring_policy.py on small inputs.
use leansphincs.Base.{
  ℕ, ◌+◌, ◌*◌, ◌≤◌, ◌<◌, ◌≡◌, ◌≢◌, some, refl, ◌↔◌, true, false, String, List, [], ◌∷◌, Result, ok,
  codes, if◌then◌else◌,
}
use text.Mathlib.Text.{◌==◌ as str_eq}
use leansphincs.Base.Int.{pos}
use leansphincs.Base.Gcd.{gcd}
use leansphincs.Base.Decimal.{value}
use leansphincs.Base.Value.{Value, bool, int, str, obj, arr, Fields, end, field, field?}
use leansphincs.Contract.Terms.Data.{Term}
use leansphincs.Contract.Terms.{parse_bound}
use leansphincs.Contract.Terms.Spec.{encode_terms}
use leansphincs.Contract.Scalar.{scalar}
use leansphincs.Contract.Metrics.{metrics}
use leansphincs.Meter.{hash_weight, meter_metadata}
use leansphincs.Meter.Weight.{hash_weight_iff}
use leansphincs.Scoring.{product_score, load_scoring_profile, Score, score_entry}
use leansphincs.Scoring.Product.{IsProduct, product_score_iff, score_entry-metrics}
use leansphincs.Scoring.Profile.{IsScoringProfile, load_scoring_profile_iff}

hash_weight_iff_example : (hash_weight (int (pos 80)) ≡ ok 2) ↔ (
    (n : ℕ) × (int (pos 80) ≡ int (pos n))
    × (n ≤ meter_metadata.input_unit * 2)
    × (meter_metadata.input_unit * 2 < n + meter_metadata.input_unit))
hash_weight_iff_example = hash_weight_iff (int (pos 80)) 2

product_score_iff_example :
    (product_score (int (pos 6)) (bool true) ≡ ok 6) ↔ IsProduct (int (pos 6)) (bool true) 6
product_score_iff_example = product_score_iff (int (pos 6)) (bool true) 6

-- benchmark/scoring.json
abbrev profile : Fields
profile = field "schema" (str "leansphincs-product-profile-v1") (
    field "id" (str "signature-bytes-times-hash-work-v1")
      (field "verification_meter" (str "rom256-input64-ceil-v1") end))

load_scoring_profile_run : load_scoring_profile (obj profile) ≡ ok profile
unfolding load_scoring_profile
load_scoring_profile_run = refl

load_scoring_profile_iff_example :
    (load_scoring_profile (obj profile) ≡ ok profile)
    ↔ ((obj profile ≡ obj profile) × IsScoringProfile profile)
load_scoring_profile_iff_example = load_scoring_profile_iff (obj profile) profile

abbrev terms : List Term
terms = record { num = 4; den = 1; work = 1; sign = 0; shift = 128 } ∷ []

loads : List ℕ → Result Value
loads bytes = ok (arr (encode_terms terms))

abbrev files : String → Result (List ℕ)
files name = if str_eq name "bound.txt" then ok (codes "[[4,1,1,0,128]]") else ok (codes "12")

metrics_run : metrics loads files ≡ ok (12, 12, terms)
unfolding metrics scalar parse_bound loads gcd
metrics_run = refl

score_entry-metrics_example :
    (e : Score) × (score_entry profile 12 12 ≡ ok e)
    × (value 0 e.value ≡ 144)
    × (e.tie_break ≡ 12)
    × (e.eligible ≡ false)
    × ((name : String) × (field? "id" profile ≡ some (str name))
        × (name ≢ "")
        × (e.profile_id ≡ str name))
score_entry-metrics_example =
    score_entry-metrics loads files (obj profile) profile metrics_run load_scoring_profile_run
