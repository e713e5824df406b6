-- ===== src/Scoring/Profile.antt =====
-- What `load_scoring_profile` accepts.
use text.Mathlib.TextEquality.{eq_iff}
use leansphincs.Base.{
  ◌≡◌, ◌≢◌, refl, ap, ◌↔◌, String, true, false, not, ◌||◌, Option, none, some, arith, ok,
  ok-injective, raise_if_then,
}
use leansphincs.Base.Value.{
  Value, str, obj, Fields, end, field, field?, has_field, keys_within, keys_eq, is_text,
}
use leansphincs.Meter.{meter_id}
use leansphincs.Scoring.{scoring_fields, field_is, is_named, load_scoring_profile}

is_text_iff : (v : Value) (t : String) → (is_text v t ≡ true) ↔ (v ≡ str t)
is_text_iff v t = (forth v t, λ e. rw e ((eq_iff t t).1 refl))
  where
    forth : (v : Value) (t : String) → is_text v t ≡ true → v ≡ str t
    forth (str s) t h = ap str ((eq_iff s t).0 h)
    forth _ t h = cc

pub field_is_iff :
    (key text : String) (fs : Fields)
    → (field_is key text fs ≡ true) ↔ (field? key fs ≡ some (str text))
field_is_iff key text fs =
    (forth (field? key fs), λ e. rw (e, field_is) ((eq_iff text text).1 refl))
  where
    forth :
        (o : Option Value)
        → (elim o [ none ↦ false | some v ↦ is_text v text ]) ≡ true
        → o ≡ some (str text)
    forth none h = cc
    forth (some v) h = ap some ((is_text_iff v text).0 h)

pub is_named_inv :
    (o : Option Value) → is_named o ≡ true → (s : String) × (o ≡ some (str s)) × (s ≢ "")
is_named_inv none h = cc
is_named_inv (some (str s)) h = (s, refl, λ e. ground (arith, eq_iff s ""))
is_named_inv (some _) h = cc

pub is_named_of : (o : Option Value) (s : String) → o ≡ some (str s) → s ≢ "" → is_named o ≡ true
is_named_of o s e h = rw e (ground (arith, eq_iff s ""))

has_field-field? :
    (key : String) (fs : Fields) (v : Value) → field? key fs ≡ some v → has_field key fs ≡ true
has_field-field? key end v h = cc
has_field-field? key (field k w fs) v h = ground (arith, has_field-field? key fs v)

abbrev pub schema : String
schema = "leansphincs-product-profile-v1"

-- A profile names the schema, the meter of the host and itself, and has no other field.
pub record IsScoringProfile (fs : Fields) : Type 0 where
  pub schema_known : field? "schema" fs ≡ some (str schema)
  pub meter : field? "verification_meter" fs ≡ some (str meter_id)
  pub id : (s : String) × (field? "id" fs ≡ some (str s)) × (s ≢ "")
  pub no_more : keys_within fs scoring_fields ≡ true

load_scoring_profile_inv :
    (v : Value) (fs : Fields) → load_scoring_profile v ≡ ok fs → (v ≡ obj fs) × IsScoringProfile fs
unfolding load_scoring_profile
load_scoring_profile_inv (obj gs) fs h =
    let (keys, h₁) = raise_if_then (not (keys_eq gs scoring_fields)) _ _ h in
    let (known, h₂) =
      raise_if_then
        (not (field_is "schema" schema gs) || not (field_is "verification_meter" meter_id gs)) _ _
        h₁ in
    let (named, h₃) = raise_if_then (not (is_named (field? "id" gs))) _ _ h₂ in
    let same = ok-injective gs fs h₃ in
    rw (← same) (
      refl,
      record {
        schema_known = (field_is_iff "schema" schema gs).0 (ground arith);
        meter = (field_is_iff "verification_meter" meter_id gs).0 (ground arith);
        id = is_named_inv (field? "id" gs) (ground arith);
        no_more = ground arith;
      },
    )
load_scoring_profile_inv _ fs h = cc

has_scoring_fields : (fs : Fields) → IsScoringProfile fs → keys_eq fs scoring_fields ≡ true
has_scoring_fields fs p =
    let (s, e, _) = p.id in
    rw (
      p.no_more,
      has_field-field? "schema" fs _ p.schema_known,
      has_field-field? "id" fs _ e,
      has_field-field? "verification_meter" fs _ p.meter,
    )

load_scoring_profile_of :
    (fs : Fields) → IsScoringProfile fs → load_scoring_profile (obj fs) ≡ ok fs
unfolding load_scoring_profile
load_scoring_profile_of fs p =
    let (s, e, ne) = p.id in
    rw (
      has_scoring_fields fs p,
      (field_is_iff "schema" schema fs).1 p.schema_known,
      (field_is_iff "verification_meter" meter_id fs).1 p.meter,
      is_named_of (field? "id" fs) s e ne,
    )

-- `load_scoring_profile` accepts exactly the objects with the three fields and no other that name
-- the schema, the meter of `oracle_meter` and a non-empty identifier, and returns them unchanged.
pub load_scoring_profile_iff :
    (v : Value) (fs : Fields)
    → (load_scoring_profile v ≡ ok fs) ↔ ((v ≡ obj fs) × IsScoringProfile fs)
load_scoring_profile_iff v fs =
    (load_scoring_profile_inv v fs, λ (e, p). rw e (load_scoring_profile_of fs p))
