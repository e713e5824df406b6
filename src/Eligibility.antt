-- ===== src/Eligibility.antt =====
-- scripts/eligibility.py: the organizer's resource profile and the fail-closed deployment gates.
pub mod Deployment
pub mod Profile
use text.Mathlib.Text.{◌==◌ as str_eq}
use leansphincs.Base.{
  ℕ, zero, suc, String, ◌<>◌, Bool, true, false, not, ◌&&◌, ◌||◌, List, [], ◌∷◌, ◌++◌, Option, none,
  some, codes, leb, ◌==◌, if◌then◌else◌, Result, ok, err, value_error, type_error, ◌>>=◌, ◌>>◌,
  raise_if,
}
use leansphincs.Base.Int.{pos}
use leansphincs.Base.Value.{
  Value, null, int, str, arr, obj, Items, nil, cons, Fields, field?, str_mem, keys_eq, is_text,
}
use leansphincs.Scoring.{claim_id, field_is, is_named}

-- `CAPS`
abbrev pub caps : List String
caps =
    "reference_execution" ∷ "verification_limit" ∷ "raw_keygen_queries" ∷ "raw_sign_queries"
    ∷ "raw_verify_queries" ∷ "persistent_secret_bytes" ∷ "precomputation_bytes" ∷ "executable_bytes"
    ∷ "leakage_model" ∷ "executable_validator" ∷ "side_channel_validator" ∷ []

-- `FIXED`
abbrev pub fixed : List (String × ℕ)
fixed =
    ("ram_bytes", 65536)
    ∷ ("keygen_target_ms", 60000)
    ∷ ("sign_target_ms", 1500)
    ∷ ("overrun_bits", 40)
    ∷ ("keygen_deadline_ms", 360000)
    ∷ ("sign_deadline_ms", 120000)
    ∷ []

abbrev pub fixed_keys : List (String × ℕ) → List String
fixed_keys [] = []
fixed_keys ((k, _) ∷ fs) = k ∷ fixed_keys fs

-- The caps that are texts.
abbrev pub text_caps : List String
text_caps =
    "reference_execution" ∷ "leakage_model" ∷ "executable_validator" ∷ "side_channel_validator" ∷ []

-- White space, as `str.strip` knows it.
unfoldable pub is_space : ℕ → Bool
is_space c =
    (leb 9 c && leb c 13)
    || (leb 28 c && leb c 32)
    || (c == 0x85)
    || (c == 0xa0)
    || (c == 0x1680)
    || (leb 0x2000 c && leb c 0x200a)
    || (c == 0x2028)
    || (c == 0x2029)
    || (c == 0x202f)
    || (c == 0x205f)
    || (c == 0x3000)

-- `not value.strip()`
unfoldable pub is_blank : List ℕ → Bool
unfolding is_space
is_blank [] = true
is_blank (c ∷ cs) = is_space c && is_blank cs

-- `type(profile[k]) is int and profile[k] == v`, for every pair of `FIXED`
abbrev pub is_number : Option Value → ℕ → Bool
is_number (some (int (pos n))) m = n == m
is_number _ m = false

abbrev pub fixed_hold : List (String × ℕ) → Fields → Bool
fixed_hold [] profile = true
fixed_hold ((k, n) ∷ fs) profile = is_number (field? k profile) n && fixed_hold fs profile

-- `value is not None`, and then its type and range.
abbrev pub text_cap_ok : Option Value → Bool
text_cap_ok (some null) = true
text_cap_ok (some (str s)) = not (is_blank (codes s))
text_cap_ok _ = false

abbrev pub number_cap_ok : Option Value → Bool
number_cap_ok (some null) = true
number_cap_ok (some (int (pos (suc n)))) = true
number_cap_ok _ = false

unfoldable pub check_cap : Fields → String → Result (Unit {0})
check_cap profile key =
    if str_mem key text_caps
    then raise_if (not (text_cap_ok (field? key profile)))
        (value_error ("invalid resource profile field: " <> key))
    else raise_if (not (number_cap_ok (field? key profile)))
        (value_error ("invalid resource cap: " <> key))

unfoldable pub check_caps : List String → Fields → Result (Unit {0})
check_caps [] profile = ok tt
check_caps (key ∷ keys) profile = do check_cap profile key; check_caps keys profile

abbrev pub profile_keys : List String
profile_keys = "schema" ∷ "id" ∷ (caps ++ fixed_keys fixed)

-- `set(profile)` of a list raises a `TypeError` if an element cannot be hashed.
abbrev pub is_unhashable : Value → Bool
is_unhashable (arr vs) = true
is_unhashable (obj fs) = true
is_unhashable _ = false

abbrev pub has_unhashable : Items → Bool
has_unhashable nil = false
has_unhashable (cons v vs) = is_unhashable v || has_unhashable vs

-- The set of a list's elements is the set of the keys.
abbrev pub is_key : Value → Bool
is_key (str s) = str_mem s profile_keys
is_key _ = false

abbrev pub all_keys : Items → Bool
all_keys nil = true
all_keys (cons v vs) = is_key v && all_keys vs

abbrev pub has_item : String → Items → Bool
has_item key nil = false
has_item key (cons v vs) = is_text v key || has_item key vs

abbrev pub has_items : List String → Items → Bool
has_items [] vs = true
has_items (k ∷ ks) vs = has_item k vs && has_items ks vs

-- A list that holds just the keys passes the first test, and raises when it is indexed by one.
unfoldable pub list_error : Items → Result Fields
list_error vs =
    if has_unhashable vs || (all_keys vs && has_items profile_keys vs)
    then err (type_error "a list is no profile")
    else err (value_error "invalid organizer resource profile")

-- The first test of a dict.
unfoldable pub shape_ok : Fields → Bool
shape_ok p =
    keys_eq p profile_keys
    && field_is "schema" "leansphincs-resources-v1" p
    && is_named (field? "id" p)
    && fixed_hold fixed p

-- The checks on what `json.loads(path.read_text())` returned. `set(…)` of what is no container
-- raises a `TypeError`.
unfoldable pub load_resource_profile : Value → Result Fields
load_resource_profile (obj profile) = do
  raise_if (not (shape_ok profile)) (value_error "invalid organizer resource profile")
  check_caps caps profile
  ok profile
load_resource_profile (str s) = err (value_error "invalid organizer resource profile")
load_resource_profile (arr vs) = list_error vs
load_resource_profile _ = err (type_error "object is not iterable")

pub data Kind : Type 0 where
  execution storage side_channel : Kind

-- A reason for refusal, each with the text that the receipt carries.
pub data Reason : Type 0 where
  unset : String → Reason
  no_certificate : Reason
  evidence_missing : Kind → Reason
  binding_mismatch : Kind → Reason
  no_execution_validator : Reason
  no_side_channel_validator : Reason

kind_text : Kind → String
kind_text execution = "execution"
kind_text storage = "storage"
kind_text side_channel = "side_channel"

unfoldable pub reason_text : Reason → String
unfolding kind_text
reason_text (unset key) = "unset " <> key
reason_text no_certificate = "current mathematical certificate missing"
reason_text (evidence_missing kind) = kind_text kind <> " evidence missing"
reason_text (binding_mismatch kind) = kind_text kind <> " evidence binding mismatch"
reason_text no_execution_validator = "executable resource validation unimplemented"
reason_text no_side_channel_validator = "independent side-channel evidence validator unimplemented"

-- What the gates read of a receipt.
pub record Receipt : Type 0 where
  pub claim_version : Option String
  pub mathematical_verification : Bool
  pub submission_sha256 : Option String
  pub executable_sha256 : Option String

-- A binding: the fields that evidence has to repeat.
pub record Binding : Type 0 where
  pub claim_version : Option String
  pub profile_sha256 : Option String
  pub submission_sha256 : Option String
  pub executable_sha256 : Option String

abbrev pub option_eq : Option String → Option String → Bool
option_eq none none = true
option_eq (some s) (some t) = str_eq s t
option_eq _ _ = false

-- `bool(value)`
abbrev pub truthy : Option String → Bool
truthy none = false
truthy (some s) = not (str_eq s "")

abbrev pub all_bound : Binding → Bool
all_bound b =
    truthy b.claim_version
    && truthy b.profile_sha256
    && truthy b.submission_sha256
    && truthy b.executable_sha256

-- `item.get(k) == v` for each pair of the binding
abbrev pub matches : Binding → Binding → Bool
matches item b =
    option_eq item.claim_version b.claim_version
    && option_eq item.profile_sha256 b.profile_sha256
    && option_eq item.submission_sha256 b.submission_sha256
    && option_eq item.executable_sha256 b.executable_sha256

-- `profile.get(key) is None`
abbrev pub is_unset : Option Value → Bool
is_unset none = true
is_unset (some null) = true
is_unset (some _) = false

unfoldable pub unset_reasons : List String → Fields → List Reason
unset_reasons [] profile = []
unset_reasons (key ∷ keys) profile =
    let rest = unset_reasons keys profile in
    if is_unset (field? key profile) then unset key ∷ rest else rest

unfoldable pub certificate_reasons : Receipt → List Reason
certificate_reasons receipt =
    if not (option_eq receipt.claim_version (some claim_id))
      || not receipt.mathematical_verification
    then no_certificate ∷ []
    else []

unfoldable pub evidence_reasons : Binding → (Kind → Option Binding) → Kind → List Reason
evidence_reasons binding evidence kind = elim (evidence kind) [
  | none ↦ evidence_missing kind ∷ []
  | some item ↦
      if not (all_bound binding) || not (matches item binding)
      then binding_mismatch kind ∷ []
      else []
]

abbrev pub binding_of : String → Receipt → Binding
binding_of profile_digest receipt = record {
  claim_version = some claim_id;
  profile_sha256 = some profile_digest;
  submission_sha256 = receipt.submission_sha256;
  executable_sha256 = receipt.executable_sha256;
}

pub record Gates : Type 0 where
  pub resource_certification : Bool
  pub side_channel_review : Bool
  pub deployment_eligible : Bool
  pub reasons : List Reason
  pub profile_sha256 : String

-- The digest of the profile is `profile_digest(profile)`.
unfoldable pub deployment_gates :
    (Fields → String) → Fields → Receipt → (Kind → Option Binding) → Gates
deployment_gates profile_digest profile receipt evidence =
    let binding = binding_of (profile_digest profile) receipt in
    record {
      resource_certification = false;
      side_channel_review = false;
      deployment_eligible = false;
      reasons =
          unset_reasons caps profile
          ++ (certificate_reasons receipt
              ++ (evidence_reasons binding evidence execution
                  ++ (evidence_reasons binding evidence storage
                      ++ (evidence_reasons binding evidence side_channel
                          ++ (no_execution_validator ∷ no_side_channel_validator ∷ [])))));
      profile_sha256 = profile_digest profile;
    }
