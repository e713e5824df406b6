-- ===== src/Tests/Bundle.antt =====
-- scripts/source_bundle.py and scripts/eligibility.py on a small submission and on the resource
-- profile of benchmark/resources.json.
use mathlib.Core.List.{Permᴰ}
use leansphincs.Base.{
  ◌≡◌, ◌⊎◌, ℕ, List, length, refl, ◌↔◌, true, false, String, [], ◌∷◌, Option, none, some, ok, codes,
}
use leansphincs.Base.Int.{pos}
use leansphincs.Base.Value.{null, int, str, obj, Fields, end, field}
use leansphincs.Base.Sort.{insert, sort}
use leansphincs.Base.Names.{name_le}
use leansphincs.Base.Utf8.{utf8_from}
use leansphincs.Bundle.{
  Folder, FileEntry, Bundle, capture, capture_file, capture_files, read_checked, read, check_text,
  has_nul, find, materialize, manifest,
}
use leansphincs.Bundle.Names.{
  is_module_name, is_module_tail, is_word, is_word_start, ends_with_lean,
}
use leansphincs.Bundle.Acceptance.{IsSubmission, capture_iff}
use leansphincs.Bundle.Listing.{capture-Perm}
use leansphincs.Bundle.Binding.{Collision, manifest-binds}
use leansphincs.Bundle.Copy.{folder_of, capture-materialize}
use leansphincs.Eligibility.{
  load_resource_profile, shape_ok, check_caps, check_cap, Kind, Receipt, Binding, deployment_gates,
  no_execution_validator, no_side_channel_validator,
}
use leansphincs.Eligibility.Deployment.{IsComplete, deployment_gates-reasons}
use leansphincs.Eligibility.Profile.{IsResourceProfile, load_resource_profile_iff}

abbrev pub bundle : Bundle
bundle =
    ("Scheme.lean", codes "import A")
    ∷ ("Solution.lean", 45 ∷ 45 ∷ 0xc3 ∷ 0xa9 ∷ [])
    ∷ ("bound.txt", codes "[[4,1,1,0,128]]")
    ∷ ("hverify.txt", codes "12")
    ∷ ("sigma.txt", codes "12")
    ∷ []

abbrev pub folder : Folder
folder = record {
  names = "sigma.txt" ∷ "Scheme.lean" ∷ "bound.txt" ∷ "Solution.lean" ∷ "hverify.txt" ∷ [];
  open_at = (folder_of bundle).open_at;
}

capture_run : capture (ok folder) ≡ ok bundle
unfolding capture capture_files capture_file read_checked read check_text has_nul sort insert
    name_le utf8_from is_module_name is_module_tail is_word is_word_start ends_with_lean find
    folder_of
capture_run = refl

capture-materialize_example :
    (materialize false bundle ≡ ok bundle) × (capture (ok (folder_of bundle)) ≡ ok bundle)
capture-materialize_example = capture-materialize (ok folder) bundle capture_run (
  (refl, (refl, (refl, (refl, tt)))),
  ((refl, (refl, (refl, tt))), ((refl, (refl, tt)), ((refl, tt), (tt, tt)))),
)

capture_iff_example :
    (capture (ok folder) ≡ ok bundle) ↔ ((f : Folder) × (ok folder ≡ ok f) × IsSubmission f bundle)
capture_iff_example = capture_iff (ok folder) bundle

-- The first two names of the listing in the other order.
abbrev swapped : List String
swapped = "Scheme.lean" ∷ "sigma.txt" ∷ "bound.txt" ∷ "Solution.lean" ∷ "hverify.txt" ∷ []

capture-Perm_example :
    capture (ok (record { names = swapped; open_at = folder.open_at })) ≡ capture (ok folder)
capture-Perm_example = capture-Perm folder.open_at swapped folder.names ∣ Permᴰ.swap refl refl ∣₁

abbrev digest : List ℕ → String
digest [] = "e3"
digest (b ∷ bytes) = "ab"

abbrev table_text : List (String × FileEntry) → List ℕ
table_text files = length files ∷ []

abbrev rest_of : Bundle → Bundle
rest_of [] = []
rest_of (file ∷ files) = files

-- One file with another content of one length, under a digest that does not tell the two apart.
abbrev forged : Bundle
forged = ("Scheme.lean", codes "import B") ∷ rest_of bundle

forged_run : capture (ok (folder_of forged)) ≡ ok forged
unfolding capture capture_files capture_file read_checked read check_text has_nul sort insert
    name_le utf8_from is_module_name is_module_tail is_word is_word_start ends_with_lean find
    folder_of
forged_run = refl

manifest-binds_example : (bundle ≡ forged) ⊎ Collision digest bundle forged
unfolding manifest sort insert name_le
manifest-binds_example =
    manifest-binds digest table_text (ok folder) (ok (folder_of forged)) bundle forged capture_run
      forged_run refl

abbrev pub resources : Fields
resources = field "schema" (str "leansphincs-resources-v1") (
    field "id" (str "leansphincs-reference-v1") (
      field "reference_execution" null (
        field "verification_limit" (int (pos 7)) (
          field "raw_keygen_queries" null (
            field "raw_sign_queries" null (
              field "raw_verify_queries" null (
                field "persistent_secret_bytes" null (
                  field "precomputation_bytes" null (
                    field "executable_bytes" null (
                      field "leakage_model" null (
                        field "executable_validator" null (
                          field "side_channel_validator" null (
                            field "ram_bytes" (int (pos 65536)) (
                              field "keygen_target_ms" (int (pos 60000)) (
                                field "sign_target_ms" (int (pos 1500)) (
                                  field "overrun_bits" (int (pos 40)) (
                                    field "keygen_deadline_ms" (int (pos 360000)) (
                                      field "sign_deadline_ms" (int (pos 120000))
                                        end))))))))))))))))))

load_resource_profile_run : load_resource_profile (obj resources) ≡ ok resources
unfolding load_resource_profile shape_ok check_caps check_cap
load_resource_profile_run = refl

load_resource_profile_iff_example :
    (load_resource_profile (obj resources) ≡ ok resources)
    ↔ ((obj resources ≡ obj resources) × IsResourceProfile resources)
load_resource_profile_iff_example = load_resource_profile_iff (obj resources) resources

abbrev receipt : Receipt
receipt = record {
  claim_version = some "suf-cma-total-work-pk32-adaptive-availability-v2";
  mathematical_verification = true;
  submission_sha256 = some "ab";
  executable_sha256 = none;
}

abbrev profile_text : Fields → String
profile_text p = "cd"

abbrev no_evidence : Kind → Option Binding
no_evidence k = none

deployment_gates-reasons_example :
    let g = deployment_gates profile_text resources receipt no_evidence in
    (g.deployment_eligible ≡ false)
    × (g.resource_certification ≡ false)
    × (g.side_channel_review ≡ false)
    × ((g.reasons ≡ no_execution_validator ∷ no_side_channel_validator ∷ [])
        ↔ IsComplete profile_text resources receipt no_evidence)
deployment_gates-reasons_example =
    deployment_gates-reasons profile_text resources receipt no_evidence
