-- ===== src/Tests/Verify.antt =====
-- scripts/verify_submission.py in surroundings where all goes well, with a refused source, and a unit
-- that stops.
use leansphincs.Base.{
  ◌≡◌, refl, ◌↔◌, false, List, [], ◌∷◌, Exception, Result, ok, err, os_error, codes, some,
}
use leansphincs.Base.Int.{pos}
use leansphincs.Base.Value.{null, str, obj, arr, Fields, end, field}
use leansphincs.Bundle.{
  Bundle, capture, capture_files, capture_file, read_checked, read, check_text, has_nul, find,
  materialize, write_all, write_new, manifest,
}
use leansphincs.Bundle.Names.{
  is_module_name, is_module_tail, is_word, is_word_start, ends_with_lean,
}
use leansphincs.Bundle.Copy.{folder_of}
use leansphincs.Base.Sort.{sort, insert}
use leansphincs.Base.Names.{name_le, codes_le}
use leansphincs.Base.Utf8.{utf8_from}
use leansphincs.Base.Gcd.{gcd}
use leansphincs.Base.Order.{lt_wf}
use leansphincs.Contract.Metrics.{metrics}
use leansphincs.Contract.Scalar.{scalar}
use leansphincs.Contract.Terms.{parse_bound}
use leansphincs.Eligibility.{load_resource_profile, shape_ok, check_caps, check_cap}
use leansphincs.Verify.World.{check_package, check_packages, check_dependencies, digests}
use leansphincs.Scoring.{load_scoring_profile, score_entry, product_score}
use leansphincs.Contract.Terms.Data.{Term}
use leansphincs.Contract.Terms.Spec.{encode_terms}
use leansphincs.Verify.Report.{source_rejected, accepted, Report, new_report}
use leansphincs.Verify.World.{World, Look}
use leansphincs.Verify.Stages.{
  admit_source, compile_and_compare, judge, compare_frozen, build_template, preflight, set_up,
}
use leansphincs.Verify.Checks.{check_integrity, check_artifacts}
use leansphincs.Verify.Outcomes.{
  verify_admitted, attempt, examine, behind_source, conclude, handle, final_gates,
}
use leansphincs.Verify.Verdict.{IsSettled, Evidence, verify_admitted-IsSettled}
use leansphincs.Verify.Snapshot.{IsKept, verify_admitted-same_bundle}
use leansphincs.Verify.Rejection.Fault.{IsSourceFault}
use leansphincs.Verify.Rejection.{is_interrupt, verify_admitted-rejects}
use leansphincs.Verify.Service.{Service, field_of, check_active, stop_service}
use leansphincs.Verify.Service.Cleanup.{IsStopped, stop_service_iff}
use leansphincs.Tests.Bundle.{folder, resources}

abbrev look : Look
look = record {
  harness = ok (("setup.sh", codes "exit") ∷ []);
  packages = ok (record { name = "mathlib"; type = "git"; rev = "ab" } ∷ []);
  git = record { head = λ name. ok "ab"; dirty = λ name. ok "" };
  digest = λ name. ok name;
}

abbrev pub terms : List Term
terms = record { num = 4; den = 1; work = 1; sign = 0; shift = 128 } ∷ []

abbrev pub profile : Fields
profile = field "schema" (str "leansphincs-product-profile-v1") (
    field "id" (str "signature-bytes-times-hash-work-v1")
      (field "verification_meter" (str "rom256-input64-ceil-v1") end))

abbrev pub good : World
good = record {
  submission = ok folder;
  sha256 = λ bytes. "ab";
  encode = λ files. [];
  loads = λ bytes. ok (arr (encode_terms terms));
  write_source = ok tt;
  check_imports = λ files. ok (pos 0, "");
  resource_profile = ok (obj resources);
  scoring_profile = ok (obj profile);
  profile_digest = λ p. "cd";
  before = look;
  lean_prefix = ok "/lean";
  check_sandbox = ok null;
  prepare_project = λ bundle text. ok tt;
  run = λ program. ok (pos 0);
  prepare_frozen = λ bundle text. ok tt;
  freeze_artifacts = λ modules. ok (("Scheme.olean", 1 ∷ []) ∷ []);
  write_sandbox = ok tt;
  snapshot = ok folder;
  capture_artifacts = λ modules. ok (("Scheme.olean", 1 ∷ []) ∷ []);
  after = look;
  at_score = ok tt;
  write_receipt = ok tt;
}

abbrev receipt_or : Result Report → Report
receipt_or (ok r) = r
receipt_or (err e) = new_report

abbrev pub receipt : World → Report
receipt w = receipt_or (verify_admitted w false)

verified_run : verify_admitted good false ≡ ok (receipt good)
unfolding verify_admitted attempt examine behind_source conclude check_integrity check_artifacts
    compile_and_compare judge compare_frozen build_template preflight set_up admit_source handle
    final_gates check_packages check_dependencies digests capture capture_files capture_file
    read_checked read check_text has_nul sort insert name_le codes_le utf8_from is_module_name
    is_module_tail is_word is_word_start ends_with_lean find folder_of materialize write_all
    write_new manifest metrics scalar parse_bound gcd load_resource_profile shape_ok check_caps
    check_cap load_scoring_profile score_entry product_score lt_wf check_package
verified_run = refl

accepted_run : (receipt good).status ≡ accepted
unfolding verify_admitted attempt examine behind_source conclude check_integrity check_artifacts
    compile_and_compare judge compare_frozen build_template preflight set_up admit_source handle
    final_gates check_packages check_dependencies digests capture capture_files capture_file
    read_checked read check_text has_nul sort insert name_le codes_le utf8_from is_module_name
    is_module_tail is_word is_word_start ends_with_lean find folder_of materialize write_all
    write_new manifest metrics scalar parse_bound gcd load_resource_profile shape_ok check_caps
    check_cap load_scoring_profile score_entry product_score lt_wf check_package
accepted_run = refl

verify_admitted-same_bundle_example :
    (bundle : Bundle) × (capture (ok folder) ≡ ok bundle) × IsKept good bundle
verify_admitted-same_bundle_example =
    verify_admitted-same_bundle good false (receipt good) verified_run accepted_run

-- The same with a directory that does not open.
abbrev closed : World
closed = record good { submission = err (os_error "no such directory") }

rejected_run : verify_admitted closed false ≡ ok (receipt closed)
unfolding verify_admitted attempt examine behind_source conclude check_integrity check_artifacts
    compile_and_compare judge compare_frozen build_template preflight set_up admit_source handle
    final_gates check_packages check_dependencies digests capture capture_files capture_file
    read_checked read check_text has_nul sort insert name_le codes_le utf8_from is_module_name
    is_module_tail is_word is_word_start ends_with_lean find folder_of materialize write_all
    write_new manifest metrics scalar parse_bound gcd load_resource_profile shape_ok check_caps
    check_cap load_scoring_profile score_entry product_score lt_wf check_package
rejected_run = refl

verify_admitted-IsSettled_example : IsSettled (Evidence good false) (receipt good)
verify_admitted-IsSettled_example = verify_admitted-IsSettled good false (receipt good) verified_run

verify_admitted-rejects_example :
    ((receipt closed).status ≡ source_rejected)
    ↔ ((e : Exception) × IsSourceFault closed e × (is_interrupt e ≡ false))
verify_admitted-rejects_example = verify_admitted-rejects closed false (receipt closed) rejected_run

-- A unit that stopped and left no process, and one that systemd has collected.
abbrev pub service : Service
service = record {
  stop = ok tt;
  show =
      ok (
        false,
        ("LoadState", "loaded") ∷ ("ActiveState", "inactive") ∷ ("ControlGroup", "/u") ∷ [],
      );
  events = λ group. ok (some ("populated 0" ∷ "frozen 0" ∷ []));
}

stop_service_run : stop_service service "leansphincs-1.service" ≡ ok tt
unfolding stop_service check_active field_of
stop_service_run = refl

stop_service_iff_example :
    (stop_service service "leansphincs-1.service" ≡ ok tt) ↔ IsStopped service
stop_service_iff_example = stop_service_iff service "leansphincs-1.service"
