-- ===== src/Tests/Acceptance.antt =====
-- `_verify_admitted` of scripts/verify_submission.py in surroundings where all goes well.
use leansphincs.Base.{◌≡◌, refl, false, true, ok, some, codes}
use leansphincs.Base.Value.{null, str, obj}
use leansphincs.Bundle.{
  capture, capture_files, capture_file, read_checked, read, check_text, has_nul, find, materialize,
  write_all, write_new, manifest,
}
use leansphincs.Bundle.Names.{
  is_module_name, is_module_tail, is_word, is_word_start, ends_with_lean,
}
use leansphincs.Bundle.Copy.{folder_of}
use leansphincs.Base.Sort.{sort, insert}
use leansphincs.Base.Names.{name_le, codes_le}
use leansphincs.Base.Utf8.{utf8_from}
use leansphincs.Base.Decimal.{decimal}
use leansphincs.Base.Gcd.{gcd}
use leansphincs.Base.Order.{lt_wf}
use leansphincs.Contract.Metrics.{Metrics, metrics}
use leansphincs.Contract.Scalar.{scalar}
use leansphincs.Contract.Terms.{parse_bound}
use leansphincs.Eligibility.{load_resource_profile, shape_ok, check_caps, check_cap}
use leansphincs.Verify.World.{check_package, check_packages, check_dependencies, digests}
use leansphincs.Scoring.{Score, load_scoring_profile, score_entry, product_score}
use leansphincs.Verify.Report.{accepted, Report}
use leansphincs.Verify.Outcomes.{verify_admitted}
use leansphincs.Verify.Acceptance.Served.{IsServed}
use leansphincs.Verify.Acceptance.Accepts.{verify_admitted-accepts}
use leansphincs.Tests.Bundle.{bundle, resources}
use leansphincs.Tests.Verify.{good, profile, terms}

abbrev declared : Metrics
declared = (12, 12, terms)

abbrev score : Score
score = record {
  value = codes "144";
  eligible = false;
  diagnostic = true;
  objective = "signatureBytes * verification";
  units = "signature bytes * verification work units";
  profile_id = str "signature-bytes-times-hash-work-v1";
  direction = "minimize";
  tie_break = 12;
}

good-IsServed : IsServed good false bundle declared score
unfolding check_packages check_dependencies digests capture capture_files capture_file read_checked
    read check_text has_nul sort insert name_le codes_le utf8_from is_module_name is_module_tail
    is_word is_word_start ends_with_lean find folder_of materialize write_all write_new manifest
    metrics scalar parse_bound gcd load_resource_profile shape_ok check_caps check_cap
    load_scoring_profile score_entry product_score lt_wf decimal check_package
good-IsServed = record {
  admitted = (refl, (bundle, refl, refl, ("", refl)));
  source = refl;
  resources = (obj resources, resources, refl, refl);
  scoring = (obj profile, profile, refl, refl, refl);
  harness = (_, refl, refl);
  dependencies = (_, refl, refl);
  lean = (_, refl);
  tools = (_, refl, refl);
  sandbox = (null, refl);
  project = refl;
  built = refl;
  audited = refl;
  compiled = refl;
  frozen = refl;
  artifacts = (_, refl, refl);
  sandbox_file = refl;
  compared = refl;
  snapshot = refl;
  scored = refl;
  published = refl;
}

verify_admitted-accepts_example :
    (r : Report) × (verify_admitted good false ≡ ok r)
    × (r.status ≡ accepted)
    × (r.mathematical_verification ≡ true)
    × (r.score ≡ some score)
verify_admitted-accepts_example =
    verify_admitted-accepts good false bundle declared score good-IsServed
