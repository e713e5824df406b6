-- ===== src/Tests/Contract.antt =====
-- scripts/benchmark_contract.py on small files.
use leansphincs.Base.{
  ℕ, ◌≤◌, ◌≡◌, refl, ◌↔◌, String, List, [], ◌∷◌, arith, codes, length, Result, ok, err, os_error,
  value_error, if◌then◌else◌,
}
use text.Mathlib.Text.{◌==◌ as str_eq}
use leansphincs.Base.Gcd.{gcd}
use leansphincs.Base.Value.{Value, arr}
use leansphincs.Contract.Scalar.{max_component, scalar}
use leansphincs.Contract.Scalar.Canonical.{IsNumeral, scalar_iff}
use leansphincs.Contract.Terms.{parse_bound}
use leansphincs.Contract.Terms.Data.{Term}
use leansphincs.Contract.Terms.Spec.{encode_terms}
use leansphincs.Contract.Terms.Acceptance.{IsBound, parse_bound_iff}
use leansphincs.Contract.Render.Injective.{render-injective}
use leansphincs.Contract.Metrics.{metrics, metrics-render, metrics_bounds, IsDeclared}

scalar_iff_example :
    (scalar "sigma.txt" (codes "4096\n") ≡ ok 4096)
    ↔ ((1 ≤ 4096) × (4096 ≤ max_component) × IsNumeral 4096 (codes "4096\n"))
scalar_iff_example = scalar_iff "sigma.txt" (codes "4096\n") 4096

scalar_run : scalar "sigma.txt" (codes "4096\n") ≡ ok 4096
unfolding scalar
scalar_run = refl

leading_zero :
    scalar "sigma.txt" (codes "04")
    ≡ err (value_error "sigma.txt: expected one positive canonical ASCII integer")
unfolding scalar
leading_zero = refl

-- 4 Q / 2 ^ 128 + Q² / 2 ^ 128
abbrev terms : List Term
terms =
    record { num = 4; den = 1; work = 1; sign = 0; shift = 128 }
    ∷ record { num = 1; den = 3; work = 2; sign = 0; shift = 128 }
    ∷ []

-- A reader of JSON that knows one text.
abbrev bound_text : List ℕ
bound_text = codes "[[4,1,1,0,128],[1,3,2,0,128]]"

loads : List ℕ → Result Value
loads bytes = ok (arr (encode_terms terms))

parse_bound_run : parse_bound loads bound_text ≡ ok terms
unfolding parse_bound loads gcd
parse_bound_run = refl

parse_bound_iff_example : (parse_bound loads bound_text ≡ ok terms) ↔ (
    (length bound_text ≤ 65536)
    × (loads bound_text ≡ ok (arr (encode_terms terms)))
    × IsBound terms)
parse_bound_iff_example = parse_bound_iff loads bound_text terms

abbrev files : String → Result (List ℕ)
files name =
    if str_eq name "sigma.txt"
    then ok (codes "4096\n")
    else if str_eq name "hverify.txt"
    then ok (codes "77")
    else if str_eq name "bound.txt"
    then ok bound_text
    else err (os_error name)

metrics_run : metrics loads files ≡ ok (4096, 77, terms)
unfolding metrics scalar parse_bound loads gcd
metrics_run = refl

metrics_bounds_example : IsDeclared (4096, 77, terms)
metrics_bounds_example = metrics_bounds loads files 4096 77 terms metrics_run

metrics-render_example : ◌≡◌ {A = ℕ} 4096 4096 × ◌≡◌ {A = ℕ} 77 77 × (terms ≡ terms)
metrics-render_example = metrics-render loads files files metrics_run metrics_run refl

render-injective_example : ◌≡◌ {A = ℕ} 4096 4096 × ◌≡◌ {A = ℕ} 77 77 × (terms ≡ terms)
render-injective_example =
    render-injective 4096 4096 77 77 terms terms (omega arith) (omega arith) refl
