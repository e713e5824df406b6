-- ===== src/Contract/Metrics.antt =====
-- `metrics` of scripts/benchmark_contract.py. `read` is `(root / name).read_bytes()`, which may raise.
use leansphincs.Base.{
  ℕ, ◌≤◌, ◌≡◌, subst, String, List, Result, ok, ◌>>=◌, bind-eq-ok, ok-injective, All, All-map,
}
use leansphincs.Base.Value.{Value}
use leansphincs.Contract.Scalar.{scalar, max_component}
use leansphincs.Contract.Scalar.Canonical.{scalar_iff}
use leansphincs.Contract.Terms.{parse_bound}
use leansphincs.Contract.Terms.Data.{Term}
use leansphincs.Contract.Terms.Spec.{IsTerm}
use leansphincs.Contract.Terms.Acceptance.{IsBound, parse_bound_iff}
use leansphincs.Contract.Render.{render}
use leansphincs.Contract.Render.Injective.{render-injective}

abbrev pub Metrics : Type 0
Metrics = ℕ × ℕ × List Term

-- Positive scalars below 2 ^ 63, and a bound of the contract.
abbrev pub IsDeclared : Metrics → Type 0
IsDeclared (s, v, ts) = (1 ≤ s) × (s ≤ max_component) × (1 ≤ v) × (v ≤ max_component) × IsBound ts

module _ (loads : List ℕ → Result Value) where
  unfoldable pub metrics : (String → Result (List ℕ)) → Result Metrics
  metrics read = do
    sigma ← read "sigma.txt" >>= scalar "sigma.txt"
    hverify ← read "hverify.txt" >>= scalar "hverify.txt"
    bound ← read "bound.txt" >>= parse_bound loads
    ok (sigma, hverify, bound)

  -- Accepted metrics are positive, below 2 ^ 63, and carry a bound of the contract.
  pub metrics_bounds :
      (read : String → Result (List ℕ)) (s v : ℕ) (ts : List Term)
      → metrics read ≡ ok (s, v, ts)
      → IsDeclared (s, v, ts)
  unfolding metrics
  metrics_bounds read s v ts h =
      let (s', e₁, h₁) = bind-eq-ok (read "sigma.txt" >>= scalar "sigma.txt") _ h in
      let (v', e₂, h₂) = bind-eq-ok (read "hverify.txt" >>= scalar "hverify.txt") _ h₁ in
      let (ts', e₃, h₃) = bind-eq-ok (read "bound.txt" >>= parse_bound loads) _ h₂ in
      let (b₁, _, k₁) = bind-eq-ok (read "sigma.txt") (scalar "sigma.txt") e₁ in
      let (b₂, _, k₂) = bind-eq-ok (read "hverify.txt") (scalar "hverify.txt") e₂ in
      let (b₃, _, k₃) = bind-eq-ok (read "bound.txt") (parse_bound loads) e₃ in
      let (lo₁, hi₁, _) = (scalar_iff "sigma.txt" b₁ s').0 k₁ in
      let (lo₂, hi₂, _) = (scalar_iff "hverify.txt" b₂ v').0 k₂ in
      let (_, _, bound) = (parse_bound_iff loads b₃ ts').0 k₃ in
      subst IsDeclared (ok-injective (s', v', ts') (s, v, ts) h₃) (lo₁, hi₁, lo₂, hi₂, bound)

  den_pos : (ts : List Term) → All IsTerm ts → All (λ (t : Term). 1 ≤ t.den) ts
  den_pos ts = All-map IsTerm (λ (t : Term). 1 ≤ t.den) ts (λ t h. h.den_pos)

  -- Two submissions whose metrics are accepted and whose templates agree declare the same metrics.
  pub metrics-render :
      (read read' : String → Result (List ℕ)) {s s' v v' : ℕ} {ts ts' : List Term}
      → metrics read ≡ ok (s, v, ts)
      → metrics read' ≡ ok (s', v', ts')
      → render s v ts ≡ render s' v' ts'
      → (s ≡ s') × (v ≡ v') × (ts ≡ ts')
  metrics-render read read' {s} {s'} {v} {v'} {ts} {ts'} h h' e =
      let bound = (metrics_bounds read s v ts h).4 in
      let bound' = (metrics_bounds read' s' v' ts' h').4 in
      render-injective s s' v v' ts ts' (den_pos ts bound.2) (den_pos ts' bound'.2) e
