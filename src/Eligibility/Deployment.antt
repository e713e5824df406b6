-- ===== src/Eligibility/Deployment.antt =====
-- When the deployment gates give no reason but the two that they always give.
use leansphincs.Base.{
  ◌≡◌, refl, ap, ◌↔◌, inl, inr, String, true, false, List, [], ◌∷◌, ◌++◌, Option, some, arith,
  length, length-append, All, Bool-cases, Option-cases,
}
use leansphincs.Base.Value.{Fields, field?}
use leansphincs.Scoring.{claim_id}
use leansphincs.Eligibility.{
  caps, Kind, execution, storage, side_channel, no_execution_validator, no_side_channel_validator,
  Receipt, Binding, option_eq, all_bound, matches, is_unset, unset_reasons, certificate_reasons,
  evidence_reasons, binding_of, deployment_gates,
}

-- Every cap of the profile has a value.
abbrev pub AllSet : Fields → List String → Type 0
AllSet profile = All (λ key. is_unset (field? key profile) ≡ false)

-- Every entry of the binding is there, and the evidence of the kind repeats it.
abbrev pub IsBacked : Binding → (Kind → Option Binding) → Kind → Type 0
IsBacked binding evidence kind =
    (item : Binding) × (evidence kind ≡ some item)
    × (all_bound binding ≡ true)
    × (matches item binding ≡ true)

unset_reasons-nil :
    (keys : List String) (profile : Fields)
    → (unset_reasons keys profile ≡ []) ↔ AllSet profile keys
unfolding unset_reasons
unset_reasons-nil [] profile = (λ h. tt, λ h. refl)
unset_reasons-nil (key ∷ keys) profile = elim (Bool-cases (is_unset (field? key profile))) [
  | inl e ↦ (λ h. absurd (ground arith), λ (set, _). absurd (cc))
  | inr e ↦ (
    λ h. (e, (unset_reasons-nil keys profile).0 (ground arith)),
    λ (_, all). rw e ((unset_reasons-nil keys profile).1 all),
  )
]

certificate_reasons-nil :
    (r : Receipt)
    → (certificate_reasons r ≡ [])
      ↔ ((option_eq r.claim_version (some claim_id) ≡ true) × (r.mathematical_verification ≡ true))
unfolding certificate_reasons
certificate_reasons-nil r = (λ h. ground arith, λ h. ground arith)

evidence_reasons-nil :
    (b : Binding) (evidence : Kind → Option Binding) (kind : Kind)
    → (evidence_reasons b evidence kind ≡ []) ↔ IsBacked b evidence kind
unfolding evidence_reasons
evidence_reasons-nil b evidence kind = elim (Option-cases (evidence kind)) [
  | inl e ↦ (λ h. absurd (ground arith), λ (item, found, _, _). absurd (cc))
  | inr (item, e) ↦
      (λ h. (item, e, ground arith, ground arith), λ (i, found, bound, same). ground arith)
]

length-zero {ℓ} : {A : Type ℓ} (xs : List A) → length xs ≡ 0 → xs ≡ []
length-zero [] h = refl
length-zero (x ∷ xs) h = absurd (omega arith)

five_nil {ℓ} :
    {A : Type ℓ} (a b c d e tail : List A)
    → (a ++ (b ++ (c ++ (d ++ (e ++ tail)))) ≡ tail)
      ↔ ((a ≡ []) × (b ≡ []) × (c ≡ []) × (d ≡ []) × (e ≡ []))
five_nil a b c d e tail = (forth, back)
  where
    forth :
        a ++ (b ++ (c ++ (d ++ (e ++ tail)))) ≡ tail
        → (a ≡ []) × (b ≡ []) × (c ≡ []) × (d ≡ []) × (e ≡ [])
    forth h =
        let n = ap length h in
        let n₁ = length-append a (b ++ (c ++ (d ++ (e ++ tail)))) in
        let n₂ = length-append b (c ++ (d ++ (e ++ tail))) in
        let n₃ = length-append c (d ++ (e ++ tail)) in
        let n₄ = length-append d (e ++ tail) in
        let n₅ = length-append e tail in
        (
          length-zero a (omega arith),
          length-zero b (omega arith),
          length-zero c (omega arith),
          length-zero d (omega arith),
          length-zero e (omega arith),
        )

    back :
        (a ≡ []) × (b ≡ []) × (c ≡ []) × (d ≡ []) × (e ≡ [])
        → a ++ (b ++ (c ++ (d ++ (e ++ tail)))) ≡ tail
    back (p, q, r, s, t) = rw (p, q, r, s, t)

-- What deployment still waits for when the two validators are all that is missing: every cap of the
-- profile has a value, the receipt is a current mathematical certificate, and each kind of evidence
-- repeats a binding that is complete.
abbrev pub IsComplete : (Fields → String) → Fields → Receipt → (Kind → Option Binding) → Type 0
IsComplete profile_digest profile r evidence =
    AllSet profile caps
    × ((option_eq r.claim_version (some claim_id) ≡ true) × (r.mathematical_verification ≡ true))
    × IsBacked (binding_of (profile_digest profile) r) evidence execution
    × IsBacked (binding_of (profile_digest profile) r) evidence storage
    × IsBacked (binding_of (profile_digest profile) r) evidence side_channel

-- The gates never certify and never find a deployment eligible, whatever the receipt and the
-- evidence; and the reasons are the two missing validators alone exactly when every cap is set, the
-- receipt is a current certificate and each kind of evidence is bound to the claim, the profile,
-- the submission and the executable.
pub deployment_gates-reasons :
    (profile_digest : Fields → String) (profile : Fields) (r : Receipt)
    (evidence : Kind → Option Binding)
    → let g = deployment_gates profile_digest profile r evidence in
      (g.deployment_eligible ≡ false)
      × (g.resource_certification ≡ false)
      × (g.side_channel_review ≡ false)
      × ((g.reasons ≡ no_execution_validator ∷ no_side_channel_validator ∷ [])
          ↔ IsComplete profile_digest profile r evidence)
unfolding deployment_gates
deployment_gates-reasons profile_digest profile r evidence =
    let b = binding_of (profile_digest profile) r in
    let (u, u') = unset_reasons-nil caps profile in
    let (c, c') = certificate_reasons-nil r in
    let (e, e') = evidence_reasons-nil b evidence execution in
    let (s, s') = evidence_reasons-nil b evidence storage in
    let (x, x') = evidence_reasons-nil b evidence side_channel in
    let (forth, back) =
      five_nil (unset_reasons caps profile) (certificate_reasons r)
        (evidence_reasons b evidence execution) (evidence_reasons b evidence storage)
        (evidence_reasons b evidence side_channel)
        (no_execution_validator ∷ no_side_channel_validator ∷ []) in
    (
      refl,
      refl,
      refl,
      (
        λ h. let (h₁, h₂, h₃, h₄, h₅) = forth h in (u h₁, c h₂, e h₃, s h₄, x h₅),
        λ (p₁, p₂, p₃, p₄, p₅). back (u' p₁, c' p₂, e' p₃, s' p₄, x' p₅),
      ),
    )
