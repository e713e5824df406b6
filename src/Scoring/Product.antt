-- ===== src/Scoring/Product.antt =====
-- The product score: when it is issued, and how it ranks.
use leansphincs.Base.{
  ℕ, zero, suc, ◌*◌, ◌≤◌, ◌≡◌, ◌≢◌, refl, inl, inr, none, some, ap, ◌∙◌, err, key_error, ◌>>=◌,
  Option-cases, ◌↔◌, arith, ok, Result, List, String, false, true,
}
use leansphincs.Base.Int.{pos}
use leansphincs.Base.Decimal.{value, decimal, value-decimal}
use leansphincs.Base.Value.{Value, int, str, Fields, field?}
use leansphincs.Contract.Terms.Data.{Term}
use leansphincs.Contract.Metrics.{metrics, metrics_bounds}
use leansphincs.Scoring.{
  positive_int, product_score, Score, item, score_entry, load_scoring_profile,
}
use leansphincs.Scoring.Profile.{load_scoring_profile_iff}

positive_int_inv : (v : Value) (n : ℕ) → positive_int v ≡ some n → (v ≡ int (pos n)) × (1 ≤ n)
positive_int_inv (int (pos (suc m))) n h = ground arith
positive_int_inv _ n h = cc

-- Both are positive integers, and `p` is their product.
abbrev pub IsProduct : Value → Value → ℕ → Type 0
IsProduct size verification p =
    (s : ℕ) × (v : ℕ) × (size ≡ int (pos s))
    × (verification ≡ int (pos v))
    × (1 ≤ s)
    × (1 ≤ v)
    × (p ≡ s * v)

product_score_inv :
    (size verification : Value) (p : ℕ)
    → product_score size verification ≡ ok p
    → IsProduct size verification p
unfolding product_score
product_score_inv size verification p h = elim (Option-cases (positive_int size)) [
  | inl e ↦ absurd (cc)
  | inr (s, e) ↦ elim (Option-cases (positive_int verification)) [
    | inl e' ↦ absurd (ground arith)
    | inr (v, e') ↦
        let (es, ps) = positive_int_inv size s e in
        let (ev, pv) = positive_int_inv verification v e' in (s, v, es, ev, ps, pv, ground arith)
  ]
]

product_of : (s v : ℕ) → 1 ≤ s → 1 ≤ v → product_score (int (pos s)) (int (pos v)) ≡ ok (s * v)
unfolding product_score
product_of zero v ps pv = absurd (omega arith)
product_of (suc s) zero ps pv = absurd (omega arith)
product_of (suc s) (suc v) ps pv = refl

product_score_of :
    (size verification : Value) (p : ℕ)
    → IsProduct size verification p
    → product_score size verification ≡ ok p
product_score_of size verification p (s, v, es, ev, ps, pv, e) =
    rw (es, ev, e) (product_of s v ps pv)

-- `product_score` answers exactly on two positive integers, and then with their product; a bool, a
-- float, zero and a negative number are refused in either place.
pub product_score_iff :
    (size verification : Value) (p : ℕ)
    → (product_score size verification ≡ ok p) ↔ IsProduct size verification p
product_score_iff size verification p =
    (product_score_inv size verification p, product_score_of size verification p)

abbrev entry : Value → ℕ → ℕ → Score
entry id s v = record {
  value = decimal (s * v);
  eligible = false;
  diagnostic = true;
  objective = "signatureBytes * verification";
  units = "signature bytes * verification work units";
  profile_id = id;
  direction = "minimize";
  tie_break = s;
}

entry_lem :
    (profile : Fields) (id : Value) (s v : ℕ)
    → 1 ≤ s
    → 1 ≤ v
    → field? "id" profile ≡ some id
    → score_entry profile s v ≡ ok (entry id s v)
unfolding score_entry
entry_lem profile id s v ps pv e =
    ap
      (λ x.
        x >>= (λ p. item "id" profile >>= (λ i. ok (record (entry i s v) { value = decimal p }))))
      (product_of s v ps pv)
    ∙ ap (λ o. (elim o [ none ↦ err (key_error "id") | some i ↦ ok i ]) >>= (λ i. ok (entry i s v)))
        e

-- Accepted metrics always score under an accepted profile: `score_entry` raises nothing on them, the
-- text of the value spells the product of the two metrics, the tie break is the signature size, no
-- entry is eligible, and the entry names the profile by its identifier, a string that is not empty.
pub score_entry-metrics :
    (loads : List ℕ → Result Value) (read : String → Result (List ℕ)) (document : Value)
    (profile : Fields) {s v : ℕ} {ts : List Term}
    → metrics loads read ≡ ok (s, v, ts)
    → load_scoring_profile document ≡ ok profile
    → (e : Score) × (score_entry profile s v ≡ ok e)
      × (value 0 e.value ≡ s * v)
      × (e.tie_break ≡ s)
      × (e.eligible ≡ false)
      × ((name : String) × (field? "id" profile ≡ some (str name))
          × (name ≢ "")
          × (e.profile_id ≡ str name))
score_entry-metrics loads read document profile {s} {v} {ts} h known =
    let (ps, _, pv, _, _) = metrics_bounds loads read s v ts h in
    let (name, named, given) = ((load_scoring_profile_iff document profile).0 known).1.id in
    (
      entry (str name) s v,
      entry_lem profile (str name) s v ps pv named,
      value-decimal (s * v),
      refl,
      refl,
      (name, named, given, refl),
    )
