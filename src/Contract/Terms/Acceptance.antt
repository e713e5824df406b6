-- ===== src/Contract/Terms/Acceptance.antt =====
-- `parse_bound` accepts exactly the bounds of the contract.
use leansphincs.Base.{
  ℕ, suc, ◌≤◌, ◌≡◌, refl, ap, ap₂, ◌∙◌, ◌↔◌, Option, none, some, List, [], ◌∷◌, arith, ltb, length,
  ltb-false_of_le, le→leb, Result, ok, err, recursion_error, bind-eq-ok, ok-injective,
  raise_if_then, All,
}
use leansphincs.Base.Value.{Value, arr, Items, nil, cons}
use leansphincs.Contract.Terms.{
  check_term, check_terms, count, rename_recursion, term_items, parse_bound,
}
use leansphincs.Contract.Terms.Data.{Term, Monomial, monomial}
use leansphincs.Contract.Terms.Spec.{Lt, IsTerm, IsAscending, encode_terms}
use leansphincs.Contract.Terms.Checks.{Lt_trans, After, check_term_inv, check_term_of}

-- The terms that follow `p`.
abbrev AllAfter : Option Monomial → List Term → Type 0
AllAfter p [] = Unit
AllAfter p (t ∷ ts) = After p (monomial t) × AllAfter p ts

AllAfter-trans :
    (p : Option Monomial) (k : Monomial) (ts : List Term)
    → After p k
    → All (λ u. Lt k (monomial u)) ts
    → AllAfter p ts
AllAfter-trans p k [] h a = tt
AllAfter-trans none k (t ∷ ts) h a = (tt, AllAfter-trans none k ts h a.1)
AllAfter-trans (some m) k (t ∷ ts) h a =
    (Lt_trans m k (monomial t) h a.0, AllAfter-trans (some m) k ts h a.1)

AllAfter-All :
    (k : Monomial) (ts : List Term) → AllAfter (some k) ts → All (λ u. Lt k (monomial u)) ts
AllAfter-All k [] h = tt
AllAfter-All k (t ∷ ts) h = (h.0, AllAfter-All k ts h.1)

abbrev IsChecked : Option Monomial → List Term → Type 0
IsChecked p ts = All IsTerm ts × IsAscending ts × AllAfter p ts

AllAfter-some :
    (k : Monomial) (ts : List Term) → All (λ u. Lt k (monomial u)) ts → AllAfter (some k) ts
AllAfter-some k [] h = tt
AllAfter-some k (t ∷ ts) h = (h.0, AllAfter-some k ts h.1)

check_terms_inv :
    (p : Option Monomial) (vs : Items) (ts : List Term)
    → check_terms p vs ≡ ok ts
    → (vs ≡ encode_terms ts) × IsChecked p ts
unfolding check_terms
check_terms_inv p nil [] h = (refl, (tt, tt, tt))
check_terms_inv p nil (t ∷ ts) h = cc
check_terms_inv p (cons v vs) ts h =
    let (t, e, k) = bind-eq-ok (check_term p v) _ h in
    let (us, e', k') = bind-eq-ok (check_terms (some (monomial t)) vs) _ k in
    let (shape, term, after) = check_term_inv p v t e in
    let (shapes, (terms, order, behind)) = check_terms_inv (some (monomial t)) vs us e' in
    rw (← ok-injective (t ∷ us) ts k') (
      ap₂ cons shape shapes,
      (
        (term, terms),
        (AllAfter-All (monomial t) us behind, order),
        (after, AllAfter-trans p (monomial t) us after (AllAfter-All (monomial t) us behind)),
      ),
    )

check_terms_of :
    (p : Option Monomial) (ts : List Term)
    → IsChecked p ts
    → check_terms p (encode_terms ts) ≡ ok ts
unfolding check_terms
check_terms_of p [] h = refl
check_terms_of p (t ∷ ts) ((term, terms), (later, order), (after, _)) = rw (
  check_term_of p t term after,
  check_terms_of (some (monomial t)) ts (terms, order, AllAfter-some (monomial t) ts later),
)

AllAfter-none : (ts : List Term) → AllAfter none ts
AllAfter-none [] = tt
AllAfter-none (t ∷ ts) = (tt, AllAfter-none ts)

count-encode_terms : (ts : List Term) → count (encode_terms ts) ≡ length ts
count-encode_terms [] = refl
count-encode_terms (t ∷ ts) = ap suc (count-encode_terms ts)

-- The contract of bound.txt: 1 to 128 terms in ascending order.
abbrev pub IsBound : List Term → Type 0
IsBound ts = (1 ≤ length ts) × (length ts ≤ 128) × All IsTerm ts × IsAscending ts

rename_recursion_inv : (r : Result Value) (v : Value) → rename_recursion r ≡ ok v → r ≡ ok v
unfolding rename_recursion
rename_recursion_inv (ok w) v h = h
rename_recursion_inv (err (recursion_error m)) v h = cc
rename_recursion_inv (err _) v h = cc

term_items_inv :
    (v : Value) (vs : Items)
    → term_items v ≡ ok vs
    → (v ≡ arr vs) × (1 ≤ count vs) × (count vs ≤ 128)
unfolding term_items
term_items_inv (arr us) vs h = ground arith
term_items_inv _ vs h = cc

term_items_of : (vs : Items) → 1 ≤ count vs → count vs ≤ 128 → term_items (arr vs) ≡ ok vs
unfolding term_items
term_items_of vs h k = ground arith

module _ (loads : List ℕ → Result Value) (bytes : List ℕ) (ts : List Term) where
  parse_bound_sound :
      parse_bound loads bytes ≡ ok ts
      → (length bytes ≤ 65536) × (loads bytes ≡ ok (arr (encode_terms ts))) × IsBound ts
  unfolding parse_bound
  parse_bound_sound h =
      let (small, h₀) = raise_if_then (ltb 65536 (length bytes)) _ _ h in
      let (v, read, h₁) = bind-eq-ok (rename_recursion (loads bytes)) _ h₀ in
      let (vs, shape, h₂) = bind-eq-ok (term_items v) _ h₁ in
      let (is_list, lo, hi) = term_items_inv v vs shape in
      let (encoded, (terms, order, _)) = check_terms_inv none vs ts h₂ in
      let size = ap count encoded ∙ count-encode_terms ts in
      (
        ground arith,
        rename_recursion_inv (loads bytes) v read ∙ ap ok (is_list ∙ ap arr encoded),
        (omega arith, omega arith, terms, order),
      )

  parse_bound_complete :
      length bytes ≤ 65536
      → loads bytes ≡ ok (arr (encode_terms ts))
      → IsBound ts
      → parse_bound loads bytes ≡ ok ts
  unfolding parse_bound
  parse_bound_complete small read (lo, hi, terms, order) =
      let size = count-encode_terms ts in
      rw
        (
          ltb-false_of_le (length bytes) 65536 small,
          read,
          le→leb 1 (count (encode_terms ts)) (omega arith),
          le→leb (count (encode_terms ts)) 128 (omega arith),
        )
        (check_terms_of none ts (terms, order, AllAfter-none ts))

  -- `parse_bound` returns `ts` exactly when the file has at most 64 KiB and is the JSON of `ts`, and
  -- `ts` has 1 to 128 terms, each a positive fraction in lowest terms with components below 2 ^ 63
  -- and exponents up to 1024, whose monomials strictly ascend.
  pub parse_bound_iff :
      (parse_bound loads bytes ≡ ok ts)
      ↔ ((length bytes ≤ 65536) × (loads bytes ≡ ok (arr (encode_terms ts))) × IsBound ts)
  parse_bound_iff = (parse_bound_sound, λ h. parse_bound_complete h.0 h.1 h.2)
