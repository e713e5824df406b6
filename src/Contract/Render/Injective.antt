-- ===== src/Contract/Render/Injective.antt =====
-- The template determines the metrics that it states.
use leansphincs.Base.{
  ℕ, ◌-◌, ◌≤◌, ◌≡◌, ◌≢◌, refl, sym, ap, ap₂, ◌∙◌, List, [], ◌∷◌, ◌++◌, append_assoc, codes, arith,
  All,
}
use leansphincs.Base.Decimal.{decimal, decimal_cancel}
use leansphincs.Contract.Terms.Data.{Term}
use leansphincs.Contract.Render.{
  lean_term, join, lean_terms, lean_bound, template_head, template_tail, render,
}

append_cancel {ℓ} : {A : Type ℓ} (p x y : List A) → p ++ x ≡ p ++ y → x ≡ y
append_cancel [] x y h = h
append_cancel (c ∷ p) x y h = append_cancel p x y (cc)

-- A numeral and the separator behind it.
comma_cancel :
    (n m : ℕ) (x y : List ℕ)
    → decimal n ++ (codes ", " ++ x) ≡ decimal m ++ (codes ", " ++ y)
    → (n ≡ m) × (x ≡ y)
comma_cancel n m x y h =
    let (e, r) = decimal_cancel n m (codes ", " ++ x) (codes ", " ++ y) refl refl h in
    (e, append_cancel (codes ", ") x y r)

close_cancel :
    (n m : ℕ) (x y : List ℕ)
    → decimal n ++ (codes "⟩" ++ x) ≡ decimal m ++ (codes "⟩" ++ y)
    → (n ≡ m) × (x ≡ y)
close_cancel n m x y h =
    let (e, r) = decimal_cancel n m (codes "⟩" ++ x) (codes "⟩" ++ y) refl refl h in
    (e, append_cancel (codes "⟩") x y r)

-- `lean_term` with what follows it, bracketed to the right.
term_then : Term → List ℕ → List ℕ
term_then t r =
    codes "⟨"
    ++ (decimal t.num
        ++ (codes ", "
            ++ (decimal (t.den - 1)
                ++ (codes ", "
                    ++ (decimal t.work
                        ++ (codes ", "
                            ++ (decimal t.sign
                                ++ (codes ", " ++ (decimal t.shift ++ (codes "⟩" ++ r))))))))))

lean_term-append : (t : Term) (r : List ℕ) → lean_term t ++ r ≡ term_then t r
unfolding lean_term term_then
lean_term-append t r = simp append_assoc

Term_eq :
    (t u : Term)
    → 1 ≤ t.den
    → 1 ≤ u.den
    → t.num ≡ u.num
    → t.den - 1 ≡ u.den - 1
    → t.work ≡ u.work
    → t.sign ≡ u.sign
    → t.shift ≡ u.shift
    → t ≡ u
Term_eq t u pt pu a b c d e =
    let den : t.den ≡ u.den = omega arith in
    λ i. record { num = a i; den = den i; work = c i; sign = d i; shift = e i }

term_cancel :
    (t u : Term) (r s : List ℕ)
    → 1 ≤ t.den
    → 1 ≤ u.den
    → term_then t r ≡ term_then u s
    → (t ≡ u) × (r ≡ s)
unfolding term_then
term_cancel t u r s pt pu h =
    let h₀ = append_cancel (codes "⟨") _ _ h in
    let (a, h₁) = comma_cancel t.num u.num _ _ h₀ in
    let (b, h₂) = comma_cancel (t.den - 1) (u.den - 1) _ _ h₁ in
    let (c, h₃) = comma_cancel t.work u.work _ _ h₂ in
    let (d, h₄) = comma_cancel t.sign u.sign _ _ h₃ in
    let (e, h₅) = close_cancel t.shift u.shift r s h₄ in (Term_eq t u pt pu a b c d e, h₅)

-- The joined terms with what follows them.
terms_then : List Term → List ℕ → List ℕ
terms_then [] r = r
terms_then (t ∷ []) r = term_then t r
terms_then (t ∷ u ∷ ts) r = term_then t (codes ", " ++ terms_then (u ∷ ts) r)

join-append : (ts : List Term) (r : List ℕ) → join (lean_terms ts) ++ r ≡ terms_then ts r
unfolding join lean_terms terms_then
join-append [] r = refl
join-append (t ∷ []) r = lean_term-append t r
join-append (t ∷ u ∷ ts) r =
    append_assoc (lean_term t) _ r
    ∙ (lean_term-append t _ ∙ ap (λ x. term_then t (codes ", " ++ x)) (join-append (u ∷ ts) r))

not_closed : (t : Term) (r s : List ℕ) → term_then t r ≢ codes "]" ++ s
unfolding term_then
not_closed t r s = ground arith

not_comma : (r s : List ℕ) → codes "]" ++ r ≢ codes ", " ++ s
not_comma r s = ground arith

-- What follows a non-empty list of terms begins with a term.
terms_head :
    (t : Term) (ts : List Term) (r : List ℕ)
    → (x : List ℕ) × (terms_then (t ∷ ts) r ≡ term_then t x)
unfolding terms_then
terms_head t [] r = (r, refl)
terms_head t (u ∷ ts) r = (_, refl)

nil_terms : (u : Term) (us : List Term) (r s : List ℕ) → terms_then (u ∷ us) r ≢ codes "]" ++ s
nil_terms u us r s h = let (x, e) = terms_head u us r in not_closed u x s (sym e ∙ h)

abbrev DenPos : List Term → Type 0
DenPos = All (λ (t : Term). 1 ≤ t.den)

terms_cancel :
    (ts us : List Term) (r s : List ℕ)
    → DenPos ts
    → DenPos us
    → terms_then ts (codes "]" ++ r) ≡ terms_then us (codes "]" ++ s)
    → (ts ≡ us) × (r ≡ s)
unfolding terms_then
terms_cancel [] [] r s pt pu h = (refl, append_cancel (codes "]") r s h)
terms_cancel [] (u ∷ us) r s pt pu h = absurd (nil_terms u us _ r (sym h))
terms_cancel (t ∷ ts) [] r s pt pu h = absurd (nil_terms t ts _ s h)
terms_cancel (t ∷ []) (u ∷ []) r s pt pu h =
    let (e, k) = term_cancel t u _ _ pt.0 pu.0 h in
    (ap (λ x. x ∷ []) e, append_cancel (codes "]") r s k)
terms_cancel (t ∷ []) (u ∷ v ∷ us) r s pt pu h =
    let (e, k) = term_cancel t u _ _ pt.0 pu.0 h in absurd (not_comma r _ k)
terms_cancel (t ∷ v ∷ ts) (u ∷ []) r s pt pu h =
    let (e, k) = term_cancel t u _ _ pt.0 pu.0 h in absurd (not_comma s _ (sym k))
terms_cancel (t ∷ v ∷ ts) (u ∷ w ∷ us) r s pt pu h =
    let (e, k) = term_cancel t u _ _ pt.0 pu.0 h in
    let (es, rest) =
      terms_cancel (v ∷ ts) (w ∷ us) r s pt.1 pu.1 (append_cancel (codes ", ") _ _ k) in
    (ap₂ ◌∷◌ e es, rest)

-- `lean_bound` with what follows it.
lean_bound-append :
    (ts : List Term) (r : List ℕ) → lean_bound ts ++ r ≡ codes "[" ++ terms_then ts (codes "]" ++ r)
unfolding lean_bound
lean_bound-append ts r =
    ap (◌∷◌ b'[')
      (append_assoc (join (lean_terms ts)) (codes "]") r ∙ join-append ts (codes "]" ++ r))

lean_bound_cancel :
    (ts us : List Term) (r s : List ℕ)
    → DenPos ts
    → DenPos us
    → lean_bound ts ++ r ≡ lean_bound us ++ s
    → (ts ≡ us) × (r ≡ s)
lean_bound_cancel ts us r s pt pu h =
    terms_cancel ts us r s pt pu
      (append_cancel (codes "[") _ _ (sym (lean_bound-append ts r) ∙ (h ∙ lean_bound-append us s)))

space_cancel :
    (n m : ℕ) (x y : List ℕ)
    → decimal n ++ (codes " " ++ x) ≡ decimal m ++ (codes " " ++ y)
    → (n ≡ m) × (x ≡ y)
space_cancel n m x y h =
    let (e, r) = decimal_cancel n m (codes " " ++ x) (codes " " ++ y) refl refl h in
    (e, append_cancel (codes " ") x y r)

-- Two claims with the same template are the same claim: a template fixes the signature size, the
-- verification bound and every term, provided that the denominators are positive.
pub render-injective :
    (sigma sigma' hverify hverify' : ℕ) (ts us : List Term)
    → All (λ (t : Term). 1 ≤ t.den) ts
    → All (λ (t : Term). 1 ≤ t.den) us
    → render sigma hverify ts ≡ render sigma' hverify' us
    → (sigma ≡ sigma') × (hverify ≡ hverify') × (ts ≡ us)
unfolding render
render-injective s s' v v' ts us pt pu h =
    let (a, h₁) = space_cancel s s' _ _ (append_cancel template_head _ _ h) in
    let (b, h₂) = space_cancel v v' _ _ h₁ in
    (a, b, (lean_bound_cancel ts us template_tail template_tail pt pu h₂).0)
