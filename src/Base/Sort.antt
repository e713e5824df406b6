-- ===== src/Base/Sort.antt =====
-- `sorted`, which is stable, with the comparison of the keys as a parameter.
use Prim.Native.Nat.{suc}
use mathlib.Core.Path.{◌≡◌, refl, sym, ap, ap₂, ◌∙◌}
use mathlib.Core.Logic.{inl, inr, ∥∥₁_elim}
use mathlib.Core.Bool.{Bool, true, false}
use mathlib.Core.List.{List, [], ◌∷◌, Perm, Permᴰ, is_set}
use leansphincs.Base.Tests.{if◌then◌else◌, Bool-cases}
use leansphincs.Base.Lists.{length, All, All-map}

module _ {ℓ} {A : Type ℓ} (le : A → A → Bool) where
  unfoldable pub insert : A → List A → List A
  insert x [] = x ∷ []
  insert x (y ∷ ys) = if le x y then x ∷ y ∷ ys else y ∷ insert x ys

  unfoldable pub sort : List A → List A
  unfolding insert
  sort [] = []
  sort (x ∷ xs) = insert x (sort xs)

  -- Each lies before all later ones.
  abbrev pub IsSorted : List A → Type 0
  IsSorted [] = Unit
  IsSorted (x ∷ xs) = All (λ y. le x y ≡ true) xs × IsSorted xs

  module _ {κ} (P : A → Type κ) where
    pub insert-All : (x : A) (xs : List A) → P x → All P xs → All P (insert x xs)
    unfolding insert
    insert-All x [] p h = (p, tt)
    insert-All x (y ∷ ys) p h = elim (Bool-cases (le x y)) [
      | inl e ↦ rw e (p, h)
      | inr e ↦ rw e (h.0, insert-All x ys p h.1)
    ]

    insert-All_inv : (x : A) (xs : List A) → All P (insert x xs) → P x × All P xs
    unfolding insert
    insert-All_inv x [] h = h
    insert-All_inv x (y ∷ ys) h = elim (Bool-cases (le x y)) [
      | inl e ↦ rw e at h
      | inr e ↦ let (p, rest) = rw e at h in let (q, r) = insert-All_inv x ys rest in (q, (p, r))
    ]

    -- Sorting neither invents elements nor loses any.
    pub sort-All : (xs : List A) → All P xs → All P (sort xs)
    unfolding sort
    sort-All [] h = tt
    sort-All (x ∷ xs) h = insert-All x (sort xs) h.0 (sort-All xs h.1)

    pub sort-All_inv : (xs : List A) → All P (sort xs) → All P xs
    unfolding sort
    sort-All_inv [] h = tt
    sort-All_inv (x ∷ xs) h =
        let (p, rest) = insert-All_inv x (sort xs) h in (p, sort-All_inv xs rest)

  length-insert : (x : A) (xs : List A) → length (insert x xs) ≡ suc (length xs)
  unfolding insert
  length-insert x [] = refl
  length-insert x (y ∷ ys) = elim (Bool-cases (le x y)) [
    | inl e ↦ rw e
    | inr e ↦ rw e (ap suc (length-insert x ys))
  ]

  pub length-sort : (xs : List A) → length (sort xs) ≡ length xs
  unfolding sort
  length-sort [] = refl
  length-sort (x ∷ xs) = length-insert x (sort xs) ∙ ap suc (length-sort xs)

  -- A sorted list is left as it is.
  pub sort_of_sorted : (xs : List A) → IsSorted xs → sort xs ≡ xs
  unfolding sort
  sort_of_sorted [] s = refl
  sort_of_sorted (x ∷ xs) s = ap (insert x) (sort_of_sorted xs s.1) ∙ insert_before xs s.0
    where
      insert_before : (ys : List A) → All (λ y. le x y ≡ true) ys → insert x ys ≡ x ∷ ys
      insert_before [] h = refl
      insert_before (y ∷ ys) h = rw h.0

  -- A total and transitive comparison sorts.
  module _ (total : (x y : A) → le x y ≡ false → le y x ≡ true)
      (trans : (x y z : A) → le x y ≡ true → le y z ≡ true → le x z ≡ true) where
    insert-IsSorted : (x : A) (xs : List A) → IsSorted xs → IsSorted (insert x xs)
    unfolding insert
    insert-IsSorted x [] s = (tt, tt)
    insert-IsSorted x (y ∷ ys) s = elim (Bool-cases (le x y)) [
      | inl e ↦
          rw e
            ((e, All-map (λ z. le y z ≡ true) (λ z. le x z ≡ true) ys (λ z. trans x y z e) s.0), s)
      | inr e ↦
          rw e (insert-All (λ z. le y z ≡ true) x ys (total x y e) s.0, insert-IsSorted x ys s.1)
    ]

    pub sort-IsSorted : (xs : List A) → IsSorted (sort xs)
    unfolding sort
    sort-IsSorted [] = tt
    sort-IsSorted (x ∷ xs) = insert-IsSorted x (sort xs) (sort-IsSorted xs)

    -- If no two elements are tied, the order of the input does not matter.
    module _ (antisym : (x y : A) → le x y ≡ true → le y x ≡ true → x ≡ y) where
      insert_below :
          (x y : A) (xs : List A)
          → le x y ≡ true
          → le y x ≡ false
          → insert x (insert y xs) ≡ insert y (insert x xs)
      unfolding insert
      insert_below x y [] e f = rw (e, f)
      insert_below x y (z ∷ xs) e f = elim (Bool-cases (le y z)) [
        | inl g ↦ rw (g, e, trans x y z e g, f, g)
        | inr g ↦ elim (Bool-cases (le x z)) [
          | inl h ↦ rw (g, h, f, g)
          | inr h ↦ rw (g, h, g) (ap (◌∷◌ z) (insert_below x y xs e f))
        ]
      ]

      insert_comm : (x y : A) (xs : List A) → insert x (insert y xs) ≡ insert y (insert x xs)
      insert_comm x y xs = elim (Bool-cases (le x y)) [
        | inl e ↦ elim (Bool-cases (le y x)) [
          | inl f ↦
              ap (λ z. insert z (insert y xs)) (antisym x y e f)
              ∙ ap (λ z. insert y (insert z xs)) (sym (antisym x y e f))
          | inr f ↦ insert_below x y xs e f
        ]
        | inr e ↦ sym (insert_below y x xs (total x y e) e)
      ]

      sort-Permᴰ : (xs ys : List A) → Permᴰ xs ys → sort xs ≡ sort ys
      unfolding sort
      sort-Permᴰ _ _ Permᴰ.nil = refl
      sort-Permᴰ _ _ (Permᴰ.cons {l₁ = xs} {l₂ = ys} e p) = ap₂ insert e (sort-Permᴰ xs ys p)
      sort-Permᴰ _ _ (Permᴰ.swap {a} {b} {l = xs} e f) =
          insert_comm a b (sort xs) ∙ ap₂ (λ u v. insert u (insert v (sort xs))) f e
      sort-Permᴰ xs zs (Permᴰ.trans {l₂ = ys} p q) = sort-Permᴰ xs ys p ∙ sort-Permᴰ ys zs q

      pub sort-Perm : IsSet A → (xs ys : List A) → Perm xs ys → sort xs ≡ sort ys
      sort-Perm set xs ys p = ∥∥₁_elim p (is_set set _ _) (sort-Permᴰ xs ys)
