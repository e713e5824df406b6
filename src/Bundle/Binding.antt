-- ===== src/Bundle/Binding.antt =====
-- What a manifest binds: the whole of the bundle that it was made of.
use mathlib.Core.List.{Mem, mem-cons_self, mem-cons_of_mem}
use leansphincs.Base.{
  length, ℕ, ◌≡◌, ◌≢◌, ◌⊎◌, inl, inr, refl, sym, subst, ap, ap₂, ◌∙◌, String, true, List, [], ◌∷◌,
  arith, Bool-cases, All, Result, ok,
}
use leansphincs.Base.Sort.{IsSorted, sort-IsSorted, sort_of_sorted}
use leansphincs.Base.Names.{name_le, name_le_total, name_le_trans}
use leansphincs.Bundle.Names.{codes_eq}
use leansphincs.Bundle.{Folder, Bundle, FileEntry, entry_le, file_table, manifest, capture}
use leansphincs.Bundle.Acceptance.{keys, capture_iff}

codes_eq_sound : (xs ys : List ℕ) → codes_eq xs ys ≡ true → xs ≡ ys
codes_eq_sound [] [] h = refl
codes_eq_sound [] (y ∷ ys) h = cc
codes_eq_sound (x ∷ xs) [] h = cc
codes_eq_sound (x ∷ xs) (y ∷ ys) h = ap₂ ◌∷◌ (ground arith) (codes_eq_sound xs ys (ground arith))

codes_eq_refl : (xs : List ℕ) → codes_eq xs xs ≡ true
codes_eq_refl [] = refl
codes_eq_refl (x ∷ xs) = ground (arith, codes_eq_refl xs)

module _ (sha256 : List ℕ → String) where
  -- Under one name, the two hold different contents of one length and one digest.
  abbrev pub Collision : Bundle → Bundle → Type 0
  Collision a b =
      (name : String) × (xs ys : List ℕ) × Mem (name, xs) a
      × Mem (name, ys) b
      × (xs ≢ ys)
      × (length xs ≡ length ys)
      × (sha256 xs ≡ sha256 ys)

  Collision-tail :
      (e f : String × List ℕ) (a b : Bundle) → Collision a b → Collision (e ∷ a) (f ∷ b)
  Collision-tail e f a b (name, xs, ys, m, n, d, size, digest) =
      (name, xs, ys, mem-cons_of_mem e m, mem-cons_of_mem f n, d, size, digest)

  same_or_different : (xs ys : List ℕ) → (xs ≡ ys) ⊎ (xs ≢ ys)
  same_or_different xs ys = elim (Bool-cases (codes_eq xs ys)) [
    | inl e ↦ inl (codes_eq_sound xs ys e)
    | inr e ↦ inr (λ same. cc (codes_eq_refl xs))
  ]

  file_table-injective :
      (a b : Bundle) → file_table sha256 a ≡ file_table sha256 b → (a ≡ b) ⊎ Collision a b
  file_table-injective [] [] h = inl refl
  file_table-injective [] (f ∷ b) h = cc
  file_table-injective (e ∷ a) [] h = cc
  file_table-injective ((m, xs) ∷ a) ((n, ys) ∷ b) h =
      extend (cc) (cc) (cc) (same_or_different xs ys) (file_table-injective a b (cc))
    where
      extend :
          m ≡ n
          → length xs ≡ length ys
          → sha256 xs ≡ sha256 ys
          → (xs ≡ ys) ⊎ (xs ≢ ys)
          → (a ≡ b) ⊎ Collision a b
          → (◌≡◌ {A = Bundle} ((m, xs) ∷ a) ((n, ys) ∷ b)) ⊎ Collision ((m, xs) ∷ a) ((n, ys) ∷ b)
      extend same size digest (inr d) _ = inr (
        n,
        xs,
        ys,
        subst (λ k. Mem (k, xs) ((m, xs) ∷ a)) same mem-cons_self,
        mem-cons_self,
        d,
        size,
        digest,
      )
      extend same size digest (inl e) (inr c) = inr (Collision-tail (m, xs) (n, ys) a b c)
      extend same size digest (inl e) (inl f) = inl (cc)

keys-entries : (bundle : Bundle) → IsSorted name_le (keys bundle) → IsSorted entry_le bundle
keys-entries [] s = tt
keys-entries ((name, bytes) ∷ bundle) s = (heads name bytes bundle s.0, keys-entries bundle s.1)
  where
    heads :
        (name : String) (bytes : List ℕ) (rest : Bundle)
        → All (λ n. name_le name n ≡ true) (keys rest)
        → All (λ e. entry_le (name, bytes) e ≡ true) rest
    heads name bytes [] h = tt
    heads name bytes (e ∷ rest) h = (h.0, heads name bytes rest h.1)

captured-IsSorted :
    (root : Result Folder) (bundle : Bundle) → capture root ≡ ok bundle → IsSorted entry_le bundle
captured-IsSorted root bundle h =
    let (folder, _, (_, same, _, _, _)) = (capture_iff root bundle).0 h in
    keys-entries bundle (
      subst (IsSorted name_le) (sym same)
        (sort-IsSorted name_le name_le_total name_le_trans folder.names))

-- Two captured submissions with one manifest are the same files with the same bytes, or under one
-- name they hold two different contents of one length and one digest: a collision of the hash that
-- can be read off the two submissions.
pub manifest-binds :
    (sha256 : List ℕ → String) (encode : List (String × FileEntry) → List ℕ) (r s : Result Folder)
    (a b : Bundle)
    → capture r ≡ ok a
    → capture s ≡ ok b
    → manifest sha256 encode a ≡ manifest sha256 encode b
    → (a ≡ b) ⊎ Collision sha256 a b
unfolding manifest
manifest-binds sha256 encode r s a b captured captured' same = file_table-injective sha256 a b (
    sym (ap (file_table sha256) (sort_of_sorted entry_le a (captured-IsSorted r a captured)))
    ∙ (ap (λ m. m.files) same
        ∙ ap (file_table sha256) (sort_of_sorted entry_le b (captured-IsSorted s b captured'))))
