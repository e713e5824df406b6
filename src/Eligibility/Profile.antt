-- ===== src/Eligibility/Profile.antt =====
-- What `load_resource_profile` accepts.
use leansphincs.Base.{
  ℕ, zero, suc, ◌⊎◌, ◌<◌, ◌≡◌, ◌≢◌, refl, subst, ap, ◌↔◌, inl, inr, String, Bool, true, false, not,
  ◌&&◌, List, [], ◌∷◌, Option, some, arith, codes, All, Bool-cases, ok, raise_if_then, then-eq-ok,
  ok-injective,
}
use leansphincs.Base.Int.{pos}
use leansphincs.Base.Value.{
  Value, null, int, str, obj, arr, Fields, Items, field?, keys_eq, str_mem,
}
use leansphincs.Scoring.{field_is, is_named}
use leansphincs.Scoring.Profile.{field_is_iff, is_named_inv, is_named_of}
use leansphincs.Eligibility.{
  caps, fixed, text_caps, is_blank, is_number, fixed_hold, text_cap_ok, number_cap_ok, check_cap,
  check_caps, profile_keys, list_error, shape_ok, load_resource_profile,
}

-- A cap is unset, or a text that is not blank, or a positive number, as its key asks.
abbrev pub IsTextCap : Value → Type 0
IsTextCap v = (v ≡ null) ⊎ ((s : String) × (v ≡ str s) × (is_blank (codes s) ≡ false))

abbrev pub IsNumberCap : Value → Type 0
IsNumberCap v = (v ≡ null) ⊎ ((n : ℕ) × (v ≡ int (pos n)) × (0 < n))

abbrev pub IsCap : Fields → String → Type 0
IsCap profile key =
    (v : Value) × (field? key profile ≡ some v)
    × ((str_mem key text_caps ≡ true) → IsTextCap v)
    × ((str_mem key text_caps ≡ false) → IsNumberCap v)

abbrev pub AllFixed : Fields → List (String × ℕ) → Type 0
AllFixed profile [] = Unit
AllFixed profile ((k, n) ∷ fs) = (field? k profile ≡ some (int (pos n))) × AllFixed profile fs

is_number_iff : (o : Option Value) (n : ℕ) → (is_number o n ≡ true) ↔ (o ≡ some (int (pos n)))
is_number_iff o n = (forth o, λ e. rw e (ground arith))
  where
    forth : (o : Option Value) → is_number o n ≡ true → o ≡ some (int (pos n))
    forth (some (int (pos m))) h = ap (λ k. some (int (pos k))) (ground arith)
    forth _ h = cc

fixed_hold_iff :
    (fs : List (String × ℕ)) (profile : Fields)
    → (fixed_hold fs profile ≡ true) ↔ AllFixed profile fs
fixed_hold_iff [] profile = (λ h. tt, λ h. refl)
fixed_hold_iff ((k, n) ∷ fs) profile =
    let (f, f') = is_number_iff (field? k profile) n in
    let (r, r') = fixed_hold_iff fs profile in
    (λ h. (f (ground arith), r (ground arith)), λ (h, hs). rw (f' h, r' hs))

text_cap_ok_iff :
    (o : Option Value) → (text_cap_ok o ≡ true) ↔ ((v : Value) × (o ≡ some v) × IsTextCap v)
text_cap_ok_iff o = (forth o, λ (v, e, c). rw e (back v c))
  where
    forth : (o : Option Value) → text_cap_ok o ≡ true → (v : Value) × (o ≡ some v) × IsTextCap v
    forth (some null) h = (null, refl, inl refl)
    forth (some (str s)) h = (str s, refl, inr (s, refl, ground arith))
    forth _ h = cc

    back : (v : Value) → IsTextCap v → text_cap_ok (some v) ≡ true
    back v (inl e) = rw e
    back v (inr (s, e, h)) = rw (e, h)

number_cap_ok_iff :
    (o : Option Value) → (number_cap_ok o ≡ true) ↔ ((v : Value) × (o ≡ some v) × IsNumberCap v)
number_cap_ok_iff o = (forth o, λ (v, e, c). rw e (back v c))
  where
    forth : (o : Option Value) → number_cap_ok o ≡ true → (v : Value) × (o ≡ some v) × IsNumberCap v
    forth (some null) h = (null, refl, inl refl)
    forth (some (int (pos (suc n)))) h = (int (pos (suc n)), refl, inr (suc n, refl, omega arith))
    forth _ h = cc

    positive : (n : ℕ) → 0 < n → number_cap_ok (some (int (pos n))) ≡ true
    positive zero h = absurd (omega arith)
    positive (suc n) h = refl

    back : (v : Value) → IsNumberCap v → number_cap_ok (some v) ≡ true
    back v (inl e) = rw e
    back v (inr (n, e, h)) = rw e (positive n h)

check_cap_iff :
    (profile : Fields) (key : String) → (check_cap profile key ≡ ok tt) ↔ IsCap profile key
unfolding check_cap
check_cap_iff profile key = elim (Bool-cases (str_mem key text_caps)) [
  | inl e ↦
      let (f, g) = text_cap_ok_iff (field? key profile) in
      (
        λ h. let (v, found, c) = f (ground arith) in (v, found, λ _. c, λ n. absurd (cc)),
        λ (v, found, c, _). rw (e, g (v, found, c e)),
      )
  | inr e ↦
      let (f, g) = number_cap_ok_iff (field? key profile) in
      (
        λ h. let (v, found, c) = f (ground arith) in (v, found, λ n. absurd (cc), λ _. c),
        λ (v, found, _, c). rw (e, g (v, found, c e)),
      )
]

check_caps_iff :
    (keys : List String) (profile : Fields)
    → (check_caps keys profile ≡ ok tt) ↔ All (IsCap profile) keys
unfolding check_caps
check_caps_iff [] profile = (λ h. tt, λ h. refl)
check_caps_iff (key ∷ keys) profile =
    let (f, g) = check_cap_iff profile key in
    let (fs, gs) = check_caps_iff keys profile in
    (
      λ h.
          let (c, rest) = then-eq-ok (check_cap profile key) (check_caps keys profile) h in
          (f c, fs rest),
      λ (c, cs). rw (g c, gs cs),
    )

-- A profile has the keys of the schema and no other, the fixed values, an identifier, and each cap
-- unset or of its type and range.
pub record IsResourceProfile (p : Fields) : Type 0 where
  pub keys : keys_eq p profile_keys ≡ true
  pub schema_known : field? "schema" p ≡ some (str "leansphincs-resources-v1")
  pub id : (s : String) × (field? "id" p ≡ some (str s)) × (s ≢ "")
  pub numbers : AllFixed p fixed
  pub limits : All (IsCap p) caps

and_true :
    (a b c d : Bool) → (a && b && c && d) ≡ true → (a ≡ true) × (b ≡ true) × (c ≡ true) × (d ≡ true)
and_true a b c d h = ground arith

shape_ok_inv :
    (q : Fields)
    → shape_ok q ≡ true
    → (keys_eq q profile_keys ≡ true)
      × (field_is "schema" "leansphincs-resources-v1" q ≡ true)
      × (is_named (field? "id" q) ≡ true)
      × (fixed_hold fixed q ≡ true)
unfolding shape_ok
shape_ok_inv q h =
    and_true (keys_eq q profile_keys) (field_is "schema" "leansphincs-resources-v1" q)
      (is_named (field? "id" q)) (fixed_hold fixed q) h

not-false : {b : Bool} → not b ≡ false → b ≡ true
not-false h = ground arith

list_raises : (vs : Items) (p : Fields) → list_error vs ≢ ok p
unfolding list_error
list_raises vs p h = ground arith

load_resource_profile_inv :
    (v : Value) (p : Fields) → load_resource_profile v ≡ ok p → (v ≡ obj p) × IsResourceProfile p
unfolding load_resource_profile
load_resource_profile_inv (obj q) p h =
    let (shape, h₁) = raise_if_then (not (shape_ok q)) _ _ h in
    let (limits, h₂) = then-eq-ok (check_caps caps q) (ok q) h₁ in
    let (keys, known, named, numbers) = shape_ok_inv q (not-false shape) in
    subst (λ (r : Fields). (obj q ≡ obj r) × IsResourceProfile r) (ok-injective q p h₂)
      (
        refl,
        record {
          keys = keys;
          schema_known = (field_is_iff "schema" "leansphincs-resources-v1" q).0 known;
          id = is_named_inv (field? "id" q) named;
          numbers = (fixed_hold_iff fixed q).0 numbers;
          limits = (check_caps_iff caps q).0 limits;
        },
      )
load_resource_profile_inv (arr vs) p h = absurd (list_raises vs p h)
load_resource_profile_inv _ p h = cc

load_resource_profile_of : (p : Fields) → IsResourceProfile p → load_resource_profile (obj p) ≡ ok p
unfolding load_resource_profile shape_ok
load_resource_profile_of p w =
    let (s, e, ne) = w.id in
    rw (
      w.keys,
      (field_is_iff "schema" "leansphincs-resources-v1" p).1 w.schema_known,
      is_named_of (field? "id" p) s e ne,
      (fixed_hold_iff fixed p).1 w.numbers,
      (check_caps_iff caps p).1 w.limits,
    )

-- `load_resource_profile` accepts exactly the objects with the schema's keys and no other, the fixed
-- targets and deadlines, a non-empty identifier, and every cap unset, or a text that is not blank
-- where a text is asked, or else a positive integer; and returns them unchanged.
pub load_resource_profile_iff :
    (v : Value) (p : Fields)
    → (load_resource_profile v ≡ ok p) ↔ ((v ≡ obj p) × IsResourceProfile p)
load_resource_profile_iff v p =
    (load_resource_profile_inv v p, λ (e, w). rw e (load_resource_profile_of p w))
