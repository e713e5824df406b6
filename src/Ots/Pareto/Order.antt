-- ===== src/Ots/Pareto/Order.antt =====
-- The order by which `pareto` sorts.
use leansphincs.Base.{◌≤◌, ◌<◌, ◌≡◌, ◌⊎◌, true, false, List, [], ◌∷◌, arith, All, All-map}
use leansphincs.Base.Sort
use leansphincs.Base.Sort.{sort, sort-IsSorted}
use leansphincs.Ots.Pareto.{Candidate, key_le}

-- By size, then by verification.
abbrev pub Le : Candidate → Candidate → Type 0
Le c d =
    (c.padded_signature_bytes < d.padded_signature_bytes)
    ⊎ ((c.padded_signature_bytes ≡ d.padded_signature_bytes) × (c.verification ≤ d.verification))

abbrev pub IsSorted : List Candidate → Type 0
IsSorted [] = Unit
IsSorted (c ∷ cs) = All (Le c) cs × IsSorted cs

key_le-Le : (c d : Candidate) → key_le c d ≡ true → Le c d
key_le-Le c d h = ground arith

Le-key_le : (c d : Candidate) → Le c d → key_le c d ≡ true
Le-key_le c d h = ground arith

key_le_total : (c d : Candidate) → key_le c d ≡ false → key_le d c ≡ true
key_le_total c d h = ground arith

Le-trans : (a b c : Candidate) → Le a b → Le b c → Le a c
Le-trans a b c h k = grind arith

key_le_trans : (a b c : Candidate) → key_le a b ≡ true → key_le b c ≡ true → key_le a c ≡ true
key_le_trans a b c h k = Le-key_le a c (Le-trans a b c (key_le-Le a b h) (key_le-Le b c k))

IsSorted-Le : (cs : List Candidate) → Sort.IsSorted key_le cs → IsSorted cs
IsSorted-Le [] s = tt
IsSorted-Le (c ∷ cs) s =
    (All-map (λ d. key_le c d ≡ true) (Le c) cs (key_le-Le c) s.0, IsSorted-Le cs s.1)

pub sort-key_le-IsSorted : (cs : List Candidate) → IsSorted (sort key_le cs)
sort-key_le-IsSorted cs =
    IsSorted-Le (sort key_le cs) (sort-IsSorted key_le key_le_total key_le_trans cs)
