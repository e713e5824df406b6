-- ===== src/Verify/Project/Under.antt =====
-- The part of a tree below a path.
use text.Mathlib.Text.{◌==◌ as str_eq}
use leansphincs.Base.{
  ◌≡◌, refl, ap, ◌∙◌, inl, inr, [], ◌∷◌, ◌++◌, Option, none, some, Option-cases, if◌then◌else◌,
}
use leansphincs.Verify.Project.{Components, Entry, file, Tree, Files, place}

-- The path below `p`.
abbrev pub strip : Components → Components → Option Components
strip [] q = some q
strip (c ∷ p) [] = none
strip (c ∷ p) (d ∷ q) = if str_eq d c then strip p q else none

abbrev pub add_under : Option Components → Entry → Tree → Tree
add_under none e rest = rest
add_under (some q) e rest = (q, e) ∷ rest

-- The part of a tree below `p`, by the paths from there.
abbrev pub under : Components → Tree → Tree
under p [] = []
under p ((q, e) ∷ tree) = add_under (strip p q) e (under p tree)

pub under-append : (p : Components) (s t : Tree) → under p (s ++ t) ≡ under p s ++ under p t
under-append p [] t = refl
under-append p ((q, e) ∷ s) t = elim (Option-cases (strip p q)) [
  | inl h ↦ rw h (under-append p s t)
  | inr (r, h) ↦ rw h (ap (◌∷◌ (r, e)) (under-append p s t))
]

-- A part of a tree that has nothing below `p` can be passed over.
pub skip : (p : Components) (s t : Tree) → under p s ≡ [] → under p (s ++ t) ≡ under p t
skip p s t h = under-append p s t ∙ ap (λ x. x ++ under p t) h

abbrev pub Aside : Components → Components → Type 0
Aside p to = (q : Components) → strip p (to ++ q) ≡ none

pub place-Aside : (p to : Components) (files : Files) → Aside p to → under p (place to files) ≡ []
unfolding place
place-Aside p to [] h = refl
place-Aside p to ((q, bytes) ∷ files) h = rw (h q) (place-Aside p to files h)

pub place-below :
    (p to : Components) (files : Files)
    → ((q : Components) → strip p (to ++ q) ≡ some q)
    → under p (place to files) ≡ place [] files
unfolding place
place-below p to [] h = refl
place-below p to ((q, bytes) ∷ files) h =
    rw (h q) (ap (◌∷◌ (q, file bytes)) (place-below p to files h))
