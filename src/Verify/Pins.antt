-- ===== src/Verify/Pins.antt =====
-- What `check_dependencies` accepts.
use text.Mathlib.Text.{◌==◌ as str_eq}
use text.Mathlib.TextEquality.{eq_iff}
use leansphincs.Base.{
  ◌≡◌, refl, ap, ◌∙◌, ◌↔◌, String, true, not, ◌||◌, List, [], ◌∷◌, arith, All, ok, bind-eq-ok,
  raise_if_then,
}
use leansphincs.Verify.Report.{Table}
use leansphincs.Verify.World.{Package, Git, Look, check_package, check_packages, check_dependencies}

-- A package from git, at its revision, and without a change to a tracked file.
abbrev pub IsPinned : Git → Package → Type 0
IsPinned git p = (p.type ≡ "git") × (git.head p.name ≡ ok p.rev) × (git.dirty p.name ≡ ok "")

abbrev pub pins : List Package → Table
pins [] = []
pins (p ∷ ps) = (p.name, p.rev) ∷ pins ps

str_eq_refl : (s : String) → str_eq s s ≡ true
str_eq_refl s = (eq_iff s s).1 refl

module _ (git : Git) where
  check_package_inv :
      (p : Package) {revision : String}
      → check_package git p ≡ ok revision
      → IsPinned git p × (revision ≡ p.rev)
  unfolding check_package
  check_package_inv p h =
      let (head, e₁, h₁) = bind-eq-ok (git.head p.name) _ h in
      let (same, h₂) =
        raise_if_then (not (str_eq p.type "git") || not (str_eq head p.rev)) _ _ h₁ in
      let (dirty, e₂, h₃) = bind-eq-ok (git.dirty p.name) _ h₂ in
      let (clean, h₄) = raise_if_then (not (str_eq dirty "")) _ _ h₃ in
      let rev = (eq_iff head p.rev).0 (ground arith) in
      (
        (
          (eq_iff p.type "git").0 (ground arith),
          e₁ ∙ ap ok rev,
          e₂ ∙ ap ok ((eq_iff dirty "").0 (ground arith)),
        ),
        cc,
      )

  check_package_of : (p : Package) → IsPinned git p → check_package git p ≡ ok p.rev
  unfolding check_package
  check_package_of p (kind, head, clean) = rw (head, kind, str_eq_refl p.rev, clean)

  check_packages_iff :
      (ps : List Package) (t : Table)
      → (check_packages git ps ≡ ok t) ↔ (All (IsPinned git) ps × (t ≡ pins ps))
  unfolding check_packages
  check_packages_iff [] t = (λ h. (tt, cc), λ (_, e). rw e)
  check_packages_iff (p ∷ ps) t = (
    λ h.
        let (revision, one, h₁) = bind-eq-ok (check_package git p) _ h in
        let (rest, many, h₂) = bind-eq-ok (check_packages git ps) _ h₁ in
        let (pinned, same) = check_package_inv p one in
        let (all, same') = (check_packages_iff ps rest).0 many in ((pinned, all), cc),
    λ ((pinned, all), e).
        rw (check_package_of p pinned, (check_packages_iff ps (pins ps)).1 (all, refl), e),
  )

-- `check_dependencies` returns exactly when every package of the manifest comes from git, stands at
-- its pinned revision and has no change to a tracked file, and it returns the pins.
pub check_dependencies_iff :
    (look : Look) (t : Table)
    → (check_dependencies look ≡ ok t)
      ↔ ((ps : List Package) × (look.packages ≡ ok ps) × All (IsPinned look.git) ps × (t ≡ pins ps))
unfolding check_dependencies
check_dependencies_iff look t = (
  λ h.
      let (ps, e, h₁) = bind-eq-ok look.packages (check_packages look.git) h in
      let (all, same) = (check_packages_iff look.git ps t).0 h₁ in (ps, e, all, same),
  λ (ps, e, all, same). rw e ((check_packages_iff look.git ps t).1 (all, same)),
)
