-- ===== src/Sandbox/Launch.antt =====
-- What the launcher runs, and what a child of it may write.
use text.Mathlib.Text.{◌==◌ as str_eq}
use text.Mathlib.TextEquality.{eq_iff}
use leansphincs.Base.{
  ◌<>◌, ◌≡◌, refl, sym, ap, ◌∙◌, ◌↔◌, ◌⊎◌, inl, inr, String, Bool, true, false, not, ◌||◌,
  Bool-cases, List, [], ◌∷◌, ◌++◌, Option, none, some, arith, if◌then◌else◌, Result, ok, bind-eq-ok,
  ok-injective, raise_if_then,
}
use leansphincs.Base.Int.{ℤ}
use leansphincs.Sandbox.{
  Host, landlock_abi, Grant, all_words, build_grants, grants, landrun_args, Config,
  behind_delimiter, lake_of, is_target, is_lake, is_checker, admit_command, is_build, admit, launch,
}
use leansphincs.Sandbox.Writes.{writes, writes-grants}

-- The command line of a child with its grants.
abbrev pub confined : Host → String → Config → Bool → List String → List String
confined host root config build command =
    (config.landrun
      ∷ all_words
          (grants host root config.lean_prefix config.exporter build config.submission_prefix))
    ++ ("--" ∷ command)

-- A build of one of the two targets, when builds are not forbidden.
abbrev pub IsBuild : Config → String → List String → List String → Type 0
IsBuild config program rest command =
    (is_lake config program ≡ true)
    × (config.verification_only ≡ false)
    × ((target : String) × (rest ≡ "build" ∷ target ∷ [])
        × ((target ≡ config.challenge_module) ⊎ (target ≡ config.solution_module)))
    × (command ≡ lake_of config ∷ rest)

-- A run of the checker or of the exporter.
abbrev pub IsCheck : Config → String → List String → List String → Type 0
IsCheck config program rest command =
    (is_lake config program ≡ false)
    × ((program ≡ config.lean_prefix <> "/bin/leanchecker") ⊎ (program ≡ config.exporter))
    × (command ≡ program ∷ rest)

chosen :
    {A : Type 0} (b : Bool) (x y : Result A) {a : A}
    → (if b then x else y) ≡ ok a
    → ((b ≡ true) × (x ≡ ok a)) ⊎ ((b ≡ false) × (y ≡ ok a))
chosen true x y h = inl (refl, h)
chosen false x y h = inr (refl, h)

either_eq : (s a b : String) → (str_eq s a || str_eq s b) ≡ true → (s ≡ a) ⊎ (s ≡ b)
either_eq s a b h = elim (Bool-cases (str_eq s a)) [
  | inl e ↦ inl ((eq_iff s a).0 e)
  | inr e ↦ inr ((eq_iff s b).0 (ground arith))
]

either_of : (s a b : String) → (s ≡ a) ⊎ (s ≡ b) → (str_eq s a || str_eq s b) ≡ true
either_of s a b (inl e) = rw ((eq_iff s a).1 e) refl
either_of s a b (inr e) = ground (arith, (eq_iff s b).1 e)

is_target_inv :
    (config : Config) (rest : List String)
    → is_target config rest ≡ true
    → (target : String) × (rest ≡ "build" ∷ target ∷ [])
      × ((target ≡ config.challenge_module) ⊎ (target ≡ config.solution_module))
is_target_inv config (verb ∷ target ∷ []) h = (
  target,
  ap (λ v. v ∷ target ∷ []) ((eq_iff verb "build").0 (ground arith)),
  either_eq target _ _ (ground arith),
)
is_target_inv config [] h = cc
is_target_inv config (verb ∷ []) h = cc
is_target_inv config (verb ∷ target ∷ more ∷ rest) h = cc

module _ (config : Config) where
  admit_command_inv :
      (program : String) (rest command : List String)
      → admit_command config program rest ≡ ok command
      → IsBuild config program rest command ⊎ IsCheck config program rest command
  unfolding admit_command
  admit_command_inv program rest command h = elim (chosen (is_lake config program) _ _ h) [
    | inl (e, h₀) ↦
        let (allowed, h₁) = raise_if_then config.verification_only _ _ h₀ in
        let (target, h₂) = raise_if_then (not (is_target config rest)) _ _ h₁ in
        inl (
          e,
          allowed,
          is_target_inv config rest (ground arith),
          sym (ok-injective (lake_of config ∷ rest) _ h₂),
        )
    | inr (e, h₀) ↦
        let (known, h₁) = raise_if_then (not (is_checker config program)) _ _ h₀ in
        inr (e, either_eq program _ _ (ground arith), sym (ok-injective (program ∷ rest) _ h₁))
  ]

  admit_command_of :
      (program : String) (rest command : List String)
      → IsBuild config program rest command ⊎ IsCheck config program rest command
      → admit_command config program rest ≡ ok command
  unfolding admit_command
  admit_command_of program rest command (inl (lake, allowed, (target, e, known), same)) =
      rw
        (
          lake,
          allowed,
          e,
          either_of target config.challenge_module config.solution_module known,
          same,
        )
        (ap (λ r. ok (lake_of config ∷ r)) (sym e))
  admit_command_of program rest command (inr (other, known, same)) =
      rw
        (
          other,
          either_of program (config.lean_prefix <> "/bin/leanchecker") config.exporter known,
          same,
        )
        refl

module _ (host : Host) (root : String) (config : Config) where
  -- The launch of a command, once it is admitted.
  abbrev pub IsLaunched : List String → List String → Type 0
  IsLaunched args argv =
      (program : String) × (rest : List String) × (command : List String) × (behind_delimiter args
        ≡ some (program ∷ rest))
      × (IsBuild config program rest command ⊎ IsCheck config program rest command)
      × ((abi : ℤ) × (landlock_abi host ≡ ok abi))
      × (argv ≡ confined host root config (is_build config command) command)

  admit_inv :
      (o : Option (List String)) (command : List String)
      → admit config o ≡ ok command
      → (program : String) × (rest : List String) × (o ≡ some (program ∷ rest))
        × (admit_command config program rest ≡ ok command)
  unfolding admit
  admit_inv none command h = cc
  admit_inv (some []) command h = cc
  admit_inv (some (program ∷ rest)) command h = (program, rest, refl, h)

  launch_inv :
      (args argv : List String) → launch host root config args ≡ ok argv → IsLaunched args argv
  unfolding launch landrun_args
  launch_inv args argv h =
      let (command, admitted, h₁) = bind-eq-ok (admit config (behind_delimiter args)) _ h in
      let (abi, known, h₂) = bind-eq-ok (landlock_abi host) _ h₁ in
      let (program, rest, split, h₃) = admit_inv (behind_delimiter args) command admitted in
      (
        program,
        rest,
        command,
        split,
        admit_command_inv config program rest command h₃,
        (abi, known),
        sym (ok-injective _ argv h₂),
      )

  launch_of :
      (args argv : List String) → IsLaunched args argv → launch host root config args ≡ ok argv
  unfolding launch landrun_args admit
  launch_of args argv (program, rest, command, split, allowed, (abi, known), same) =
      rw (split, admit, admit_command_of config program rest command allowed, known, same) refl

  -- The launcher runs exactly the builds of the two declared targets, unless builds are forbidden,
  -- and the checker and the exporter; each under the pinned options, on a host with Landlock, and
  -- whatever stands before the delimiter is ignored.
  pub launch_iff :
      (args argv : List String) → (launch host root config args ≡ ok argv) ↔ IsLaunched args argv
  launch_iff args argv = (launch_inv args argv, launch_of args argv)

  -- When builds are forbidden, what is launched may write `/dev/null` and nothing else.
  pub launch-writes :
      (args argv : List String)
      → config.verification_only ≡ true
      → launch host root config args ≡ ok argv
      → (gs : List Grant) × (command : List String) × (argv
          ≡ (config.landrun ∷ all_words gs) ++ ("--" ∷ command))
        × (writes gs ≡ "/dev/null" ∷ [])
  launch-writes args argv only h =
      let (program, rest, command, _, allowed, _, same) = launch_inv args argv h in
      elim allowed [
        | inl (_, builds, _, _) ↦ absurd (cc)
        | inr (other, _, run) ↦
            let gs =
              grants host root config.lean_prefix config.exporter (is_build config command)
                config.submission_prefix in
            let no_build : is_build config command ≡ false = rw run (ground arith) in
            (
              gs,
              command,
              same,
              writes-grants host root _ _ _ _
                  ∙ ap (λ b. "/dev/null" ∷ writes (build_grants b root config.submission_prefix))
                      no_build,
            )
      ]
