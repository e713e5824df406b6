-- ===== src/Preflight/Enforced.antt =====
-- What a passed preflight has seen.
use leansphincs.Base.{
  ◌≡◌, refl, sym, subst, ap, ◌∙◌, String, ◌<>◌, true, not, List, [], ◌∷◌, ◌++◌, arith, Result, ok,
  err, bind-eq-ok, raise_if_then, ok-injective,
}
use leansphincs.Base.Int.{pos}
use leansphincs.Base.Value.{Value, obj, arr, str, int, bool, float, null, Fields, field?}
use leansphincs.Sandbox.{
  landlock_abi, Grant, all_words, grants, landrun_args, build_grants, dots_to_slashes,
}
use leansphincs.Sandbox.Writes.{writes, writes-grants}
use leansphincs.Sandbox.Unit.{systemd_command}
use leansphincs.Verify.Service.Cleanup.{IsStopped}
use leansphincs.Verify.Process.{run}
use leansphincs.Verify.Process.Confined.{unit_of, run-IsStopped}
use leansphincs.Verify.Stages.{is_zero}
use leansphincs.Verify.Phases.{zero_code}
use leansphincs.Preflight.{
  Mode, compile, verify, mode_text, is_compile, Site, is_passed, confirmed, confirm, with_directory,
  root, probe_argv, environment, probe, probes, check,
}

module _ (s : Site) (lean exporter landrun : String) where
  -- The paths that a probe of the mode may write.
  abbrev pub writable : Mode → List String
  writable compile =
      "/dev/null"
      ∷ (root s lean exporter landrun <> "/.lake/build/lib/lean/LeanSphincs/Submission")
      ∷ (root s lean exporter landrun <> "/.lake/build/ir/LeanSphincs/Submission")
      ∷ []
  writable verify = "/dev/null" ∷ []

  -- The probe program with what it is to test.
  abbrev pub probe_words : Mode → List String
  probe_words compile =
      "/usr/bin/python3"
      ∷ (root s lean exporter landrun <> "/probe.py")
      ∷ (s.parent <> "/unreadable.txt")
      ∷ "compile"
      ∷ []
  probe_words verify =
      "/usr/bin/python3"
      ∷ (root s lean exporter landrun <> "/probe.py")
      ∷ (s.parent <> "/unreadable.txt")
      ∷ "verify"
      ∷ []

  -- The probe program ran for the mode as a landrun child with the write grants of the mode, in a unit
  -- that is stopped now; it exited with zero, and the first line of its log says that it passed.
  abbrev pub IsProbed : Mode → Type 0
  IsProbed mode =
      ((gs : List Grant) × (argv : List String) × (systemd_command (s.hex mode)
            ((landrun ∷ all_words gs) ++ ("--" ∷ probe_words mode)) (root s lean exporter landrun)
            (environment s lean exporter landrun) 30
          ≡ ok argv)
        × (writes gs ≡ writable mode)
        × ((run (s.child mode) argv).1 ≡ ok (pos 0)))
      × ((s.child mode).wait ≡ ok (pos 0))
      × IsStopped ((s.child mode).service (unit_of (s.hex mode)))
      × ((line : String) × (rest : List String) × (fs : Fields) × (s.read_log mode
            ≡ ok (line ∷ rest))
          × (s.loads line ≡ ok (obj fs))
          × (is_passed (field? "probe" fs) ≡ true))

  confirmed_inv :
      (v : Value) {fs : Fields}
      → confirmed v ≡ ok fs
      → (v ≡ obj fs) × (is_passed (field? "probe" fs) ≡ true)
  confirmed_inv (obj gs) h =
      let (p, h₁) = raise_if_then (not (is_passed (field? "probe" gs))) _ _ h in
      let same = ok-injective gs _ h₁ in
      (ap obj same, subst (λ g. is_passed (field? "probe" g) ≡ true) same (ground arith))
  confirmed_inv (arr x) h = cc
  confirmed_inv (str x) h = cc
  confirmed_inv (int x) h = cc
  confirmed_inv (bool x) h = cc
  confirmed_inv (float x) h = cc
  confirmed_inv null h = cc

  confirm_inv :
      (lines : List String) {fs : Fields}
      → confirm s.loads lines ≡ ok fs
      → (line : String) × (rest : List String) × (lines ≡ line ∷ rest)
        × (s.loads line ≡ ok (obj fs))
        × (is_passed (field? "probe" fs) ≡ true)
  confirm_inv [] h = cc
  confirm_inv (line ∷ rest) h =
      let (v, loaded, h₁) = bind-eq-ok (s.loads line) confirmed h in
      let (same, passed) = confirmed_inv v h₁ in (line, rest, refl, loaded ∙ ap ok same, passed)

  writes-mode :
      (mode : Mode)
      → "/dev/null"
          ∷ writes (
              build_grants
                (is_compile mode)
                (root s lean exporter landrun)
                "LeanSphincs.Submission")
        ≡ writable mode
  unfolding dots_to_slashes
  writes-mode compile = refl
  writes-mode verify = refl

  words-mode :
      (mode : Mode)
      → ◌≡◌ {A = List String}
          ("/usr/bin/python3"
            ∷ (root s lean exporter landrun <> "/probe.py")
            ∷ (s.parent <> "/unreadable.txt")
            ∷ mode_text mode
            ∷ [])
          (probe_words mode)
  words-mode compile = refl
  words-mode verify = refl

  grants_of :
      (mode : Mode) {command : List String}
      → probe_argv s lean exporter landrun mode ≡ ok command
      → (gs : List Grant) × (command ≡ (landrun ∷ all_words gs) ++ ("--" ∷ probe_words mode))
        × (writes gs ≡ writable mode)
  unfolding landrun_args
  grants_of mode h =
      let here = root s lean exporter landrun in
      let (_, _, h₁) = bind-eq-ok (landlock_abi s.host) _ h in
      (
        grants s.host here lean exporter (is_compile mode) "LeanSphincs.Submission",
        sym (ok-injective _ _ h₁)
            ∙ ap
                (λ words.
                  (landrun
                    ∷ all_words (
                        grants s.host here lean exporter (is_compile mode)
                          "LeanSphincs.Submission"))
                  ++ ("--" ∷ words))
                (words-mode mode),
        writes-grants s.host here lean exporter (is_compile mode) "LeanSphincs.Submission"
            ∙ writes-mode mode,
      )

  probe-IsProbed :
      (mode : Mode) {fs : Fields} → probe s lean exporter landrun mode ≡ ok fs → IsProbed mode
  unfolding probe
  probe-IsProbed mode h =
      let here = root s lean exporter landrun in
      let (command, made, h₁) = bind-eq-ok (probe_argv s lean exporter landrun mode) _ h in
      let (argv, built, h₂) =
        bind-eq-ok
          (systemd_command (s.hex mode) command here (environment s lean exporter landrun) 30) _
          h₁ in
      let (code, ran, h₃) = bind-eq-ok (run (s.child mode) argv).1 _ h₂ in
      let (lines, read, h₄) = bind-eq-ok (s.read_log mode) _ h₃ in
      let (fine, h₅) = raise_if_then (not (is_zero code)) _ _ h₄ in
      let (line, rest, first, loaded, passed) = confirm_inv lines h₅ in
      let (gs, same, written) = grants_of mode made in
      let exited = ran ∙ ap ok (zero_code code fine) in
      let (waited, stopped) =
        run-IsStopped (s.hex mode) command here (environment s lean exporter landrun) 30
          (s.child mode) argv (pos 0) built exited in
      (
        (
          gs,
          argv,
          ap (λ c. systemd_command (s.hex mode) c here (environment s lean exporter landrun) 30)
                (sym same)
              ∙ built,
          written,
          exited,
        ),
        waited,
        stopped,
        (line, rest, _, read ∙ ap ok first, loaded, passed),
      )

  directory_then :
      {A : Type 0} (made removed : Result (Unit {0})) (body : Result A) {a : A}
      → with_directory made removed body ≡ ok a
      → body ≡ ok a
  directory_then (err e) removed body h = cc
  directory_then (ok u) (err e) body h = cc
  directory_then (ok u) (ok v) body h = h

  -- The preflight returns an answer only if the probe program ran twice behind landrun, each in its unit:
  -- once told to test a compilation, with the write grants of one, and once told to test a
  -- verification, with none but `/dev/null`. Both runs exited with zero and confirmed that they passed, and both units are stopped.
  pub check-IsProbed :
      (v : Value) → check s lean exporter landrun ≡ ok v → IsProbed compile × IsProbed verify
  unfolding check probes
  check-IsProbed v h =
      let (abi, _, h₁) = bind-eq-ok (landlock_abi s.host) _ h in
      let h₂ = directory_then s.set_up s.remove (probes s lean exporter landrun abi) h₁ in
      let (_, first, h₃) = bind-eq-ok (probe s lean exporter landrun compile) _ h₂ in
      let (_, second, _) = bind-eq-ok (probe s lean exporter landrun verify) _ h₃ in
      (probe-IsProbed compile first, probe-IsProbed verify second)
