-- ===== src/Verify/Process/Stopped.antt =====
-- What is left of a child when `run` is over.
use leansphincs.Base.{
  ◌≡◌, refl, sym, subst, append_assoc, ap, ◌∙◌, ◌↔◌, ◌⊎◌, inl, inr, String, List, [], ◌∷◌, ◌++◌,
  All, Exception, ok, err,
}
use leansphincs.Base.Int.{ℤ}
use leansphincs.Verify.Service.{stop_service}
use leansphincs.Verify.Process.{
  Kill, delivered, lookup_error, refused, Child, Event, opening, starting, waiting, killing,
  reaping, stopping, Traced, act, ◌>>◌, finally_do, units, signal_group, stop_units, clean_up, run,
}

-- The units of which the stop succeeded.
abbrev pub AllStopped : Child → List String → Type 0
AllStopped child = All (λ unit. stop_service (child.service unit) unit ≡ ok tt)

finally_result :
    {A : Type 0} (m : Traced A) (c : Traced (Unit {0})) (a : A)
    → ((finally_do m c).1 ≡ ok a) ↔ ((m.1 ≡ ok a) × (c.1 ≡ ok tt))
finally_result (t, x) (s, ok u) a = (λ h. (h, refl), λ h. h.0)
finally_result (t, x) (s, err e) a = (λ h. cc, λ h. cc)

then_result :
    {A : Type 0} (m : Traced (Unit {0})) (k : Traced A) (a : A)
    → ((m >> k).1 ≡ ok a) ↔ ((m.1 ≡ ok tt) × (k.1 ≡ ok a))
then_result (t, ok u) (s, x) a = (λ h. (refl, h), λ h. h.1)
then_result (t, err e) (s, x) a = (λ h. cc, λ h. cc)

finally_trace :
    {A : Type 0} (m : Traced A) (c : Traced (Unit {0})) → (finally_do m c).0 ≡ m.0 ++ c.0
finally_trace (t, x) (s, ok u) = refl
finally_trace (t, x) (s, err e) = refl

then_trace :
    {A : Type 0} (m : Traced (Unit {0})) (k : Traced A) → m.1 ≡ ok tt → (m >> k).0 ≡ m.0 ++ k.0
then_trace (t, ok u) k h = refl
then_trace (t, err e) k h = cc

module _ (child : Child) where
  stop_units_iff : (us : List String) → ((stop_units child us).1 ≡ ok tt) ↔ AllStopped child us
  unfolding stop_units
  stop_units_iff [] = (λ h. tt, λ h. refl)
  stop_units_iff (u ∷ us) =
      let (f, g) =
        then_result (act (stopping u) (stop_service (child.service u) u)) (stop_units child us)
          tt in
      let (forth, back) = stop_units_iff us in
      (λ h. let (a, b) = f h in (a, forth b), λ (a, b). g (a, back b))

  clean_up_iff :
      (command : List String)
      → ((clean_up child command).1 ≡ ok tt) ↔ (
          AllStopped child (units command)
          × (signal_group child.kill ≡ ok tt)
          × (child.reap ≡ ok tt))
  unfolding clean_up
  clean_up_iff command =
      let last = act killing (signal_group child.kill) >> act reaping child.reap in
      let (f, g) = finally_result (stop_units child (units command)) last tt in
      let (f', g') =
        then_result (act killing (signal_group child.kill)) (act reaping child.reap) tt in
      let (forth, back) = stop_units_iff (units command) in
      (
        λ h. let (a, b) = f h in let (c, d) = f' b in (forth a, c, d),
        λ (a, c, d). g (back a, g' (c, d)),
      )

  -- `run` returns a code exactly when the log opened, the process started and exited with that code in
  -- time, every unit of the command is known to have stopped, the process group got its signal or was
  -- gone, and the process was waited for. Whatever fails on the way raises instead.
  pub run_iff :
      (command : List String) (code : ℤ)
      → ((run child command).1 ≡ ok code) ↔ (
          (child.open_log ≡ ok tt)
          × (child.popen ≡ ok tt)
          × (child.wait ≡ ok code)
          × AllStopped child (units command)
          × (signal_group child.kill ≡ ok tt)
          × (child.reap ≡ ok tt))
  unfolding run
  run_iff command code =
      let body = finally_do (act waiting child.wait) (clean_up child command) in
      let (f₁, g₁) =
        then_result (act opening child.open_log) (act starting child.popen >> body) code in
      let (f₂, g₂) = then_result (act starting child.popen) body code in
      let (f₃, g₃) = finally_result (act waiting child.wait) (clean_up child command) code in
      let (forth, back) = clean_up_iff command in
      (
        λ h.
            let (opened, h₁) = f₁ h in
            let (started, h₂) = f₂ h₁ in
            let (exited, h₃) = f₃ h₂ in
            let (stopped, signalled, reaped) = forth h₃ in
            (opened, started, exited, stopped, signalled, reaped),
        λ (opened, started, exited, stopped, signalled, reaped).
            g₁ (opened, g₂ (started, g₃ (exited, back (stopped, signalled, reaped)))),
      )

  -- The end of every trace of a process that started.
  abbrev pub IsKilled : List Event → Type 0
  IsKilled trace =
      (before : List Event) × ((trace ≡ before ++ (killing ∷ reaping ∷ []))
        ⊎ ((trace ≡ before ++ (killing ∷ [])) × ((e : Exception) × (child.kill ≡ refused e))))

  killed :
      (kill : Kill)
      → (child.kill ≡ kill)
      → IsKilled ((act killing (signal_group kill) >> act reaping child.reap).0)
  killed delivered e = ([], inl refl)
  killed lookup_error e = ([], inl refl)
  killed (refused x) e = ([], inr (refl, (x, e)))

  IsKilled-append : (t s : List Event) → IsKilled s → IsKilled (t ++ s)
  IsKilled-append t s (before, inl e) =
      (t ++ before, inl (ap (◌++◌ t) e ∙ sym (append_assoc t before (killing ∷ reaping ∷ []))))
  IsKilled-append t s (before, inr (e, r)) =
      (t ++ before, inr (ap (◌++◌ t) e ∙ sym (append_assoc t before (killing ∷ [])), r))

  clean_up-IsKilled : (command : List String) → IsKilled (clean_up child command).0
  unfolding clean_up
  clean_up-IsKilled command =
      let last = act killing (signal_group child.kill) >> act reaping child.reap in
      let stops = stop_units child (units command) in
      subst IsKilled (sym (finally_trace stops last))
        (IsKilled-append stops.0 last.0 (killed child.kill refl))

  started_run :
      (command : List String)
      → child.open_log ≡ ok tt
      → child.popen ≡ ok tt
      → (run child command).0 ≡ opening ∷ starting ∷ waiting ∷ (clean_up child command).0
  unfolding run
  started_run command opened started =
      let body = finally_do (act waiting child.wait) (clean_up child command) in
      then_trace (act opening child.open_log) (act starting child.popen >> body) opened
      ∙ ap (◌∷◌ opening) (
          then_trace (act starting child.popen) body started
          ∙ ap (◌∷◌ starting) (finally_trace (act waiting child.wait) (clean_up child command)))

  -- Once a process has started, its whole group is killed and then waited for, however the wait
  -- ended (an exit, a timeout, an interrupt) and whatever the stop of the units raised. Only a
  -- refused signal, which raises, leaves out the last wait.
  pub run-IsKilled :
      (command : List String)
      → child.open_log ≡ ok tt
      → child.popen ≡ ok tt
      → IsKilled (run child command).0
  run-IsKilled command opened started = subst IsKilled (sym (started_run command opened started)) (
      IsKilled-append (opening ∷ starting ∷ waiting ∷ []) (clean_up child command).0
        (clean_up-IsKilled command))
