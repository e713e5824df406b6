-- ===== src/Verify/Service/Cleanup.antt =====
-- When `stop_service` is content.
use text.Mathlib.Text.{◌==◌ as str_eq}
use leansphincs.Base.{
  ◌≡◌, refl, sym, ap, ◌∙◌, ◌↔◌, ◌⊎◌, inl, inr, String, Bool, true, false, not, ◌||◌, Bool-cases,
  List, Option, none, some, arith, if◌then◌else◌, Result, ok, ◌>>=◌, ◌>>◌, Exception, raise_if,
  bind-eq-ok, raise_if_then, then-eq-ok,
}
use leansphincs.Base.Value.{str_mem}
use leansphincs.Verify.Report.{Table}
use leansphincs.Verify.Service.{
  Service, field_of, check_populated, check_group, is_over, is_collected, check_active, has_states,
  stop_service,
}

abbrev pub IsGone : Option (List String) → Type 0
IsGone none = Unit
IsGone (some lines) = str_mem "populated 0" lines ≡ true

-- No process of the unit is left: its group is unnamed, gone, or unpopulated.
abbrev pub IsEmpty : Service → Option String → Type 0
IsEmpty service none = Unit
IsEmpty service (some group) =
    (str_eq group "" ≡ true)
    ⊎ ((str_eq group "" ≡ false)
        × ((events : Option (List String)) × (service.events group ≡ ok events) × IsGone events))

-- The stop and the query ran, the answer has the three states, and the unit was collected or is over.
abbrev pub IsStopped : Service → Type 0
IsStopped service =
    (service.stop ≡ ok tt)
    × ((failed : Bool) × (fields : Table) × (service.show ≡ ok (failed, fields))
        × (has_states fields ≡ true)
        × ((is_collected fields ≡ true)
            ⊎ ((is_collected fields ≡ false)
                × (failed ≡ false)
                × (is_over fields ≡ true)
                × IsEmpty service (field_of "ControlGroup" fields))))

check_populated_iff :
    (unit : String) (o : Option (List String)) → (check_populated unit o ≡ ok tt) ↔ IsGone o
check_populated_iff unit none = (λ h. tt, λ h. refl)
check_populated_iff unit (some lines) = (λ h. ground arith, λ h. rw h refl)

then_ok : {A : Type 0} (x : Result (Unit {0})) (m : Result A) → x ≡ ok tt → (x >> m) ≡ m
then_ok x m e = rw e refl

bind_ok : {A B : Type 0} (x : Result A) (k : A → Result B) {a : A} → x ≡ ok a → (x >>= k) ≡ k a
bind_ok x k e = rw e refl

passes :
    {A : Type 0} (b : Bool) (e : Exception) (m : Result A)
    → b ≡ true
    → (raise_if (not b) e >> m) ≡ m
passes b e m h = rw h refl

module _ (service : Service) (unit : String) where
  check_group_iff :
      (o : Option String) → (check_group service.events unit o ≡ ok tt) ↔ IsEmpty service o
  check_group_iff none = (λ h. tt, λ h. refl)
  check_group_iff (some group) = elim (Bool-cases (str_eq group "")) [
    | inl e ↦ (λ h. inl e, λ h. rw e refl)
    | inr e ↦ (
      λ h.
          let (events, read, h₁) = bind-eq-ok (service.events group) (check_populated unit) (
            sym (ap (λ b. if b then ok tt else (service.events group >>= check_populated unit)) e)
            ∙ h) in
          inr (e, (events, read, (check_populated_iff unit events).0 h₁)),
      λ h. back e h,
    )
  ]
    where
      back :
          {group : String}
          → str_eq group "" ≡ false
          → IsEmpty service (some group)
          → check_group service.events unit (some group) ≡ ok tt
      back e (inl f) = absurd (cc)
      back e (inr (_, (events, read, gone))) =
          rw (e, read) ((check_populated_iff unit events).1 gone)

  check_active_iff :
      (failed : Bool) (fields : Table)
      → (check_active service unit failed fields ≡ ok tt) ↔ (
          (failed ≡ false)
          × (is_over fields ≡ true)
          × IsEmpty service (field_of "ControlGroup" fields))
  unfolding check_active
  check_active_iff failed fields =
      let (forth, back) = check_group_iff (field_of "ControlGroup" fields) in
      (
        λ h.
            let (fine, h₁) = raise_if_then (failed || not (is_over fields)) _ _ h in
            (ground arith, ground arith, forth h₁),
        λ (f, over, empty). rw (f, over) (back empty),
      )

  -- The last line of the function.
  ended_iff :
      (failed : Bool) (fields : Table)
      → ((if is_collected fields then ok tt else check_active service unit failed fields) ≡ ok tt)
        ↔ ((is_collected fields ≡ true)
            ⊎ ((is_collected fields ≡ false)
                × (failed ≡ false)
                × (is_over fields ≡ true)
                × IsEmpty service (field_of "ControlGroup" fields)))
  ended_iff failed fields =
      let (forth, back) = check_active_iff failed fields in
      by_test (is_collected fields) (check_active service unit failed fields) forth back
    where
      by_test :
          {A B C : Type 0} (b : Bool) (x : Result (Unit {0}))
          → (x ≡ ok tt → A × B × C)
          → (A × B × C → x ≡ ok tt)
          → ((if b then ok tt else x) ≡ ok tt) ↔ ((b ≡ true) ⊎ ((b ≡ false) × A × B × C))
      by_test true x f g = (λ h. inl refl, λ h. refl)
      by_test false x f g = (
        λ h. let (a, b, c) = f h in inr (refl, a, b, c),
        λ h. elim h [ inl e ↦ absurd (cc) | inr (_, a, b, c) ↦ g (a, b, c) ],
      )

  -- `stop_service` returns exactly when the stop and the query ran, the answer has the three states,
  -- and either systemd has collected the unit, or the query succeeded, the unit is inactive or failed
  -- and no process is left in its group.
  pub stop_service_iff : (stop_service service unit ≡ ok tt) ↔ IsStopped service
  unfolding stop_service
  stop_service_iff = (
    λ h.
        let (stopped, h₁) = then-eq-ok service.stop _ h in
        let ((failed, fields), shown, h₂) = bind-eq-ok service.show _ h₁ in
        let (known, h₃) = raise_if_then (not (has_states fields)) _ _ h₂ in
        (stopped, (failed, fields, shown, ground arith, (ended_iff failed fields).0 h₃)),
    λ (stopped, (failed, fields, shown, known, ended)).
        then_ok service.stop _ stopped
        ∙ (bind_ok service.show _ shown
            ∙ (passes (has_states fields) _ _ known ∙ (ended_iff failed fields).1 ended)),
  )
