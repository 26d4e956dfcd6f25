-- ===== src/Compliance/Judgement.antt =====
-- What one evaluation concludes and writes.
use mathlib.Core.Path.{subst, subst₂}
use gard.Prelude.{
  ℕ, String, ◌≡◌, ◌≢◌, ◌⊎◌, refl, sym, ap, Option, none, some, List, [], ◌∷◌, ◌++◌, arith, ◌==◌, In,
  Bool-cases, Option-cases, inl, inr, if◌then◌else◌, str_eq, eq_iff, ==_self,
}
use gard.Prelude.Rows.{find_row-update_row, find_row-key}
use gard.Prelude.Tx.{
  Outcome, returned, Outcome-cases, and_then, attempt, require_some, returned_inj,
}
use gard.Lifecycle.{LifecycleState, lifecycle_eq, lifecycle_eq_iff}
use gard.Envelope.{
  ComplianceState, classified, compliant, outside_target, unknown, ComplianceEnvelope,
}
use gard.Db.{Device, FirmwareTarget, AuditEvent, Db, Call, emit}
use gard.Uplift.Wave.Members.{get_device}
use gard.Compliance.{
  Candidate, ComplianceError, facts_for, active_targets, latest_observed_firmware, resolve_target,
}
use gard.Compliance.Controller.{Verdict, classify, conclude, judge, maybe_transition, evaluate}
use gard.Compliance.Winner.{InScope, IsBest, resolve_target-returned}

-- The state that the observed version has under a target.
pub data IsStateFor (version : String) : Option String → ComplianceState → Type 0 where
  not_observed : IsStateFor version none unknown
  observed_target : IsStateFor version (some version) compliant
  observed_other : (v : String) → v ≢ version → IsStateFor version (some v) outside_target

-- The lifecycle state of the same name.
abbrev pub as_lifecycle : ComplianceState → LifecycleState
as_lifecycle classified = LifecycleState.classified
as_lifecycle ComplianceState.target_defined = LifecycleState.target_defined
as_lifecycle compliant = LifecycleState.compliant
as_lifecycle outside_target = LifecycleState.outside_target
as_lifecycle unknown = LifecycleState.unknown

-- The envelope's verdict on a device, from the live targets and the latest observation.
pub data IsVerdict (targets : List FirmwareTarget) (d : Device) (observed : Option String)
    (env : ComplianceEnvelope) : Type 0 where
  unclaimed :
      ((t : FirmwareTarget) → In t targets → ¬ (InScope (facts_for d) t))
      → env.state ≡ classified
      → env.target_ref ≡ none
      → IsVerdict targets d observed env
  claimed :
      (w : Candidate)
      → IsBest targets (facts_for d) w
      → env.target_ref ≡ some w.target.id
      → env.target_version ≡ some w.target.target_version
      → IsStateFor w.target.target_version observed env.state
      → IsVerdict targets d observed env

classify-IsStateFor :
    (d : Device) (observed : Option String) (w : Candidate) (rest : List Candidate)
    → IsStateFor w.target.target_version observed (classify d observed w rest).envelope.state
unfolding classify
classify-IsStateFor d none w rest = not_observed
classify-IsStateFor d (some v) w rest = elim (Bool-cases (str_eq v w.target.target_version)) [
  | inl e ↦
      let same : w.target.target_version ≡ v = sym ((eq_iff v w.target.target_version).0 e) in
      rw e (subst (λ x. IsStateFor w.target.target_version (some x) compliant) same observed_target)
  | inr e ↦ rw e (observed_other v (λ q. absurd (cc (e, (eq_iff v w.target.target_version).1 q))))
]

abbrev IsJudged : List FirmwareTarget → Device → Option String → Verdict → Type 0
IsJudged targets d observed v =
    IsVerdict targets d observed v.envelope × (v.new_state ≡ as_lifecycle v.envelope.state)

classify-ref :
    (d : Device) (observed : Option String) (w : Candidate) (rest : List Candidate)
    → ((classify d observed w rest).envelope.target_ref ≡ some w.target.id)
      × ((classify d observed w rest).envelope.target_version ≡ some w.target.target_version)
      × ((classify d observed w rest).new_state
          ≡ as_lifecycle (classify d observed w rest).envelope.state)
unfolding classify
classify-ref d none w rest = (refl, refl, refl)
classify-ref d (some v) w rest = elim (Bool-cases (str_eq v w.target.target_version)) [
  | inl e ↦ rw e (refl, refl, refl)
  | inr e ↦ rw e (refl, refl, refl)
]

judge-IsJudged :
    (targets : List FirmwareTarget) (d : Device) (observed : Option String) (v : Verdict)
    → judge d targets observed ≡ returned v
    → IsJudged targets d observed v
unfolding judge
judge-IsJudged [] d observed v h =
    subst (IsJudged [] d observed) (returned_inj h)
      ((unclaimed (λ t i s. absurd i) refl refl), refl)
judge-IsJudged (t ∷ ts) d observed v h =
    elim (Outcome-cases (resolve_target (t ∷ ts) (facts_for d))) [
      | inr (e, bad) ↦ absurd (cc (rw (bad, and_then) at h))
      | inl (r, resolved) ↦
          let h₁ = rw (resolved, and_then) at h in
          elim (resolve_target-returned (t ∷ ts) (facts_for d) r resolved) [
            | inr (is_none, alone) ↦
                subst (IsJudged (t ∷ ts) d observed) (returned_inj (rw (is_none, conclude) at h₁))
                  ((unclaimed alone refl refl), refl)
            | inl (w, is_some, best) ↦
                let (ref, version, state) = classify-ref d observed w r.runners_up in
                subst (IsJudged (t ∷ ts) d observed) (returned_inj (rw (is_some, conclude) at h₁)) (
                  (claimed w best ref version (classify-IsStateFor d observed w r.runners_up)),
                  state,
                )
          ]
    ]

-- One evaluation of the device `device_id`.
pub record Evaluated (device_id : ℕ) (db : Db) (env : ComplianceEnvelope) (db' : Db) : Type 0 where
  pub device : Device
  pub found : get_device device_id db ≡ some device
  pub verdict : IsVerdict (active_targets db) device (latest_observed_firmware device_id db) env
  pub device_after :
      get_device device_id db' ≡ some (record device { lifecycle_state = as_lifecycle env.state })
  pub others_after : (i : ℕ) → i ≢ device_id → get_device i db' ≡ get_device i db
  pub audited :
      ((device.lifecycle_state ≡ as_lifecycle env.state) × (db' ≡ db))
      ⊎ ((device.lifecycle_state ≢ as_lifecycle env.state)
          × (e : AuditEvent) × (db'.audit ≡ db.audit ++ e ∷ []))

transition_after :
    (call : Call) (d : Device) (v : Verdict) (observed : Option String) (db : Db) (i : ℕ)
    → get_device d.id db ≡ some d
    → get_device i (maybe_transition call d v observed db)
      ≡ (if i == d.id then some (record d { lifecycle_state = v.new_state }) else get_device i db)
unfolding maybe_transition emit
transition_after call d v observed db i found =
    elim (Bool-cases (lifecycle_eq v.new_state d.lifecycle_state)) [
      | inl e ↦
          let same : v.new_state ≡ d.lifecycle_state =
            (lifecycle_eq_iff v.new_state d.lifecycle_state).0 e in
          rw (e, same)
            (elim (Bool-cases (i == d.id)) [
              | inl h ↦ let here : i ≡ d.id = ground arith in rw h (rw here found)
              | inr h ↦ rw h refl
            ])
      | inr e ↦ rw e (
          rw
            (find_row-update_row (λ (r : Device). r.id) d.id i
              (λ (r : Device). record r { lifecycle_state = v.new_state }) (λ r. refl) db.devices)
            (elim (Bool-cases (i == d.id)) [
              | inl h ↦ let here : i ≡ d.id = ground arith in rw h (rw here (rw found refl))
              | inr h ↦ rw h refl
            ]))
    ]

transition_audited :
    (call : Call) (d : Device) (v : Verdict) (observed : Option String) (db : Db)
    → ((d.lifecycle_state ≡ v.new_state) × (maybe_transition call d v observed db ≡ db))
      ⊎ ((d.lifecycle_state ≢ v.new_state)
          × (e : AuditEvent) × ((maybe_transition call d v observed db).audit ≡ db.audit ++ e ∷ []))
unfolding maybe_transition emit
transition_audited call d v observed db =
    elim (Bool-cases (lifecycle_eq v.new_state d.lifecycle_state)) [
      | inl e ↦ rw e (inl (sym ((lifecycle_eq_iff v.new_state d.lifecycle_state).0 e), refl))
      | inr e ↦ rw e (
          inr (
            (λ q. absurd (cc (e, (lifecycle_eq_iff v.new_state d.lifecycle_state).1 (sym q)))),
            _,
            refl,
          ))
    ]

-- When `evaluate` returns, its envelope is the verdict on the live targets and the latest
-- observed version; the device has the lifecycle state of that verdict, no other device has
-- changed, and one audit row is written if the state is new, nothing at all if it is not.
pub evaluate-returned :
    (call : Call) (device_id : ℕ) (db db' : Db) (env : ComplianceEnvelope)
    → evaluate call device_id db ≡ (returned env, db')
    → Evaluated device_id db env db'
unfolding evaluate
evaluate-returned call device_id db db' env h = elim (Option-cases (get_device device_id db)) [
  | inl missing ↦ absurd (cc (rw (missing, require_some) at h))
  | inr (d, found) ↦
      let at_id : d.id ≡ device_id = find_row-key (λ r. r.id) device_id db.devices d found in
      let h₁ = rw (found, require_some) at h in
      let observed = latest_observed_firmware d.id db in
      elim (Outcome-cases (judge d (active_targets db) observed)) [
        | inr (e, bad) ↦ absurd (cc (rw (bad, attempt) at h₁))
        | inl (v, judged) ↦
            let h₂ = rw (judged, attempt) at h₁ in
            let env_eq : v.envelope ≡ env = cc h₂ in
            let db_eq = ap (λ (p : Outcome ComplianceError ComplianceEnvelope × Db). p.1) h₂ in
            let (verdict, state) = judge-IsJudged (active_targets db) d observed v judged in
            let found_own = subst (λ i. get_device i db ≡ some d) (sym at_id) found in
            subst₂ (Evaluated device_id db) env_eq db_eq (record {
              device = d;
              found = found;
              verdict =
                  subst
                    (λ i.
                      IsVerdict (active_targets db) d (latest_observed_firmware i db) v.envelope)
                    at_id verdict;
              device_after =
                  rw (transition_after call d v observed db device_id found_own)
                    (rw (at_id, state) (rw (==_self device_id) refl));
              others_after = λ i ne.
                  rw (transition_after call d v observed db i found_own)
                    (rw at_id (ground (arith, ne)));
              audited =
                  subst
                    (λ s.
                      ((d.lifecycle_state ≡ s) × (maybe_transition call d v observed db ≡ db))
                      ⊎ ((d.lifecycle_state ≢ s)
                          × (e : AuditEvent) × ((maybe_transition call d v observed db).audit
                              ≡ db.audit ++ e ∷ [])))
                    state (transition_audited call d v observed db);
            })
      ]
]
