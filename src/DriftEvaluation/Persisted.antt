-- ===== src/DriftEvaluation/Persisted.antt =====
-- What the rows of `compliance_evaluations` satisfy.
use gard.Prelude.{
  ℕ, Bool, true, Option, none, some, List, [], ◌∷◌, ◌≡◌, refl, sym, subst, All, All-append,
  filter_by, Bool-cases, Option-cases, inl, inr,
}
use gard.Prelude.Rows.{find_row}
use gard.Prelude.Tx.{Outcome-cases}
use gard.Lifecycle.{lifecycle_eq}
use gard.Envelope.{ComplianceState, ComplianceEnvelope, DriftType, Reason}
use gard.Db.{
  Device, DeviceObservation, ComplianceEvaluation, Db, Call, emit, latest_compliance,
  latest_observation,
}
use gard.Compliance.{active_targets, latest_observed_firmware}
use gard.Compliance.Controller as Firmware
use gard.Compliance.Controller.{maybe_transition}
use gard.Drift.{primary_of}
use gard.DriftEvaluation.{
  Verdict, is_soft, soft_only, is_compliant, persisted, drift_set, secondary_of, drift_reasons,
  conclude, verdict_unchanged,
}
use gard.DriftEvaluation.Reasons.{IsDistinct, base_reasons-IsDistinct}
use gard.DriftEvaluation.Controller.{row_of, record_verdict, judge, evaluate}

-- no drift type, or a soft one
abbrev pub IsSoft : Option DriftType → Type 0
IsSoft none = Unit
IsSoft (some d) = is_soft d ≡ true

-- The row's drift types are soft ones if the device is compliant, and its reasons have pairwise
-- different signatures.
abbrev pub IsLawful : ComplianceEvaluation → Type 0
IsLawful row =
    (is_compliant row.compliance_state ≡ true
      → IsSoft row.primary_drift_type × All (λ d. is_soft d ≡ true) row.secondary_drift_types)
    × IsDistinct [] row.reasons

soft_only-IsSoft : (p : Option DriftType) → IsSoft (soft_only p)
soft_only-IsSoft none = tt
soft_only-IsSoft (some d) = elim (Bool-cases (is_soft d)) [ inl e ↦ rw e e | inr e ↦ rw e tt ]

filter_by-All : (p : DriftType → Bool) (l : List DriftType) → All (λ d. p d ≡ true) (filter_by p l)
filter_by-All p [] = tt
filter_by-All p (d ∷ l) = elim (Bool-cases (p d)) [
  | inl e ↦ rw e (e, filter_by-All p l)
  | inr e ↦ rw e (filter_by-All p l)
]

persisted-IsSoft :
    (state : ComplianceState) (primary : Option DriftType) (secondary : List DriftType)
    → is_compliant state ≡ true
    → IsSoft (persisted state primary secondary).0
      × All (λ d. is_soft d ≡ true) (persisted state primary secondary).1
unfolding persisted
persisted-IsSoft state primary secondary h =
    rw h (soft_only-IsSoft primary, filter_by-All is_soft secondary)

conclude-IsLawful :
    (call : Call) (device : Device) (f2 : ComplianceEnvelope) (obs : Option DeviceObservation)
    (drifts : List (DriftType × Reason)) (i j : ℕ)
    → IsLawful (row_of call i j (conclude device f2 obs drifts))
unfolding conclude
conclude-IsLawful call device f2 obs drifts i j = (
  λ h. persisted-IsSoft f2.state (primary_of (drift_set drifts)) (secondary_of drifts) h,
  (base_reasons-IsDistinct f2 drifts).0,
)

-- The firmware controller writes no such row.
firmware-compliance :
    (call : Call) (device_id : ℕ) (db : Db)
    → (Firmware.evaluate call device_id db).1.compliance ≡ db.compliance
unfolding Firmware.evaluate maybe_transition emit
firmware-compliance call device_id db =
    elim (Option-cases (find_row (λ r. r.id) device_id db.devices)) [
      | inl e ↦ rw e refl
      | inr (d, e) ↦
          rw e
            (elim (Outcome-cases
              (Firmware.judge d (active_targets db) (latest_observed_firmware d.id db))) [
                | inl (v, k) ↦
                    rw k (elim (Bool-cases (lifecycle_eq v.new_state d.lifecycle_state)) [
                      | inl l ↦ rw l refl
                      | inr l ↦ rw l refl
                    ])
                | inr (err, k) ↦ rw k refl
              ])
    ]

record_verdict-IsLawful :
    (call : Call) (device_id i : ℕ) (v : Verdict) (db : Db)
    → All IsLawful db.compliance
    → IsLawful (row_of call device_id i v)
    → All IsLawful (record_verdict call device_id i v db).1.compliance
unfolding record_verdict emit
record_verdict-IsLawful call device_id i v db h row =
    elim (Bool-cases (verdict_unchanged (latest_compliance device_id db) v)) [
      | inl e ↦ rw e h
      | inr e ↦
          rw e (All-append IsLawful db.compliance (row_of call device_id i v ∷ []) h (row, tt))
    ]

-- The rows stay lawful: a compliant row has evidence or discovery drift only, and no row states
-- two reasons with one signature.
pub evaluate-IsLawful :
    (call : Call) (device_id i : ℕ) (db : Db)
    → All IsLawful db.compliance
    → All IsLawful (evaluate call device_id i db).1.compliance
unfolding evaluate judge
evaluate-IsLawful call device_id i db h =
    elim (Option-cases (find_row (λ d. d.id) device_id db.devices)) [
      | inl e ↦ rw e h
      | inr (device, e) ↦
          let same = subst (All IsLawful) (sym (firmware-compliance call device_id db)) h in
          rw e (elim (Outcome-cases (Firmware.evaluate call device_id db).0) [
            | inl (f2, k) ↦ rw k (
                record_verdict-IsLawful call device_id i
                  (judge call device f2 (Firmware.evaluate call device_id db).1)
                  (Firmware.evaluate call device_id db).1 same
                  (conclude-IsLawful call device f2
                    (latest_observation device.id (Firmware.evaluate call device_id db).1)
                    (drift_reasons call (Firmware.evaluate call device_id db).1 device f2) device_id
                    i))
            | inr (err, k) ↦ rw k same
          ])
    ]
