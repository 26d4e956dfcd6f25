-- ===== src/DriftEvaluation/Batch.antt =====
-- `evaluate_many` of the compliance evaluation controller. A device of the batch comes with the
-- identifier that its insert would generate.
use gard.Prelude.{
  ℕ, none, some, List, [], ◌∷◌, ◌≡◌, refl, subst, ◌+◌, ◌≤◌, ltb, length, take, map, arith,
  Bool-cases, inl, inr, if◌then◌else◌,
}
use gard.Prelude.Tx.{returned, give, raise_if, writes, ◌>>=◌, ◌>>◌, Outcome-cases, returned_inj}
use gard.Envelope.{num, ids}
use gard.Db.{Db, Call, AuditEvent, emit}
use gard.DriftEvaluation.Controller.{too_many_devices, EvaluationTx, EvaluationOutcome, evaluate}

-- `evaluated` and `unchanged`
abbrev pub Counts : Type 0
Counts = ℕ × ℕ

abbrev pub tally : EvaluationOutcome → Counts → Counts
tally o c = if o.state_changed then (c.0 + 1, c.1) else (c.0, c.1 + 1)

-- `BatchOutcome`
pub record BatchOutcome : Type 0 where
  pub requested_count : ℕ
  pub evaluated_count : ℕ
  pub unchanged_count : ℕ
  pub correlation_id : ℕ

-- the audit row of the batch
abbrev pub batch_event : Call → List ℕ → Counts → AuditEvent
batch_event call device_ids c = record {
  action = "compliance.evaluation_triggered";
  object_type = "ComplianceEvaluationBatch";
  object_id = call.correlation_id;
  actor = call.actor;
  actor_type = call.actor_type;
  before = none;
  after = some (
      ("requested_device_count", num (length device_ids))
      ∷ ("evaluated_count", num c.0)
      ∷ ("unchanged_count", num c.1)
      ∷ ("first_device_ids", ids (take 100 device_ids))
      ∷ []);
}

abbrev pub outcome_of : Call → ℕ → Counts → BatchOutcome
outcome_of call requested c = record {
  requested_count = requested;
  evaluated_count = c.0;
  unchanged_count = c.1;
  correlation_id = call.correlation_id;
}

unfoldable pub evaluate_each : Call → List (ℕ × ℕ) → Counts → EvaluationTx Counts
unfolding evaluate
evaluate_each call [] c = give c
evaluate_each call ((device_id, evaluation_id) ∷ devices) c =
    evaluate call device_id evaluation_id >>= λ o. evaluate_each call devices (tally o c)

unfoldable pub evaluate_many : Call → List (ℕ × ℕ) → EvaluationTx BatchOutcome
unfolding evaluate_each
evaluate_many call devices = do
  raise_if (ltb call.settings.compliance_evaluate_max_batch (length devices))
      (too_many_devices (length devices) call.settings.compliance_evaluate_max_batch)
  c ← evaluate_each call devices (0, 0)
  writes (emit (batch_event call (map (λ d. d.0) devices) c))
  give (outcome_of call (length devices) c)

tally-count : (o : EvaluationOutcome) (c : Counts) → (tally o c).0 + (tally o c).1 ≡ c.0 + c.1 + 1
tally-count o c = elim (Bool-cases o.state_changed) [
  | inl e ↦ rw e (omega arith)
  | inr e ↦ rw e (omega arith)
]

evaluate_each-count :
    (call : Call) (devices : List (ℕ × ℕ)) (c c' : Counts) (db : Db)
    → (evaluate_each call devices c db).0 ≡ returned c'
    → c'.0 + c'.1 ≡ c.0 + c.1 + length devices
unfolding evaluate_each
evaluate_each-count call [] c c' db h =
    subst (λ x. x.0 + x.1 ≡ c.0 + c.1 + 0) (returned_inj h) (omega arith)
evaluate_each-count call ((d, i) ∷ devices) c c' db h =
    elim (Outcome-cases (evaluate call d i db).0) [
      | inl (o, e) ↦
          let rest =
            evaluate_each-count call devices (tally o c) c' (evaluate call d i db).1 (rw e at h) in
          omega (arith, rest, tally-count o c)
      | inr (err, e) ↦ absurd (cc (rw e at h))
    ]

-- A batch that returns is within the cap, and counts each of its devices once, as evaluated or as
-- unchanged.
pub evaluate_many-count :
    (call : Call) (devices : List (ℕ × ℕ)) (out : BatchOutcome) (db : Db)
    → (evaluate_many call devices db).0 ≡ returned out
    → (out.requested_count ≡ length devices)
      × (length devices ≤ call.settings.compliance_evaluate_max_batch)
      × (out.evaluated_count + out.unchanged_count ≡ out.requested_count)
unfolding evaluate_many
evaluate_many-count call devices out db h =
    elim (Bool-cases (ltb call.settings.compliance_evaluate_max_batch (length devices))) [
      | inl e ↦ absurd (cc (rw e at h))
      | inr e ↦ elim (Outcome-cases (evaluate_each call devices (0, 0) db).0) [
        | inl (c, k) ↦
            let total = evaluate_each-count call devices (0, 0) c db k in
            subst
              (λ o.
                (o.requested_count ≡ length devices)
                × (length devices ≤ call.settings.compliance_evaluate_max_batch)
                × (o.evaluated_count + o.unchanged_count ≡ o.requested_count))
              (returned_inj (rw (e, k) at h)) (refl, ground arith, omega arith)
        | inr (err, k) ↦ absurd (cc (rw (e, k) at h))
      ]
    ]
