-- ===== src/Readiness/Batch.antt =====
-- `evaluate_many` of the readiness controller. A device of the batch comes with the identifier
-- that its insert would generate.
use gard.Prelude.{
  ℕ, none, some, List, [], ◌∷◌, ◌≡◌, refl, subst, Bool-cases, ◌+◌, ◌≤◌, Bool, true, false, ltb,
  length, take, map, arith, if◌then◌else◌, inl, inr,
}
use gard.Prelude.Tx.{
  Outcome, returned, raised, give, raise_if, writes, ◌>>=◌, ◌>>◌, Outcome-cases, returned_inj,
}
use gard.Envelope.{num, ids, ReadinessState, not_applicable}
use gard.Db.{Db, Call, AuditEvent, emit}
use gard.UpgradePath.{Networkx}
use gard.Readiness.{
  ReadinessError, too_many_devices, input_stale, device_not_found, bad_selector, bad_rule, bad_path,
}
use gard.Readiness.Controller.{ReadinessOutcome, ReadinessTx}
use gard.Readiness.Evaluate.{evaluate}

pub record Counts : Type 0 where
  pub evaluated : ℕ
  pub unchanged : ℕ
  pub not_applicable : ℕ

abbrev pub none_counted : Counts
none_counted = record { evaluated = 0; unchanged = 0; not_applicable = 0 }

-- `ReadinessBatchOutcome`
pub record BatchOutcome : Type 0 where
  pub requested_count : ℕ
  pub evaluated_count : ℕ
  pub unchanged_count : ℕ
  pub not_applicable_count : ℕ
  pub correlation_id : ℕ

abbrev pub is_not_applicable : ReadinessState → Bool
is_not_applicable not_applicable = true
is_not_applicable _ = false

-- the end of a round
abbrev pub tally : ReadinessOutcome → Counts → Counts
tally o c = record {
  evaluated = if o.state_changed then c.evaluated + 1 else c.evaluated;
  unchanged = if o.state_changed then c.unchanged else c.unchanged + 1;
  not_applicable =
      if is_not_applicable o.envelope.state then c.not_applicable + 1 else c.not_applicable;
}

-- `except ReadinessInputStale`: the count goes on, any other error leaves the loop
abbrev pub settle : Outcome ReadinessError ReadinessOutcome → Counts → Outcome ReadinessError Counts
settle (returned o) c = returned (tally o c)
settle (raised (input_stale i t n)) c =
    returned (record c { not_applicable = c.not_applicable + 1 })
settle (raised e) c = raised e

-- the audit row of the batch
abbrev pub batch_event : Call → List ℕ → Counts → AuditEvent
batch_event call device_ids c = record {
  action = "readiness.evaluation_triggered";
  object_type = "ReadinessEvaluationBatch";
  object_id = call.correlation_id;
  actor = call.actor;
  actor_type = call.actor_type;
  before = none;
  after = some (
      ("requested_device_count", num (length device_ids))
      ∷ ("evaluated_count", num c.evaluated)
      ∷ ("unchanged_count", num c.unchanged)
      ∷ ("not_applicable_count", num c.not_applicable)
      ∷ ("first_device_ids", ids (take 100 device_ids))
      ∷ []);
}

module _ (nx : Networkx) where
  -- one round of the loop
  abbrev pub round : Call → ℕ × ℕ → Counts → ReadinessTx Counts
  round call (device_id, evaluation_id) c db =
      let (r, db') = evaluate nx call device_id evaluation_id db in (settle r c, db')

  unfoldable pub evaluate_each : Call → List (ℕ × ℕ) → Counts → ReadinessTx Counts
  unfolding evaluate
  evaluate_each call [] c = give c
  evaluate_each call (d ∷ devices) c = round call d c >>= evaluate_each call devices

  unfoldable pub evaluate_many : Call → List (ℕ × ℕ) → ReadinessTx BatchOutcome
  unfolding evaluate_each
  evaluate_many call devices = do
    raise_if (ltb call.settings.compliance_evaluate_max_batch (length devices))
        (too_many_devices (length devices) call.settings.compliance_evaluate_max_batch)
    c ← evaluate_each call devices none_counted
    writes (emit (batch_event call (map (λ d. d.0) devices) c))
    give (record {
      requested_count = length devices;
      evaluated_count = c.evaluated;
      unchanged_count = c.unchanged;
      not_applicable_count = c.not_applicable;
      correlation_id = call.correlation_id;
    })

  -- what the counters count
  Tallied : ℕ → Counts → Counts → Type 0
  Tallied n c c' =
      (c'.evaluated + c'.unchanged ≤ c.evaluated + c.unchanged + n)
      × (c.evaluated + c.unchanged + c.not_applicable + n
          ≤ c'.evaluated + c'.unchanged + c'.not_applicable)

  settle-Tallied :
      (r : Outcome ReadinessError ReadinessOutcome) (c c' : Counts)
      → settle r c ≡ returned c'
      → Tallied 1 c c'
  unfolding Tallied
  settle-Tallied (returned o) c c' h =
      subst (Tallied 1 c) (returned_inj h) (elim (Bool-cases o.state_changed) [
        | inl e ↦ rw e (omega arith, ground arith)
        | inr e ↦ rw e (omega arith, ground arith)
      ])
  settle-Tallied (raised (input_stale i t n)) c c' h =
      subst (Tallied 1 c) (returned_inj h) (omega arith, omega arith)
  settle-Tallied (raised (device_not_found i)) c c' h = absurd (cc h)
  settle-Tallied (raised (too_many_devices i n)) c c' h = absurd (cc h)
  settle-Tallied (raised (bad_selector e)) c c' h = absurd (cc h)
  settle-Tallied (raised (bad_rule e)) c c' h = absurd (cc h)
  settle-Tallied (raised (bad_path e)) c c' h = absurd (cc h)

  evaluate_each-Tallied :
      (call : Call) (devices : List (ℕ × ℕ)) (c c' : Counts) (db : Db)
      → (evaluate_each call devices c db).0 ≡ returned c'
      → Tallied (length devices) c c'
  unfolding evaluate_each Tallied
  evaluate_each-Tallied call [] c c' db h =
      subst (Tallied 0 c) (returned_inj h) (omega arith, omega arith)
  evaluate_each-Tallied call (d ∷ devices) c c' db h =
      elim (Outcome-cases (settle (evaluate nx call d.0 d.1 db).0 c)) [
        | inl (c1, e) ↦
            let first = settle-Tallied (evaluate nx call d.0 d.1 db).0 c c1 e in
            let rest =
              evaluate_each-Tallied call devices c1 c' (evaluate nx call d.0 d.1 db).1
                (rw e at h) in
            (omega arith, omega arith)
        | inr (err, e) ↦ absurd (cc (rw e at h))
      ]

  -- A batch that is not refused for its size counts each of its devices: none both as evaluated
  -- and as unchanged, and each at least once when those that are not applicable are added.
  pub evaluate_many-Counts :
      (call : Call) (devices : List (ℕ × ℕ)) (out : BatchOutcome) (db : Db)
      → (evaluate_many call devices db).0 ≡ returned out
      → (out.requested_count ≡ length devices)
        × (length devices ≤ call.settings.compliance_evaluate_max_batch)
        × (out.evaluated_count + out.unchanged_count ≤ out.requested_count)
        × (out.requested_count
            ≤ out.evaluated_count + out.unchanged_count + out.not_applicable_count)
  unfolding evaluate_many Tallied
  evaluate_many-Counts call devices out db h =
      elim (Bool-cases (ltb call.settings.compliance_evaluate_max_batch (length devices))) [
        | inl e ↦ absurd (cc (rw e at h))
        | inr e ↦ elim (Outcome-cases (evaluate_each call devices none_counted db).0) [
          | inl (c, k) ↦
              let (most, least) = evaluate_each-Tallied call devices none_counted c db k in
              subst
                (λ o.
                  (o.requested_count ≡ length devices)
                  × (length devices ≤ call.settings.compliance_evaluate_max_batch)
                  × (o.evaluated_count + o.unchanged_count ≤ o.requested_count)
                  × (o.requested_count
                      ≤ o.evaluated_count + o.unchanged_count + o.not_applicable_count))
                (returned_inj (rw (e, k) at h)) (refl, ground arith, omega arith, omega arith)
          | inr (err, k) ↦ absurd (cc (rw (e, k) at h))
        ]
      ]
