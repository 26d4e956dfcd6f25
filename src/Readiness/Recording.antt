-- ===== src/Readiness/Recording.antt =====
-- What a readiness evaluation writes.
use gard.Prelude.{ℕ, true, false, none, some, ◌≡◌, ◌⊎◌}
use gard.Prelude.Tx.{Outcome, returned, raised}
use gard.Envelope.{ready_for_uplift, blocked, not_applicable}
use gard.Db.{ReadinessEvaluation, AuditEvent, Db, emit, latest_readiness}
use gard.Readiness.{ReadinessError}
use gard.Readiness.Repeats.{Repeats, RepeatsCarveOut}
use gard.Readiness.Controller.{ReadinessOutcome, insert_row}
use gard.Readiness.Evaluate.{lifecycle_of, move_device}

-- The three ways in which a call may leave the database, after the sweep of the exceptions: as it
-- was, where the latest row states what the outcome states; with a carve-out's row and its audit
-- row; or with a verdict's row, its audit row and the device in the verdict's state. The last two
-- only where the latest row, if there is one, states something else.
pub data Recorded (device_id : ℕ) (db : Db) : ReadinessOutcome → Db → Type 0 where
  same :
      (o : ReadinessOutcome) (prev : ReadinessEvaluation)
      → o.state_changed ≡ false
      → latest_readiness device_id db ≡ some prev
      → (o.envelope.evaluation_id ≡ some prev.id) × (o.evaluation_id ≡ none)
      → (((o.envelope.state ≡ ready_for_uplift) ⊎ (o.envelope.state ≡ blocked))
          × Repeats prev o.envelope)
        ⊎ ((o.envelope.state ≡ not_applicable) × RepeatsCarveOut prev o.envelope)
      → Recorded device_id db o db
  carved_out :
      (o : ReadinessOutcome) (row : ReadinessEvaluation) (event : AuditEvent)
      → o.state_changed ≡ true
      → ((prev : ReadinessEvaluation)
          → latest_readiness device_id db ≡ some prev
          → ¬ RepeatsCarveOut prev o.envelope)
      → o.envelope.state ≡ not_applicable
      → (row.device_id ≡ device_id) × (o.evaluation_id ≡ some row.id)
      → row.readiness_state ≡ not_applicable
      → Recorded device_id db o (emit event (insert_row row db))
  judged :
      (o : ReadinessOutcome) (row : ReadinessEvaluation) (event : AuditEvent)
      → o.state_changed ≡ true
      → ((prev : ReadinessEvaluation)
          → latest_readiness device_id db ≡ some prev
          → ¬ Repeats prev o.envelope)
      → (row.device_id ≡ device_id) × (o.evaluation_id ≡ some row.id)
      → row.readiness_state ≡ o.envelope.state
      → (o.envelope.state ≡ ready_for_uplift) ⊎ (o.envelope.state ≡ blocked)
      → Recorded device_id db o
          (emit event (move_device device_id (lifecycle_of o.envelope.state) (insert_row row db)))

-- A run that returns has recorded its outcome; one that raises has written nothing.
pub data Left (device_id : ℕ) (db : Db)
    : Outcome ReadinessError ReadinessOutcome × Db → Type 0 where
  left :
      (o : ReadinessOutcome) (db' : Db)
      → Recorded device_id db o db'
      → Left device_id db (returned o, db')
  failed : (e : ReadinessError) → Left device_id db (raised e, db)
