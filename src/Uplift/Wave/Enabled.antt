-- ===== src/Uplift/Wave/Enabled.antt =====
-- The four transitions as one operation: when it succeeds, and when it fails.
use gard.Prelude.{
  ℕ, String, Fits, fits_iff, ◌≡◌, ◌≢◌, refl, ◌↔◌, ◌⊎◌, inl, inr, some, str_eq, if◌then◌else◌,
  Bool-cases,
}
use gard.Prelude.Tx.{returned, raised}
use gard.Lifecycle.{WaveState, draft, submitted, cancelled, wave_eq_iff}
use gard.Db.{UpliftWave, Db, Call}
use gard.Uplift.StateMachine.{Transition, ActorKind, drafter, approver, wave_decide}
use gard.Uplift.StateMachine.Edges.{MayMoveWave, wave_move, wave_decide_iff}
use gard.Uplift.Wave.{WaveError, WaveTx}
use gard.Uplift.Wave.Transitions.{get_wave, submit, approve, reject, cancel}
use gard.Uplift.Wave.Guard.{move-raised, move_wins}
use gard.Uplift.Wave.Operations.{
  submit-returned, approve-returned, reject-returned, cancel-returned,
}

pub data WaveOp : Type 0 where
  submit_op : WaveOp
  approve_op reject_op cancel_op : String → WaveOp

unfoldable pub apply_op : Call → ℕ → WaveOp → WaveTx UpliftWave
apply_op call wave_id submit_op = submit call wave_id
apply_op call wave_id (approve_op citation) = approve call wave_id citation
apply_op call wave_id (reject_op citation) = reject call wave_id citation
apply_op call wave_id (cancel_op reason) = cancel call wave_id reason

-- What an operation asks of the wave and of the caller.
abbrev pub Allows : WaveOp → Call → UpliftWave → Type 0
Allows submit_op call w = w.state ≡ draft
Allows (approve_op c) call w = (w.state ≡ submitted) × (call.actor ≢ w.drafted_by) × Fits 20 2000 c
Allows (reject_op c) call w = (w.state ≡ submitted) × Fits 20 2000 c
Allows (cancel_op r) call w = ((w.state ≡ draft) ⊎ (w.state ≡ submitted)) × Fits 10 500 r

-- A transition that raises, whatever the error, has changed neither a row nor the audit log.
pub apply_op-raised :
    (call : Call) (wave_id : ℕ) (op : WaveOp) (db db' : Db) (e : WaveError)
    → apply_op call wave_id op db ≡ (raised e, db')
    → db' ≡ db
unfolding apply_op submit approve reject cancel
apply_op-raised call wave_id submit_op db db' e h = move-raised _ _ _ _ _ _ _ (λ w. refl) db e db' h
apply_op-raised call wave_id (approve_op c) db db' e h =
    move-raised _ _ _ _ _ _ _ (λ w. refl) db e db' h
apply_op-raised call wave_id (reject_op c) db db' e h =
    move-raised _ _ _ _ _ _ _ (λ w. refl) db e db' h
apply_op-raised call wave_id (cancel_op r) db db' e h =
    move-raised _ _ _ _ _ _ _ (λ w. refl) db e db' h

-- The operation returns.
abbrev pub Succeeds : Call → ℕ → WaveOp → Db → Type 0
Succeeds call wave_id op db =
    (row : UpliftWave) × (db' : Db) × (apply_op call wave_id op db ≡ (returned row, db'))

module _ (call : Call) (wave_id : ℕ) (db : Db) (w : UpliftWave) where
  grant :
      (from to : WaveState) (kind : ActorKind)
      → w.state ≡ from
      → MayMoveWave call.actor w.drafted_by kind from to
      → wave_decide w.state to kind call.actor w.drafted_by
        ≡ returned (wave_move from to kind call.actor)
  grant from to kind e m = rw e ((wave_decide_iff from to kind call.actor w.drafted_by).1 m)

  reject_grant :
      w.state ≡ submitted
      → (t : Transition WaveState) × (wave_decide w.state WaveState.rejected
            (if str_eq call.actor w.drafted_by then drafter else approver)
            call.actor
            w.drafted_by
          ≡ returned t)
  reject_grant e = elim (Bool-cases (str_eq call.actor w.drafted_by)) [
    | inl s ↦ rw s (_, grant submitted WaveState.rejected drafter e MayMoveWave.withdraw)
    | inr s ↦ rw s (_, grant submitted WaveState.rejected approver e MayMoveWave.reject)
  ]

  cancel_grant :
      (w.state ≡ draft) ⊎ (w.state ≡ submitted)
      → (t : Transition WaveState) × (wave_decide w.state cancelled drafter call.actor w.drafted_by
          ≡ returned t)
  cancel_grant (inl e) = (_, grant draft cancelled drafter e MayMoveWave.cancel_draft)
  cancel_grant (inr e) = (_, grant submitted cancelled drafter e MayMoveWave.cancel)

  allowed-Succeeds :
      (op : WaveOp) → get_wave wave_id db ≡ some w → Allows op call w → Succeeds call wave_id op db
  unfolding apply_op submit approve reject cancel
  allowed-Succeeds submit_op found e = (
    _,
    _,
    move_wins _ _ _ _ _ _ _ db w found _ (grant draft submitted drafter e MayMoveWave.submit)
        (λ r. refl) ((wave_eq_iff w.state draft).1 e) refl,
  )
  allowed-Succeeds (approve_op c) found e = (
    _,
    _,
    move_wins _ _ _ _ _ _ _ db w found _
        (grant submitted WaveState.approved approver e.0 (MayMoveWave.approve e.1)) (λ r. refl)
        ((wave_eq_iff w.state submitted).1 e.0) ((fits_iff 20 2000 c).1 e.2),
  )
  allowed-Succeeds (reject_op c) found e = (
    _,
    _,
    move_wins _ _ _ _ _ _ _ db w found _ (reject_grant e.0).1 (λ r. refl)
        ((wave_eq_iff w.state submitted).1 e.0) ((fits_iff 20 2000 c).1 e.1),
  )
  allowed-Succeeds (cancel_op c) found e = (
    _,
    _,
    move_wins _ _ _ _ _ _ _ db w found _ (cancel_grant e.0).1 (λ r. refl)
        ((wave_eq_iff w.state w.state).1 refl) ((fits_iff 10 500 c).1 e.1),
  )

Succeeds-allowed :
    (call : Call) (wave_id : ℕ) (op : WaveOp) (db : Db)
    → Succeeds call wave_id op db
    → (w : UpliftWave) × (get_wave wave_id db ≡ some w) × Allows op call w
unfolding apply_op
Succeeds-allowed call wave_id submit_op db (row, db', h) =
    let (w, found, from, e, f) = submit-returned call wave_id db db' row h in (w, found, from)
Succeeds-allowed call wave_id (approve_op c) db (row, db', h) =
    let (w, found, from, sod, fit, e, f) = approve-returned call wave_id db db' row c h in
    (w, found, (from, sod, fit))
Succeeds-allowed call wave_id (reject_op c) db (row, db', h) =
    let (w, found, from, fit, e, f) = reject-returned call wave_id db db' row c h in
    (w, found, (from, fit))
Succeeds-allowed call wave_id (cancel_op r) db (row, db', h) =
    let (w, found, from, fit, e, f) = cancel-returned call wave_id db db' row r h in
    (w, found, (from, fit))

-- A transition returns exactly when the wave exists, is in a state that the operation starts
-- from, for an approval the caller is not the wave's drafter, and the citation or the reason has a
-- length that the table's CHECK constraints allow.
pub apply_op-Succeeds_iff :
    (call : Call) (wave_id : ℕ) (op : WaveOp) (db : Db)
    → Succeeds call wave_id op db
      ↔ ((w : UpliftWave) × (get_wave wave_id db ≡ some w) × Allows op call w)
apply_op-Succeeds_iff call wave_id op db = (
  Succeeds-allowed call wave_id op db,
  λ (w, found, ok). allowed-Succeeds call wave_id db w op found ok,
)
