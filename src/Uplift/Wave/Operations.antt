-- ===== src/Uplift/Wave/Operations.antt =====
-- The transitions of a wave when they return: the row, the devices and the audit log.
use gard.Prelude.{
  ℕ, String, fits, Fits, fits_iff, ◌≡◌, ◌≢◌, refl, sym, Bool, true, false, ◌&&◌, some, [], ◌∷◌,
  ◌++◌, arith, ◌==◌, if◌then◌else◌, str_eq, Bool-cases, inl, inr, ◌⊎◌, ==_self,
}
use mathlib.Core.Path.{subst₂}
use gard.Prelude.Rows.{map_option}
use gard.Prelude.Tx.{returned}
use gard.Lifecycle.{
  LifecycleState, approval_pending, ready_for_uplift, WaveState, draft, submitted, cancelled,
  wave_eq, wave_eq_iff, lifecycle_eq, wave_no,
}
use gard.Envelope.{Json}
use gard.Db.{UpliftWave, AuditEvent, Db, Call, emit}
use gard.Uplift.StateMachine.{drafter, approver, wave_decide}
use gard.Uplift.StateMachine.Edges.{MayMoveWave-approved, MayMoveWave-open, wave_decide-returned}
use gard.Uplift.Wave.{shift, shift_members, load_wave_members, revert_pending_members_to_ready}
use gard.Uplift.Wave.Transitions.{
  get_wave, submit, approve, reject, cancel, to_submitted, to_approved, to_rejected, to_cancelled,
  release, wave_event,
}
use gard.Uplift.Wave.Guard.{set_wave, get_wave-set_wave, move-returned}
use gard.Uplift.Wave.Members.{get_device, is_member, get_device-shift_members}

-- One transition of the wave `wave_id` from the database `db` to `db'`: its row is `row` then,
-- every other wave is as it was, one audit row is added, where `touched` the members still in the
-- lifecycle state `from` have gone to `to`, and every table but these three is as it was.
pub record Effect (wave_id : ℕ) (touched : Bool) (from to : LifecycleState) (db : Db)
    (row : UpliftWave) (db' : Db) : Type 0 where
  pub waves_after : (i : ℕ) → get_wave i db' ≡ (if i == wave_id then some row else get_wave i db)
  pub devices_after :
      (i : ℕ)
      → get_device i db' ≡ (
          if touched && is_member i (load_wave_members wave_id db)
          then map_option (shift from to) (get_device i db)
          else get_device i db)
  pub audited : (e : AuditEvent) × (db'.audit ≡ db.audit ++ e ∷ []) × (e.object_id ≡ wave_id)
  pub elsewhere : db' ≡ record db { waves = db'.waves; devices = db'.devices; audit = db'.audit }

pub row_after :
    (i wave_id : ℕ) (expected : WaveState) (values : UpliftWave → UpliftWave)
    (keeps : (w : UpliftWave) → (values w).id ≡ w.id) (db : Db) (w : UpliftWave)
    → get_wave wave_id db ≡ some w
    → wave_eq w.state expected ≡ true
    → get_wave i (set_wave wave_id expected values db)
      ≡ (if i == wave_id then some (values w) else get_wave i db)
row_after i wave_id expected values keeps db w found same = elim (Bool-cases (i == wave_id)) [
  | inl e ↦
      let here : i ≡ wave_id = ground arith in
      rw (get_wave-set_wave wave_id expected values keeps i db)
        (rw e (rw here (rw found (rw same refl))))
  | inr e ↦ rw (get_wave-set_wave wave_id expected values keeps i db) (rw e refl)
]

module _ (from to : LifecycleState) (moves : lifecycle_eq to from ≡ false) (wave_id : ℕ)
    (expected : WaveState) (values : UpliftWave → UpliftWave)
    (keeps : (w : UpliftWave) → (values w).id ≡ w.id) (db : Db) (w : UpliftWave)
    (found : get_wave wave_id db ≡ some w) (same : wave_eq w.state expected ≡ true)
    (event : AuditEvent) (about : event.object_id ≡ wave_id) where
  shift-Effect :
      Effect wave_id true from to db
        (values w)
        (emit event (shift_members from to wave_id (set_wave wave_id expected values db)))
  unfolding emit shift_members
  shift-Effect = record {
    waves_after = λ i. row_after i wave_id expected values keeps db w found same;
    devices_after = λ i.
        unfold load_wave_members in
        get_device-shift_members from to moves wave_id i (set_wave wave_id expected values db);
    audited = (event, refl, about);
    elsewhere = refl;
  }

  keep-Effect :
      Effect wave_id false from to db (values w) (emit event (set_wave wave_id expected values db))
  unfolding emit
  keep-Effect = record {
    waves_after = λ i. row_after i wave_id expected values keeps db w found same;
    devices_after = λ i. refl;
    audited = (event, refl, about);
    elsewhere = refl;
  }

-- The same for `release`, which reverts the members of a submitted wave.
release-Effect :
    (wave_id : ℕ) (values : UpliftWave → UpliftWave)
    (keeps : (w : UpliftWave) → (values w).id ≡ w.id) (db : Db) (w : UpliftWave)
    (found : get_wave wave_id db ≡ some w) (event : AuditEvent) (about : event.object_id ≡ wave_id)
    → Effect wave_id
        (wave_eq w.state submitted)
        approval_pending
        ready_for_uplift
        db
        (values w)
        (emit event (release w.state wave_id (set_wave wave_id w.state values db)))
unfolding revert_pending_members_to_ready
release-Effect wave_id values keeps db w found event about =
    elim (Bool-cases (wave_eq w.state submitted)) [
      | inl e ↦ rw e (
          shift-Effect approval_pending ready_for_uplift refl wave_id w.state values keeps db w
            found (==_self (wave_no w.state)) event about)
      | inr e ↦ rw e (
          keep-Effect approval_pending ready_for_uplift refl wave_id w.state values keeps db w found
            (==_self (wave_no w.state)) event about)
    ]

module _ (call : Call) (wave_id : ℕ) (db db' : Db) (row : UpliftWave) where
  -- `submit` returns only from a draft; it stamps the submitter and the time, parks the ready
  -- members at `approval_pending`, adds one audit row, and changes no other row of any table.
  pub submit-returned :
      submit call wave_id db ≡ (returned row, db')
      → (w : UpliftWave) × (get_wave wave_id db ≡ some w)
        × (w.state ≡ draft)
        × (row ≡ record w {
          state = submitted;
          submitted_by = some call.actor;
          submitted_at = some call.now;
        })
        × Effect wave_id true ready_for_uplift approval_pending db row db'
  unfolding submit
  submit-returned h =
      let m =
        move-returned wave_id (λ w. wave_decide w.state submitted drafter call.actor w.drafted_by)
          (λ w. draft) true (to_submitted call)
          (λ w. shift_members ready_for_uplift approval_pending wave_id)
          (λ w.
            wave_event call "uplift_wave.submitted" wave_id draft
              (("state", Json.str "submitted") ∷ []))
          (λ w. refl) db row db' h in
      (
        m.wave,
        m.found,
        (wave_eq_iff m.wave.state draft).0 m.in_state,
        m.row_eq,
        subst₂ (Effect wave_id true ready_for_uplift approval_pending db) (sym m.row_eq)
            (sym m.db_eq)
            (shift-Effect ready_for_uplift approval_pending refl wave_id draft (to_submitted call)
              (λ w. refl) db m.wave m.found m.in_state _ refl),
      )

  -- `approve` returns only from `submitted`, only for somebody who is not the drafter, and only
  -- with a citation of 20 to 2000 characters, which the table's CHECK constraint asks; it
  -- stamps the approver, the time and the citation, approves the members still parked at
  -- `approval_pending`, adds one audit row, and changes no other row of any table.
  pub approve-returned :
      (citation : String)
      → approve call wave_id citation db ≡ (returned row, db')
      → (w : UpliftWave) × (get_wave wave_id db ≡ some w)
        × (w.state ≡ submitted)
        × (call.actor ≢ w.drafted_by)
        × Fits 20 2000 citation
        × (row ≡ record w {
          state = WaveState.approved;
          approved_by = some call.actor;
          approved_at = some call.now;
          approval_citation = some citation;
        })
        × Effect wave_id true approval_pending LifecycleState.approved db row db'
  unfolding approve
  approve-returned citation h =
      let m =
        move-returned wave_id
          (λ w. wave_decide w.state WaveState.approved approver call.actor w.drafted_by)
          (λ w. submitted) (fits 20 2000 citation) (to_approved call citation)
          (λ w. shift_members approval_pending LifecycleState.approved wave_id)
          (λ w. wave_event call "uplift_wave.approved" wave_id submitted (
            ("state", Json.str "approved")
            ∷ ("approved_by", Json.str call.actor)
            ∷ ("citation", Json.str citation)
            ∷ []))
          (λ w. refl) db row db' h in
      (
        m.wave,
        m.found,
        (wave_eq_iff m.wave.state submitted).0 m.in_state,
        MayMoveWave-approved (wave_decide-returned _ _ _ _ _ m.granted.0 m.granted.1).1 refl,
        (fits_iff 20 2000 citation).0 m.checked,
        m.row_eq,
        subst₂ (Effect wave_id true approval_pending LifecycleState.approved db) (sym m.row_eq)
            (sym m.db_eq)
            (shift-Effect approval_pending LifecycleState.approved refl wave_id submitted
              (to_approved call citation) (λ w. refl) db m.wave m.found m.in_state _ refl),
      )

  -- `reject` returns only from `submitted` and only with a citation of 20 to 2000 characters, for
  -- the drafter and for anybody else; the members still parked at `approval_pending` are ready again.
  pub reject-returned :
      (citation : String)
      → reject call wave_id citation db ≡ (returned row, db')
      → (w : UpliftWave) × (get_wave wave_id db ≡ some w)
        × (w.state ≡ submitted)
        × Fits 20 2000 citation
        × (row ≡ record w {
          state = WaveState.rejected;
          rejected_by = some call.actor;
          rejected_at = some call.now;
          rejection_citation = some citation;
        })
        × Effect wave_id true approval_pending ready_for_uplift db row db'
  unfolding reject revert_pending_members_to_ready
  reject-returned citation h =
      let m =
        move-returned wave_id
          (λ w.
            wave_decide w.state WaveState.rejected
              (if str_eq call.actor w.drafted_by then drafter else approver) call.actor
              w.drafted_by)
          (λ w. submitted) (fits 20 2000 citation) (to_rejected call citation)
          (λ w. revert_pending_members_to_ready wave_id)
          (λ w. wave_event call "uplift_wave.rejected" wave_id submitted (
            ("state", Json.str "rejected")
            ∷ ("rejected_by", Json.str call.actor)
            ∷ ("citation", Json.str citation)
            ∷ ("self_rejection", Json.flag (str_eq call.actor w.drafted_by))
            ∷ []))
          (λ w. refl) db row db' h in
      (
        m.wave,
        m.found,
        (wave_eq_iff m.wave.state submitted).0 m.in_state,
        (fits_iff 20 2000 citation).0 m.checked,
        m.row_eq,
        subst₂ (Effect wave_id true approval_pending ready_for_uplift db) (sym m.row_eq)
            (sym m.db_eq)
            (shift-Effect approval_pending ready_for_uplift refl wave_id submitted
              (to_rejected call citation) (λ w. refl) db m.wave m.found m.in_state _ refl),
      )

  -- `cancel` returns only from `draft` or `submitted` and only with a reason of 10 to 500
  -- characters; in the second case the members still
  -- parked at `approval_pending` are ready again, in the first no device changes.
  pub cancel-returned :
      (reason : String)
      → cancel call wave_id reason db ≡ (returned row, db')
      → (w : UpliftWave) × (get_wave wave_id db ≡ some w)
        × ((w.state ≡ draft) ⊎ (w.state ≡ submitted))
        × Fits 10 500 reason
        × (row ≡ record w {
          state = cancelled;
          cancelled_by = some call.actor;
          cancelled_at = some call.now;
          cancellation_reason = some reason;
        })
        × Effect wave_id (wave_eq w.state submitted) approval_pending ready_for_uplift db row db'
  unfolding cancel
  cancel-returned reason h =
      let m =
        move-returned wave_id (λ w. wave_decide w.state cancelled drafter call.actor w.drafted_by)
          (λ w. w.state) (fits 10 500 reason) (to_cancelled call reason)
          (λ w. release w.state wave_id)
          (λ w.
            wave_event call "uplift_wave.cancelled" wave_id w.state
              (("state", Json.str "cancelled") ∷ ("reason", Json.str reason) ∷ []))
          (λ w. refl) db row db' h in
      (
        m.wave,
        m.found,
        MayMoveWave-open (wave_decide-returned _ _ _ _ _ m.granted.0 m.granted.1).1,
        (fits_iff 10 500 reason).0 m.checked,
        m.row_eq,
        subst₂
            (Effect wave_id (wave_eq m.wave.state submitted) approval_pending ready_for_uplift db)
            (sym m.row_eq) (sym m.db_eq)
            (release-Effect wave_id (to_cancelled call reason) (λ w. refl) db m.wave m.found _
              refl),
      )
