-- ===== src/Uplift/Wave/Transitions.antt =====
-- `submit`, `approve`, `reject`, `cancel` and `invalidate_affected_waves`.
use gard.Prelude.{
  ℕ, String, fits, Bool, true, false, Option, none, some, List, [], ◌∷◌, ◌==◌, suc, str_eq,
  filter_by, id_in, any_of, map, ◌&&◌, ◌||◌, if◌then◌else◌,
}
use gard.Prelude.Rows.{find_row}
use gard.Prelude.Tx.{
  Outcome, returned, raised, give, reads, attempt, require_some, writes, ◌>>=◌, ◌>>◌,
}
use gard.Lifecycle.{
  LifecycleState, approval_pending, ready_for_uplift, WaveState, draft, submitted, cancelled,
  invalidated, wave_eq, wave_value,
}
use gard.Envelope.{JsonObject, str, flag}
use gard.Db.{UpliftWave, AuditEvent, Db, Call, emit}
use gard.Uplift.StateMachine.{drafter, approver, wave_decide}
use gard.Uplift.Wave.{
  WaveError, wave_not_found, refused, WaveTx, shift_members, revert_pending_members_to_ready,
  apply_state_guard, target_is_live,
}

abbrev pub get_wave : ℕ → Db → Option UpliftWave
get_wave wave_id db = find_row (λ w. w.id) wave_id db.waves

-- the audit row of a transition
abbrev pub wave_event : Call → String → ℕ → WaveState → JsonObject → AuditEvent
wave_event call action wave_id before after = record {
  action = action;
  object_type = "UpliftWave";
  object_id = wave_id;
  actor = call.actor;
  actor_type = call.actor_type;
  before = some (("state", str (wave_value before)) ∷ []);
  after = some after;
}

-- the columns that each transition sets
abbrev pub to_submitted : Call → UpliftWave → UpliftWave
to_submitted call w = record w {
  state = submitted;
  submitted_by = some call.actor;
  submitted_at = some call.now;
}

abbrev pub to_approved : Call → String → UpliftWave → UpliftWave
to_approved call citation w = record w {
  state = WaveState.approved;
  approved_by = some call.actor;
  approved_at = some call.now;
  approval_citation = some citation;
}

abbrev pub to_rejected : Call → String → UpliftWave → UpliftWave
to_rejected call citation w = record w {
  state = WaveState.rejected;
  rejected_by = some call.actor;
  rejected_at = some call.now;
  rejection_citation = some citation;
}

abbrev pub to_cancelled : Call → String → UpliftWave → UpliftWave
to_cancelled call reason w = record w {
  state = cancelled;
  cancelled_by = some call.actor;
  cancelled_at = some call.now;
  cancellation_reason = some reason;
}

abbrev pub to_invalidated : Call → String → UpliftWave → UpliftWave
to_invalidated call reason w = record w {
  state = invalidated;
  invalidated_at = some call.now;
  invalidated_reason = some reason;
}

unfoldable pub submit : Call → ℕ → WaveTx UpliftWave
submit call wave_id = do
  found ← reads (get_wave wave_id)
  wave ← require_some (wave_not_found wave_id) found
  attempt refused (wave_decide wave.state submitted drafter call.actor wave.drafted_by)
  refreshed ← apply_state_guard wave_id draft true (to_submitted call)
  writes (shift_members ready_for_uplift approval_pending wave_id)
  writes (
      emit
        (wave_event call "uplift_wave.submitted" wave_id draft (("state", str "submitted") ∷ [])))
  give refreshed

unfoldable pub approve : Call → ℕ → String → WaveTx UpliftWave
approve call wave_id citation = do
  found ← reads (get_wave wave_id)
  wave ← require_some (wave_not_found wave_id) found
  attempt refused (wave_decide wave.state WaveState.approved approver call.actor wave.drafted_by)
  refreshed ←
      apply_state_guard wave_id submitted (fits 20 2000 citation) (to_approved call citation)
  writes (shift_members approval_pending LifecycleState.approved wave_id)
  writes (
      emit (
        wave_event call "uplift_wave.approved" wave_id submitted (
          ("state", str "approved")
          ∷ ("approved_by", str call.actor)
          ∷ ("citation", str citation)
          ∷ [])))
  give refreshed

unfoldable pub reject : Call → ℕ → String → WaveTx UpliftWave
reject call wave_id citation = do
  found ← reads (get_wave wave_id)
  wave ← require_some (wave_not_found wave_id) found
  let self_rejection = str_eq call.actor wave.drafted_by
  attempt refused (
      wave_decide wave.state WaveState.rejected (if self_rejection then drafter else approver)
        call.actor wave.drafted_by)
  refreshed ←
      apply_state_guard wave_id submitted (fits 20 2000 citation) (to_rejected call citation)
  writes (revert_pending_members_to_ready wave_id)
  writes (
      emit (
        wave_event call "uplift_wave.rejected" wave_id submitted (
          ("state", str "rejected")
          ∷ ("rejected_by", str call.actor)
          ∷ ("citation", str citation)
          ∷ ("self_rejection", flag self_rejection)
          ∷ [])))
  give refreshed

-- `if current == WaveState.submitted: _revert_pending_members_to_ready(…)`
abbrev pub release : WaveState → ℕ → Db → Db
release current wave_id db =
    if wave_eq current submitted then revert_pending_members_to_ready wave_id db else db

unfoldable pub cancel : Call → ℕ → String → WaveTx UpliftWave
cancel call wave_id reason = do
  found ← reads (get_wave wave_id)
  wave ← require_some (wave_not_found wave_id) found
  attempt refused (wave_decide wave.state cancelled drafter call.actor wave.drafted_by)
  refreshed ← apply_state_guard wave_id wave.state (fits 10 500 reason) (to_cancelled call reason)
  writes (release wave.state wave_id)
  writes (
      emit (
        wave_event call "uplift_wave.cancelled" wave_id wave.state
          (("state", str "cancelled") ∷ ("reason", str reason) ∷ [])))
  give refreshed

-- `state in (draft, submitted)`
abbrev pub is_open : WaveState → Bool
is_open state = wave_eq state draft || wave_eq state submitted

-- the waves that the query of `invalidate_affected_waves` selects
unfoldable pub candidate_wave_ids : List ℕ → Db → List ℕ
candidate_wave_ids affected db =
    map (λ w. w.id)
      (filter_by
        (λ w.
          is_open w.state
          && any_of (λ wd. (wd.wave_id == w.id) && id_in wd.device_id affected) db.wave_devices)
        db.waves)

-- the end of a round, after the guarded update
abbrev pub settle : Call → ℕ → String → WaveState → Outcome WaveError UpliftWave → Db → Bool × Db
settle call wave_id reason current (raised e) db = (false, db)
settle call wave_id reason current (returned w) db = (
  true,
  emit
      (wave_event call "uplift_wave.invalidated" wave_id current
        (("state", str "invalidated") ∷ ("reason", str reason) ∷ []))
      (release current wave_id db),
)

-- the wave's target is no longer live, or a new readiness verdict is the cause
abbrev pub invalidation_reason : UpliftWave → Db → String
invalidation_reason wave db =
    if target_is_live wave.target_platform_family wave.target_version db
    then "f4_reverdict"
    else "target_retired"

abbrev pub invalidate_wave : Call → ℕ → UpliftWave → Db → Bool × Db
invalidate_wave call wave_id wave db =
    let reason = invalidation_reason wave db in
    let (r, db') = apply_state_guard wave_id wave.state true (to_invalidated call reason) db in
    settle call wave_id reason wave.state r db'

-- one round of the loop; it says whether the wave was invalidated
unfoldable pub invalidate_one : Call → ℕ → Db → Bool × Db
invalidate_one call wave_id db = elim (get_wave wave_id db) [
  | none ↦ (false, db)
  | some wave ↦ if is_open wave.state then invalidate_wave call wave_id wave db else (false, db)
]

unfoldable pub invalidate_each : Call → List ℕ → ℕ → Db → ℕ × Db
unfolding invalidate_one
invalidate_each call [] count db = (count, db)
invalidate_each call (wave_id ∷ rest) count db =
    let (done, db') = invalidate_one call wave_id db in
    invalidate_each call rest (if done then suc count else count) db'

unfoldable pub invalidate_affected_waves : Call → List ℕ → Db → ℕ × Db
unfolding candidate_wave_ids invalidate_each
invalidate_affected_waves call affected db =
    invalidate_each call (candidate_wave_ids affected db) 0 db
