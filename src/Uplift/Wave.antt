-- ===== src/Uplift/Wave.antt =====
-- gard/core/uplift_wave_controller.py: what its operations share. The operations are in the
-- modules `Draft` and `Transitions`.
pub mod Draft
pub mod Preview
pub mod Transitions
pub mod Guard
pub mod Members
pub mod Operations
pub mod Enabled
pub mod Pool
pub mod Forecast
pub mod Membership
pub mod Keys
pub mod Between
pub mod Replay
pub mod History
pub mod Refinement
pub mod Runs
use gard.Prelude.{
  ℕ, String, Bool, true, false, Option, none, some, List, [], ◌∷◌, ◌==◌, ltb, leb, str_eq, is_none,
  first, filter_by, any_of, id_in, ◌&&◌, ◌+◌, ◌*◌, if◌then◌else◌,
}
use gard.Prelude.Rows.{find_row, update_row}
use gard.Prelude.Sorting.{sort_by, by_key}
use gard.Prelude.Tx.{
  Tx, Outcome, returned, raised, reads, raise, raise_if, require_some, writes, ◌>>=◌, ◌>>◌,
}
use gard.Lifecycle.{
  LifecycleState, approval_pending, ready_for_uplift, lifecycle_eq, WaveState, wave_eq,
}
use gard.Scope.{SelectorError}
use gard.Envelope.{ReadinessState}
use gard.Db.{
  Device, FirmwareTarget, UpliftWave, UpliftWaveDevice, AuditEvent, Db, Settings, Call, minute,
  hour, emit,
}
use gard.Uplift.StateMachine.{StateMachineError}

pub record SkippedDevice : Type 0 where
  pub device_id : ℕ
  pub reason : String
  pub current_readiness_state : Option ReadinessState

-- The texts of `InvalidChangeWindow`.
pub data WindowFault : Type 0 where
  not_aware not_future not_after_start too_short too_long : WindowFault

pub data WaveError : Type 0 where
  wave_not_found : ℕ → WaveError
  empty_wave : WaveError
  ineligible_devices_in_scope : List SkippedDevice → WaveError
  invalid_change_window : WindowFault → WaveError
  target_version_not_live : WaveError
  wave_too_large : ℕ → ℕ → WaveError
  wave_state_mismatch : WaveState → Option WaveState → WaveError
  refused : StateMachineError → WaveError
  bad_selector : SelectorError → WaveError
  check_violation : WaveError
  assertion_failed : WaveError

abbrev pub WaveTx : Type 0 → Type 0
WaveTx = Tx Db WaveError

-- A `datetime`: with a time zone, or naive.
pub data DateTime : Type 0 where
  aware naive : ℕ → DateTime

-- `_validate_change_window`; the two times come back without their zones
unfoldable pub check_window : Call → ℕ → ℕ → Outcome WindowFault (ℕ × ℕ)
check_window call start end =
    if leb start call.now
    then raised not_future
    else if leb end start
    then raised not_after_start
    else if ltb end (start + call.settings.uplift_change_window_min_minutes * minute)
    then raised too_short
    else if ltb (start + call.settings.uplift_change_window_max_hours * hour) end
    then raised too_long
    else returned (start, end)

unfoldable pub validate_change_window : Call → DateTime → DateTime → Outcome WindowFault (ℕ × ℕ)
unfolding check_window
validate_change_window call (aware start) (aware end) = check_window call start end
validate_change_window call (naive start) _ = raised not_aware
validate_change_window call (aware start) (naive end) = raised not_aware

-- A live `FirmwareTarget` of this platform and version.
unfoldable pub target_is_live : String → String → Db → Bool
target_is_live platform_family target_version db =
    any_of
      (λ t.
        is_none t.removed_at
        && (str_eq t.platform_family platform_family && str_eq t.target_version target_version))
      db.targets

-- the inner join of `load_wave_members`
unfoldable pub join_devices : List Device → List UpliftWaveDevice → List (Device × UpliftWaveDevice)
join_devices devices [] = []
join_devices devices (wd ∷ wds) =
    let rest = join_devices devices wds in
    elim (find_row (λ d. d.id) wd.device_id devices) [ none ↦ rest | some d ↦ (d, wd) ∷ rest ]

unfoldable pub load_wave_members : ℕ → Db → List (Device × UpliftWaveDevice)
unfolding join_devices
load_wave_members wave_id db =
    join_devices db.devices (
      sort_by (by_key (λ wd. wd.position))
        (filter_by (λ wd. wd.wave_id == wave_id) db.wave_devices))

-- `if device.lifecycle_state == from: device.lifecycle_state = to`
abbrev pub shift : LifecycleState → LifecycleState → Device → Device
shift from to d =
    if lifecycle_eq d.lifecycle_state from then record d { lifecycle_state = to } else d

-- the loop over the members; the rows are those of the session
unfoldable pub shift_all :
    LifecycleState → LifecycleState → List (Device × UpliftWaveDevice) → List Device → List Device
shift_all from to [] devices = devices
shift_all from to ((d, wd) ∷ members) devices =
    shift_all from to members (update_row (λ r. r.id) d.id (shift from to) devices)

unfoldable pub shift_members : LifecycleState → LifecycleState → ℕ → Db → Db
shift_members from to wave_id db = record db {
  devices = shift_all from to (load_wave_members wave_id db) db.devices;
}

-- `_revert_pending_members_to_ready`
unfoldable pub revert_pending_members_to_ready : ℕ → Db → Db
unfolding shift_members
revert_pending_members_to_ready = shift_members approval_pending ready_for_uplift

-- `_apply_state_guard`: `UPDATE … WHERE id = :id AND state = :expected`, and the refreshed row.
-- `allowed` says whether the table's CHECK constraints hold of the columns that are set; the others
-- hold of the stored row.
abbrev pub guarded : WaveState → (UpliftWave → UpliftWave) → UpliftWave → UpliftWave
guarded expected values w = if wave_eq w.state expected then values w else w

abbrev pub put_waves : List UpliftWave → Db → Db
put_waves waves db = record db { waves = waves }

unfoldable pub apply_state_guard :
    ℕ → WaveState → Bool → (UpliftWave → UpliftWave) → WaveTx UpliftWave
apply_state_guard wave_id expected allowed values db =
    elim (find_row (λ w. w.id) wave_id db.waves) [
      | none ↦ (raised (wave_state_mismatch expected none), db)
      | some w ↦
          let waves = update_row (λ r. r.id) wave_id (guarded expected values) db.waves in
          if wave_eq w.state expected
          then (if allowed
              then require_some assertion_failed (find_row (λ r. r.id) wave_id waves)
                  (put_waves waves db)
              else (raised check_violation, db))
          else (raised (wave_state_mismatch expected (some w.state)), db)
    ]
