-- ===== src/Uplift/Wave/Draft.antt =====
-- `draft_wave`: a wave from the pool of devices that are ready, with its idempotency key.
use gard.Prelude.{
  ℕ, String, Bool, true, false, Option, none, some, List, [], ◌∷◌, ◌++◌, map, ◌==◌, ◌+◌, ◌*◌, ltb,
  leb, opt_str_eq, first, length, filter_by, ◌&&◌, not, if◌then◌else◌,
}
use gard.Prelude.Rows.{update_row}
use gard.Prelude.Sorting.{sort_by, by_key}
use gard.Prelude.Tx.{
  Outcome, returned, give, reads, attempt, raise_if, writes, ◌>>=◌, ◌>>◌, and_then,
}
use gard.Lifecycle.{lifecycle_value, draft}
use gard.Scope.{Selector, SelectorError, Facts, evaluate, validate_keys}
use gard.Envelope.{ReadinessState, ready_for_uplift, str, num, uuid}
use gard.Db.{
  Device, ReadinessEvaluation, UpliftWave, UpliftWaveDevice, Db, Call, second, minute, hour, emit,
  latest_readiness,
}
use gard.Uplift.Wave.{
  SkippedDevice, empty_wave, ineligible_devices_in_scope, invalid_change_window,
  target_version_not_live, wave_too_large, check_violation, bad_selector, WaveTx, DateTime,
  validate_change_window, target_is_live, load_wave_members,
}

pub data Mode : Type 0 where
  strict skip_ineligible : Mode

pub record DraftRequest : Type 0 where
  pub plan_id : ℕ
  pub name : String
  pub target_version : String
  pub target_platform_family : String
  pub scope_selector : Selector
  pub mode : Mode
  pub change_window_start : DateTime
  pub change_window_end : DateTime
  pub idempotency_key : Option String

abbrev pub Members : Type 0
Members = List (Device × UpliftWaveDevice)

-- `WaveDraftOutcome`
pub record WaveDraftOutcome : Type 0 where
  pub wave : UpliftWave
  pub members : Members
  pub skipped : List SkippedDevice
  pub replayed : Bool

-- `_device_facts` of this controller: it has no entry `tags`
unfoldable pub device_facts : Device → Facts
device_facts d = record {
  vendor_normalized = d.vendor_normalized;
  platform_family = d.platform_family;
  region = d.region;
  site = some d.site;
  role = d.role;
  hardware_revision = d.hardware_revision;
  lifecycle_state = some (lifecycle_value d.lifecycle_state);
  tags = none;
}

pub record Resolution : Type 0 where
  pub eligible : List (Device × Option ReadinessEvaluation)
  pub skipped : List SkippedDevice

-- `latest.readiness_state if latest is not None else None`
abbrev pub state_of : Option ReadinessEvaluation → Option ReadinessState
state_of none = none
state_of (some r) = some r.readiness_state

abbrev pub is_ready : Option ReadinessState → Bool
is_ready (some ready_for_uplift) = true
is_ready _ = false

-- the branch for a device in scope
abbrev pub place : Db → Device → Resolution → Resolution
place db d rest =
    let latest = latest_readiness d.id db in
    if is_ready (state_of latest)
    then record rest { eligible = (d, latest) ∷ rest.eligible }
    else record rest {
      skipped =
          record {
            device_id = d.id;
            reason = "not ready_for_uplift";
            current_readiness_state = state_of latest;
          }
          ∷ rest.skipped;
    }

-- the loop over all devices
unfoldable pub resolve_scope : Db → Selector → List Device → Outcome SelectorError Resolution
resolve_scope db scope [] = returned (record { eligible = []; skipped = [] })
resolve_scope db scope (d ∷ devices) =
    let rest = resolve_scope db scope devices in
    and_then (evaluate scope (device_facts d))
      λ verdict. and_then rest λ r. returned (if verdict.matched then place db d r else r)

-- the existing wave with the plan's idempotency key
unfoldable pub find_replay : ℕ → Option String → Db → Option UpliftWave
find_replay plan_id none db = none
find_replay plan_id (some key) db =
    first
      (filter_by (λ w. (w.plan_id == plan_id) && opt_str_eq w.idempotency_key (some key)) db.waves)

-- `age <= ttl`
abbrev pub is_fresh : Call → UpliftWave → Bool
is_fresh call w =
    leb call.now (w.drafted_at + call.settings.uplift_idempotency_ttl_seconds * second)

-- `existing.idempotency_key = None`
unfoldable pub free_key : ℕ → Db → Db
free_key wave_id db = record db {
  waves = update_row (λ w. w.id) wave_id (λ w. record w { idempotency_key = none }) db.waves;
}

-- `enumerate(eligible, start=position)`
unfoldable pub attach : ℕ → ℕ → List (Device × Option ReadinessEvaluation) → Members
attach wave_id position [] = []
attach wave_id position ((d, latest) ∷ rest) =
    (
      d,
      record {
        wave_id = wave_id;
        device_id = d.id;
        position = position;
        readiness_evaluation_ref = elim latest [ none ↦ none | some r ↦ some r.id ];
        snapshot_target_version = elim latest [ none ↦ none | some r ↦ r.target_version ];
        snapshot_observed_version = elim latest [ none ↦ none | some r ↦ r.observed_version ];
      },
    )
    ∷ attach wave_id (position + 1) rest

abbrev pub new_wave : Call → DraftRequest → ℕ → ℕ → ℕ → UpliftWave
new_wave call req wave_id start end = record {
  id = wave_id;
  plan_id = req.plan_id;
  name = req.name;
  target_version = req.target_version;
  target_platform_family = req.target_platform_family;
  change_window_start = start;
  change_window_end = end;
  state = draft;
  drafted_by = call.actor;
  drafted_at = call.now;
  submitted_by = none;
  submitted_at = none;
  approved_by = none;
  approved_at = none;
  approval_citation = none;
  rejected_by = none;
  rejected_at = none;
  rejection_citation = none;
  cancelled_by = none;
  cancelled_at = none;
  cancellation_reason = none;
  invalidated_at = none;
  invalidated_reason = none;
  idempotency_key = req.idempotency_key;
}

abbrev pub mode_text : Mode → String
mode_text strict = "strict"
mode_text skip_ineligible = "skip_ineligible"

abbrev pub is_strict : Mode → Bool
is_strict strict = true
is_strict skip_ineligible = false

-- `session.add` of the wave and of its members, and the audit row
unfoldable pub store_wave : Call → DraftRequest → UpliftWave → Members → ℕ → Db → Db
store_wave call req wave members skipped_count db =
    emit
      (record {
        action = "uplift_wave.drafted";
        object_type = "UpliftWave";
        object_id = wave.id;
        actor = call.actor;
        actor_type = call.actor_type;
        before = none;
        after = some (
            ("id", uuid wave.id)
            ∷ ("plan_id", uuid req.plan_id)
            ∷ ("name", str req.name)
            ∷ ("target_version", str req.target_version)
            ∷ ("device_count", num (length members))
            ∷ ("skipped_count", num skipped_count)
            ∷ ("mode", str (mode_text req.mode))
            ∷ []);
      })
      (record db {
        waves = db.waves ++ wave ∷ [];
        wave_devices = db.wave_devices ++ map (λ m. m.1) members;
      })

-- the sort by the text of the device's identifier
unfoldable pub in_order :
    List (Device × Option ReadinessEvaluation) → List (Device × Option ReadinessEvaluation)
in_order eligible = sort_by (by_key (λ pair. pair.0.id)) eligible

-- the CHECK constraints on the window, which the settings may be wider than
abbrev pub window_allowed : ℕ → ℕ → Bool
window_allowed start end =
    ltb start end && (leb end (start + 24 * hour) && leb (start + 15 * minute) end)

-- the checks on the resolved scope, and the inserts; `wave_id` is the identifier that the
-- insert of the wave generates
unfoldable pub insert_draft : Call → DraftRequest → ℕ → ℕ × ℕ → Resolution → WaveTx WaveDraftOutcome
insert_draft call req wave_id window resolution = do
  raise_if (is_strict req.mode && not (length resolution.skipped == 0))
      (ineligible_devices_in_scope resolution.skipped)
  let skipped = if is_strict req.mode then [] else resolution.skipped
  raise_if (length resolution.eligible == 0) empty_wave
  raise_if (ltb call.settings.uplift_wave_max_devices (length resolution.eligible))
      (wave_too_large (length resolution.eligible) call.settings.uplift_wave_max_devices)
  raise_if (not (window_allowed window.0 window.1)) check_violation
  let wave = new_wave call req wave_id window.0 window.1
  let members = attach wave_id 1 (in_order resolution.eligible)
  writes (store_wave call req wave members (length skipped))
  give (record { wave = wave; members = members; skipped = skipped; replayed = false })

-- the body after the replay
unfoldable pub draft_fresh : Call → DraftRequest → ℕ → WaveTx WaveDraftOutcome
draft_fresh call req wave_id = do
  window ←
      attempt invalid_change_window
        (validate_change_window call req.change_window_start req.change_window_end)
  live ← reads (target_is_live req.target_platform_family req.target_version)
  raise_if (not live) target_version_not_live
  attempt bad_selector (validate_keys req.scope_selector)
  verdicts ← reads (λ db. resolve_scope db req.scope_selector db.devices)
  resolution ← attempt bad_selector verdicts
  insert_draft call req wave_id window resolution

abbrev pub replay_or_draft : Call → DraftRequest → ℕ → Option UpliftWave → WaveTx WaveDraftOutcome
replay_or_draft call req wave_id none = draft_fresh call req wave_id
replay_or_draft call req wave_id (some w) =
    if is_fresh call w
    then (do
      members ← reads (load_wave_members w.id)
      give (record { wave = w; members = members; skipped = []; replayed = true }))
    else (do writes (free_key w.id); draft_fresh call req wave_id)

unfoldable pub draft_wave : Call → DraftRequest → ℕ → WaveTx WaveDraftOutcome
unfolding find_replay free_key
draft_wave call req wave_id = do
  existing ← reads (find_replay req.plan_id req.idempotency_key)
  replay_or_draft call req wave_id existing
