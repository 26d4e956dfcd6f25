-- ===== src/Uplift/Wave/Preview.antt =====
-- `preview_wave_draft`: the scope is resolved as for a draft, and nothing is written.
use gard.Prelude.{
  ℕ, String, Bool, true, false, not, ◌&&◌, Option, none, some, List, [], ◌∷◌, ◌++◌, map, ◌==◌,
  length, if◌then◌else◌,
}
use gard.Prelude.Tx.{Outcome, returned, raised, and_then}
use gard.Scope.{Selector, SelectorError, validate_keys}
use gard.Envelope.{ReadinessState}
use gard.Db.{Device, ReadinessEvaluation, Db, Call}
use gard.Uplift.Wave.{
  SkippedDevice, WaveError, invalid_change_window, target_version_not_live, WindowFault, DateTime,
  validate_change_window, target_is_live,
}
use gard.Uplift.Wave.Draft.{Mode, Resolution, state_of, resolve_scope, is_strict, in_order}

pub record PreviewRequest : Type 0 where
  pub target_version : String
  pub target_platform_family : String
  pub scope_selector : Selector
  pub mode : Mode
  pub change_window_start : DateTime
  pub change_window_end : DateTime

-- The texts that the preview warns with.
pub data Warning : Type 0 where
  says : WaveError → Warning
  ineligible_in_scope : ℕ → Warning
  none_ready : Warning

-- an entry of `device_rows`
pub record PreviewRow : Type 0 where
  pub device_id : ℕ
  pub hostname : String
  pub readiness_state : Option ReadinessState
  pub target_version : Option String
  pub observed_version : Option String

pub record WaveDraftPreview : Type 0 where
  pub proposed_devices : ℕ
  pub skipped : List SkippedDevice
  pub device_rows : List PreviewRow
  pub change_window_valid : Bool
  pub target_version_live : Bool
  pub warnings : List Warning

abbrev pub row_of : Device × Option ReadinessEvaluation → PreviewRow
row_of (d, latest) = record {
  device_id = d.id;
  hostname = d.hostname;
  readiness_state = state_of latest;
  target_version = elim latest [ none ↦ none | some r ↦ r.target_version ];
  observed_version = elim latest [ none ↦ none | some r ↦ r.observed_version ];
}

-- the warning of `except InvalidChangeWindow`
abbrev pub window_warning : Outcome WindowFault (ℕ × ℕ) → List Warning
window_warning (returned w) = []
window_warning (raised e) = says (invalid_change_window e) ∷ []

abbrev pub window_valid : Outcome WindowFault (ℕ × ℕ) → Bool
window_valid (returned w) = true
window_valid (raised e) = false

-- one warning, under a condition
abbrev pub warn_if : Bool → Warning → List Warning
warn_if true w = w ∷ []
warn_if false w = []

-- what follows the loop
abbrev pub present : Mode → Outcome WindowFault (ℕ × ℕ) → Bool → Resolution → WaveDraftPreview
present mode window live resolution = record {
  proposed_devices = length resolution.eligible;
  skipped = if is_strict mode then [] else resolution.skipped;
  device_rows = map row_of (in_order resolution.eligible);
  change_window_valid = window_valid window;
  target_version_live = live;
  warnings =
      window_warning window
      ++ (warn_if (not live) (says target_version_not_live)
          ++ (warn_if (is_strict mode && not (length resolution.skipped == 0))
                (ineligible_in_scope (length resolution.skipped))
              ++ warn_if (length resolution.eligible == 0) none_ready));
}

unfoldable pub preview_wave_draft :
    Call → PreviewRequest → Db → Outcome SelectorError WaveDraftPreview
preview_wave_draft call req db =
    let window = validate_change_window call req.change_window_start req.change_window_end in
    let live = target_is_live req.target_platform_family req.target_version db in
    and_then (validate_keys req.scope_selector) λ _.
      and_then (resolve_scope db req.scope_selector db.devices)
        λ resolution. returned (present req.mode window live resolution)
