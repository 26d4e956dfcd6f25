-- ===== src/Compliance.antt =====
-- gard/core/compliance_controller.py: one device against the live firmware targets.
pub mod Winner
pub mod Controller
pub mod Judgement
use gard.Prelude.{
  ℕ, String, Bool, true, false, Option, none, some, List, [], ◌∷◌, ◌++◌, map, ◌==◌, str_eq, str_in,
  str_ltb, not, is_none, is_some, leb, length, take, filter_by, ◌&&◌, if◌then◌else◌,
}
use gard.Prelude.Rows.{find_row, update_row}
use gard.Prelude.Sorting.{sort_by}
use gard.Prelude.Tx.{
  Tx, Outcome, returned, raised, and_then, give, reads, attempt, require_some, writes, ◌>>=◌, ◌>>◌,
}
use gard.Lifecycle.{LifecycleState, lifecycle_eq, lifecycle_value}
use gard.Scope.{
  Key, vendor_normalized, platform_family, region_in, site_in, role_in, hardware_revision_in,
  not_in_state, tagged_with, other, Facts, SelectorError, Evaluation, specificity,
}
use gard.Envelope.{
  Json, null, num, str, strs, uuid, Detail, ComplianceState, classified, compliant, outside_target,
  unknown, ReasonKind, target_matched, target_runner_up, version_match, version_mismatch,
  missing_observation, no_target_matched, empty_catalog, predicate_deferred, Reason,
  ComplianceEnvelope,
}
use gard.Db.{Device, DeviceObservation, FirmwareTarget, Db, Call, emit, latest_by}

-- `_Candidate`
pub record Candidate : Type 0 where
  pub target : FirmwareTarget
  pub specificity : ℕ
  pub deferred_keys : List Key

pub data ComplianceError : Type 0 where
  device_not_found : ℕ → ComplianceError
  bad_selector : SelectorError → ComplianceError

-- `_facts_for`
unfoldable pub facts_for : Device → Facts
facts_for d = record {
  vendor_normalized = d.vendor_normalized;
  platform_family = d.platform_family;
  region = d.region;
  site = some d.site;
  role = d.role;
  hardware_revision = d.hardware_revision;
  lifecycle_state = some (lifecycle_value d.lifecycle_state);
  tags = d.tags;
}

-- `_active_targets`
unfoldable pub active_targets : Db → List FirmwareTarget
active_targets db =
    sort_by (λ a b. leb b.loaded_at a.loaded_at) (filter_by (λ t. is_none t.removed_at) db.targets)

-- `_latest_observed_firmware`
unfoldable pub latest_observed_firmware : ℕ → Db → Option String
latest_observed_firmware device_id db =
    elim (latest_by (λ o. o.created_at)
      (filter_by (λ o. (o.device_id == device_id) && is_some o.observed_firmware)
        db.observations)) [ none ↦ none | some o ↦ o.observed_firmware ]

abbrev pub opt_json : Option String → Json
opt_json none = null
opt_json (some s) = str s

-- `_summarize`
unfoldable pub summarize : ComplianceState → Device → Option FirmwareTarget → Option String → Detail
summarize compliant d (some t) observed = record {
  template = "{}/{} on firmware {!r} matches target {!r}";
  args = str d.hostname ∷ str d.site ∷ opt_json observed ∷ str t.name ∷ [];
}
summarize outside_target d (some t) observed = record {
  template = "{}/{}: observed {!r} != target {!r} (target {!r})";
  args = str d.hostname ∷ str d.site ∷ opt_json observed ∷ str t.target_version ∷ str t.name ∷ [];
}
summarize unknown d (some t) observed = record {
  template = "{}/{}: target {!r} applies but no observed firmware is on file yet";
  args = str d.hostname ∷ str d.site ∷ str t.name ∷ [];
}
summarize classified d target observed = record {
  template = "{}/{}: no firmware target applies; lifecycle remains 'classified'";
  args = str d.hostname ∷ str d.site ∷ [];
}
summarize state d target observed = record {
  template = "{}/{}: lifecycle_state={}";
  args = str d.hostname ∷ str d.site ∷ str (state_value state) ∷ [];
}
  where
    state_value : ComplianceState → String
    state_value classified = "classified"
    state_value ComplianceState.target_defined = "target_defined"
    state_value compliant = "compliant"
    state_value outside_target = "outside_target"
    state_value unknown = "unknown"

pub record Matches : Type 0 where
  pub matched : List Candidate
  pub deferred : List Key

-- the loop of `_resolve_target` over the targets
unfoldable pub match_targets : List FirmwareTarget → Facts → Outcome SelectorError Matches
match_targets [] facts = returned (record { matched = []; deferred = [] })
match_targets (t ∷ targets) facts =
    let rest = match_targets targets facts in
    and_then (gard.Scope.evaluate t.scope_selector facts) λ verdict.
      if verdict.matched
      then (and_then (specificity t.scope_selector) λ n. and_then rest λ r. returned (record {
        matched =
            record { target = t; specificity = n; deferred_keys = verdict.deferred_keys }
            ∷ r.matched;
        deferred = verdict.deferred_keys ++ r.deferred;
      }))
      else (and_then rest λ r.
          returned (record { matched = r.matched; deferred = verdict.deferred_keys ++ r.deferred }))

-- `matched.sort(key=lambda c: c.specificity, reverse=True)`
abbrev pub by_specificity : Candidate → Candidate → Bool
by_specificity a b = leb b.specificity a.specificity

pub record Resolved : Type 0 where
  pub winner : Option Candidate
  pub runners_up : List Candidate
  pub deferred : List Key

abbrev pub rank : List Candidate → List Key → Resolved
rank [] deferred = record { winner = none; runners_up = []; deferred = deferred }
rank (c ∷ cs) deferred = record { winner = some c; runners_up = cs; deferred = deferred }

-- `_resolve_target`
unfoldable pub resolve_target : List FirmwareTarget → Facts → Outcome SelectorError Resolved
unfolding match_targets
resolve_target targets facts =
    and_then (match_targets targets facts)
      λ m. returned (rank (sort_by by_specificity m.matched) m.deferred)

abbrev pub key_value : Key → String
key_value vendor_normalized = "vendor_normalized"
key_value platform_family = "platform_family"
key_value region_in = "region_in"
key_value site_in = "site_in"
key_value role_in = "role_in"
key_value hardware_revision_in = "hardware_revision_in"
key_value not_in_state = "not_in_state"
key_value tagged_with = "tagged_with"
key_value (other k) = k

-- a set of texts, from a list
abbrev pub distinct : List String → List String
distinct [] = []
distinct (k ∷ ks) = let rest = distinct ks in if str_in k rest then rest else k ∷ rest

-- `sorted(deferred)`
abbrev pub sorted_keys : List Key → List String
sorted_keys ks = sort_by (λ a b. not (str_ltb b a)) (distinct (map key_value ks))

abbrev pub reason : ReasonKind → Option ℕ → String → List Json → Reason
reason kind ref template args = record {
  kind = kind;
  ref_type = none;
  ref_id = ref;
  detail = record { template = template; args = args };
}
