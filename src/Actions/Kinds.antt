-- ===== src/Actions/Kinds.antt =====
-- How often a kind of action occurs in a list.
use gard.Prelude.{
  ℕ, String, Bool, true, false, Option, none, some, List, [], ◌∷◌, ◌++◌, ◌≡◌, ◌≤◌, ◌+◌, ◌&&◌, not,
  str_eq, length, filter_by, arith, if◌then◌else◌,
}
use gard.Prelude.Sorting.{count-sort_by}
use gard.Envelope.{
  ActionKind, RecommendedAction, ComplianceEnvelope, DriftType, target_drift, catalog_drift,
  package_drift, rule_drift, evidence_drift, discovery_drift,
}
use gard.Db.{Device}
use gard.Actions.{
  define_target, define_upgrade_path, upload_firmware_package, upgrade_path_query,
  trigger_discovery, request_observation_refresh, action_value, has_drift, when, target_actions,
  kind_leb, sort_actions, collect_actions, build_actions_for,
}

abbrev pub is_kind : ActionKind → RecommendedAction → Bool
is_kind k a = str_eq (action_value a.kind) (action_value k)

-- how many actions have the kind
abbrev pub count_kind : ActionKind → List RecommendedAction → ℕ
count_kind k actions = length (filter_by (is_kind k) actions)

-- one where the kinds agree
abbrev hit : ActionKind → ActionKind → ℕ
hit k j = if str_eq (action_value j) (action_value k) then 1 else 0

count_kind-append :
    (k : ActionKind) (xs ys : List RecommendedAction)
    → count_kind k (xs ++ ys) ≡ count_kind k xs + count_kind k ys
count_kind-append k [] ys = omega arith
count_kind-append k (x ∷ xs) ys = ground (arith, count_kind-append k xs ys)

count_kind-when :
    (k : ActionKind) (b : Bool) (a : RecommendedAction) → count_kind k (when b a) ≤ hit k a.kind
count_kind-when k true a = ground arith
count_kind-when k false a = omega arith

join :
    (k : ActionKind) (xs ys : List RecommendedAction) (m n : ℕ)
    → count_kind k xs ≤ m
    → count_kind k ys ≤ n
    → count_kind k (xs ++ ys) ≤ m + n
join k xs ys m n h i = omega (arith, count_kind-append k xs ys, h, i)

-- The kinds of the six actions differ.
hits :
    (k : ActionKind)
    → hit k ActionKind.define_target
        + (hit k ActionKind.define_upgrade_path
            + (hit k ActionKind.upload_firmware_package
                + (hit k ActionKind.upgrade_path_query
                    + (hit k ActionKind.trigger_discovery
                        + hit k ActionKind.request_observation_refresh))))
      ≤ 1
hits ActionKind.upgrade_path_query = omega arith
hits ActionKind.define_target = omega arith
hits ActionKind.define_upgrade_path = omega arith
hits ActionKind.upload_firmware_package = omega arith
hits ActionKind.trigger_discovery = omega arith
hits ActionKind.request_observation_refresh = omega arith
hits ActionKind.escalate_to_catalog_owner = omega arith
hits ActionKind.acknowledge_exception = omega arith
hits ActionKind.schedule_uplift_wave = omega arith
hits ActionKind.hardware_refresh = omega arith
hits ActionKind.license_acquire = omega arith
hits ActionKind.firmware_intermediate_step = omega arith
hits ActionKind.import_observation = omega arith
hits ActionKind.submit_for_approval = omega arith
hits ActionKind.assign_approver = omega arith
hits ActionKind.extend_change_window = omega arith
hits ActionKind.request_exception_review = omega arith
hits ActionKind.cancel_wave = omega arith

count_kind-target_actions :
    (k : ActionKind) (device : Device) (envelope : ComplianceEnvelope) (drifts : List DriftType)
    (version : Option String)
    → count_kind k (target_actions device envelope drifts version)
      ≤ hit k ActionKind.define_upgrade_path
        + (hit k ActionKind.upload_firmware_package + hit k ActionKind.upgrade_path_query)
count_kind-target_actions k device envelope drifts none = omega arith
count_kind-target_actions k device envelope drifts (some version) =
    join k _ _ _ _
      (count_kind-when k (has_drift rule_drift drifts)
        (define_upgrade_path envelope.observed_version version device.platform_family))
      (join k _ _ _ _
        (count_kind-when k (has_drift package_drift drifts)
          (upload_firmware_package version envelope.target_ref device.platform_family))
        (count_kind-when k (has_drift target_drift drifts && not (has_drift rule_drift drifts))
          (upgrade_path_query device.id version device.platform_family)))

collect_actions-hits :
    (k : ActionKind) (device : Device) (envelope : ComplianceEnvelope) (drifts : List DriftType)
    → count_kind k (collect_actions device envelope drifts)
      ≤ hit k ActionKind.define_target
        + ((hit k ActionKind.define_upgrade_path
              + (hit k ActionKind.upload_firmware_package + hit k ActionKind.upgrade_path_query))
            + (hit k ActionKind.trigger_discovery + hit k ActionKind.request_observation_refresh))
unfolding collect_actions
collect_actions-hits k device envelope drifts =
    join k _ _ _ _
      (count_kind-when k (has_drift catalog_drift drifts)
        (define_target device.id device.platform_family))
      (join k _ _ _ _ (count_kind-target_actions k device envelope drifts envelope.target_version) (
        join k _ _ _ _
          (count_kind-when k (has_drift discovery_drift drifts) (trigger_discovery device.id))
          (count_kind-when k (has_drift evidence_drift drifts)
            (request_observation_refresh device.id none))))

collect_actions-le :
    (k : ActionKind) (device : Device) (envelope : ComplianceEnvelope) (drifts : List DriftType)
    → count_kind k (collect_actions device envelope drifts) ≤ 1
collect_actions-le k device envelope drifts =
    omega (arith, hits k, collect_actions-hits k device envelope drifts)

-- `build_actions_for` suggests each kind of action at most once, so the order of its result is
-- the order of the kinds' texts.
pub build_actions_for-le :
    (k : ActionKind) (device : Device) (envelope : ComplianceEnvelope) (drifts : List DriftType)
    → count_kind k (build_actions_for device envelope drifts) ≤ 1
unfolding build_actions_for sort_actions
build_actions_for-le k device envelope drifts =
    rw (count-sort_by kind_leb (is_kind k) (collect_actions device envelope drifts))
      (collect_actions-le k device envelope drifts)
