-- ===== src/Same.antt =====
-- Python's `==` on the JSON that rows store: details, reasons, blockers and actions.
use gard.Prelude.{
  String, Bool, true, false, Option, none, some, List, [], ◌∷◌, ◌==◌, ◌&&◌, str_eq, opt_eq,
  opt_str_eq,
}
use gard.Prelude.Chars.{chars_eq}
use gard.Envelope.{
  Json, time, null, flag, num, str, strs, slugs, uuid, ids, Detail, Blocker, Reason, ReasonKind,
  target_matched, target_runner_up, version_match, version_mismatch, missing_observation,
  no_target_matched, empty_catalog, predicate_deferred, stale_observation, package_not_built,
  active_exception, RecommendedAction, predicate_value,
}
use gard.Prereq.Order.{severity_rank}
use gard.Actions.{action_value}

module _ {A : Type 0} (same : A → A → Bool) where
  abbrev pub list_eq : List A → List A → Bool
  list_eq [] [] = true
  list_eq (x ∷ xs) (y ∷ ys) = same x y && list_eq xs ys
  list_eq [] (y ∷ ys) = false
  list_eq (x ∷ xs) [] = false

  abbrev pub option_eq : Option A → Option A → Bool
  option_eq none none = true
  option_eq (some a) (some b) = same a b
  option_eq none (some b) = false
  option_eq (some a) none = false

abbrev pub bool_eq : Bool → Bool → Bool
bool_eq true b = b
bool_eq false true = false
bool_eq false false = true

abbrev pub json_eq : Json → Json → Bool
json_eq null null = true
json_eq (flag a) (flag b) = bool_eq a b
json_eq (num a) (num b) = a == b
json_eq (str a) (str b) = str_eq a b
json_eq (strs a) (strs b) = list_eq str_eq a b
json_eq (slugs a) (slugs b) = list_eq chars_eq a b
json_eq (uuid a) (uuid b) = a == b
json_eq (ids a) (ids b) = list_eq (λ x y. x == y) a b
json_eq (time a) (Json.time b) = a == b
json_eq _ _ = false

abbrev pub entry_eq : String × Json → String × Json → Bool
entry_eq a b = str_eq a.0 b.0 && json_eq a.1 b.1

abbrev pub detail_eq : Detail → Detail → Bool
detail_eq a b = str_eq a.template b.template && list_eq json_eq a.args b.args

-- `rule_name` is not compared
abbrev pub blocker_eq : Blocker → Blocker → Bool
blocker_eq a b =
    opt_eq a.rule_id b.rule_id
    && (str_eq (predicate_value a.predicate_kind) (predicate_value b.predicate_kind)
        && ((severity_rank a.severity == severity_rank b.severity)
            && (option_eq (list_eq entry_eq) a.required_value b.required_value
                && (option_eq (list_eq entry_eq) a.observed_value b.observed_value
                    && detail_eq a.detail b.detail))))

abbrev pub reason_value : ReasonKind → String
reason_value target_matched = "target_matched"
reason_value target_runner_up = "target_runner_up"
reason_value version_match = "version_match"
reason_value version_mismatch = "version_mismatch"
reason_value missing_observation = "missing_observation"
reason_value no_target_matched = "no_target_matched"
reason_value empty_catalog = "empty_catalog"
reason_value predicate_deferred = "predicate_deferred"
reason_value stale_observation = "stale_observation"
reason_value ReasonKind.missing_upgrade_path = "missing_upgrade_path"
reason_value package_not_built = "package_not_built"
reason_value active_exception = "active_exception"

-- the signature `(kind, ref_id, detail)`
abbrev pub reason_same : Reason → Reason → Bool
reason_same a b =
    str_eq (reason_value a.kind) (reason_value b.kind)
    && (opt_eq a.ref_id b.ref_id && detail_eq a.detail b.detail)

-- the whole reason
abbrev pub reason_eq : Reason → Reason → Bool
reason_eq a b = reason_same a b && opt_str_eq a.ref_type b.ref_type

abbrev pub action_eq : RecommendedAction → RecommendedAction → Bool
action_eq a b =
    str_eq (action_value a.kind) (action_value b.kind)
    && (opt_str_eq a.target_version b.target_version
        && (opt_str_eq a.target_platform_family b.target_platform_family
            && (opt_eq a.target_device_id b.target_device_id
                && (opt_eq a.target_observation_id b.target_observation_id
                    && (opt_eq a.target_firmware_target_id b.target_firmware_target_id
                        && (list_eq str_eq a.requires b.requires
                            && option_eq detail_eq a.detail b.detail))))))
