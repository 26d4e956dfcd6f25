-- ===== src/Uplift/Plans.antt =====
-- gard/core/uplift_plan_controller.py: plans group waves; they are created, archived and listed.
use gard.Prelude.{
  ℕ, String, Bool, Option, none, some, List, [], ◌∷◌, ◌++◌, ◌==◌, ◌||◌, is_none, filter_by, length,
}
use gard.Prelude.Rows.{find_row, update_row}
use gard.Prelude.Paging.{PageError, list_rows, map_rows}
use gard.Prelude.Tx.{Tx, Outcome, give, reads, require_some, writes, ◌>>=◌, ◌>>◌}
use gard.Envelope.{str, uuid, time, null, JsonObject}
use gard.Db.{UpliftPlan, AuditEvent, Db, Call, emit}

pub data PlanError : Type 0 where
  plan_not_found : ℕ → PlanError

abbrev pub plan_event : Call → String → ℕ → Option JsonObject → JsonObject → AuditEvent
plan_event call action i before after = record {
  action = action;
  object_type = "UpliftPlan";
  object_id = i;
  actor = call.actor;
  actor_type = call.actor_type;
  before = before;
  after = some after;
}

-- The identifier is the next `uuid7`.
unfoldable pub create_plan : Call → String → Option String → ℕ → Tx Db PlanError UpliftPlan
create_plan call name description plan_id =
    let plan : UpliftPlan = record {
      id = plan_id;
      name = name;
      description = description;
      created_by = call.actor;
      created_at = call.now;
      archived_at = none;
      archived_by = none;
    } in
    writes (λ db. record db { plans = db.plans ++ plan ∷ [] })
    >> writes (
        emit (
          plan_event call "uplift_plan.created" plan_id none
            (("id", uuid plan_id) ∷ ("name", str name) ∷ [])))
    >> give plan

unfoldable pub get_plan : ℕ → Db → Option UpliftPlan
get_plan plan_id db = find_row (λ p. p.id) plan_id db.plans

abbrev pub archived : Call → UpliftPlan → UpliftPlan
archived call plan = record plan { archived_at = some call.now; archived_by = some call.actor }

-- the writes of `archive_plan`, on a plan that is not archived
unfoldable pub archive : Call → UpliftPlan → Tx Db PlanError UpliftPlan
archive call plan =
    writes (λ db. record db { plans = update_row (λ p. p.id) plan.id (archived call) db.plans })
    >> writes (
        emit (
          plan_event call "uplift_plan.archived" plan.id (some (("archived_at", null) ∷ []))
            (("archived_at", time call.now) ∷ [])))
    >> give (archived call plan)

-- `if plan.archived_at is not None: return plan`
abbrev pub archive_unless : Option ℕ → Call → UpliftPlan → Tx Db PlanError UpliftPlan
archive_unless (some t) call plan = give plan
archive_unless none call plan = archive call plan

unfoldable pub archive_plan : Call → ℕ → Tx Db PlanError UpliftPlan
archive_plan call plan_id =
    reads (get_plan plan_id) >>= (λ found. require_some (plan_not_found plan_id) found) >>= λ plan.
    archive_unless plan.archived_at call plan

unfoldable pub count_waves : ℕ → Db → ℕ
count_waves plan_id db = length (filter_by (λ w. w.plan_id == plan_id) db.waves)

abbrev pub is_shown : Bool → UpliftPlan → Bool
is_shown include_archived plan = include_archived || is_none plan.archived_at

-- each plan with the number of its waves
unfoldable pub list_plans :
    Bool → ℕ → Option ℕ → Db → Outcome PageError (List (UpliftPlan × ℕ) × Option ℕ)
list_plans include_archived limit after_id db =
    map_rows (λ p. (p, count_waves p.id db))
      (list_rows (λ p. p.id) limit after_id (filter_by (is_shown include_archived) db.plans))
