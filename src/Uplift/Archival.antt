-- ===== src/Uplift/Archival.antt =====
-- gard/core/uplift_plan_controller.py: what archive_plan leaves behind.
use gard.Prelude.{
  ℕ, Option, none, some, ◌≡◌, refl, sym, ap, subst, ◌∙◌, inl, inr, true, ◌==◌, if◌then◌else◌,
  Option-cases, ==_self,
}
use gard.Prelude.Rows.{find_row, find_row-update_row, find_row-key, map_option}
use gard.Prelude.Tx.{returned, raised}
use gard.Db.{UpliftPlan, Db, Call, emit}
use gard.Uplift.Plans.{plan_not_found, get_plan, archived, archive, archive_unless, archive_plan}

archive_plan-found :
    (call : Call) (i : ℕ) (db : Db) (plan : UpliftPlan) (stamp : Option ℕ)
    → get_plan i db ≡ some plan
    → plan.archived_at ≡ stamp
    → archive_plan call i db ≡ archive_unless stamp call plan db
unfolding archive_plan
archive_plan-found call i db plan stamp found e =
    rw found refl ∙ ap (λ o. archive_unless o call plan db) e

get_plan-archive :
    (call : Call) (i : ℕ) (db : Db) (plan : UpliftPlan)
    → get_plan i db ≡ some plan
    → get_plan i (archive call plan db).1 ≡ some (archived call plan)
unfolding get_plan archive emit
get_plan-archive call i db plan found =
    let same : plan.id ≡ i = find_row-key (λ p. p.id) i db.plans plan found in
    let here : (i == plan.id) ≡ true = subst (λ k. (k == plan.id) ≡ true) same (==_self plan.id) in
    find_row-update_row (λ p. p.id) plan.id i (archived call) (λ r. refl) db.plans
    ∙ ap
        (λ b.
          if b
          then map_option (archived call) (find_row (λ p. p.id) i db.plans)
          else find_row (λ p. p.id) i db.plans)
        here
    ∙ ap (map_option (archived call)) found

archive_plan-missing :
    (call : Call) (i : ℕ) (db : Db)
    → get_plan i db ≡ none
    → archive_plan call i db ≡ (raised (plan_not_found i), db)
unfolding archive_plan
archive_plan-missing call i db missing = rw missing refl

archive-returned :
    (call : Call) (plan : UpliftPlan) (db : Db)
    → (archive call plan db).0 ≡ returned (archived call plan)
unfolding archive
archive-returned call plan db = refl

module _ (call later : Call) (i : ℕ) (db : Db) (plan : UpliftPlan) where
  -- the second call, after one that took a path
  again :
      (found : UpliftPlan) (stamp : Option ℕ)
      → get_plan i db ≡ some found
      → found.archived_at ≡ stamp
      → (archive_unless stamp call found db).0 ≡ returned plan
      → archive_plan later i (archive_unless stamp call found db).1
        ≡ (returned plan, (archive_unless stamp call found db).1)
  again found (some t) e stamp h =
      archive_plan-found later i db found (some t) e stamp ∙ ap (λ o. (o, db)) h
  again found none e stamp h =
      archive_plan-found later i (archive call found db).1 (archived call found) (some call.now)
        (get_plan-archive call i db found e) refl
      ∙ ap (λ o. (o, (archive call found db).1)) (sym (archive-returned call found db) ∙ h)

  -- Once archive_plan has returned a plan, whoever calls it again on that plan and whenever, the
  -- call returns the same row and writes nothing, neither to the tables nor to the audit log.
  pub archive_plan_again :
      (archive_plan call i db).0 ≡ returned plan
      → archive_plan later i (archive_plan call i db).1
        ≡ (returned plan, (archive_plan call i db).1)
  archive_plan_again h = elim (Option-cases (get_plan i db)) [
    | inl missing ↦ absurd (cc (ap (λ r. r.0) (archive_plan-missing call i db missing), h))
    | inr (found, e) ↦
        let first = archive_plan-found call i db found found.archived_at e refl in
        subst (λ r. archive_plan later i r.1 ≡ (returned plan, r.1)) (sym first)
          (again found found.archived_at e refl (ap (λ r. r.0) (sym first) ∙ h))
  ]
