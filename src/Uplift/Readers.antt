-- ===== src/Uplift/Readers.antt =====
-- Clients that read the lists of waves, exceptions and plans to the end.
use gard.Prelude.{
  ℕ, String, Bool, Option, none, some, suc, ◌≡◌, ◌∙◌, ◌<◌, ap, map, length, filter_by,
}
use gard.Prelude.Sorting.{sort_by}
use gard.Prelude.Paging.{IsKeyed, descending, list_rows, follow}
use gard.Prelude.Paging.Cursors.{filter_by-IsKeyed}
use gard.Prelude.Paging.Walk.{map_read, follow-list_rows, follow-map_rows}
use gard.Db.{Db}
use gard.Uplift.Plans.{count_waves, is_shown, list_plans}
use gard.Uplift.Listing.{WaveQuery, is_asked, list_waves, is_filed, list_exceptions}

module _ (fuel n : ℕ) (db : Db) where
  -- With a limit of one at least, on waves with distinct identifiers and with more rounds than
  -- there are matching waves, a client that follows the cursors of list_waves gets each matching
  -- wave once, the latest identifier first, and meets a page without a cursor within these rounds.
  pub follow-list_waves :
      (q : WaveQuery)
      → IsKeyed (λ w. w.id) db.waves
      → length (filter_by (is_asked q db) db.waves) < fuel
      → follow fuel (λ after. list_waves q (suc n) after db) none
        ≡ some (sort_by (descending (λ w. w.id)) (filter_by (is_asked q db) db.waves))
  unfolding list_waves
  follow-list_waves q keyed enough =
      follow-list_rows (λ w. w.id) fuel n (filter_by (is_asked q db) db.waves)
        (filter_by-IsKeyed (λ w. w.id) (is_asked q db) db.waves keyed) enough

  -- The same of list_exceptions.
  pub follow-list_exceptions :
      (device_id : Option ℕ) (state : Option String)
      → IsKeyed (λ e. e.id) db.exceptions
      → length (filter_by (is_filed device_id state) db.exceptions) < fuel
      → follow fuel (λ after. list_exceptions device_id state (suc n) after db) none
        ≡ some
            (sort_by (descending (λ e. e.id)) (filter_by (is_filed device_id state) db.exceptions))
  unfolding list_exceptions
  follow-list_exceptions device_id state keyed enough =
      follow-list_rows (λ e. e.id) fuel n (filter_by (is_filed device_id state) db.exceptions)
        (filter_by-IsKeyed (λ e. e.id) (is_filed device_id state) db.exceptions keyed) enough

  -- The same of list_plans, each plan with the number of its waves.
  pub follow-list_plans :
      (include_archived : Bool)
      → IsKeyed (λ p. p.id) db.plans
      → length (filter_by (is_shown include_archived) db.plans) < fuel
      → follow fuel (λ after. list_plans include_archived (suc n) after db) none
        ≡ some (
            map
              (λ p. (p, count_waves p.id db))
              (sort_by (descending (λ p. p.id)) (filter_by (is_shown include_archived) db.plans)))
  unfolding list_plans
  follow-list_plans include_archived keyed enough =
      let shown = filter_by (is_shown include_archived) db.plans in
      follow-map_rows (λ p. (p, count_waves p.id db)) fuel
        (λ after. list_rows (λ p. p.id) (suc n) after shown) none
      ∙ ap (map_read λ p. (p, count_waves p.id db)) (
          follow-list_rows (λ p. p.id) fuel n shown
            (filter_by-IsKeyed (λ p. p.id) (is_shown include_archived) db.plans keyed) enough)
