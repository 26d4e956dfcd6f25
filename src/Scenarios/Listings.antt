-- ===== src/Scenarios/Listings.antt =====
-- Lists of waves, exceptions and plans, read page by page.
use gard.Prelude.{[], ◌∷◌, none, some, ◌≡◌, refl, ℕ, arith, filter_by}
use gard.Prelude.Sorting.{sort_by, insert_by}
use gard.Prelude.Paging.{IsKeyed, descending, index_error, follow, list_rows}
use gard.Prelude.Tx.{raised}
use gard.Prelude.Paging.Walk.{map_read}
use gard.Lifecycle.{WaveState, LifecycleState, draft, submitted}
use gard.Db.{UpliftWave, Db}
use gard.Uplift.Listing.{WaveQuery, member_waves, is_asked, list_waves}
use gard.Uplift.Readers.{follow-list_waves}
use gard.Scenarios.{wave_db, wave_in}

abbrev numbered : ℕ → WaveState → UpliftWave
numbered i state = record (wave_in state) { id = i }

-- four waves, of which number 5 has a device in the north
abbrev waves_db : Db
waves_db = record (wave_db draft LifecycleState.ready_for_uplift) {
  waves = numbered 4 draft ∷ numbered 9 submitted ∷ numbered 5 draft ∷ numbered 6 draft ∷ [];
}

abbrev drafts : WaveQuery
drafts = record {
  plan_id = some 1;
  state = some "draft";
  target_version = none;
  region = none;
  site = none;
  platform_family = none;
}

abbrev north : WaveQuery
north = record drafts { region = some "north" }

waves_db-IsKeyed : IsKeyed (λ w. w.id) waves_db.waves
waves_db-IsKeyed k = ground arith

follow-list_waves_example :
    follow 4 (λ after. list_waves drafts 1 after waves_db) none
    ≡ some (sort_by (descending (λ w. w.id)) (filter_by (is_asked drafts waves_db) waves_db.waves))
follow-list_waves_example = follow-list_waves 4 0 waves_db drafts waves_db-IsKeyed (omega arith)

-- the drafts, one a page
reads_drafts :
    map_read (λ w. w.id) (follow 4 (λ after. list_waves drafts 1 after waves_db) none)
    ≡ some (6 ∷ 5 ∷ 4 ∷ [])
unfolding follow list_waves list_rows sort_by insert_by
reads_drafts = refl

-- by region, through the members
reads_north :
    map_read (λ w. w.id) (follow 4 (λ after. list_waves north 1 after waves_db) none)
    ≡ some (5 ∷ [])
unfolding follow list_waves list_rows sort_by insert_by member_waves
reads_north = refl

-- a limit of zero asks for the last of no rows
zero_limit : list_waves drafts 0 none waves_db ≡ raised index_error
unfolding list_waves list_rows
zero_limit = refl

-- three pages are one too few
reads_too_little : follow 3 (λ after. list_waves drafts 1 after waves_db) none ≡ none
unfolding follow list_waves list_rows sort_by insert_by
reads_too_little = refl
