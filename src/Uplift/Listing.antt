-- ===== src/Uplift/Listing.antt =====
-- gard/core/uplift_wave_controller.py and gard/core/uplift_exception_controller.py: the lists of
-- waves and of exceptions, page by page.
use gard.Prelude.{
  ℕ, String, Bool, true, Option, none, some, List, ◌==◌, str_eq, opt_str_eq, is_none, filter_by,
  any_of, id_in, map, ◌&&◌, ◌||◌,
}
use gard.Prelude.Paging.{PageError, list_rows}
use gard.Prelude.Tx.{Outcome}
use gard.Lifecycle.{wave_value, exception_value}
use gard.Db.{UpliftWave, UpliftException, Db}

-- The arguments of `list_waves` but for the page
pub record WaveQuery : Type 0 where
  pub plan_id : Option ℕ
  pub state : Option String
  pub target_version : Option String
  pub region : Option String
  pub site : Option String
  pub platform_family : Option String

-- `if x is not None: q = q.where(column == x)`
abbrev pub where_id : Option ℕ → ℕ → Bool
where_id none column = true
where_id (some x) column = column == x

abbrev pub where_text : Option String → String → Bool
where_text none column = true
where_text (some x) column = str_eq column x

-- the same on a column that may be null
abbrev pub where_optional : Option String → Option String → Bool
where_optional none column = true
where_optional (some x) column = opt_str_eq column (some x)

-- `member_q`: the waves with a device in the region and at the site
unfoldable pub member_waves : Option String → Option String → Db → List ℕ
member_waves region site db =
    map (λ wd. wd.wave_id)
      (filter_by
        (λ wd.
          any_of
            (λ d.
              (d.id == wd.device_id) && (where_optional region d.region && where_text site d.site))
            db.devices)
        db.wave_devices)

abbrev pub is_asked : WaveQuery → Db → UpliftWave → Bool
is_asked q db w =
    where_id q.plan_id w.plan_id
    && (where_text q.state (wave_value w.state)
        && (where_text q.target_version w.target_version
            && (where_text q.platform_family w.target_platform_family
                && ((is_none q.region && is_none q.site)
                    || id_in w.id (member_waves q.region q.site db)))))

unfoldable pub list_waves :
    WaveQuery → ℕ → Option ℕ → Db → Outcome PageError (List UpliftWave × Option ℕ)
list_waves q limit after_id db =
    list_rows (λ w. w.id) limit after_id (filter_by (is_asked q db) db.waves)

abbrev pub is_filed : Option ℕ → Option String → UpliftException → Bool
is_filed device_id state e =
    where_id device_id e.device_id && where_text state (exception_value e.state)

unfoldable pub list_exceptions :
    Option ℕ
    → Option String
    → ℕ
    → Option ℕ
    → Db
    → Outcome PageError (List UpliftException × Option ℕ)
list_exceptions device_id state limit after_id db =
    list_rows (λ e. e.id) limit after_id (filter_by (is_filed device_id state) db.exceptions)
