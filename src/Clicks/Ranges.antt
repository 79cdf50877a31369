-- ===== src/Clicks/Ranges.antt =====
-- modules/clicks/clicks.service.ts: `getClicksByDateRange`; modules/clicks/clicks.controller.ts:
-- `getLinkAnalytics`. The dates are days, counted from 1970.
use Prim.Native.String
use dist_link.Base.{
  ℕ, zero, suc, ◌-◌, ◌/◌, String, Bool, true, false, ◌||◌, Option, none, some, List, [], ◌∷◌, map,
  length, take, drop, keep, eqb, if◌then◌else◌,
}
use dist_link.Base.Dict.{Dict, put}
use dist_link.Base.Exec.{Exec, pure, gets, ◌>>=◌}
use dist_link.Clicks.Countries.{get_clicks_by_country}
use dist_link.Clicks.Recording.{
  ClickRow, Stat, ClickTables, ClickWorld, day, read, get_click_count, get_recent_clicks,
}

-- A number, or a text.
pub data Amount : Type 0 where
  number : ℕ → Amount
  as_text : String → Amount

-- `amount += long`: a Long is an object, so that `+` writes one text after the other; `decimal` is its `toString`.
abbrev pub add_long : (decimal : ℕ → String) → Amount → ℕ → Amount
add_long decimal (number n) long = as_text (String.◌++◌ (decimal n) (decimal long))
add_long decimal (as_text s) long = as_text (String.◌++◌ s (decimal long))

-- An entry of `dailyData`.
pub record DailyData : Type 0 where
  pub date : ℕ
  pub total_clicks : Amount
  pub countries : Dict ℕ

abbrev pub add_to_day : (ℕ → String) → Stat → DailyData → DailyData
add_to_day decimal r d = record d {
  total_clicks = add_long decimal d.total_clicks r.click_count;
  countries = put d.countries r.country r.click_count;
}

-- One round of the `forEach`.
unfoldable pub add_daily_row : (ℕ → String) → List DailyData → Stat → List DailyData
add_daily_row decimal [] r =
    add_to_day decimal r (record { date = r.count_date; total_clicks = number 0; countries = [] })
    ∷ []
add_daily_row decimal (d ∷ days) r =
    let rest = add_daily_row decimal days r in
    if eqb d.date r.count_date then add_to_day decimal r d ∷ days else d ∷ rest

unfoldable pub add_daily_rows : (ℕ → String) → List DailyData → List Stat → List DailyData
unfolding add_daily_row
add_daily_rows decimal days [] = days
add_daily_rows decimal days (r ∷ rows) = add_daily_rows decimal (add_daily_row decimal days r) rows

-- `for (dt = start; dt <= end; dt += oneDay)`, by the rounds that are left
unfoldable pub days_from : (start : ℕ) → (rounds : ℕ) → List ℕ
days_from start zero = []
days_from start (suc rounds) = start ∷ days_from (suc start) rounds

abbrev pub dates_between : ℕ → ℕ → List ℕ
dates_between start end = days_from start (suc end - start)

abbrev pub batch_size : ℕ
batch_size = 7

-- The slices of the second loop; each round takes at least one date, so that as many rounds as there
-- are dates are enough.
unfoldable pub slices : (rounds : ℕ) → List ℕ → List (List ℕ)
slices zero dates = []
slices (suc rounds) [] = []
slices (suc rounds) (d ∷ dates) =
    take batch_size (d ∷ dates) ∷ slices rounds (drop batch_size (d ∷ dates))

abbrev pub has_date : List ℕ → ℕ → Bool
has_date [] t = false
has_date (d ∷ dates) t = eqb d t || has_date dates t

-- `count_date IN ?`
abbrev pub rows_on : List ℕ → List Stat → List Stat
rows_on dates stats = keep (λ r. has_date dates r.count_date) stats

-- The 7 days before today, or the range that is asked for
abbrev pub start_of : ℕ → Option ℕ → Option ℕ → ℕ
start_of today (some start) (some end) = start
start_of today _ _ = today - 7

abbrev pub end_of : ℕ → Option ℕ → Option ℕ → ℕ
end_of today (some start) (some end) = end
end_of today _ _ = today

pub record LinkAnalytics : Type 0 where
  pub short_code : String
  pub start_date : ℕ
  pub end_date : ℕ
  pub total_clicks : ℕ
  pub country_stats : Dict ℕ
  pub daily_stats : List DailyData
  pub recent_clicks : Option (List ClickRow)

module _ {tables : ClickTables} where
  unfoldable pub read_slices :
      String → List DailyData → List (List ℕ) → Exec (ClickWorld tables) (List DailyData)
  unfolding read add_daily_rows
  read_slices link_id days [] = pure days
  read_slices link_id days (dates ∷ rest) = do
    rows ← read (λ s. rows_on dates (tables.stats s link_id))
    read_slices link_id (add_daily_rows tables.decimal days rows) rest

  unfoldable pub get_clicks_by_date_range :
      String → ℕ → ℕ → Exec (ClickWorld tables) (List DailyData)
  unfolding read_slices slices days_from
  get_clicks_by_date_range link_id start end =
      let dates = dates_between start end in read_slices link_id [] (slices (length dates) dates)

  unfoldable pub clicks_by_country_of : String → Exec (ClickWorld tables) (Dict ℕ)
  unfolding read get_clicks_by_country
  clicks_by_country_of link_id =
      read (λ s.
        get_clicks_by_country (map (λ r. (r.country, r.click_count)) (tables.stats s link_id)))

  abbrev pub recent : Bool → String → ℕ → Exec (ClickWorld tables) (Option (List ClickRow))
  recent false link_id limit = pure none
  recent true link_id limit = do rows ← get_recent_clicks link_id limit; pure (some rows)

  -- The four calls of `Promise.all` only read, so that they may run one after the other. `recent_limit`
  -- is what `parseInt` gives, or 50. The total is a Long, as COUNT gives it, which is an object: neither
  -- `!totalClicks` nor `=== 0` ever holds of the answer, so that the NotFoundException is not thrown.
  unfoldable pub get_link_analytics :
      String
      → Option ℕ
      → Option ℕ
      → (include_recent : Bool) → (recent_limit : ℕ) → Exec (ClickWorld tables) LinkAnalytics
  unfolding get_click_count get_clicks_by_date_range clicks_by_country_of get_recent_clicks
  get_link_analytics short_code start end include_recent recent_limit = do
    today ← gets (λ w. w.now / day)
    total ←
        get_click_count short_code (some (start_of today start end)) (some (end_of today start end))
    daily ← get_clicks_by_date_range short_code (start_of today start end) (end_of today start end)
    countries ← clicks_by_country_of short_code
    rows ← recent include_recent short_code recent_limit
    pure (record {
      short_code = short_code;
      start_date = start_of today start end;
      end_date = end_of today start end;
      total_clicks = total;
      country_stats = countries;
      daily_stats = daily;
      recent_clicks = rows;
    })
