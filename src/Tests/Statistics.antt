-- ===== src/Tests/Statistics.antt =====
-- The theorems on statistics of clicks, over tables that are lists.
use Prim.Native.String
use dist_link.Base.{
  ◌⊎◌, ℕ, ◌+◌, ◌≤◌, String, ◌≡◌, refl, Bool, true, false, ◌&&◌, none, some, List, [], ◌∷◌, length,
  All, arith, ◌==◌, eq_iff, eqb, if◌then◌else◌,
}
use dist_link.Base.Dict.{get, put}
use dist_link.Base.Exec.{ok}
use dist_link.Urls.Types.{iso}
use dist_link.Clicks.Events.{Event}
use dist_link.Clicks.Agents.{Metadata, parse_user_agent}
use dist_link.Clicks.Daily.{analytics_queries, DayKey}
use dist_link.Clicks.Aggregation.{
  analytics_queries_exact, events_on, clicks_added, has_colon, IsBalanced,
}
use dist_link.Clicks.Recording.{
  ClickRow, has_click, Stat, sum_clicks, ClickTables, ClickWorld, record_click,
}
use dist_link.Clicks.Ranges.{as_text, DailyData, get_clicks_by_date_range}
use dist_link.Clicks.Totals.{
  recorded_clicks, counted_clicks, steady, record_click_counts, IsRecorded, IsUncounted,
}
use dist_link.Clicks.Dates.{shown_on, has_rows, digits_on, clicks_by_date_range_exact}

abbrev Counts : Type 0
Counts = List (String × Stat)

abbrev rows_of_link : String → List ClickRow → List ClickRow
rows_of_link link [] = []
rows_of_link link (r ∷ rows) =
    if r.link_id == link then r ∷ rows_of_link link rows else rows_of_link link rows

abbrev stats_of : String → Counts → List Stat
stats_of link [] = []
stats_of link ((l, s) ∷ counts) =
    if l == link then s ∷ stats_of link counts else stats_of link counts

abbrev bump_stat : Counts → String → ℕ → String → Counts
bump_stat [] link t c = (link, record { count_date = t; country = c; click_count = 1 }) ∷ []
bump_stat ((l, s) ∷ counts) link t c =
    let rest = bump_stat counts link t c in
    if l == link && (eqb s.count_date t && s.country == c)
    then (l, record s { click_count = s.click_count + 1 }) ∷ counts
    else (l, s) ∷ rest

pub sum-bump_stat :
    (counts : Counts) (link : String) (t : ℕ) (c j : String)
    → sum_clicks (stats_of j (bump_stat counts link t c))
      ≡ (if link == j then sum_clicks (stats_of j counts) + 1 else sum_clicks (stats_of j counts))
sum-bump_stat [] link t c j = ground arith
sum-bump_stat ((l, s) ∷ counts) link t c j =
    ground (arith, sum-bump_stat counts link t c j, eq_iff l link, eq_iff l j, eq_iff link j)

-- A row of the same link, time and id is replaced.
abbrev same_click : ClickRow → ClickRow → Bool
same_click r e =
    r.link_id == e.link_id && (eqb r.clicked_at e.clicked_at && r.click_id == e.click_id)

abbrev upsert : List ClickRow → ClickRow → List ClickRow
upsert [] e = e ∷ []
upsert (r ∷ rows) e = let rest = upsert rows e in if same_click r e then e ∷ rows else r ∷ rest

pub length-upsert :
    (rows : List ClickRow) (e : ClickRow) (link : String)
    → has_click (rows_of_link e.link_id rows) e.clicked_at e.click_id ≡ false
    → length (rows_of_link link (upsert rows e)) ≡ (
        if e.link_id == link
        then length (rows_of_link link rows) + 1
        else length (rows_of_link link rows))
length-upsert [] e link h = ground arith
length-upsert (r ∷ rows) e link h = ground (
  arith,
  length-upsert rows e link,
  eq_iff r.link_id e.link_id,
  eq_iff r.link_id link,
  eq_iff e.link_id link,
)

abbrev pub click_tables : ClickTables
click_tables = record {
  State = List ClickRow × Counts;
  events = λ s link. rows_of_link link s.0;
  stats = λ s link. stats_of link s.1;
  decimal = λ n. if eqb n 0 then "0" else if eqb n 1 then "1" else "9";
  insert_event = λ s e. (upsert s.0 e, s.1);
  add_stat = λ s link t c. (s.0, bump_stat s.1 link t c);
  events-insert_event = λ s e link h. length-upsert s.0 e link h;
  events-add_stat = λ s link t c j. refl;
  stats-insert_event = λ s e link. refl;
  stats-add_stat = λ s link t c j. sum-bump_stat s.1 link t c j;
}

-- Nothing is recorded; it is the 20001st day since 1970.
abbrev pub no_clicks : ClickWorld click_tables
no_clicks = record {
  now = 1728000005000;
  db = ([], []);
  geography = record { country_cache = []; last_request_time = 0 };
  answer = λ ip. some (some "Vietnam");
  latency = 40;
  uuid = λ n. if eqb n 0 then "id-a" else "id-b";
  drawn = 0;
  faults = [];
}

abbrev one_click : ClickWorld click_tables
one_click = (record_click "annslink" "1.1.1.1" "curl" no_clicks).1

-- The second statement fails: the click is recorded, and not counted.
abbrev half_click : ClickWorld click_tables
half_click =
    (record_click "annslink" "1.1.1.1" "curl" (record no_clicks { faults = false ∷ true ∷ [] })).1

half_click_test :
    (recorded_clicks half_click "annslink" ≡ 1) × (counted_clicks half_click "annslink" ≡ 0)
unfolding record_click
half_click_test = (refl, refl)

none_ahead : counted_clicks half_click "annslink" ≤ recorded_clicks half_click "annslink"
unfolding record_click
none_ahead = omega arith

-- The second click has an id of its own.
new_click :
    has_click
      (click_tables.events half_click.db "annslink")
      half_click.now
      (half_click.uuid half_click.drawn)
    ≡ false
unfolding record_click
new_click = refl

record_click_counts_example :
    (counted_clicks (record_click "annslink" "2.2.2.2" "curl" half_click).1 "annslink"
      ≤ recorded_clicks (record_click "annslink" "2.2.2.2" "curl" half_click).1 "annslink")
    × (IsRecorded "annslink" "2.2.2.2" "curl" "annslink" half_click
        ⊎ IsUncounted "annslink" "2.2.2.2" "curl" "annslink" half_click)
record_click_counts_example =
    record_click_counts "annslink" "2.2.2.2" "curl" "annslink" half_click new_click none_ahead

-- The click of the day is in its statistics, which are read in two slices; its total is a text.
range_test :
    (get_clicks_by_date_range "annslink" 19991 20000 one_click).0
    ≡ ok
        (record { date = 20000; total_clicks = as_text "01"; countries = ("Vietnam", 1) ∷ [] } ∷ [])
unfolding record_click get_clicks_by_date_range get put
range_test = refl

clicks_by_date_range_exact_example :
    (days : List DailyData) × ((get_clicks_by_date_range "annslink" 19991 20000
        (steady one_click)).0
      ≡ ok days)
    × (shown_on 20000 days ≡ (
        if has_rows 20000 (click_tables.stats one_click.db "annslink")
        then some (
            as_text (
              String.◌++◌ (click_tables.decimal 0) (
                digits_on click_tables.decimal 20000 (click_tables.stats one_click.db "annslink"))))
        else none))
clicks_by_date_range_exact_example =
    clicks_by_date_range_exact "annslink" 19991 20000 20000 one_click

abbrev visit_of : String → String → Event Metadata
visit_of code ua = record {
  short_code = code;
  timestamp = iso 1728000005000;
  metadata = record {
    user_agent = some ua;
    ip = some "1.1.1.1";
    referer = none;
    device = some (parse_user_agent (some ua));
    geo = none;
    processed_at = none;
  };
}

abbrev visits : List (Event Metadata)
visits = visit_of "annslink" "iPhone" ∷ visit_of "oldlinks" "curl" ∷ visit_of "annslink" "curl" ∷ []

abbrev anns_day : DayKey
anns_day = record { short_code = "annslink"; day = 20000 }

clicks_added_test : clicks_added anns_day (analytics_queries visits) ≡ 2
unfolding analytics_queries parse_user_agent
clicks_added_test = refl

-- Of a code with a colon the first part is taken for the code, and the second for the day.
colon_test :
    clicks_added
      (record { short_code = "a:b"; day = 20000 })
      (analytics_queries (visit_of "a:b" "curl" ∷ []))
    ≡ 0
unfolding analytics_queries parse_user_agent
colon_test = refl

analytics_queries_exact_example :
    (clicks_added anns_day (analytics_queries visits) ≡ events_on anns_day visits)
    × All IsBalanced (analytics_queries visits)
unfolding has_colon
analytics_queries_exact_example = analytics_queries_exact visits anns_day (refl, (refl, (refl, tt)))
