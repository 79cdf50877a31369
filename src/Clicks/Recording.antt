-- ===== src/Clicks/Recording.antt =====
-- modules/clicks/clicks.service.ts: `recordClick`, `getClickStats`, `getClickCount` and `getRecentClicks`,
-- over the tables `link_click_events` and `link_click_stats`, which are a parameter. A date text stands for
-- the day since 1970, and for its midnight where it is compared with a time.
use dist_link.Base.{
  ℕ, suc, ◌+◌, ◌*◌, ◌/◌, String, ◌≡◌, Bool, true, false, ◌&&◌, ◌||◌, Option, none, some, List, [],
  ◌∷◌, length, take, keep, ◌==◌, leb, eqb, if◌then◌else◌,
}
use dist_link.Base.Exec.{generic, ok, err, Exec, pure, gets, ◌>>=◌, ◌>>◌}
use dist_link.Base.Faults.{next_fails, later}
use dist_link.Clicks.Countries.{Geography, Lookup, get_country_with_cache}

pub record ClickRow : Type 0 where
  pub link_id : String
  pub click_id : String
  pub ip_address : String
  pub country : String
  pub clicked_at : ℕ
  pub user_agent : String

-- A row of `link_click_stats` under its link.
pub record Stat : Type 0 where
  pub count_date : ℕ
  pub country : String
  pub click_count : ℕ

abbrev pub sum_clicks : List Stat → ℕ
sum_clicks [] = 0
sum_clicks (s ∷ stats) = s.click_count + sum_clicks stats

-- Whether there is a row with the time and the id of a click, which are its key within its link.
abbrev pub has_click : List ClickRow → (clicked_at : ℕ) → (click_id : String) → Bool
has_click [] t id = false
has_click (r ∷ rows) t id = (eqb r.clicked_at t && r.click_id == id) || has_click rows t id

-- The tables: an INSERT under a new key adds a row to its link, and leaves the other links alone (under a key
-- that is there it would replace the row); an UPDATE of a counter adds one to it.
pub record ClickTables : Type 1 where
  pub State : Type 0
  pub events : State → String → List ClickRow
  pub stats : State → String → List Stat
  -- the text of a Long of the driver
  pub decimal : ℕ → String
  pub insert_event : State → ClickRow → State
  pub add_stat : State → (link_id : String) → (count_date : ℕ) → (country : String) → State
  pub events-insert_event :
      (s : State) (e : ClickRow) (l : String)
      → has_click (events s e.link_id) e.clicked_at e.click_id ≡ false
      → length (events (insert_event s e) l)
        ≡ (if e.link_id == l then length (events s l) + 1 else length (events s l))
  pub events-add_stat :
      (s : State) (l : String) (d : ℕ) (c : String) (j : String)
      → events (add_stat s l d c) j ≡ events s j
  pub stats-insert_event :
      (s : State) (e : ClickRow) (l : String) → stats (insert_event s e) l ≡ stats s l
  pub stats-add_stat :
      (s : State) (l : String) (d : ℕ) (c : String) (j : String)
      → sum_clicks (stats (add_stat s l d c) j)
        ≡ (if l == j then sum_clicks (stats s j) + 1 else sum_clicks (stats s j))

pub record ClickWorld (tables : ClickTables) : Type 0 where
  pub now : ℕ
  pub db : tables.State
  pub geography : Geography
  -- what ip-api.com answers for an address, and how long it takes
  pub answer : String → Option (Option String)
  pub latency : ℕ
  -- the ids that `uuidv4` gives
  pub uuid : ℕ → String
  pub drawn : ℕ
  pub faults : List Bool

abbrev pub day : ℕ
day = 86400000

-- What `recordClick` returns.
pub record Recorded : Type 0 where
  pub click_id : String
  pub timestamp : ℕ

-- `clicked_at >= ?` and `clicked_at <= ?`, each where there is a bound
abbrev pub since : Option ℕ → ℕ → Bool
since none t = true
since (some start) t = leb (start * day) t

abbrev pub until : Option ℕ → ℕ → Bool
until none t = true
until (some end) t = leb t (end * day)

abbrev pub clicks_between : Option ℕ → Option ℕ → List ClickRow → List ClickRow
clicks_between start end rows = keep (λ r. since start r.clicked_at && until end r.clicked_at) rows

module _ {tables : ClickTables} where
  unfoldable pub change : (tables.State → tables.State) → Exec (ClickWorld tables) (Unit {0})
  change f w =
      if next_fails w.faults
      then (err generic, record w { faults = later w.faults })
      else (ok tt, record w { db = f w.db; faults = later w.faults })

  unfoldable pub read : {A : Type 0} → (tables.State → A) → Exec (ClickWorld tables) A
  read f w =
      if next_fails w.faults
      then (err generic, record w { faults = later w.faults })
      else (ok (f w.db), record w { faults = later w.faults })

  abbrev pub locate : ClickWorld tables → String → Lookup
  locate w ip =
      get_country_with_cache w.geography
        (record { ip = ip; now = w.now; response = w.answer ip; answered = w.now + w.latency })

  -- The call of `getCountryWithCache`.
  unfoldable pub find_country : String → Exec (ClickWorld tables) String
  unfolding get_country_with_cache
  find_country ip w = (ok (locate w ip).country, record w { geography = (locate w ip).next })

  abbrev pub draw_id : Exec (ClickWorld tables) String
  draw_id w = (ok (w.uuid w.drawn), record w { drawn = suc w.drawn })

  unfoldable pub record_click :
      (link_id ip_address user_agent : String) → Exec (ClickWorld tables) Recorded
  unfolding find_country change
  record_click link_id ip_address user_agent = do
    click_id ← draw_id
    now ← gets (λ w. w.now)
    country ← find_country ip_address
    change (λ s. tables.insert_event s (record {
      link_id = link_id;
      click_id = click_id;
      ip_address = ip_address;
      country = country;
      clicked_at = now;
      user_agent = user_agent;
    }))
    change (λ s. tables.add_stat s link_id (now / day) country)
    pure (record { click_id = click_id; timestamp = now })

  -- A range takes both bounds.
  unfoldable pub get_click_stats :
      String → Option ℕ → Option ℕ → Exec (ClickWorld tables) (List ClickRow)
  unfolding read
  get_click_stats link_id (some start) (some end) =
      read (λ s. clicks_between (some start) (some end) (tables.events s link_id))
  get_click_stats link_id _ _ = read (λ s. tables.events s link_id)

  unfoldable pub get_click_count : String → Option ℕ → Option ℕ → Exec (ClickWorld tables) ℕ
  unfolding read
  get_click_count link_id none none = read (λ s. sum_clicks (tables.stats s link_id))
  get_click_count link_id start end =
      read (λ s. length (clicks_between start end (tables.events s link_id)))

  unfoldable pub get_recent_clicks : String → ℕ → Exec (ClickWorld tables) (List ClickRow)
  unfolding read
  get_recent_clicks link_id limit = read (λ s. take limit (tables.events s link_id))
