-- ===== src/Clicks/Totals.antt =====
-- The counts that the statistics of clicks give.
use dist_link.Base.{
  inl, inr, ◌⊎◌, refl, Bool-cases, ℕ, suc, ◌+◌, ◌/◌, ◌≤◌, String, ◌≡◌, false, ap, [], length, arith,
  ◌==◌, if◌then◌else◌,
}
use dist_link.Base.Exec.{Error, generic, ok, err}
use dist_link.Base.Faults.{next_fails, later}
use dist_link.Clicks.Recording.{
  ClickRow, has_click, sum_clicks, ClickTables, ClickWorld, Recorded, day, locate, record_click,
}

module _ {tables : ClickTables} where
  abbrev pub recorded_clicks : ClickWorld tables → String → ℕ
  recorded_clicks w link = length (tables.events w.db link)

  abbrev pub counted_clicks : ClickWorld tables → String → ℕ
  counted_clicks w link = sum_clicks (tables.stats w.db link)

  abbrev click_row : String → String → String → String → ClickWorld tables → ClickRow
  click_row link_id ip user_agent country w = record {
    link_id = link_id;
    click_id = w.uuid w.drawn;
    ip_address = ip;
    country = country;
    clicked_at = w.now;
    user_agent = user_agent;
  }

  -- Where the click is recorded: the clicks and the counters of its link, and of no other, grow by one.
  abbrev pub IsRecorded : String → String → String → String → ClickWorld tables → Type 0
  IsRecorded link_id ip user_agent link w =
      let out = record_click link_id ip user_agent w in
      (r : Recorded) × (out.0 ≡ ok r)
      × (recorded_clicks out.1 link ≡ recorded_clicks w link + (if link_id == link then 1 else 0))
      × (counted_clicks out.1 link ≡ counted_clicks w link + (if link_id == link then 1 else 0))

  -- Where it throws: nothing is counted.
  abbrev pub IsUncounted : String → String → String → String → ClickWorld tables → Type 0
  IsUncounted link_id ip user_agent link w =
      let out = record_click link_id ip user_agent w in
      (e : Error) × (out.0 ≡ err e) × (counted_clicks out.1 link ≡ counted_clicks w link)

  record_click-cases :
      (link_id ip user_agent link : String) (w : ClickWorld tables)
      → has_click (tables.events w.db link_id) w.now (w.uuid w.drawn) ≡ false
      → IsRecorded link_id ip user_agent link w ⊎ IsUncounted link_id ip user_agent link w
  record_click-cases link_id ip user_agent link w fresh =
      let c = (locate (record w { drawn = suc w.drawn }) ip).country in
      let row = click_row link_id ip user_agent c w in
      let s = tables.insert_event w.db row in
      let same = ap sum_clicks (tables.stats-insert_event w.db row link) in
      elim (Bool-cases (next_fails w.faults)) [
        | inl lost ↦
            inr (generic, unfold record_click in rw lost refl, unfold record_click in rw lost refl)
        | inr stored ↦ elim (Bool-cases (next_fails (later w.faults))) [
          | inl uncounted ↦ inr (
            generic,
            unfold record_click in rw (stored, uncounted) refl,
            unfold record_click in rw (stored, uncounted) same,
          )
          | inr counted ↦ inl (
            record { click_id = w.uuid w.drawn; timestamp = w.now },
            unfold record_click in rw (stored, counted) refl,
            unfold record_click in
                rw (stored, counted)
                  (ground (
                    arith,
                    tables.events-insert_event w.db row link fresh,
                    ap length (tables.events-add_stat s link_id (w.now / day) c link),
                  )),
            unfold record_click in
                rw (stored, counted)
                  (ground (arith, same, tables.stats-add_stat s link_id (w.now / day) c link)),
          )
        ]
      ]

  -- Where the link has no click yet with the id that is drawn and the time: the counters of a link never
  -- run ahead of its recorded clicks, whatever statements fail. A click that is recorded adds one to the
  -- clicks and to the counters of its link, and of no other; a click whose statements fail is not counted.
  pub record_click_counts :
      (link_id ip user_agent link : String) (w : ClickWorld tables)
      → has_click (tables.events w.db link_id) w.now (w.uuid w.drawn) ≡ false
      → counted_clicks w link ≤ recorded_clicks w link
      → (counted_clicks (record_click link_id ip user_agent w).1 link
          ≤ recorded_clicks (record_click link_id ip user_agent w).1 link)
        × (IsRecorded link_id ip user_agent link w ⊎ IsUncounted link_id ip user_agent link w)
  unfolding record_click
  record_click_counts link_id ip user_agent link w fresh h =
      let c = (locate (record w { drawn = suc w.drawn }) ip).country in
      let row = click_row link_id ip user_agent c w in
      let s = tables.insert_event w.db row in
      (
        ground (
          arith,
          tables.events-insert_event w.db row link fresh,
          ap sum_clicks (tables.stats-insert_event w.db row link),
          ap length (tables.events-add_stat s link_id (w.now / day) c link),
          tables.stats-add_stat s link_id (w.now / day) c link,
        ),
        record_click-cases link_id ip user_agent link w fresh,
      )

  -- A flawless world, in which no statement fails.
  abbrev pub steady : ClickWorld tables → ClickWorld tables
  steady w = record w { faults = [] }
