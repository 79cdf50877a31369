-- ===== src/Clicks/Dates.antt =====
-- The statistics of a range of dates: what the slices give, one after the other.
use Prim.Native.String
use text.Mathlib.TextLemmas.{append-nil, append_assoc}
use dist_link.Base.{
  ℕ, zero, suc, ◌+◌, ◌-◌, String, ◌≡◌, refl, sym, ap, ◌∙◌, inl, inr, Bool, true, false, ◌&&◌, ◌||◌,
  Option, none, some, List, [], ◌∷◌, length, arith, eqb, leb, ltb, if◌then◌else◌, Bool-cases,
}
use dist_link.Base.Dict.{or_else}
use dist_link.Base.Exec.{Result, ok}
use dist_link.Clicks.Recording.{Stat, ClickTables, ClickWorld}
use dist_link.Clicks.Slices.{slices_with, slices_with-days_from, length-days_from}
use dist_link.Clicks.Totals.{steady}
use dist_link.Clicks.Ranges.{
  Amount, number, as_text, add_long, DailyData, add_daily_row, add_daily_rows, dates_between,
  slices, has_date, rows_on, read_slices, get_clicks_by_date_range,
}

-- The total that the days show for a date, where they have one.
abbrev pub shown_on : ℕ → List DailyData → Option Amount
shown_on t [] = none
shown_on t (d ∷ days) = if eqb d.date t then some d.total_clicks else shown_on t days

-- Whether rows have a date, and the texts of their counters for it, one after the other.
abbrev pub has_rows : ℕ → List Stat → Bool
has_rows t [] = false
has_rows t (r ∷ rows) = eqb r.count_date t || has_rows t rows

module _ (decimal : ℕ → String) where
  abbrev pub digits_on : ℕ → List Stat → String
  digits_on t [] = ""
  digits_on t (r ∷ rows) =
      if eqb r.count_date t
      then String.◌++◌ (decimal r.click_count) (digits_on t rows)
      else digits_on t rows

  -- What rows make of a total.
  abbrev after_row : ℕ → Option Amount → Stat → Option Amount
  after_row t o r =
      if eqb r.count_date t then some (add_long decimal (or_else o (number 0)) r.click_count) else o

  abbrev total_after : ℕ → Option Amount → List Stat → Option Amount
  total_after t o [] = o
  total_after t o (r ∷ rows) = total_after t (after_row t o r) rows

  abbrev repeated : ℕ → ℕ → List Stat → Option Amount → Option Amount
  repeated t zero stats o = o
  repeated t (suc n) stats o = repeated t n stats (total_after t o stats)

  -- What the slices of the dates give, one after the other.
  abbrev collected : List DailyData → List (List ℕ) → List Stat → List DailyData
  collected days [] stats = days
  collected days (dates ∷ rest) stats =
      collected (add_daily_rows decimal days (rows_on dates stats)) rest stats

  shown_on-add_daily_row :
      (days : List DailyData) (r : Stat) (t : ℕ)
      → shown_on t (add_daily_row decimal days r) ≡ after_row t (shown_on t days) r
  unfolding add_daily_row
  shown_on-add_daily_row [] r t = refl
  shown_on-add_daily_row (d ∷ days) r t = elim (Bool-cases (eqb d.date r.count_date)) [
    | inl same ↦ elim (Bool-cases (eqb d.date t)) [
      | inl hit ↦ let both : eqb r.count_date t ≡ true = ground arith in rw (same, hit, both) refl
      | inr other ↦
          let neither : eqb r.count_date t ≡ false = ground arith in rw (same, other, neither) refl
    ]
    | inr differ ↦ elim (Bool-cases (eqb d.date t)) [
      | inl hit ↦
          let not_this : eqb r.count_date t ≡ false = ground arith in
          rw (differ, hit, not_this) refl
      | inr other ↦ rw (differ, other) (shown_on-add_daily_row days r t)
    ]
  ]

  shown_on-add_daily_rows :
      (days : List DailyData) (rows : List Stat) (t : ℕ)
      → shown_on t (add_daily_rows decimal days rows) ≡ total_after t (shown_on t days) rows
  unfolding add_daily_rows
  shown_on-add_daily_rows days [] t = refl
  shown_on-add_daily_rows days (r ∷ rows) t =
      shown_on-add_daily_rows (add_daily_row decimal days r) rows t
      ∙ ap (λ o. total_after t o rows) (shown_on-add_daily_row days r t)

  total_after-rows_on :
      (dates : List ℕ) (rows : List Stat) (t : ℕ) (o : Option Amount)
      → total_after t o (rows_on dates rows)
        ≡ (if has_date dates t then total_after t o rows else o)
  total_after-rows_on dates [] t o = ground arith
  total_after-rows_on dates (r ∷ rows) t o = elim (Bool-cases (eqb r.count_date t)) [
    | inl hit ↦
        let same : r.count_date ≡ t = ground arith in
        let found = ap (has_date dates) same in
        elim (Bool-cases (has_date dates t)) [
          | inl there ↦
              let kept = found ∙ there in
              rw (kept, there) (rw there at (total_after-rows_on dates rows t (after_row t o r)))
          | inr absent ↦
              let left = found ∙ absent in
              rw (left, absent) (rw absent at (total_after-rows_on dates rows t o))
        ]
    | inr other ↦
        let same_total : after_row t o r ≡ o = rw other refl in
        let rest = total_after-rows_on dates rows t in
        elim (Bool-cases (has_date dates r.count_date)) [
          | inl kept ↦ rw kept (
              rest (after_row t o r)
              ∙ ap (λ v. if has_date dates t then total_after t (after_row t o r) rows else v)
                  same_total)
          | inr left ↦ rw left (
              rest o
              ∙ ap (λ v. if has_date dates t then total_after t v rows else o) (sym same_total))
        ]
  ]

  shown_on-collected :
      (days : List DailyData) (parts : List (List ℕ)) (stats : List Stat) (t : ℕ)
      → shown_on t (collected days parts stats)
        ≡ repeated t (slices_with t parts) stats (shown_on t days)
  shown_on-collected days [] stats t = refl
  shown_on-collected days (dates ∷ rest) stats t =
      let next = add_daily_rows decimal days (rows_on dates stats) in
      let shown : shown_on t next
          ≡ (if has_date dates t then total_after t (shown_on t days) stats else shown_on t days) =
        shown_on-add_daily_rows days (rows_on dates stats) t
        ∙ total_after-rows_on dates stats t (shown_on t days) in
      shown_on-collected next rest stats t
      ∙ ap (repeated t (slices_with t rest) stats) shown
      ∙ elim (Bool-cases (has_date dates t)) [
        | inl there ↦
            let more : 1 + slices_with t rest ≡ suc (slices_with t rest) = omega arith in
            rw (there, more) refl
        | inr absent ↦
            let same : 0 + slices_with t rest ≡ slices_with t rest = omega arith in
            rw (absent, same) refl
      ]

  total_after-text :
      (t : ℕ) (s : String) (rows : List Stat)
      → total_after t (some (as_text s)) rows ≡ some (as_text (String.◌++◌ s (digits_on t rows)))
  total_after-text t s [] = ap (λ v. some (as_text v)) (sym (append-nil s))
  total_after-text t s (r ∷ rows) = elim (Bool-cases (eqb r.count_date t)) [
    | inl hit ↦ rw hit (
        total_after-text t (String.◌++◌ s (decimal r.click_count)) rows
        ∙ ap (λ v. some (as_text v)) (append_assoc s (decimal r.click_count) (digits_on t rows)))
    | inr other ↦ rw other (total_after-text t s rows)
  ]

  total_after-none :
      (t : ℕ) (rows : List Stat)
      → total_after t none rows ≡ (
          if has_rows t rows
          then some (as_text (String.◌++◌ (decimal 0) (digits_on t rows)))
          else none)
  total_after-none t [] = refl
  total_after-none t (r ∷ rows) = elim (Bool-cases (eqb r.count_date t)) [
    | inl hit ↦ rw hit (
        total_after-text t (String.◌++◌ (decimal 0) (decimal r.click_count)) rows
        ∙ ap (λ v. some (as_text v))
            (append_assoc (decimal 0) (decimal r.click_count) (digits_on t rows)))
    | inr other ↦ rw other (total_after-none t rows)
  ]

  -- Each date of the range is in one slice.
  range_total :
      (start end t : ℕ) (stats : List Stat) (n : ℕ)
      → n ≡ (if leb start t && ltb t (start + (suc end - start)) then 1 else 0)
      → repeated t n stats none ≡ (
          if (leb start t && leb t end) && has_rows t stats
          then some (as_text (String.◌++◌ (decimal 0) (digits_on t stats)))
          else none)
  range_total start end t stats n e = elim (Bool-cases (leb start t && leb t end)) [
    | inl inside ↦
        let one : n ≡ suc zero = ground arith in rw (one, inside) (total_after-none t stats)
    | inr outside ↦ let none_at : n ≡ zero = ground arith in rw (none_at, outside) refl
  ]

module _ {tables : ClickTables} where
  read_slices-steady :
      (link : String) (days : List DailyData) (parts : List (List ℕ)) (w : ClickWorld tables)
      → read_slices link days parts (steady w)
        ≡ (ok (collected tables.decimal days parts (tables.stats w.db link)), steady w)
  unfolding read_slices
  read_slices-steady link days [] w = refl
  read_slices-steady link days (dates ∷ rest) w =
      read_slices-steady link
        (add_daily_rows tables.decimal days (rows_on dates (tables.stats w.db link))) rest w

  -- With no failing statement, the statistics of a range of dates, read in slices of seven, show a total for
  -- exactly the dates of the range that have rows. The total is no sum, but a text: a zero, and then the
  -- counters of the date, one after the other.
  pub clicks_by_date_range_exact :
      (link : String) (start end t : ℕ) (w : ClickWorld tables)
      → (days : List DailyData) × ((get_clicks_by_date_range link start end (steady w)).0 ≡ ok days)
        × (shown_on t days ≡ (
            if (leb start t && leb t end) && has_rows t (tables.stats w.db link)
            then some (
                as_text (
                  String.◌++◌
                    (tables.decimal 0)
                    (digits_on tables.decimal t (tables.stats w.db link))))
            else none))
  clicks_by_date_range_exact link start end t w =
      let dates = dates_between start end in
      let stats = tables.stats w.db link in
      let parts = slices (length dates) dates in
      let once =
        slices_with-days_from (length dates) start (suc end - start) t
          (omega (arith, length-days_from start (suc end - start))) in
      (
        collected tables.decimal [] parts stats,
        unfold get_clicks_by_date_range in
            ap (λ (r : Result (List DailyData) × ClickWorld tables). r.0)
              (read_slices-steady link [] parts w),
        shown_on-collected tables.decimal [] parts stats t
            ∙ range_total tables.decimal start end t stats (slices_with t parts) once,
      )
