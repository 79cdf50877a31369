-- ===== src/Clicks/Aggregation.antt =====
-- The daily sums of an analytics batch.
use Prim.Native.Char.{code as char_code}
use dist_link.Base.{
  ℕ, ◌+◌, String, Bool, false, ◌||◌, eqb, inl, inr, Bool-cases, ◌≡◌, refl, ◌∙◌, List, [], ◌∷◌, ◌++◌,
  map, length, All, arith, eq_iff, if◌then◌else◌, length-append, All-append,
}
use dist_link.Clicks.Events.{Event}
use dist_link.Clicks.Agents.{Metadata}
use dist_link.Clicks.Daily.{
  DayKey, DayText, on_day, part_of_code, split, split_key, same_day, key_of_event, Groups,
  add_to_group, group_by_day, DeviceType, mobile, tablet, desktop, DeviceCounts, add_device,
  device_counts, no_devices, type_of_device, Query, insert_row, add_daily, daily_query,
  row_of_event, analytics_queries,
}

-- How many events of a batch are of a code and a day.
abbrev pub events_on : DayKey → List (Event Metadata) → ℕ
events_on k [] = 0
events_on k (e ∷ batch) = (if same_day (key_of_event e) k then 1 else 0) + events_on k batch

abbrev names_key : String × DayText → DayKey → Bool
names_key (code, on_day day) k = same_day (record { short_code = code; day = day }) k
names_key (code, part_of_code part) k = false

unfoldable pub has_colon : String → Bool
has_colon String.[] = false
has_colon (String.◌∷◌ c s) = eqb (char_code c) b':' || has_colon s

-- What the queries add to the clicks of a code on a day.
abbrev pub clicks_added : DayKey → List Query → ℕ
clicks_added k [] = 0
clicks_added k (insert_row row ∷ queries) = clicks_added k queries
clicks_added k (add_daily j total counts ∷ queries) =
    (if names_key j k then total else 0) + clicks_added k queries

-- The devices of a query add up to its clicks.
abbrev pub IsBalanced : Query → Type 0
IsBalanced (insert_row row) = Unit
IsBalanced (add_daily k total counts) = counts.mobiles + counts.tablets + counts.desktops ≡ total

abbrev grouped : DayKey → Groups → ℕ
grouped k [] = 0
grouped k ((j, es) ∷ groups) = (if same_day j k then length es else 0) + grouped k groups

grouped-add_to_group :
    (groups : Groups) (j k : DayKey) (e : Event Metadata)
    → grouped k (add_to_group groups j e) ≡ grouped k groups + (if same_day j k then 1 else 0)
unfolding add_to_group
grouped-add_to_group [] j k e = ground arith
grouped-add_to_group ((i, es) ∷ groups) j k e = ground (
  arith,
  grouped-add_to_group groups j k e,
  length-append es (e ∷ []),
  eq_iff i.short_code j.short_code,
  eq_iff i.short_code k.short_code,
  eq_iff j.short_code k.short_code,
)

grouped-group_by_day :
    (groups : Groups) (batch : List (Event Metadata)) (k : DayKey)
    → grouped k (group_by_day groups batch) ≡ grouped k groups + events_on k batch
unfolding group_by_day
grouped-group_by_day groups [] k = omega arith
grouped-group_by_day groups (e ∷ batch) k = omega (
  arith,
  grouped-group_by_day (add_to_group groups (key_of_event e) e) batch k,
  grouped-add_to_group groups (key_of_event e) k e,
)

-- A code without a colon is one part.
split-plain : (s : String) → has_colon s ≡ false → split s ≡ s ∷ []
unfolding split has_colon
split-plain String.[] h = refl
split-plain (String.◌∷◌ c s) h = elim (Bool-cases (eqb (char_code c) b':')) [
  | inl colon ↦ absurd (ground arith)
  | inr other ↦ let rest : has_colon s ≡ false = ground arith in rw (other, split-plain s rest)
]

split_key-plain :
    (k : DayKey) → has_colon k.short_code ≡ false → split_key k ≡ (k.short_code, on_day k.day)
split_key-plain k h = rw (split-plain k.short_code h)

abbrev IsPlain : DayKey × List (Event Metadata) → Type 0
IsPlain (k, es) = has_colon k.short_code ≡ false

add_to_group-IsPlain :
    (groups : Groups) (k : DayKey) (e : Event Metadata)
    → has_colon k.short_code ≡ false
    → All IsPlain groups
    → All IsPlain (add_to_group groups k e)
unfolding add_to_group
add_to_group-IsPlain [] k e p h = (p, tt)
add_to_group-IsPlain ((j, es) ∷ groups) k e p h = elim (Bool-cases (same_day j k)) [
  | inl same ↦ rw same (h.0, h.1)
  | inr other ↦ rw other (h.0, add_to_group-IsPlain groups k e p h.1)
]

group_by_day-IsPlain :
    (groups : Groups) (batch : List (Event Metadata))
    → All IsPlain groups
    → All (λ (e : Event Metadata). has_colon e.short_code ≡ false) batch
    → All IsPlain (group_by_day groups batch)
unfolding group_by_day
group_by_day-IsPlain groups [] h p = h
group_by_day-IsPlain groups (e ∷ batch) h p =
    group_by_day-IsPlain (add_to_group groups (key_of_event e) e) batch
      (add_to_group-IsPlain groups (key_of_event e) e p.0 h) p.1

clicks_added-daily :
    (groups : Groups) (k : DayKey)
    → All IsPlain groups
    → clicks_added k (map daily_query groups) ≡ grouped k groups
clicks_added-daily [] k h = refl
clicks_added-daily ((j, es) ∷ groups) k h =
    rw (split_key-plain j h.0) (omega (arith, clicks_added-daily groups k h.1))

clicks_added-rows :
    (batch : List (Event Metadata)) (queries : List Query) (k : DayKey)
    → clicks_added k (map (λ e. insert_row (row_of_event e)) batch ++ queries)
      ≡ clicks_added k queries
clicks_added-rows [] queries k = refl
clicks_added-rows (e ∷ batch) queries k = clicks_added-rows batch queries k

abbrev sum_of : DeviceCounts → ℕ
sum_of c = c.mobiles + c.tablets + c.desktops

sum_of-add_device : (t : DeviceType) (c : DeviceCounts) → sum_of (add_device t c) ≡ sum_of c + 1
sum_of-add_device mobile c = omega arith
sum_of-add_device tablet c = omega arith
sum_of-add_device desktop c = omega arith

sum_of-device_counts :
    (c : DeviceCounts) (events : List (Event Metadata))
    → sum_of (device_counts c events) ≡ sum_of c + length events
unfolding device_counts
sum_of-device_counts c [] = omega arith
sum_of-device_counts c (e ∷ events) =
    let t = type_of_device e.metadata.device in
    omega (arith, sum_of-device_counts (add_device t c) events, sum_of-add_device t c)

daily-IsBalanced : (groups : Groups) → All IsBalanced (map daily_query groups)
daily-IsBalanced [] = tt
daily-IsBalanced ((k, es) ∷ groups) =
    (omega (arith, sum_of-device_counts no_devices es), daily-IsBalanced groups)

rows-IsBalanced :
    (batch : List (Event Metadata)) → All IsBalanced (map (λ e. insert_row (row_of_event e)) batch)
rows-IsBalanced [] = tt
rows-IsBalanced (e ∷ batch) = (tt, rows-IsBalanced batch)

-- Where no code of the batch has a colon, the queries of an analytics batch add to each code and day as
-- many clicks as the batch has events of that code and day; the devices of each query add up to its clicks.
pub analytics_queries_exact :
    (batch : List (Event Metadata)) (k : DayKey)
    → All (λ (e : Event Metadata). has_colon e.short_code ≡ false) batch
    → (clicks_added k (analytics_queries batch) ≡ events_on k batch)
      × All IsBalanced (analytics_queries batch)
unfolding analytics_queries
analytics_queries_exact batch k plain =
    let groups = group_by_day [] batch in
    (
      clicks_added-rows batch (map daily_query groups) k
          ∙ clicks_added-daily groups k (group_by_day-IsPlain [] batch tt plain)
          ∙ omega (arith, grouped-group_by_day [] batch k),
      All-append IsBalanced (map (λ e. insert_row (row_of_event e)) batch) (map daily_query groups)
          (rows-IsBalanced batch) (daily-IsBalanced groups),
    )
