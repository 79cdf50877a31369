-- ===== src/Metrics.antt =====
-- modules/monitoring/prometheus.service.ts: `PrometheusService`. A counter of the client is its value,
-- a histogram the values that it has observed.
use dist_link.Base.{
  ℕ, ◌+◌, String, ◌≡◌, refl, ap, ◌∙◌, Bool-cases, Option, none, some, List, [], ◌∷◌, ◌++◌, arith,
  ◌==◌, eq_iff, if◌then◌else◌, inl, inr, Option-cases,
}
use dist_link.Base.Dict.{Dict, get, put, get-put}

pub record Metrics : Type 0 where
  pub counters : Dict ℕ
  pub histograms : Dict (List ℕ)

unfoldable pub create_counter : String → Metrics → Metrics
create_counter name m = record m { counters = put m.counters name 0 }

unfoldable pub create_histogram : String → Metrics → Metrics
create_histogram name m = record m { histograms = put m.histograms name [] }

unfoldable pub setup_metrics : Metrics
unfolding create_counter create_histogram
setup_metrics = create_counter "database_errors" (
    create_counter "kafka_errors" (
      create_histogram "click_batch_processing_duration" (
        create_counter "click_processing_errors"
          (create_counter "click_events_received" (record { counters = []; histograms = [] })))))

abbrev inc : Option ℕ → String → ℕ → Metrics → Metrics
inc none name value m = m
inc (some n) name value m = record m { counters = put m.counters name (n + value) }

-- A counter that was not created is passed over.
unfoldable pub increment_counter : String → ℕ → Metrics → Metrics
increment_counter name value m = inc (get m.counters name) name value m

abbrev observe : Option (List ℕ) → String → ℕ → Metrics → Metrics
observe none name value m = m
observe (some values) name value m = record m {
  histograms = put m.histograms name (values ++ value ∷ []);
}

unfoldable pub observe_histogram : String → ℕ → Metrics → Metrics
observe_histogram name value m = observe (get m.histograms name) name value m

-- The calls of a run.
unfoldable pub increments : List (String × ℕ) → Metrics → Metrics
unfolding increment_counter
increments [] m = m
increments ((name, value) ∷ calls) m = increments calls (increment_counter name value m)

abbrev asked : String → List (String × ℕ) → ℕ
asked name [] = 0
asked name ((n, value) ∷ calls) = (if n == name then value else 0) + asked name calls

abbrev plus : ℕ → Option ℕ → Option ℕ
plus n none = none
plus n (some k) = some (k + n)

plus_zero : (k : Option ℕ) → k ≡ plus 0 k
plus_zero none = refl
plus_zero (some k) = ap some (omega arith)

plus-plus : (a b : ℕ) (k : Option ℕ) → plus a (plus b k) ≡ plus (b + a) k
plus-plus a b none = refl
plus-plus a b (some k) = ap some (omega arith)

increment_counter-get :
    (name j : String) (value : ℕ) (m : Metrics)
    → get (increment_counter name value m).counters j
      ≡ plus (if name == j then value else 0) (get m.counters j)
unfolding increment_counter
increment_counter-get name j value m =
    let same = eq_iff name j in
    elim (Bool-cases (name == j)) [
      | inl hit ↦
          let here : name ≡ j = ground arith in
          let found = ap (get m.counters) here in
          elim (Option-cases (get m.counters j)) [
            | inl missing ↦ let gone = found ∙ missing in rw (gone, hit, missing) refl
            | inr (n, there) ↦ let kept = found ∙ there in rw (kept, get-put, hit, there) refl
          ]
      | inr other ↦ elim (Option-cases (get m.counters name)) [
        | inl missing ↦ rw (missing, other) (plus_zero (get m.counters j))
        | inr (n, there) ↦ rw (there, get-put, other) (plus_zero (get m.counters j))
      ]
    ]

-- A counter that was created has, after any calls, what the calls for its name add up to; a name that
-- was not created counts nothing.
increments-exact :
    (calls : List (String × ℕ)) (m : Metrics) (name : String)
    → get (increments calls m).counters name ≡ plus (asked name calls) (get m.counters name)
unfolding increments
increments-exact [] m name = plus_zero (get m.counters name)
increments-exact ((n, value) ∷ calls) m name =
    increments-exact calls (increment_counter n value m) name
    ∙ ap (plus (asked name calls)) (increment_counter-get n name value m)
    ∙ plus-plus (asked name calls) (if n == name then value else 0) (get m.counters name)
