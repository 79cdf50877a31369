-- ===== src/Clicks/Geolocation.antt =====
-- The requests to ip-api.com, the answers that are kept, and the sums by country.
use mathlib.Core.Path.{subst}
use dist_link.Base.{
  ℕ, ◌+◌, ◌≤◌, ◌<◌, String, ◌≡◌, inl, inr, true, false, Option, some, List, [], ◌∷◌, arith, ◌==◌,
  eq_iff, eq_refl, if◌then◌else◌, Bool-cases,
}
use dist_link.Base.Dict.{Dict, get, put, or_else, get-put}
use dist_link.Clicks.Countries.{
  Geography, Visit, cache_ttl, request_delay, country_of, get_country_with_cache, request_times,
  add_row, clicks_by_country, get_clicks_by_country,
}

-- Each time lies at least a second after the one before.
abbrev pub IsSpaced : ℕ → List ℕ → Type 0
IsSpaced last [] = Unit
IsSpaced last (t ∷ times) = (last + request_delay ≤ t) × IsSpaced t times

unsent-next :
    (g : Geography) (v : Visit)
    → (get_country_with_cache g v).sent ≡ false
    → (get_country_with_cache g v).next ≡ g
unfolding get_country_with_cache
unsent-next g v h = ground arith

sent-next :
    (g : Geography) (v : Visit)
    → (get_country_with_cache g v).sent ≡ true
    → (g.last_request_time + request_delay ≤ v.now)
      × ((get_country_with_cache g v).next.last_request_time ≡ v.now)
unfolding get_country_with_cache
sent-next g v h = ground arith

request_times-none : (g : Geography) → IsSpaced g.last_request_time (request_times g [])
unfolding request_times
request_times-none g = tt

request_times-step :
    (g : Geography) (v : Visit) (visits : List Visit)
    → IsSpaced
        (get_country_with_cache g v).next.last_request_time
        (request_times (get_country_with_cache g v).next visits)
    → IsSpaced g.last_request_time (request_times g (v ∷ visits))
request_times-step g v visits rest = elim (Bool-cases (get_country_with_cache g v).sent) [
  | inl sent ↦
      let (late, same) = sent-next g v sent in
      let spaced =
        subst (λ t. IsSpaced t (request_times (get_country_with_cache g v).next visits)) same
          rest in
      unfold request_times in rw sent (late, spaced)
  | inr unsent ↦
      let same = unsent-next g v unsent in
      let spaced = subst (λ h. IsSpaced h.last_request_time (request_times h visits)) same rest in
      unfold request_times in rw (unsent, same) spaced
]

-- Whatever addresses visit at whatever times, two requests to ip-api.com are at least a second apart.
pub request_times-IsSpaced :
    (g : Geography) (visits : List Visit) → IsSpaced g.last_request_time (request_times g visits)
request_times-IsSpaced g [] = request_times-none g
request_times-IsSpaced g (v ∷ visits) =
    request_times-step g v visits (request_times-IsSpaced (get_country_with_cache g v).next visits)

-- A country that ip-api.com has answered is given for the same address for a day from the answer on,
-- without a request.
country_remembered :
    (g : Geography) (v later : Visit) (found : Option String)
    → (get_country_with_cache g v).sent ≡ true
    → v.response ≡ some found
    → later.ip ≡ v.ip
    → later.now < v.answered + cache_ttl
    → ((get_country_with_cache g v).country ≡ country_of found)
      × ((get_country_with_cache (get_country_with_cache g v).next later).country
          ≡ country_of found)
      × ((get_country_with_cache (get_country_with_cache g v).next later).sent ≡ false)
unfolding get_country_with_cache
country_remembered g v later found sent answer same soon = ground (
  arith,
  get-put g.country_cache v.ip later.ip
      (record { country = country_of found; timestamp = v.answered }),
  eq_refl v.ip,
)

-- The clicks of a country in the rows of all days.
abbrev pub clicks_in : String → List (String × ℕ) → ℕ
clicks_in country [] = 0
clicks_in country ((c, n) ∷ rows) = (if c == country then n else 0) + clicks_in country rows

clicks_by_country-sum :
    (counts : Dict ℕ) (rows : List (String × ℕ)) (country : String)
    → or_else (get (clicks_by_country counts rows) country) 0
      ≡ or_else (get counts country) 0 + clicks_in country rows
unfolding clicks_by_country
clicks_by_country-sum counts [] country = omega arith
clicks_by_country-sum counts ((c, n) ∷ rows) country = ground (
  arith,
  clicks_by_country-sum (add_row counts (c, n)) rows country,
  get-put counts c country (or_else (get counts c) 0 + n),
  eq_iff c country,
)

abbrev pub all_clicks : Dict ℕ → ℕ
all_clicks [] = 0
all_clicks ((c, n) ∷ rows) = n + all_clicks rows

all_clicks-put :
    (counts : Dict ℕ) (c : String) (n : ℕ)
    → all_clicks (put counts c (or_else (get counts c) 0 + n)) ≡ all_clicks counts + n
unfolding put get
all_clicks-put [] c n = omega arith
all_clicks-put ((d, m) ∷ counts) c n = ground (arith, all_clicks-put counts c n)

all_clicks-clicks_by_country :
    (counts : Dict ℕ) (rows : List (String × ℕ))
    → all_clicks (clicks_by_country counts rows) ≡ all_clicks counts + all_clicks rows
unfolding clicks_by_country
all_clicks-clicks_by_country counts [] = omega arith
all_clicks-clicks_by_country counts ((c, n) ∷ rows) =
    omega
      (arith, all_clicks-clicks_by_country (add_row counts (c, n)) rows, all_clicks-put counts c n)

-- The statistics by country have for each country the sum of its clicks over the days, and no clicks
-- besides those of the rows.
pub clicks_by_country_exact :
    (rows : List (String × ℕ)) (country : String)
    → (or_else (get (get_clicks_by_country rows) country) 0 ≡ clicks_in country rows)
      × (all_clicks (get_clicks_by_country rows) ≡ all_clicks rows)
clicks_by_country_exact rows country =
    unfold get_clicks_by_country get in
    (
      omega (arith, clicks_by_country-sum [] rows country),
      omega (arith, all_clicks-clicks_by_country [] rows),
    )
