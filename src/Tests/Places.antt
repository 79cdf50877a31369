-- ===== src/Tests/Places.antt =====
-- The theorems on countries at concrete visits.
use dist_link.Base.{ℕ, ◌+◌, String, ◌≡◌, refl, true, some, List, [], ◌∷◌}
use dist_link.Base.Dict.{get, put, or_else}
use dist_link.Clicks.Countries.{
  Geography, Visit, request_times, get_clicks_by_country, is_local_ip_address,
}
use dist_link.Clicks.Geolocation.{
  IsSpaced, request_times-IsSpaced, clicks_in, all_clicks, clicks_by_country_exact,
}

abbrev unasked_yet : Geography
unasked_yet = record { country_cache = []; last_request_time = 0 }

abbrev from : String → ℕ → Visit
from ip now = record { ip = ip; now = now; response = some (some "Vietnam"); answered = now + 5 }

abbrev visits : List Visit
visits =
    from "1.1.1.1" 2000
    ∷ from "2.2.2.2" 2500
    ∷ from "172.16.0.1" 4000
    ∷ from "2.2.2.2" 5000
    ∷ from "1.1.1.1" 9000
    ∷ []

-- The second visit comes too soon, the third is local, and the last is answered from the cache.
request_times_test : request_times unasked_yet visits ≡ 2000 ∷ 5000 ∷ []
unfolding request_times get put
request_times_test = refl

local_test : is_local_ip_address "FE80::1" ≡ true
unfolding is_local_ip_address
local_test = refl

request_times-IsSpaced_example : IsSpaced 0 (request_times unasked_yet visits)
request_times-IsSpaced_example = request_times-IsSpaced unasked_yet visits

abbrev daily : List (String × ℕ)
daily = ("Vietnam", 3) ∷ ("France", 1) ∷ ("Vietnam", 4) ∷ []

clicks_by_country_exact_example :
    (or_else (get (get_clicks_by_country daily) "Vietnam") 0 ≡ clicks_in "Vietnam" daily)
    × (all_clicks (get_clicks_by_country daily) ≡ all_clicks daily)
clicks_by_country_exact_example = clicks_by_country_exact daily "Vietnam"
