-- ===== src/Clicks/Countries.antt =====
-- modules/clicks/clicks.service.ts: `getCountryWithCache`, `isLocalIpAddress` and `getClicksByCountry`.
-- The answer of ip-api.com is an argument. Times are in milliseconds; a difference that would be
-- negative stops at 0, and is below each of the bounds either way.
use Prim.Native.Char.{code}
use dist_link.Base.{
  ℕ, zero, suc, ◌+◌, ◌-◌, ◌*◌, String, Bool, true, false, ◌&&◌, ◌||◌, Option, none, some, List, [],
  ◌∷◌, ◌==◌, ltb, leb, eqb, if◌then◌else◌,
}
use dist_link.Base.Dict.{Dict, get, put, or_else}

unfoldable pub starts_with : (prefix text : String) → Bool
starts_with String.[] text = true
starts_with (String.◌∷◌ c prefix) String.[] = false
starts_with (String.◌∷◌ c prefix) (String.◌∷◌ d text) =
    eqb (code c) (code d) && starts_with prefix text

abbrev pub lower : ℕ → ℕ
lower c = if leb b'A' c && leb c b'Z' then c + 32 else c

-- `text.toLowerCase().startsWith(prefix)`, for a prefix of letters and digits of ASCII
unfoldable pub starts_in_lower_case : (prefix text : String) → Bool
starts_in_lower_case String.[] text = true
starts_in_lower_case (String.◌∷◌ c prefix) String.[] = false
starts_in_lower_case (String.◌∷◌ c prefix) (String.◌∷◌ d text) =
    eqb (code c) (lower (code d)) && starts_in_lower_case prefix text

abbrev pub is_digit : (low high c : ℕ) → Bool
is_digit low high c = leb low c && leb c high

-- `(1[6-9]|2[0-9]|3[0-1])\.`
abbrev pub is_private_block : ℕ → ℕ → ℕ → Bool
is_private_block tens ones dot =
    (eqb tens b'1' && is_digit b'6' b'9' ones
      || eqb tens b'2' && is_digit b'0' b'9' ones
      || eqb tens b'3' && is_digit b'0' b'1' ones)
    && eqb dot b'.'

abbrev pub block_of : String → Bool
block_of (String.◌∷◌ tens (String.◌∷◌ ones (String.◌∷◌ dot rest))) =
    is_private_block (code tens) (code ones) (code dot)
block_of _ = false

abbrev pub tail_from : ℕ → String → String
tail_from zero text = text
tail_from (suc n) String.[] = String.[]
tail_from (suc n) (String.◌∷◌ c text) = tail_from n text

unfoldable pub is_local_ip_address : String → Bool
unfolding starts_with starts_in_lower_case
is_local_ip_address ip =
    ip == "127.0.0.1"
    || starts_with "10." ip
    || starts_with "192.168." ip
    || starts_with "172." ip && block_of (tail_from 4 ip)
    || ip == "::1"
    || starts_in_lower_case "fc" ip
    || starts_in_lower_case "fd" ip
    || starts_in_lower_case "fe80" ip

abbrev pub cache_ttl : ℕ
cache_ttl = 24 * 60 * 60 * 1000

abbrev pub request_delay : ℕ
request_delay = 1000

pub record Located : Type 0 where
  pub country : String
  pub timestamp : ℕ

pub record Geography : Type 0 where
  pub country_cache : Dict Located
  pub last_request_time : ℕ

-- A call: the address, its time, and the answer with the time of its arrival. The answer is `none`
-- when the request fails, and holds the country if there is one.
pub record Visit : Type 0 where
  pub ip : String
  pub now : ℕ
  pub response : Option (Option String)
  pub answered : ℕ

-- What a call gives, and whether it sent a request.
pub record Lookup : Type 0 where
  pub country : String
  pub sent : Bool
  pub next : Geography

abbrev pub is_fresh : ℕ → Option Located → Bool
is_fresh now none = false
is_fresh now (some l) = ltb (now - l.timestamp) cache_ttl

abbrev pub cached_country : Option Located → String
cached_country none = "Unknown"
cached_country (some l) = l.country

abbrev pub country_of : Option String → String
country_of none = "Unknown"
country_of (some c) = if c == "" then "Unknown" else c

abbrev pub ask : Geography → Visit → Option (Option String) → Lookup
ask g v none = record {
  country = cached_country (get g.country_cache v.ip);
  sent = true;
  next = record g { last_request_time = v.now };
}
ask g v (some found) = record {
  country = country_of found;
  sent = true;
  next = record {
    country_cache =
        put g.country_cache v.ip (record { country = country_of found; timestamp = v.answered });
    last_request_time = v.now;
  };
}

abbrev pub unasked : Geography → String → Lookup
unasked g country = record { country = country; sent = false; next = g }

unfoldable pub get_country_with_cache : Geography → Visit → Lookup
unfolding is_local_ip_address
get_country_with_cache g v =
    let cached = get g.country_cache v.ip in
    if is_local_ip_address v.ip
    then unasked g "Local Development"
    else if is_fresh v.now cached
    then unasked g (cached_country cached)
    else if ltb (v.now - g.last_request_time) request_delay
    then unasked g (cached_country cached)
    else ask g v v.response

-- The times of the requests that a sequence of calls sends.
unfoldable pub request_times : Geography → List Visit → List ℕ
unfolding get_country_with_cache
request_times g [] = []
request_times g (v ∷ visits) =
    let rest = request_times (get_country_with_cache g v).next visits in
    if (get_country_with_cache g v).sent then v.now ∷ rest else rest

-- One row of the query of `getClicksByCountry`, and a round of its `forEach`.
abbrev pub add_row : Dict ℕ → String × ℕ → Dict ℕ
add_row counts (country, clicks) = put counts country (or_else (get counts country) 0 + clicks)

unfoldable pub clicks_by_country : Dict ℕ → List (String × ℕ) → Dict ℕ
clicks_by_country counts [] = counts
clicks_by_country counts (row ∷ rows) = clicks_by_country (add_row counts row) rows

unfoldable pub get_clicks_by_country : List (String × ℕ) → Dict ℕ
unfolding clicks_by_country
get_clicks_by_country rows = clicks_by_country [] rows
