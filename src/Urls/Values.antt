-- ===== src/Urls/Values.antt =====
-- modules/urls/urls.service.ts: what `UrlsService` computes without a call.
use dist_link.Base.{
  ℕ, ◌+◌, ◌*◌, String, Bool, true, false, ◌||◌, Option, none, some, List, [], ◌∷◌, map, ◌==◌,
  if◌then◌else◌,
}
use Prim.Native.String
use mathlib.Core.Option
use dist_link.Base.Dict.{or_else}
use dist_link.Base.Exec.{Error, not_found, conflict, internal}
use dist_link.SafeBrowsing.{SafeBrowsing, check_url}
use dist_link.Urls.Types.{
  ExpirationOption, forever, one_day, seven_days, thirty_days, Stamp, date, iso, to_iso, is_past,
  UrlRow, Url, UrlResponseDto, Cached, one, many,
}

abbrev pub retry_attempts : ℕ
retry_attempts = 3

abbrev pub batch_size : ℕ
batch_size = 10

abbrev pub days : ExpirationOption → ℕ
days forever = 0
days one_day = 1
days seven_days = 7
days thirty_days = 30

unfoldable pub calculate_expiration_date : ℕ → ExpirationOption → Option ℕ
calculate_expiration_date now forever = none
calculate_expiration_date now expiration = some (now + days expiration * 24 * 60 * 60 * 1000)

-- `JSON.parse(JSON.stringify(value))`: the dates become texts, and with them the owner and the clicks (see
-- `Stamp`), which stand for what they name.
abbrev pub json_url : Url → Url
json_url u = record u {
  created_at = to_iso u.created_at;
  expires_at = Option.map to_iso u.expires_at;
}

abbrev pub json_dto : UrlResponseDto → UrlResponseDto
json_dto u = record u {
  created_at = to_iso u.created_at;
  expires_at = Option.map to_iso u.expires_at;
}

abbrev pub json : Cached → Cached
json (one u) = one (json_url u)
json (many us) = many (map json_dto us)

abbrev pub user_key : String → String
user_key user = String.◌++◌ "user:" user

-- `['all', userId ? `user:${userId}` : null].filter(Boolean)`
abbrev pub list_keys : Option String → List String
list_keys none = "all" ∷ []
list_keys (some user) = "all" ∷ user_key user ∷ []

abbrev pub url_of_row : String → UrlRow → Option ℕ → Url
url_of_row base row clicks = record {
  short_code = row.short_code;
  original_url = row.original_url;
  user_id = row.user_id;
  created_at = date row.created_at;
  expires_at = Option.map date row.expires_at;
  clicks = or_else clicks 0;
  new_url = String.◌++◌ base (String.◌++◌ "/" row.short_code);
}

abbrev pub counter_of : List (String × ℕ) → String → ℕ
counter_of [] code = 0
counter_of ((c, n) ∷ rows) code = let rest = counter_of rows code in if c == code then n else rest

abbrev pub dto_of_row : String → List (String × ℕ) → UrlRow → UrlResponseDto
dto_of_row base counters row = record {
  short_code = row.short_code;
  original_url = row.original_url;
  user_id = row.user_id;
  created_at = date row.created_at;
  expires_at = Option.map date row.expires_at;
  clicks = counter_of counters row.short_code;
  new_url = String.◌++◌ base (String.◌++◌ "/" row.short_code);
}

unfoldable pub is_expired : ℕ → Option ℕ → Bool
is_expired now none = false
is_expired now (some t) = is_past now (date t)

abbrev pub get_redis_key : (prefix : String) → String → String
get_redis_key prefix key = String.◌++◌ prefix (String.◌++◌ "urls:" key)

abbrev pub pop_code : List String → Option String × List String
pop_code [] = (none, [])
pop_code (c ∷ cs) = (some c, cs)

abbrev pub of_option : Option String → List String
of_option none = []
of_option (some user) = user ∷ []

abbrev pub bump : Cached → Cached
bump (one u) = one (record u { clicks = u.clicks + 1 })
bump (many us) = many us

abbrev pub time_of : Stamp → ℕ
time_of (date t) = t
time_of (iso t) = t

abbrev pub new_expiration : ℕ → Option ExpirationOption → Url → Option ℕ
new_expiration now none old = Option.map time_of old.expires_at
new_expiration now (some expiration) old = calculate_expiration_date now expiration

abbrev pub is_taken : Option UrlRow → Bool
is_taken none = false
is_taken (some row) = true

-- `instanceof NotFoundException || instanceof ConflictException`
abbrev pub rethrow : Error → Error
rethrow not_found = not_found
rethrow conflict = conflict
rethrow _ = internal

-- `originalUrl && originalUrl !== oldUrl.original_url`, and then the verdict on the new URL
abbrev pub acceptable : SafeBrowsing → Option String → Url → Bool
acceptable s none old = true
acceptable s (some url) old = url == "" || url == old.original_url || (check_url s url).is_safe
