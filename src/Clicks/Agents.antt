-- ===== src/Clicks/Agents.antt =====
-- modules/clicks/click-processor.service.ts: `enrichAnalyticsData`, `parseUserAgent`, `getGeoInfo` and
-- `anonymizeIp`. The patterns with the flag `i` compare the letters of ASCII in lower case.
use Prim.Native.Char.{code}
use dist_link.Base.{
  ℕ, zero, suc, String, Bool, true, ◌&&◌, ◌||◌, Option, none, some, ◌==◌, leb, if◌then◌else◌,
}
use dist_link.Urls.Types.{Stamp, date}
use dist_link.Clicks.Countries.{starts_in_lower_case}
use dist_link.Clicks.Events.{Event}

-- `/pattern/i.test(text)`, for a pattern of small letters
unfoldable pub has_word : (pattern text : String) → Bool
unfolding starts_in_lower_case
has_word pattern String.[] = starts_in_lower_case pattern ""
has_word pattern (String.◌∷◌ c text) =
    let rest = has_word pattern text in
    if starts_in_lower_case pattern (String.◌∷◌ c text) then true else rest

-- `substring(0, n)`, in characters
abbrev pub first_chars : ℕ → String → String
first_chars zero text = String.[]
first_chars (suc n) String.[] = String.[]
first_chars (suc n) (String.◌∷◌ c text) = String.◌∷◌ c (first_chars n text)

-- `{ unknown: true }`, or what the text of the agent shows
pub data Device : Type 0 where
  unknown : Device
  agent : (is_mobile is_tablet is_browser : Bool) → (raw : String) → Device

abbrev pub is_mobile_agent : String → Bool
is_mobile_agent ua =
    has_word "mobile" ua
    || has_word "android" ua
    || has_word "iphone" ua
    || has_word "ipad" ua
    || has_word "ipod" ua

abbrev pub is_tablet_agent : String → Bool
is_tablet_agent ua = has_word "tablet" ua || has_word "ipad" ua

abbrev pub is_browser_agent : String → Bool
is_browser_agent ua =
    has_word "chrome" ua
    || has_word "firefox" ua
    || has_word "safari" ua
    || has_word "edge" ua
    || has_word "msie" ua
    || has_word "trident" ua

abbrev pub raw_length : ℕ
raw_length = 200

unfoldable pub parse_user_agent : Option String → Device
unfolding has_word
parse_user_agent none = unknown
parse_user_agent (some ua) =
    if ua == ""
    then unknown
    else agent (is_mobile_agent ua) (is_tablet_agent ua) (is_browser_agent ua)
        (first_chars raw_length ua)

abbrev pub is_digit_char : ℕ → Bool
is_digit_char c = leb b'0' c && leb c b'9'

abbrev pub all_digits : String → Bool
all_digits String.[] = true
all_digits (String.◌∷◌ c text) = is_digit_char (code c) && all_digits text

-- `ip.replace(/\d+$/, '0')`: the first place from which only digits follow
unfoldable pub anonymize_ip : String → String
anonymize_ip String.[] = String.[]
anonymize_ip (String.◌∷◌ c text) =
    let rest = anonymize_ip text in
    if all_digits (String.◌∷◌ c text) then "0" else String.◌∷◌ c rest

pub record GeoInfo : Type 0 where
  pub approximate_location : String
  pub ip : String

unfoldable pub get_geo_info : String → GeoInfo
unfolding anonymize_ip
get_geo_info ip = record { approximate_location = "unknown"; ip = anonymize_ip ip }

-- `metadata`, with the fields that the enrichment adds
pub record Metadata : Type 0 where
  pub user_agent : Option String
  pub ip : Option String
  pub referer : Option String
  pub device : Option Device
  pub geo : Option GeoInfo
  pub processed_at : Option Stamp

abbrev pub geo_of : Option String → Option GeoInfo
geo_of none = none
geo_of (some ip) = if ip == "" then none else some (get_geo_info ip)

unfoldable pub enrich_analytics_data : (now : ℕ) → Event Metadata → Event Metadata
unfolding parse_user_agent get_geo_info
enrich_analytics_data now e = record e {
  metadata = record (e.metadata) {
    device = some (parse_user_agent e.metadata.user_agent);
    geo = geo_of e.metadata.ip;
    processed_at = some (date now);
  };
}
