-- ===== src/Clicks/Daily.antt =====
-- modules/clicks/click-processor.service.ts: the queries of `saveAnalyticsBatch`. A day is the number
-- of days since 1970, which its text `YYYY-MM-DD` stands for; it has no colon, so that two keys
-- `<code>:<day>` are the same text when their parts are the same.
use Prim.Native.Char.{Char, code}
use dist_link.Base.{
  ℕ, ◌+◌, ◌/◌, String, Bool, ◌&&◌, Option, none, some, List, [], ◌∷◌, ◌++◌, map, length, ◌==◌, eqb,
  if◌then◌else◌,
}
use dist_link.Urls.Types.{Stamp}
use dist_link.Urls.Values.{time_of}
use dist_link.Clicks.Events.{Event}
use dist_link.Clicks.Agents.{Device, unknown, agent, Metadata, GeoInfo, anonymize_ip}

-- `text.split(':')`
abbrev prepend : Char → List String → List String
prepend c [] = String.◌∷◌ c "" ∷ []
prepend c (part ∷ parts) = String.◌∷◌ c part ∷ parts

unfoldable pub split : String → List String
split String.[] = "" ∷ []
split (String.◌∷◌ c s) =
    let parts = split s in if eqb (code c) b':' then "" ∷ parts else prepend c parts

abbrev pub day_of : Stamp → ℕ
day_of t = time_of t / 86400000

pub record DayKey : Type 0 where
  pub short_code : String
  pub day : ℕ

abbrev pub key_of_event : Event Metadata → DayKey
key_of_event e = record { short_code = e.short_code; day = day_of e.timestamp }

abbrev pub same_day : DayKey → DayKey → Bool
same_day a b = a.short_code == b.short_code && eqb a.day b.day

abbrev pub Groups : Type 0
Groups = List (DayKey × List (Event Metadata))

-- One round of the `forEach` that fills `byDay`.
unfoldable pub add_to_group : Groups → DayKey → Event Metadata → Groups
add_to_group [] k e = (k, e ∷ []) ∷ []
add_to_group ((j, es) ∷ groups) k e =
    let rest = add_to_group groups k e in
    if same_day j k then (j, es ++ e ∷ []) ∷ groups else (j, es) ∷ rest

unfoldable pub group_by_day : Groups → List (Event Metadata) → Groups
unfolding add_to_group
group_by_day groups [] = groups
group_by_day groups (e ∷ batch) = group_by_day (add_to_group groups (key_of_event e) e) batch

pub data DeviceType : Type 0 where
  mobile tablet desktop : DeviceType

-- `isMobile ? 'mobile' : isTablet ? 'tablet' : 'desktop'`
abbrev pub type_of_device : Option Device → DeviceType
type_of_device none = desktop
type_of_device (some unknown) = desktop
type_of_device (some (agent is_mobile is_tablet is_browser raw)) =
    if is_mobile then mobile else if is_tablet then tablet else desktop

pub record DeviceCounts : Type 0 where
  pub mobiles : ℕ
  pub tablets : ℕ
  pub desktops : ℕ

abbrev pub add_device : DeviceType → DeviceCounts → DeviceCounts
add_device mobile c = record c { mobiles = c.mobiles + 1 }
add_device tablet c = record c { tablets = c.tablets + 1 }
add_device desktop c = record c { desktops = c.desktops + 1 }

unfoldable pub device_counts : DeviceCounts → List (Event Metadata) → DeviceCounts
device_counts c [] = c
device_counts c (e ∷ events) =
    device_counts (add_device (type_of_device e.metadata.device) c) events

-- The parameters of an INSERT into `url_analytics`.
pub record AnalyticsRow : Type 0 where
  pub short_code : String
  pub timestamp : Stamp
  pub user_agent : Option String
  pub ip : Option String
  pub referer : Option String
  pub device_type : DeviceType
  pub country : Option String

-- The text of a day, or a part of a code that has a colon.
pub data DayText : Type 0 where
  on_day : ℕ → DayText
  part_of_code : String → DayText

-- `[shortCode, day] = key.split(':')`: the parts of the code come first, then the day.
abbrev pub split_key : DayKey → String × DayText
split_key k = first_two (split k.short_code) k.day
  where
    first_two : List String → ℕ → String × DayText
    first_two [] day = ("", on_day day)
    first_two (head ∷ []) day = (head, on_day day)
    first_two (head ∷ part ∷ parts) day = (head, part_of_code part)

pub data Query : Type 0 where
  insert_row : AnalyticsRow → Query
  add_daily : (key : String × DayText) → (total : ℕ) → DeviceCounts → Query

-- `value || null`
abbrev pub or_null : Option String → Option String
or_null none = none
or_null (some s) = if s == "" then none else some s

abbrev pub anonymous : Option String → Option String
anonymous none = none
anonymous (some ip) = if ip == "" then none else some (anonymize_ip ip)

abbrev pub location_of : Option GeoInfo → Option String
location_of none = none
location_of (some geo) = or_null (some geo.approximate_location)

unfoldable pub row_of_event : Event Metadata → AnalyticsRow
unfolding anonymize_ip
row_of_event e = record {
  short_code = e.short_code;
  timestamp = e.timestamp;
  user_agent = or_null e.metadata.user_agent;
  ip = anonymous e.metadata.ip;
  referer = or_null e.metadata.referer;
  device_type = type_of_device e.metadata.device;
  country = location_of e.metadata.geo;
}

abbrev pub no_devices : DeviceCounts
no_devices = record { mobiles = 0; tablets = 0; desktops = 0 }

abbrev pub daily_query : DayKey × List (Event Metadata) → Query
daily_query (k, events) = add_daily (split_key k) (length events) (device_counts no_devices events)

unfoldable pub analytics_queries : List (Event Metadata) → List Query
unfolding row_of_event group_by_day device_counts split
analytics_queries batch =
    map (λ e. insert_row (row_of_event e)) batch ++ map daily_query (group_by_day [] batch)
