-- ===== src/Redirect.antt =====
-- modules/urls/redirect.controller.ts: `RedirectController.redirect`, over the URL service, the click
-- service and the producer of Kafka.
pub mod Outcomes
use Prim.Native.Char.{code}
use Prim.Native.String
use dist_link.Base.{
  ℕ, String, Bool, true, false, Option, none, some, List, [], ◌∷◌, ◌==◌, eqb, if◌then◌else◌,
}
use dist_link.Base.Exec.{Error, Result, ok, err, Exec, pure, throw, try_catch, zoom, ◌>>=◌, ◌>>◌}
use dist_link.Urls.Types.{Cached, one, many}
use dist_link.Urls.World.{Env, World}
use dist_link.Urls.Service.{find_by_short_code}
use dist_link.Auth.Tokens.{trim_start, trim_end}
use dist_link.Clicks.Agents.{Metadata}
use dist_link.Clicks.Recording.{ClickTables, ClickWorld, Recorded, record_click}
use dist_link.Kafka.{Broker, send_click_event, send_error_event, error_of}

-- The header `x-forwarded-for`: a text, or several.
pub data Forwarded : Type 0 where
  single : String → Forwarded
  several : (first : String) → (rest : List String) → Forwarded

pub record Request : Type 0 where
  pub x_forwarded_for : Option Forwarded
  pub cf_connecting_ip : Option String
  pub true_client_ip : Option String
  pub x_real_ip : Option String
  pub ip : Option String
  pub user_agent : Option String

-- `text.split(',')[0]`
unfoldable pub before_comma : String → String
before_comma String.[] = String.[]
before_comma (String.◌∷◌ c text) =
    let rest = before_comma text in if eqb (code c) b',' then String.[] else String.◌∷◌ c rest

unfoldable pub first_address : String → String
unfolding before_comma trim_start trim_end
first_address text = trim_end (trim_start (before_comma text))

-- The first header that is there and not empty, or the last resort.
abbrev pub or_next : Option String → String → String
or_next none next = next
or_next (some text) next = if text == "" then next else text

abbrev pub without_forwarded : Request → String
without_forwarded r =
    or_next r.cf_connecting_ip
      (or_next r.true_client_ip (or_next r.x_real_ip (or_next r.ip "127.0.0.1")))

abbrev pub with_forwarded : Option Forwarded → String → String
with_forwarded none next = next
with_forwarded (some (single t)) next = if t == "" then next else first_address t
with_forwarded (some (several t rest)) next = first_address t

unfoldable pub client_address : Request → String
unfolding first_address
client_address r = with_forwarded r.x_forwarded_for (without_forwarded r)

abbrev pub agent_of : Request → String
agent_of r = or_next r.user_agent ""

pub record Site (env : Env) (tables : ClickTables) : Type 0 where
  pub urls : World env
  pub clicks : ClickWorld tables
  pub broker : Broker

-- `url.original_url`: a list has none.
abbrev pub target_of : Cached → Option String
target_of (one u) = some u.original_url
target_of (many us) = none

-- The metadata of the event; its own time is read by nothing and is left out.
abbrev pub click_metadata : String → String → Metadata
click_metadata address user_agent = record {
  user_agent = some user_agent;
  ip = some address;
  referer = none;
  device = none;
  geo = none;
  processed_at = none;
}

-- The event to Kafka, which is not awaited, and whose failure is only reported.
unfoldable pub report_click : String → Metadata → Exec Broker (Unit {0})
unfolding send_click_event send_error_event
report_click short_code metadata =
    try_catch (do send_click_event short_code metadata; pure tt)
      (λ e. do send_error_event (error_of "CLICK_EVENT_ERROR" short_code e); pure tt)

module _ {env : Env} {tables : ClickTables} where
  abbrev pub on_urls : {A : Type 0} → Exec (World env) A → Exec (Site env tables) A
  on_urls m = zoom (λ s. s.urls) (λ u s. record s { urls = u }) m

  abbrev pub on_clicks : {A : Type 0} → Exec (ClickWorld tables) A → Exec (Site env tables) A
  on_clicks m = zoom (λ s. s.clicks) (λ c s. record s { clicks = c }) m

  abbrev pub on_broker : {A : Type 0} → Exec Broker A → Exec (Site env tables) A
  on_broker m = zoom (λ s. s.broker) (λ b s. record s { broker = b }) m

  -- The address that `res.redirect` is given.
  unfoldable pub redirect : String → Request → Exec (Site env tables) (Option String)
  redirect short_code request =
      try_catch
        (do
          url ← on_urls (find_by_short_code short_code)
          on_clicks (record_click short_code (client_address request) (agent_of request))
          on_broker
              (report_click short_code (click_metadata (client_address request) (agent_of request)))
          pure (target_of url))
        (λ e. do on_broker (send_error_event (error_of "REDIRECT_ERROR" short_code e)); throw e)
