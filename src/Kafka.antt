-- ===== src/Kafka.antt =====
-- modules/kafka/kafka-producer.service.ts and kafka-consumer.service.ts: the messages between the
-- redirect and the click processor. A message that is sent is kept as its topic holds it: the dates of
-- its value are texts.
pub mod Delivery
pub mod Admin
pub mod Connection
pub mod Provision
pub mod Counting
use dist_link.Base.{
  ℕ, String, Bool, true, false, Option, none, some, List, [], ◌∷◌, ◌++◌, if◌then◌else◌,
}
use dist_link.Base.Exec.{
  Error, generic, Result, ok, err, Exec, pure, throw, gets, try_catch, zoom, ◌>>=◌, ◌>>◌,
}
use dist_link.Base.Faults.{next_fails, later}
use dist_link.Urls.Types.{Database, iso}
use dist_link.Clicks.Events.{Event}
use dist_link.Clicks.Agents.{Metadata, enrich_analytics_data}
use dist_link.Clicks.Processor.{Processor, process_click_event, process_analytics_event}

pub data Topic : Type 0 where
  url_clicks url_analytics other : Topic

-- `value` is the event that `JSON.parse` reads, and `none` where it throws. A text that is JSON but no event,
-- such as `null`, which no producer of the service writes, is no message here.
pub record Message : Type 0 where
  pub topic : Topic
  pub key : String
  pub value : Option (Event Metadata)

pub record ErrorEvent : Type 0 where
  pub code : String
  pub cause : Error
  pub short_code : Option String

pub record Broker : Type 0 where
  -- whether the producer is connected
  pub connected : Bool
  pub now : ℕ
  pub sent : List Message
  pub errors : List ErrorEvent
  pub faults : List Bool

-- A call of the producer, which may fail.
unfoldable pub call_broker : (Broker → Broker) → Exec Broker (Unit {0})
call_broker f b =
    if next_fails b.faults
    then (err generic, record b { faults = later b.faults })
    else (ok tt, record (f b) { faults = later b.faults })

-- `producer.send`, which throws where the producer is not connected
unfoldable pub send : (Broker → Broker) → Exec Broker (Unit {0})
unfolding call_broker
send f b = if b.connected then call_broker f b else (err generic, b)

-- `onModuleInit` and `onModuleDestroy` of the producer; an error of the connection is thrown again.
unfoldable pub on_module_init : Exec Broker (Unit {0})
unfolding call_broker
on_module_init = try_catch (call_broker (λ b. record b { connected = true })) (λ e. throw e)

unfoldable pub on_module_destroy : Exec Broker (Unit {0})
unfolding call_broker
on_module_destroy = call_broker (λ b. record b { connected = false })

unfoldable pub send_error_event : ErrorEvent → Exec Broker Bool
unfolding send call_broker
send_error_event event =
    try_catch (do send (λ b. record b { errors = b.errors ++ event ∷ [] }); pure true)
      (λ _. pure false)

abbrev pub message_of : Topic → String → Metadata → ℕ → Message
message_of topic short_code metadata now = record {
  topic = topic;
  key = short_code;
  value = some (record { short_code = short_code; timestamp = iso now; metadata = metadata });
}

abbrev pub error_of : String → String → Error → ErrorEvent
error_of code short_code e = record { code = code; cause = e; short_code = some short_code }

-- `sendClickEvent` and `sendAnalyticsEvent`: a failure is reported, and thrown again.
abbrev pub send_to : Topic → (code : String) → String → Metadata → Exec Broker Bool
send_to topic code short_code metadata =
    try_catch
      (do
        send (λ b. record b { sent = b.sent ++ message_of topic short_code metadata b.now ∷ [] })
        pure true)
      (λ e. do send_error_event (error_of code short_code e); throw e)

unfoldable pub send_click_event : String → Metadata → Exec Broker Bool
unfolding send call_broker send_error_event
send_click_event = send_to url_clicks "CLICK_EVENT_ERROR"

unfoldable pub send_analytics_event : String → Metadata → Exec Broker Bool
unfolding send call_broker send_error_event
send_analytics_event = send_to url_analytics "ANALYTICS_EVENT_ERROR"

pub record Consumer (client : Database) : Type 0 where
  pub processor : Processor client Metadata
  pub broker : Broker

module _ {client : Database} where
  abbrev pub on_processor :
      {A : Type 0} → Exec (Processor client Metadata) A → Exec (Consumer client) A
  on_processor m = zoom (λ c. c.processor) (λ p c. record c { processor = p }) m

  abbrev pub on_broker : {A : Type 0} → Exec Broker A → Exec (Consumer client) A
  on_broker m = zoom (λ c. c.broker) (λ b c. record c { broker = b }) m

  -- `JSON.parse(message.value.toString())`
  abbrev pub parse : Option (Event Metadata) → Exec (Consumer client) (Event Metadata)
  parse none = throw generic
  parse (some event) = pure event

  -- The switch on the topic.
  unfoldable pub dispatch : Topic → Event Metadata → Exec (Consumer client) Unit
  unfolding process_click_event process_analytics_event enrich_analytics_data
  dispatch url_clicks event = on_processor (process_click_event event)
  dispatch url_analytics event = do
    now ← gets (λ c. c.broker.now)
    on_processor (process_analytics_event (enrich_analytics_data now) event)
  dispatch other event = pure tt

  abbrev pub report_failure : Error → Exec (Consumer client) Unit
  report_failure e = do
    on_broker
        (send_error_event (record { code = "PROCESSING_ERROR"; cause = e; short_code = none }))
    pure tt

  -- The handler `eachMessage`.
  unfoldable pub each_message : Message → Exec (Consumer client) Unit
  unfolding dispatch send_error_event
  each_message message =
      try_catch (do event ← parse message.value; dispatch message.topic event) report_failure

  -- The messages of the topics, one after the other.
  unfoldable pub consume : List Message → Exec (Consumer client) Unit
  unfolding each_message
  consume [] = pure tt
  consume (message ∷ messages) = do each_message message; consume messages
