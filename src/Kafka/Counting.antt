-- ===== src/Kafka/Counting.antt =====
-- modules/kafka/kafka-consumer.service.ts and modules/clicks/click-processor.service.ts: the messages that
-- reach the consumer, and the counters.
use dist_link.Base.{
  ◌+◌, String, ◌≡◌, refl, ◌∙◌, Option, none, some, List, [], ◌∷◌, ◌++◌, arith, inl, inr,
  Option-cases,
}
use dist_link.Base.Exec.{generic, ok, try_catch-ok}
use dist_link.Urls.Types.{Database}
use dist_link.Clicks.Events.{Event}
use dist_link.Clicks.Agents.{Metadata, enrich_analytics_data}
use dist_link.Clicks.Counting.{counter, clicks_of, clicks_of-append}
use dist_link.Clicks.Buffers.{click_buffer-bounded}
use dist_link.Clicks.Rounds.{stock, process_click_event-Settles, process_analytics_event-Settles}
use dist_link.Clicks.Service.{constructed, on_module_destroy}
use dist_link.Clicks.History.{IsSteady, shutdown-empty}
use dist_link.Kafka.{
  Message, Topic, url_clicks, url_analytics, other, Consumer, dispatch, report_failure,
  send_error_event, each_message, consume,
}
use dist_link.Kafka.Delivery.{each_message-ok}

-- The click that a message brings, and the clicks of several messages.
abbrev click_in : Option (Event Metadata) → Topic → List (Event Metadata)
click_in none t = []
click_in (some e) url_clicks = e ∷ []
click_in (some e) url_analytics = []
click_in (some e) other = []

abbrev pub clicks_in : List Message → List (Event Metadata)
clicks_in [] = []
clicks_in (m ∷ ms) = click_in m.value m.topic ++ clicks_in ms

module _ {client : Database} where
  -- The consumer goes on with a processor that has these clicks more.
  abbrev Gains : Consumer client → List (Event Metadata) → Consumer client → Type 0
  Gains c received d =
      IsSteady d.processor
      × ((code : String)
          → stock d.processor code ≡ stock c.processor code + clicks_of code received)

  dispatch-Gains :
      (t : Topic) (e : Event Metadata) (c : Consumer client)
      → IsSteady c.processor
      → ((dispatch t e c).0 ≡ ok tt) × Gains c (click_in (some e) t) (dispatch t e c).1
  unfolding dispatch
  dispatch-Gains url_clicks e c h =
      let (done, quiet, exact) = process_click_event-Settles e c.processor h.calm in
      (
        done,
        (record { calm = quiet; bounded = click_buffer-bounded e c.processor h.bounded }, exact),
      )
  dispatch-Gains url_analytics e c h =
      let ((done, quiet, exact), same) =
        process_analytics_event-Settles (enrich_analytics_data c.broker.now) e c.processor h.calm in
      (done, (record { calm = quiet; bounded = rw same h.bounded }, exact))
  dispatch-Gains other e c h = (refl, (h, λ code. omega arith))

  report-processor : (c : Consumer client) → (report_failure generic c).1.processor ≡ c.processor
  unfolding send_error_event
  report-processor c = ground arith

  each_message-Gains :
      (m : Message) (c : Consumer client)
      → IsSteady c.processor
      → Gains c (click_in m.value m.topic) (each_message m c).1
  unfolding each_message
  each_message-Gains m c h = elim (Option-cases m.value) [
    | inl unread ↦ rw (unread, report-processor c) (h, λ code. omega arith)
    | inr (e, shown) ↦
        let (done, gains) = dispatch-Gains m.topic e c h in
        rw (shown, try_catch-ok (dispatch m.topic e) report_failure c tt done) gains
  ]

  consume-Gains :
      (ms : List Message) (c : Consumer client)
      → IsSteady c.processor
      → Gains c (clicks_in ms) (consume ms c).1
  unfolding consume
  consume-Gains [] c h = (h, λ code. omega arith)
  consume-Gains (m ∷ ms) c h =
      let (steady, step) = each_message-Gains m c h in
      let (steady', rest) = consume-Gains ms (each_message m c).1 steady in
      rw (each_message-ok m c) (
        steady',
        λ code. omega (
          arith,
          step code,
          rest code,
          clicks_of-append code (click_in m.value m.topic) (clicks_in ms),
        ),
      )

  -- Whatever messages the consumer gets whose texts are events or are not JSON at all, of whatever topic, and
  -- whatever becomes of its own messages: when no statement fails, a shutdown of the click processor after them returns and
  -- leaves no click in the buffer; each readable message of the topic of the clicks has been counted, once,
  -- and so have the clicks that were waiting.
  pub consumed_counted :
      (ms : List Message) (c : Consumer client)
      → IsSteady c.processor
      → ((on_module_destroy (constructed (consume ms c).1.processor)).0 ≡ ok tt)
        × ((on_module_destroy (constructed (consume ms c).1.processor)).1.processor.click_buffer
            ≡ [])
        × ((code : String)
            → counter (on_module_destroy (constructed (consume ms c).1.processor)).1.processor code
              ≡ stock c.processor code + clicks_of code (clicks_in ms))
  consumed_counted ms c h =
      let (steady, total) = consume-Gains ms c h in
      let (done, stopped, gone, empty, exact) =
        shutdown-empty (constructed (consume ms c).1.processor) steady in
      (done, gone, λ code. exact code ∙ total code)
