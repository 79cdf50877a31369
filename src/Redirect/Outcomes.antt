-- ===== src/Redirect/Outcomes.antt =====
-- What a redirect answers, and what it leaves for the click processor.
use dist_link.Base.{
  true, ◌+◌, ◌<◌, String, ◌≡◌, refl, ap, eq_refl, take-all, length-append, some, [], ◌∷◌, ◌++◌,
  arith, length,
}
use dist_link.Base.Exec.{Error, Result, ok, err}
use dist_link.Urls.Types.{Database, Url, Cached, one, iso}
use dist_link.Urls.World.{Env}
use dist_link.Urls.Service.{find_by_short_code}
use dist_link.Clicks.Agents.{Metadata}
use dist_link.Clicks.Counting.{counter, calm, clicks_of, clicks_of-append}
use dist_link.Clicks.Buffers.{flush_counts_exactly}
use dist_link.Clicks.Events.{Event}
use dist_link.Clicks.Processor.{Processor, flush_click_buffer, batch_size}
use dist_link.Clicks.Recording.{ClickTables, ClickWorld, Recorded, record_click}
use dist_link.Kafka.{Broker, Message, message_of, url_clicks, Consumer, each_message, error_of}
use dist_link.Kafka.Delivery.{send_error_event-ok, each_message-room}
use dist_link.Redirect.{
  Request, client_address, agent_of, Site, target_of, click_metadata, report_click, redirect,
}

report_click-ok :
    (code : String) (metadata : Metadata) (b : Broker) → (report_click code metadata b).0 ≡ ok tt
unfolding report_click
report_click-ok code metadata b = ground arith

report_click-sent :
    (code : String) (metadata : Metadata) (b : Broker)
    → b.connected ≡ true
    → b.faults ≡ []
    → (report_click code metadata b).1.sent
      ≡ b.sent ++ message_of url_clicks code metadata b.now ∷ []
unfolding report_click
report_click-sent code metadata b linked quiet = rw (linked, quiet)

module _ {env : Env} {tables : ClickTables} (code : String) (request : Request)
    (s : Site env tables) where
  abbrev pub recording : Result Recorded × ClickWorld tables
  recording = record_click code (client_address request) (agent_of request) s.clicks

  abbrev pub reported : Broker
  reported =
      (report_click code (click_metadata (client_address request) (agent_of request)) s.broker).1

  redirect_effect :
      (cached : Cached) (r : Recorded)
      → (find_by_short_code code s.urls).0 ≡ ok cached
      → recording.0 ≡ ok r
      → redirect code request s ≡ (
        ok (target_of cached),
        record s {
          urls = (find_by_short_code code s.urls).1;
          clicks = recording.1;
          broker = reported;
        },
      )
  unfolding redirect
  redirect_effect cached r found kept = rw (found, kept, report_click-ok)

  -- A redirect whose lookup and whose statistics succeed answers with the target of the URL, whatever
  -- becomes of its messages to Kafka; the click is recorded as `recordClick` does.
  redirect_target :
      (u : Url) (r : Recorded)
      → (find_by_short_code code s.urls).0 ≡ ok (one u)
      → recording.0 ≡ ok r
      → ((redirect code request s).0 ≡ ok (some u.original_url))
        × ((redirect code request s).1.clicks ≡ recording.1)
  redirect_target u r found kept = rw (redirect_effect (one u) r found kept) (refl, refl)

  -- A redirect whose URL is found fails nevertheless where its click cannot be recorded.
  redirect_needs_statistics :
      (cached : Cached) (e : Error)
      → (find_by_short_code code s.urls).0 ≡ ok cached
      → recording.0 ≡ err e
      → (redirect code request s).0 ≡ err e
  unfolding redirect
  redirect_needs_statistics cached e found lost =
      let (t, told) = send_error_event-ok (error_of "REDIRECT_ERROR" code e) s.broker in
      rw (found, lost, told) refl

  abbrev pub click_event : Event Metadata
  click_event = record {
    short_code = code;
    timestamp = iso s.broker.now;
    metadata = click_metadata (client_address request) (agent_of request);
  }

  -- The message of the click.
  abbrev click_message : Message
  click_message = message_of url_clicks code click_event.metadata s.broker.now

  abbrev with_click : {client : Database} → Processor client Metadata → Processor client Metadata
  with_click p = record p { click_buffer = p.click_buffer ++ click_event ∷ [] }

  flush_after :
      {client : Database} (p : Processor client Metadata)
      → length p.click_buffer + 1 < batch_size
      → ((flush_click_buffer (calm (with_click p))).0 ≡ ok tt)
        × (counter (flush_click_buffer (calm (with_click p))).1 code
            ≡ counter p code + clicks_of code p.click_buffer + 1)
  flush_after p room =
      let (flushed, counted) = flush_counts_exactly (with_click p) code in
      let buffer = p.click_buffer ++ click_event ∷ [] in
      let whole =
        take-all batch_size buffer
          (omega (arith, length-append p.click_buffer (click_event ∷ []))) in
      let clicks : clicks_of code buffer ≡ clicks_of code p.click_buffer + 1 =
        ground (arith, clicks_of-append code p.click_buffer (click_event ∷ []), eq_refl code) in
      (flushed, omega (arith, counted, ap (clicks_of code) whole, clicks))

  -- With a connected producer whose broker takes messages, a redirect sends one event, and the consumer that gets it puts
  -- the click into the buffer of the click processor, if that has room for it. When no statement fails,
  -- the next flush counts it once, with the other clicks of the buffer.
  pub redirect_is_counted :
      {client : Database} (cached : Cached) (r : Recorded) (c : Consumer client)
      → (find_by_short_code code s.urls).0 ≡ ok cached
      → recording.0 ≡ ok r
      → s.broker.connected ≡ true
      → s.broker.faults ≡ []
      → length c.processor.click_buffer + 1 < batch_size
      → (m : Message) × ((redirect code request s).1.broker.sent ≡ s.broker.sent ++ m ∷ [])
        × ((each_message m c).1.processor.click_buffer
            ≡ c.processor.click_buffer ++ click_event ∷ [])
        × ((flush_click_buffer (calm (each_message m c).1.processor)).0 ≡ ok tt)
        × (counter (flush_click_buffer (calm (each_message m c).1.processor)).1 code
            ≡ counter c.processor code + clicks_of code c.processor.click_buffer + 1)
  redirect_is_counted {client} cached r c found kept linked quiet room =
      let taken = each_message-room click_message click_event c refl refl room in
      let (flushed, counted) = flush_after c.processor room in
      (
        click_message,
        rw (redirect_effect cached r found kept)
            (report_click-sent code click_event.metadata s.broker linked quiet),
        ap (λ (p : Processor client Metadata). p.click_buffer) taken,
        rw taken flushed,
        rw taken counted,
      )
