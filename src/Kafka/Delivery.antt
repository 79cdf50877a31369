-- ===== src/Kafka/Delivery.antt =====
-- What the handler of the consumer does with a message.
use dist_link.Base.{
  ℕ, suc, ◌+◌, ◌<◌, ◌≡◌, refl, inl, inr, Bool, true, false, some, List, [], ◌∷◌, ◌++◌, arith,
  length, leb, take, drop, Bool-cases, Option-cases, zero, if◌then◌else◌, length-append,
}
use dist_link.Base.Frame.{Leaves, try_catch-Leaves}
use dist_link.Base.Exec.{Error, generic, Result, ok, err, recover, recover-ok, ◌>>=◌}
use dist_link.Urls.Types.{Database}
use dist_link.Base.Faults.{next_fails}
use dist_link.Clicks.Events.{Event, analytics}
use dist_link.Clicks.Agents.{Metadata, enrich_analytics_data}
use dist_link.Clicks.Processor.{
  Processor, batch_size, max_retries, process_click_event, run_analytics_batch,
  save_analytics_batch, bury, flush_analytics, flush_analytics_buffer, process_analytics_event,
}
use dist_link.Clicks.Buffers.{click_buffer-bounded, bury-Leaves}
use dist_link.Kafka.{
  Message, Topic, url_clicks, url_analytics, other, Broker, ErrorEvent, send_error_event, Consumer,
  dispatch, parse, report_failure, each_message, consume,
}

pub send_error_event-ok :
    (e : ErrorEvent) (b : Broker) → (done : Bool) × ((send_error_event e b).0 ≡ ok done)
unfolding send_error_event
send_error_event-ok e b =
    (if b.connected then (if next_fails b.faults then false else true) else false, ground arith)

module _ {client : Database} where
  process_click_event-room :
      (e : Event Metadata) (p : Processor client Metadata)
      → length p.click_buffer + 1 < batch_size
      → process_click_event e p ≡ (ok tt, record p { click_buffer = p.click_buffer ++ e ∷ [] })
  unfolding process_click_event
  process_click_event-room e p room =
      let size = length-append p.click_buffer (e ∷ []) in
      let open_buffer : leb batch_size (length (p.click_buffer ++ e ∷ [])) ≡ false = ground arith in
      rw open_buffer

  -- A click event that the buffer has room for goes there.
  pub each_message-room :
      (m : Message) (e : Event Metadata) (c : Consumer client)
      → m.topic ≡ url_clicks
      → m.value ≡ some e
      → length c.processor.click_buffer + 1 < batch_size
      → (each_message m c).1.processor
        ≡ record (c.processor) { click_buffer = c.processor.click_buffer ++ e ∷ [] }
  unfolding each_message
  each_message-room m e c on_clicks read room =
      rw (read, on_clicks, process_click_event-room e c.processor room)

  report-ok : (e : Error) (c : Consumer client) → (report_failure e c).0 ≡ ok tt
  unfolding send_error_event
  report-ok e c = ground arith

  pub each_message-ok : (m : Message) (c : Consumer client) → (each_message m c).0 ≡ ok tt
  unfolding each_message
  each_message-ok m c =
      recover-ok ((parse m.value >>= λ event. dispatch m.topic event) c).0
        ((parse m.value >>= λ event. dispatch m.topic event) c).1 report_failure report-ok

  run_analytics_batch-click_buffer :
      (batch : List (Event Metadata))
      → Leaves (λ p. p.click_buffer) (run_analytics_batch {client = client} batch)
  unfolding run_analytics_batch
  run_analytics_batch-click_buffer batch p = ground arith

  save_last :
      (batch : List (Event Metadata))
      → Leaves (λ p. p.click_buffer) (save_analytics_batch {client = client} zero batch)
  unfolding save_analytics_batch
  save_last batch p = ground arith

  save_next :
      (retries : ℕ) (batch : List (Event Metadata))
      → Leaves (λ p. p.click_buffer) (save_analytics_batch {client = client} retries batch)
      → Leaves (λ p. p.click_buffer) (save_analytics_batch {client = client} (suc retries) batch)
  unfolding save_analytics_batch
  save_next retries batch rest =
      try_catch-Leaves (λ (p : Processor client Metadata). p.click_buffer)
        (run_analytics_batch batch) (λ _. save_analytics_batch retries batch)
        (run_analytics_batch-click_buffer batch) (λ _. rest)

  save_analytics_batch-click_buffer :
      (retries : ℕ) (batch : List (Event Metadata))
      → Leaves (λ p. p.click_buffer) (save_analytics_batch {client = client} retries batch)
  save_analytics_batch-click_buffer zero batch = save_last batch
  save_analytics_batch-click_buffer (suc retries) batch =
      save_next retries batch (save_analytics_batch-click_buffer retries batch)

  flush_analytics-click_buffer :
      (batch : List (Event Metadata))
      → Leaves (λ p. p.click_buffer) (flush_analytics {client = client} batch)
  flush_analytics-click_buffer [] p = unfold flush_analytics in refl
  flush_analytics-click_buffer (e ∷ es) p =
      unfold flush_analytics in
      try_catch-Leaves (λ (q : Processor client Metadata). q.click_buffer)
        (save_analytics_batch max_retries (e ∷ es)) (λ _. bury analytics (e ∷ es))
        (save_analytics_batch-click_buffer max_retries (e ∷ es))
        (λ _. bury-Leaves (λ q. q.click_buffer) (λ k e' q. refl) analytics (e ∷ es)) p

  process_analytics_event-click_buffer :
      (enrich : Event Metadata → Event Metadata) (e : Event Metadata)
      (p : Processor client Metadata)
      → (process_analytics_event enrich e p).1.click_buffer ≡ p.click_buffer
  process_analytics_event-click_buffer enrich e p =
      let buffer = (p.analytics_buffer ++ e ∷ []) ++ enrich e ∷ [] in
      elim (Bool-cases (leb batch_size (length buffer))) [
        | inr room ↦ unfold process_analytics_event in rw room
        | inl full ↦
            unfold process_analytics_event flush_analytics_buffer in
            rw full (
              flush_analytics-click_buffer (take batch_size buffer)
                (record p { analytics_buffer = drop batch_size buffer }))
      ]

  -- What happens to a message does not depend on the error that is reported.
  report-processor :
      (r : Result (Unit {0})) (c : Consumer client)
      → (recover r c report_failure).1.processor ≡ c.processor
  unfolding send_error_event
  report-processor (ok u) c = refl
  report-processor (err e) c = ground arith

  dispatch-bounded :
      (t : Topic) (e : Event Metadata) (c : Consumer client)
      → length c.processor.click_buffer < batch_size
      → length (dispatch t e c).1.processor.click_buffer < batch_size
  unfolding dispatch
  dispatch-bounded url_clicks e c fits = click_buffer-bounded e c.processor fits
  dispatch-bounded url_analytics e c fits =
      rw (process_analytics_event-click_buffer (enrich_analytics_data c.broker.now) e c.processor)
        fits
  dispatch-bounded other e c fits = fits

  each_message-bounded :
      (m : Message) (c : Consumer client)
      → length c.processor.click_buffer < batch_size
      → length (each_message m c).1.processor.click_buffer < batch_size
  each_message-bounded m c fits = elim (Option-cases m.value) [
    | inl unreadable ↦
        unfold each_message in rw unreadable (rw (report-processor (err generic) c) fits)
    | inr (e, read) ↦
        unfold each_message in
        rw read (
          rw (report-processor (dispatch m.topic e c).0 (dispatch m.topic e c).1)
            (dispatch-bounded m.topic e c fits))
  ]

  -- The consumer goes on after every message whose text is an event or is not JSON at all, whatever its topic
  -- is and whatever calls fail, and the buffer of clicks stays below a hundred events if it is so at first.
  pub consume_safe :
      (ms : List Message) (c : Consumer client)
      → length c.processor.click_buffer < batch_size
      → ((consume ms c).0 ≡ ok tt) × (length (consume ms c).1.processor.click_buffer < batch_size)
  unfolding consume
  consume_safe [] c fits = (refl, fits)
  consume_safe (m ∷ ms) c fits =
      let (done, kept) = consume_safe ms (each_message m c).1 (each_message-bounded m c fits) in
      rw (each_message-ok m c) (done, kept)
