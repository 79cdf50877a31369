-- ===== src/Clicks/Drains.antt =====
-- What a round of the dead letter queue and a flush of all buffers do to the clicks that wait, when no
-- statement fails.
use dist_link.Base.{◌≡◌, refl, List, [], ◌∷◌, keep, not, drop, arith}
use dist_link.Base.Exec.{Result, try_catch-ok}
use dist_link.Urls.Types.{Database}
use dist_link.Clicks.Events.{Event, Letters, click, analytics}
use dist_link.Clicks.Processor.{
  Processor, batch_size, max_retries, save_batch_to_database, flush_click_buffer,
  flush_analytics_buffer, save_analytics_batch, run_analytics_batch,
}
use dist_link.Clicks.Counting.{calm, save_batch_exact}
use dist_link.Clicks.Buffers.{save-Leaves, add_clicks-dead_letters, add_clicks-click_buffer}
use dist_link.Clicks.DeadLetters.{
  may_retry, events_of, delete_letters, put_back, retry_clicks, retry_analytics,
  process_dead_letter_queue, flush_all_buffers,
}
use dist_link.Clicks.Retries.{retry_clicks-calm}
use dist_link.Clicks.Letters.{round-empty}
use dist_link.Clicks.Rounds.{
  IsCalm, calm-id, Settles, Untouched, Untouched-Settles, flush_click_buffer-Settles,
  flush_analytics_buffer-Untouched,
}

module _ {client : Database} {M : Type 0} where
  retry_clicks-rest :
      (items : Letters M) (events : List (Event M)) (p : Processor client M)
      → ((retry_clicks items events (calm p)).1.dead_letters ≡ p.dead_letters)
        × ((retry_clicks items events (calm p)).1.click_buffer ≡ p.click_buffer)
  retry_clicks-rest items [] p = unfold retry_clicks in (refl, refl)
  retry_clicks-rest items (e ∷ es) p =
      let save = save_batch_to_database {client = client} max_retries (e ∷ es) in
      let (done, exact) = save_batch_exact max_retries (e ∷ es) p "" in
      unfold retry_clicks in
      rw (try_catch-ok save (λ _. put_back click items (e ∷ es)) (calm p) tt done) (
        save-Leaves (λ q. q.dead_letters) add_clicks-dead_letters max_retries (e ∷ es) (calm p),
        save-Leaves (λ q. q.click_buffer) add_clicks-click_buffer max_retries (e ∷ es) (calm p),
      )

  retry_analytics-Untouched :
      (items : Letters M) (events : List (Event M)) (p : Processor client M)
      → IsCalm p
      → Untouched p (retry_analytics items events p)
  unfolding retry_analytics save_analytics_batch run_analytics_batch
  retry_analytics-Untouched items [] p h = (refl, h, refl, refl, refl)
  retry_analytics-Untouched items (e ∷ es) p h = rw h (refl, refl, refl, refl, refl)

  -- A round empties the queue of dead letters and counts those that it retries.
  abbrev pub Drained : Processor client M → Result (Unit {0}) × Processor client M → Type 0
  Drained p r = Settles p [] r × (r.1.dead_letters ≡ []) × (r.1.click_buffer ≡ p.click_buffer)

  dead_letters-Drained : (p : Processor client M) → Drained p (process_dead_letter_queue (calm p))
  dead_letters-Drained p =
      let retries = keep may_retry p.dead_letters in
      let failed = keep (λ i. not (may_retry i)) p.dead_letters in
      let q = record p {
        dead_letters = delete_letters (delete_letters p.dead_letters retries) failed;
      } in
      let clicks = events_of click retries in
      let (done, quiet, told, exact) = retry_clicks-calm retries clicks q "" in
      let (letters, buffer) = retry_clicks-rest retries clicks q in
      let (saved, quiet', db, buffer', letters') =
        retry_analytics-Untouched retries (events_of analytics retries)
          (retry_clicks retries clicks (calm q)).1 quiet in
      let empty = round-empty p.dead_letters in
      unfold process_dead_letter_queue in
      rw (done, saved)
        (
          (
            refl,
            quiet',
            λ code.
                let (_, _, _, exact) = retry_clicks-calm retries clicks q code in
                rw (db, exact, buffer', buffer, letters', letters, empty) (omega arith),
          ),
          rw (letters', letters) empty,
          rw (buffer', buffer) refl,
        )

  pub process_dead_letter_queue-Drained :
      (p : Processor client M) → IsCalm p → Drained p (process_dead_letter_queue p)
  process_dead_letter_queue-Drained p h = rw (calm-id p h) at (dead_letters-Drained p)

  -- `flushAllBuffers` settles the clicks, leaves no dead letter, and takes a batch out of the buffer.
  pub flush_all_buffers-Settles :
      (p : Processor client M)
      → IsCalm p
      → Settles p [] (flush_all_buffers p)
        × ((flush_all_buffers p).1.dead_letters ≡ [])
        × ((flush_all_buffers p).1.click_buffer ≡ drop batch_size p.click_buffer)
  flush_all_buffers-Settles p h =
      let first = flush_click_buffer p in
      let second = flush_analytics_buffer first.1 in
      let third = process_dead_letter_queue second.1 in
      let ((done, quiet, exact), left) = flush_click_buffer-Settles p h in
      let flushed = flush_analytics_buffer-Untouched first.1 quiet in
      let (done', quiet', exact') = Untouched-Settles first.1 second flushed in
      let ((done'', quiet'', exact''), empty, kept) =
        process_dead_letter_queue-Drained second.1 quiet' in
      unfold flush_all_buffers in
      rw (done, done', done'')
        (
          (refl, quiet'', λ code. omega (arith, exact code, exact' code, exact'' code)),
          empty,
          rw (kept, flushed.3, left) refl,
        )
