-- ===== src/Clicks/Retries.antt =====
-- What a round of the dead letter queue does when no statement fails.
use dist_link.Base.{◌+◌, String, ◌≡◌, refl, not, List, [], ◌∷◌, ◌++◌, keep, arith}
use dist_link.Base.Exec.{ok, try_catch-ok}
use dist_link.Urls.Types.{Database}
use dist_link.Clicks.Events.{Event, click, analytics, Letters}
use dist_link.Clicks.Processor.{Processor, max_retries, save_batch_to_database}
use dist_link.Clicks.DeadLetters.{
  may_retry, events_of, delete_letters, put_back, retry_clicks, retry_analytics,
  process_dead_letter_queue,
}
use dist_link.Clicks.Counting.{counter, calm, clicks_of, save_batch_exact, save_batch-faults}
use dist_link.Clicks.Buffers.{save-Leaves, add_clicks-reported}

module _ {client : Database} {M : Type 0} where
  pub retry_clicks-calm :
      (items : Letters M) (events : List (Event M)) (p : Processor client M) (code : String)
      → ((retry_clicks items events (calm p)).0 ≡ ok tt)
        × ((retry_clicks items events (calm p)).1.faults ≡ [])
        × ((retry_clicks items events (calm p)).1.reported ≡ p.reported)
        × (counter (retry_clicks items events (calm p)).1 code
            ≡ counter p code + clicks_of code events)
  retry_clicks-calm items [] p code = unfold retry_clicks in (refl, refl, refl, omega arith)
  retry_clicks-calm items (e ∷ es) p code =
      let save = save_batch_to_database {client = client} max_retries (e ∷ es) in
      let (done, exact) = save_batch_exact max_retries (e ∷ es) p code in
      unfold retry_clicks in
      rw (try_catch-ok save (λ _. put_back click items (e ∷ es)) (calm p) tt done) (
        done,
        save_batch-faults max_retries (e ∷ es) p,
        save-Leaves (λ q. q.reported) add_clicks-reported max_retries (e ∷ es) (calm p),
        exact,
      )

  retry_analytics-calm :
      (items : Letters M) (events : List (Event M)) (p : Processor client M)
      → p.faults ≡ []
      → ((retry_analytics items events p).0 ≡ ok tt)
        × ((retry_analytics items events p).1.db ≡ p.db)
        × ((retry_analytics items events p).1.reported ≡ p.reported)
  retry_analytics-calm items [] p quiet = unfold retry_analytics in (refl, refl, refl)
  retry_analytics-calm items (e ∷ es) p quiet =
      unfold retry_analytics in rw quiet (refl, refl, refl)

  -- When no statement fails, a round of the dead letter queue returns. It counts each click that has
  -- failed less than three times once, and reports the events that have failed three times or
  -- more, in the order of the queue.
  dead_letters_counted :
      (p : Processor client M) (code : String)
      → ((process_dead_letter_queue (calm p)).0 ≡ ok tt)
        × (counter (process_dead_letter_queue (calm p)).1 code
            ≡ counter p code + clicks_of code (events_of click (keep may_retry p.dead_letters)))
        × ((process_dead_letter_queue (calm p)).1.reported
            ≡ p.reported ++ keep (λ i. not (may_retry i)) p.dead_letters)
  dead_letters_counted p code =
      let retries = keep may_retry p.dead_letters in
      let failed = keep (λ i. not (may_retry i)) p.dead_letters in
      let q = record p {
        dead_letters = delete_letters (delete_letters p.dead_letters retries) failed;
      } in
      let clicks = events_of click retries in
      let (done, quiet, told, exact) = retry_clicks-calm retries clicks q code in
      let (saved, same, heard) =
        retry_analytics-calm retries (events_of analytics retries)
          (retry_clicks retries clicks (calm q)).1 quiet in
      unfold process_dead_letter_queue in rw (done, saved, same, heard, told) (refl, exact, refl)
