-- ===== src/Clicks/DeadLetters.antt =====
-- modules/clicks/click-processor.service.ts: `processDeadLetterQueue` and `flushAllBuffers`.
use dist_link.Base.{
  ℕ, ◌+◌, Bool, not, Option, none, some, List, [], ◌∷◌, ◌++◌, map, keep, ltb, if◌then◌else◌,
}
use dist_link.Base.Exec.{Exec, pure, gets, modify, try_catch, ◌>>=◌, ◌>>◌}
use dist_link.Urls.Types.{Database}
use dist_link.Clicks.Events.{
  Event, Kind, click, analytics, Key, same_kind, same_key, Letter, Letters, find_letter, set_letter,
}
use dist_link.Clicks.Processor.{
  Processor, dead_letter_threshold, max_retries, get_time, key_of, save_batch_to_database,
  save_analytics_batch, flush_click_buffer, flush_analytics_buffer,
}

module _ {M : Type 0} where
  abbrev pub may_retry : Key × Letter M → Bool
  may_retry i = ltb i.1.failures dead_letter_threshold

  -- `deadLetterQueue.delete(key)` for the key of each item
  unfoldable pub delete_letter : Letters M → Key → Letters M
  delete_letter [] k = []
  delete_letter ((j, l) ∷ ls) k =
      let rest = delete_letter ls k in if same_key j k then rest else (j, l) ∷ rest

  unfoldable pub delete_letters : Letters M → Letters M → Letters M
  unfolding delete_letter
  delete_letters ls [] = ls
  delete_letters ls ((k, l) ∷ items) = delete_letters (delete_letter ls k) items

  abbrev pub events_of : Kind → Letters M → List (Event M)
  events_of kind items = map (λ i. i.1.event) (keep (λ i. same_kind i.0.kind kind) items)

  abbrev pub failures_so_far : Option (Letter M) → ℕ
  failures_so_far none = 0
  failures_so_far (some l) = l.failures

module _ {client : Database} {M : Type 0} where
  -- The events of a retry that failed go back, with one failure more.
  unfoldable pub put_back : Kind → Letters M → List (Event M) → Exec (Processor client M) Unit
  unfolding find_letter set_letter
  put_back kind items [] = pure tt
  put_back kind items (e ∷ events) = do
    t ← get_time e.timestamp
    modify (λ p. record p {
      dead_letters = set_letter p.dead_letters (key_of kind e t) (record {
        event = e;
        failures = failures_so_far (find_letter items (key_of kind e t)) + 1;
      });
    })
    put_back kind items events

  unfoldable pub retry_clicks : Letters M → List (Event M) → Exec (Processor client M) Unit
  unfolding put_back save_batch_to_database
  retry_clicks items [] = pure tt
  retry_clicks items (e ∷ es) =
      try_catch (save_batch_to_database max_retries (e ∷ es)) (λ _. put_back click items (e ∷ es))

  unfoldable pub retry_analytics : Letters M → List (Event M) → Exec (Processor client M) Unit
  unfolding put_back save_analytics_batch
  retry_analytics items [] = pure tt
  retry_analytics items (e ∷ es) =
      try_catch (save_analytics_batch max_retries (e ∷ es)) (λ _. put_back analytics items (e ∷ es))

  unfoldable pub process_dead_letter_queue : Exec (Processor client M) Unit
  unfolding delete_letters retry_clicks retry_analytics
  process_dead_letter_queue = do
    queue ← gets (λ p. p.dead_letters)
    let retries = keep may_retry queue
    let failed = keep (λ i. not (may_retry i)) queue
    modify (λ p. record p {
      dead_letters = delete_letters (delete_letters p.dead_letters retries) failed;
    })
    retry_clicks retries (events_of click retries)
    retry_analytics retries (events_of analytics retries)
    modify (λ p. record p { reported = p.reported ++ failed })

  abbrev settled : Exec (Processor client M) Unit → Exec (Processor client M) Unit
  settled m = try_catch m (λ _. pure tt)

  -- `Promise.allSettled` of the three flushes, one after the other
  unfoldable pub flush_all_buffers : Exec (Processor client M) Unit
  unfolding flush_click_buffer flush_analytics_buffer process_dead_letter_queue
  flush_all_buffers = do
    settled flush_click_buffer
    settled flush_analytics_buffer
    settled process_dead_letter_queue
