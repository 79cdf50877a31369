-- ===== src/Clicks/Processor.antt =====
-- modules/clicks/click-processor.service.ts: `ClickProcessorService`. The metrics and the logger
-- change nothing that is read and are left out; the waiting before a retry is left out too.
use dist_link.Base.{
  ℕ, zero, suc, String, Bool, List, [], ◌∷◌, ◌++◌, map, length, take, drop, leb, if◌then◌else◌,
}
use dist_link.Base.Exec.{
  generic, ok, err, Exec, pure, throw, gets, modify, try_catch, ◌>>=◌, ◌>>◌, promise_all,
}
use dist_link.Urls.Types.{Database, Stamp, date, iso}
use dist_link.Base.Faults.{next_fails, later}
use dist_link.Clicks.Events.{
  Event, Kind, click, analytics, Key, Letter, Letters, find_letter, set_letter, again, click_counts,
}

abbrev pub batch_size : ℕ
batch_size = 100

abbrev pub max_retries : ℕ
max_retries = 3

abbrev pub dead_letter_threshold : ℕ
dead_letter_threshold = 3

pub record Processor (client : Database) (M : Type 0) : Type 0 where
  pub db : client.State
  -- the batches that `url_analytics` and `url_analytics_daily` took
  pub saved_analytics : List (List (Event M))
  pub click_buffer : List (Event M)
  pub analytics_buffer : List (Event M)
  pub dead_letters : Letters M
  -- what `sendErrorEvent` was given for events that failed for good
  pub reported : List (Key × Letter M)
  pub faults : List Bool

abbrev pub key_of : {M : Type 0} → Kind → Event M → ℕ → Key
key_of kind e t = record { kind = kind; short_code = e.short_code; time = t }

module _ {client : Database} {M : Type 0} where
  unfoldable pub add_clicks : String × ℕ → Exec (Processor client M) Unit
  add_clicks (code, n) p =
      if next_fails p.faults
      then (err generic, record p { faults = later p.faults })
      else (ok tt, record p { db = client.add_clicks p.db code n; faults = later p.faults })

  -- `saveBatchToDatabase`: one UPDATE for each code, and all of them again if one fails.
  unfoldable pub save_batch_to_database : ℕ → List (Event M) → Exec (Processor client M) Unit
  unfolding add_clicks click_counts
  save_batch_to_database zero batch = promise_all (map add_clicks (click_counts [] batch))
  save_batch_to_database (suc retries) batch =
      try_catch (promise_all (map add_clicks (click_counts [] batch)))
        (λ _. save_batch_to_database retries batch)

  -- `client.batch` of `saveAnalyticsBatch`: all of its queries or none.
  unfoldable pub run_analytics_batch : List (Event M) → Exec (Processor client M) Unit
  run_analytics_batch batch p =
      if next_fails p.faults then (err generic, record p { faults = later p.faults }) else (
        ok tt,
        record p { saved_analytics = p.saved_analytics ++ batch ∷ []; faults = later p.faults },
      )

  unfoldable pub save_analytics_batch : ℕ → List (Event M) → Exec (Processor client M) Unit
  unfolding run_analytics_batch
  save_analytics_batch zero batch = run_analytics_batch batch
  save_analytics_batch (suc retries) batch =
      try_catch (run_analytics_batch batch) (λ _. save_analytics_batch retries batch)

  -- `event.timestamp.getTime()`: a text has no such method.
  abbrev pub get_time : Stamp → Exec (Processor client M) ℕ
  get_time (date t) = pure t
  get_time (iso t) = throw generic

  abbrev pub bury_one : Key → Event M → Processor client M → Processor client M
  bury_one key e p = record p {
    dead_letters = set_letter p.dead_letters key (again e (find_letter p.dead_letters key));
  }

  -- The `forEach` that moves a failed batch to the dead letter queue.
  unfoldable pub bury : Kind → List (Event M) → Exec (Processor client M) Unit
  unfolding set_letter find_letter
  bury kind [] = pure tt
  bury kind (e ∷ batch) = do
    t ← get_time e.timestamp
    modify (bury_one (key_of kind e t) e)
    bury kind batch

  unfoldable pub flush_click : List (Event M) → Exec (Processor client M) Unit
  unfolding save_batch_to_database bury
  flush_click [] = pure tt
  flush_click (e ∷ es) =
      try_catch (save_batch_to_database max_retries (e ∷ es)) (λ _. bury click (e ∷ es))

  unfoldable pub flush_click_buffer : Exec (Processor client M) Unit
  unfolding flush_click
  flush_click_buffer = do
    batch ← gets (λ p. take batch_size p.click_buffer)
    modify (λ p. record p { click_buffer = drop batch_size p.click_buffer })
    flush_click batch

  unfoldable pub flush_analytics : List (Event M) → Exec (Processor client M) Unit
  unfolding save_analytics_batch bury
  flush_analytics [] = pure tt
  flush_analytics (e ∷ es) =
      try_catch (save_analytics_batch max_retries (e ∷ es)) (λ _. bury analytics (e ∷ es))

  unfoldable pub flush_analytics_buffer : Exec (Processor client M) Unit
  unfolding flush_analytics
  flush_analytics_buffer = do
    batch ← gets (λ p. take batch_size p.analytics_buffer)
    modify (λ p. record p { analytics_buffer = drop batch_size p.analytics_buffer })
    flush_analytics batch

  unfoldable pub process_click_event : Event M → Exec (Processor client M) Unit
  unfolding flush_click_buffer
  process_click_event e = do
    modify (λ p. record p { click_buffer = p.click_buffer ++ e ∷ [] })
    p ← gets (λ p. p)
    if leb batch_size (length p.click_buffer) then flush_click_buffer else pure tt

  -- `enrich` is `enrichAnalyticsData`
  unfoldable pub process_analytics_event :
      (Event M → Event M) → Event M → Exec (Processor client M) Unit
  unfolding flush_analytics_buffer
  process_analytics_event enrich e = do
    modify (λ p. record p { analytics_buffer = p.analytics_buffer ++ e ∷ [] })
    modify (λ p. record p { analytics_buffer = p.analytics_buffer ++ enrich e ∷ [] })
    p ← gets (λ p. p)
    if leb batch_size (length p.analytics_buffer) then flush_analytics_buffer else pure tt
