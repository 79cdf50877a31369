-- ===== src/Clicks/Rounds.antt =====
-- What the flushes do to the clicks that wait, when no statement fails.
use dist_link.Base.{
  ℕ, zero, suc, ◌+◌, String, ◌≡◌, refl, sym, ap, List, [], ◌∷◌, ◌++◌, keep, length, take, drop, leb,
  arith, Bool-cases, inl, inr,
}
use dist_link.Base.Exec.{Result, ok, try_catch-ok}
use dist_link.Urls.Types.{Database}
use dist_link.Clicks.Events.{Event, click}
use dist_link.Clicks.Processor.{
  Processor, batch_size, max_retries, bury, save_batch_to_database, flush_click, flush_click_buffer,
  process_click_event, flush_analytics, flush_analytics_buffer, process_analytics_event,
  save_analytics_batch, run_analytics_batch,
}
use dist_link.Clicks.Counting.{
  counter, calm, clicks_of, clicks_of-append, save_batch-faults, save_batch_exact,
}
use dist_link.Clicks.Buffers.{
  save-Leaves, add_clicks-dead_letters, flush_click_buffer-buffer, flush_counts_exactly,
}
use dist_link.Clicks.DeadLetters.{may_retry, events_of}

module _ {M : Type 0} where
  clicks_of-take-drop :
      (code : String) (n : ℕ) (xs : List (Event M))
      → clicks_of code (take n xs) + clicks_of code (drop n xs) ≡ clicks_of code xs
  clicks_of-take-drop code zero xs = omega arith
  clicks_of-take-drop code (suc n) [] = omega arith
  clicks_of-take-drop code (suc n) (e ∷ xs) = omega (arith, clicks_of-take-drop code n xs)

module _ {client : Database} {M : Type 0} where
  -- No statement fails from here on.
  abbrev pub IsCalm : Processor client M → Type 0
  IsCalm p = p.faults ≡ []

  pub calm-id : (p : Processor client M) → IsCalm p → calm p ≡ p
  calm-id p h = ap (λ f. record p { faults = f }) (sym h)

  -- The clicks of a code: counted, in the buffer, and in the dead letters that are still retried.
  abbrev pub stock : Processor client M → String → ℕ
  stock p code =
      counter p code
      + clicks_of code p.click_buffer
      + clicks_of code (events_of click (keep may_retry p.dead_letters))

  -- The flush of the clicks changes neither the script nor the dead letters.
  flush_click-rest :
      (batch : List (Event M)) (p : Processor client M)
      → IsCalm (flush_click batch (calm p)).1
        × ((flush_click batch (calm p)).1.dead_letters ≡ p.dead_letters)
  flush_click-rest [] p = unfold flush_click in (refl, refl)
  flush_click-rest (e ∷ es) p =
      let save = save_batch_to_database {client = client} max_retries (e ∷ es) in
      let (done, exact) = save_batch_exact max_retries (e ∷ es) p "" in
      unfold flush_click in
      rw (try_catch-ok save (λ _. bury click (e ∷ es)) (calm p) tt done) (
        save_batch-faults max_retries (e ∷ es) p,
        save-Leaves (λ q. q.dead_letters) add_clicks-dead_letters max_retries (e ∷ es) (calm p),
      )

  abbrev pub Settles :
      Processor client M → List (Event M) → Result (Unit {0}) × Processor client M → Type 0
  Settles p received r =
      (r.0 ≡ ok tt)
      × IsCalm r.1
      × ((code : String) → stock r.1 code ≡ stock p code + clicks_of code received)

  flush_click_buffer-rest :
      (p : Processor client M)
      → IsCalm (flush_click_buffer (calm p)).1
        × ((flush_click_buffer (calm p)).1.dead_letters ≡ p.dead_letters)
  unfolding flush_click_buffer
  flush_click_buffer-rest p =
      flush_click-rest (take batch_size p.click_buffer)
        (record p { click_buffer = drop batch_size p.click_buffer })

  flush_click_buffer-calm : (p : Processor client M) → Settles p [] (flush_click_buffer (calm p))
  flush_click_buffer-calm p =
      let (quiet, same) = flush_click_buffer-rest p in
      let (done, _) = flush_counts_exactly p "" in
      let left = flush_click_buffer-buffer (calm p) in
      (
        done,
        quiet,
        λ code.
            let (_, exact) = flush_counts_exactly p code in
            rw (left, same)
              (omega (arith, exact, clicks_of-take-drop code batch_size p.click_buffer)),
      )

  pub flush_click_buffer-Settles :
      (p : Processor client M)
      → IsCalm p
      → Settles p [] (flush_click_buffer p)
        × ((flush_click_buffer p).1.click_buffer ≡ drop batch_size p.click_buffer)
  flush_click_buffer-Settles p h =
      (rw (calm-id p h) at (flush_click_buffer-calm p), flush_click_buffer-buffer p)

  -- The flush of the analytics leaves the clicks.
  abbrev pub Untouched : Processor client M → Result (Unit {0}) × Processor client M → Type 0
  Untouched p r =
      (r.0 ≡ ok tt)
      × IsCalm r.1
      × (r.1.db ≡ p.db)
      × (r.1.click_buffer ≡ p.click_buffer)
      × (r.1.dead_letters ≡ p.dead_letters)

  flush_analytics-Untouched :
      (batch : List (Event M)) (p : Processor client M)
      → IsCalm p
      → Untouched p (flush_analytics batch p)
  unfolding flush_analytics save_analytics_batch run_analytics_batch
  flush_analytics-Untouched [] p h = (refl, h, refl, refl, refl)
  flush_analytics-Untouched (e ∷ es) p h = rw h (refl, refl, refl, refl, refl)

  pub flush_analytics_buffer-Untouched :
      (p : Processor client M) → IsCalm p → Untouched p (flush_analytics_buffer p)
  unfolding flush_analytics_buffer
  flush_analytics_buffer-Untouched p h =
      flush_analytics-Untouched (take batch_size p.analytics_buffer)
        (record p { analytics_buffer = drop batch_size p.analytics_buffer }) h

  pub Untouched-Settles :
      (p : Processor client M) (r : Result (Unit {0}) × Processor client M)
      → Untouched p r
      → Settles p [] r
  Untouched-Settles p r (done, quiet, db, buffer, dead) =
      (done, quiet, λ code. rw (db, buffer, dead) (omega arith))

  pub process_click_event-Settles :
      (e : Event M) (p : Processor client M)
      → IsCalm p
      → Settles p (e ∷ []) (process_click_event e p)
  process_click_event-Settles e p h =
      let q = record p { click_buffer = p.click_buffer ++ e ∷ [] } in
      let ((done, quiet, exact), left) = flush_click_buffer-Settles q h in
      elim (Bool-cases (leb batch_size (length (p.click_buffer ++ e ∷ [])))) [
        | inl full ↦
            unfold process_click_event in
            rw full (
              done,
              quiet,
              λ code. omega (arith, exact code, clicks_of-append code p.click_buffer (e ∷ [])),
            )
        | inr room ↦
            unfold process_click_event in
            rw room (refl, h, λ code. omega (arith, clicks_of-append code p.click_buffer (e ∷ [])))
      ]

  pub process_analytics_event-Settles :
      (enrich : Event M → Event M) (e : Event M) (p : Processor client M)
      → IsCalm p
      → Settles p [] (process_analytics_event enrich e p)
        × ((process_analytics_event enrich e p).1.click_buffer ≡ p.click_buffer)
  process_analytics_event-Settles enrich e p h =
      let q = record p { analytics_buffer = (p.analytics_buffer ++ e ∷ []) ++ enrich e ∷ [] } in
      let flushed = flush_analytics_buffer-Untouched q h in
      elim (Bool-cases
        (leb batch_size (length ((p.analytics_buffer ++ e ∷ []) ++ enrich e ∷ [])))) [
          | inl full ↦
              unfold process_analytics_event in
              rw full (Untouched-Settles q (flush_analytics_buffer q) flushed, flushed.3)
          | inr room ↦
              unfold process_analytics_event in rw room ((refl, h, λ code. omega arith), refl)
        ]
