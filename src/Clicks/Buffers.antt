-- ===== src/Clicks/Buffers.antt =====
-- The buffers: their bound, what a flush leaves, and what goes wrong in a failing flush.
use dist_link.Base.{
  ℕ, zero, suc, ◌+◌, ◌<◌, String, ◌≡◌, refl, inl, inr, false, List, [], ◌∷◌, ◌++◌, map, arith,
  length, take, drop, leb, Bool-cases, length-append, length-drop, take-all, drop-all,
}
use dist_link.Base.Frame.{Leaves, bind-Leaves, try_catch-Leaves, promise_all-Leaves}
use dist_link.Base.Exec.{
  modify, ◌>>◌, Error, generic, ok, err, promise_all, try_catch-ok, try_catch-err,
}
use dist_link.Urls.Types.{Database, Stamp, date, iso}
use dist_link.Clicks.Events.{Event, Key, Kind, click, click_counts}
use dist_link.Clicks.Processor.{
  Processor, batch_size, bury, save_batch_to_database, flush_click, flush_click_buffer,
  process_click_event, bury_one, get_time, key_of, process_analytics_event, add_clicks, max_retries,
}
use dist_link.Clicks.Counting.{counter, calm, clicks_of, save_batch_exact}

module _ {client : Database} {M : Type 0} where
  get_time-Leaves :
      {X : Type 0} (f : Processor client M → X) (t : Stamp) → Leaves f (get_time {M = M} t)
  get_time-Leaves f (date t) p = refl
  get_time-Leaves f (iso t) p = refl

  -- A save and a burial change none of what `f` reads, if single updates and letters do not.
  module _ {X : Type 0} (f : Processor client M → X) where
    save_step-Leaves :
        (retries : ℕ) (batch : List (Event M))
        → Leaves f (promise_all (map add_clicks (click_counts [] batch)))
        → Leaves f (save_batch_to_database {client = client} retries batch)
        → Leaves f (save_batch_to_database {client = client} (suc retries) batch)
    unfolding save_batch_to_database
    save_step-Leaves retries batch once ih =
        try_catch-Leaves f (promise_all (map add_clicks (click_counts [] batch)))
          (λ _. save_batch_to_database retries batch) once (λ _. ih)

    pub save-Leaves :
        ((u : String × ℕ) → Leaves f (add_clicks {M = M} u))
        → (retries : ℕ) (batch : List (Event M))
        → Leaves f (save_batch_to_database {client = client} retries batch)
    save-Leaves h zero batch =
        unfold save_batch_to_database in promise_all-Leaves f add_clicks (click_counts [] batch) h
    save-Leaves h (suc retries) batch =
        save_step-Leaves retries batch (promise_all-Leaves f add_clicks (click_counts [] batch) h)
          (save-Leaves h retries batch)

    bury_step-Leaves :
        ((k : Key) (e : Event M) (p : Processor client M) → f (bury_one k e p) ≡ f p)
        → (kind : Kind) (e : Event M) (batch : List (Event M))
        → Leaves f (bury {client = client} kind batch)
        → Leaves f (bury {client = client} kind (e ∷ batch))
    unfolding bury
    bury_step-Leaves h kind e batch ih =
        bind-Leaves f (get_time e.timestamp)
          (λ t. modify (bury_one (key_of kind e t) e) >> bury kind batch)
          (get_time-Leaves f e.timestamp)
          (λ t.
            bind-Leaves f (modify (bury_one (key_of kind e t) e)) (λ _. bury kind batch)
              (λ p. h (key_of kind e t) e p) (λ _. ih))

    pub bury-Leaves :
        ((k : Key) (e : Event M) (p : Processor client M) → f (bury_one k e p) ≡ f p)
        → (kind : Kind) (batch : List (Event M)) → Leaves f (bury {client = client} kind batch)
    bury-Leaves h kind [] = unfold bury in λ p. refl
    bury-Leaves h kind (e ∷ batch) = bury_step-Leaves h kind e batch (bury-Leaves h kind batch)

  pub add_clicks-click_buffer :
      (u : String × ℕ) → Leaves (λ p. p.click_buffer) (add_clicks {client = client} {M = M} u)
  unfolding add_clicks
  add_clicks-click_buffer (c, n) p = ground arith

  pub flush-click_buffer :
      (batch : List (Event M)) → Leaves (λ p. p.click_buffer) (flush_click {client = client} batch)
  flush-click_buffer [] p = unfold flush_click in refl
  flush-click_buffer (e ∷ es) p =
      unfold flush_click in
      try_catch-Leaves (λ (q : Processor client M). q.click_buffer)
        (save_batch_to_database max_retries (e ∷ es)) (λ _. bury click (e ∷ es))
        (save-Leaves (λ q. q.click_buffer) add_clicks-click_buffer max_retries (e ∷ es))
        (λ _. bury-Leaves (λ q. q.click_buffer) (λ k e' q. refl) click (e ∷ es)) p

  pub flush_click-calm :
      (batch : List (Event M)) (p : Processor client M) (code : String)
      → ((flush_click batch (calm p)).0 ≡ ok tt)
        × (counter (flush_click batch (calm p)).1 code ≡ counter p code + clicks_of code batch)
  flush_click-calm [] p code = unfold flush_click in (refl, omega arith)
  flush_click-calm (e ∷ es) p code =
      let (done, exact) = save_batch_exact max_retries (e ∷ es) p code in
      unfold flush_click in
      rw
        (try_catch-ok (save_batch_to_database max_retries (e ∷ es)) (λ _. bury click (e ∷ es))
          (calm p) tt done)
        (done, exact)

  pub add_clicks-dead_letters :
      (u : String × ℕ) → Leaves (λ p. p.dead_letters) (add_clicks {client = client} {M = M} u)
  unfolding add_clicks
  add_clicks-dead_letters (c, n) p = ground arith

  pub add_clicks-reported :
      (u : String × ℕ) → Leaves (λ p. p.reported) (add_clicks {client = client} {M = M} u)
  unfolding add_clicks
  add_clicks-reported (c, n) p = ground arith

  flush_click-text :
      (e : Event M) (es : List (Event M)) (t : ℕ) (x : Error) (q : Processor client M)
      → e.timestamp ≡ iso t
      → (save_batch_to_database max_retries (e ∷ es) q).0 ≡ err x
      → flush_click (e ∷ es) q ≡ (err generic, (save_batch_to_database max_retries (e ∷ es) q).1)
  flush_click-text e es t x q text fails =
      unfold flush_click in
      rw
        (try_catch-err (save_batch_to_database max_retries (e ∷ es)) (λ _. bury click (e ∷ es)) q x
          fails)
        (unfold bury in rw text)

  -- A flush takes the first hundred events out of the buffer, whether they are saved or not.
  pub flush_click_buffer-buffer :
      (p : Processor client M)
      → (flush_click_buffer p).1.click_buffer ≡ drop batch_size p.click_buffer
  flush_click_buffer-buffer p =
      unfold flush_click_buffer in
      flush-click_buffer (take batch_size p.click_buffer)
        (record p { click_buffer = drop batch_size p.click_buffer })

  -- The buffer of clicks stays below its bound of a hundred events, whatever calls fail: an event
  -- that fills it starts a flush, which empties it.
  pub click_buffer-bounded :
      (e : Event M) (p : Processor client M)
      → length p.click_buffer < batch_size
      → length (process_click_event e p).1.click_buffer < batch_size
  click_buffer-bounded e p h =
      let q = record p { click_buffer = p.click_buffer ++ e ∷ [] } in
      let size = length-append p.click_buffer (e ∷ []) in
      elim (Bool-cases (leb batch_size (length (p.click_buffer ++ e ∷ [])))) [
        | inl full ↦
            unfold process_click_event in
            rw full (
              rw (flush_click_buffer-buffer q)
                (omega (arith, length-drop batch_size (p.click_buffer ++ e ∷ []), size)))
        | inr room ↦ unfold process_click_event in rw room (ground (arith, size))
      ]

  -- When no statement fails, a flush of the clicks returns, and counts each of the events that it
  -- takes out of the buffer once.
  pub flush_counts_exactly :
      (p : Processor client M) (code : String)
      → ((flush_click_buffer (calm p)).0 ≡ ok tt)
        × (counter (flush_click_buffer (calm p)).1 code
            ≡ counter p code + clicks_of code (take batch_size p.click_buffer))
  flush_counts_exactly p code =
      unfold flush_click_buffer in
      flush_click-calm (take batch_size p.click_buffer)
        (record p { click_buffer = drop batch_size p.click_buffer }) code

  -- An analytics event that does not fill its buffer is put there twice: as it came, and enriched.
  analytics_event_twice :
      (enrich : Event M → Event M) (e : Event M) (p : Processor client M)
      → length p.analytics_buffer + 2 < batch_size
      → process_analytics_event enrich e p
        ≡ (ok tt, record p { analytics_buffer = (p.analytics_buffer ++ e ∷ []) ++ enrich e ∷ [] })
  analytics_event_twice enrich e p room =
      let size : length ((p.analytics_buffer ++ e ∷ []) ++ enrich e ∷ []) < batch_size = omega (
        arith,
        length-append (p.analytics_buffer ++ e ∷ []) (enrich e ∷ []),
        length-append p.analytics_buffer (e ∷ []),
      ) in
      let open_buffer : leb batch_size (length ((p.analytics_buffer ++ e ∷ []) ++ enrich e ∷ []))
          ≡ false =
        ground arith in
      unfold process_analytics_event in rw open_buffer

  -- A flush of a buffer of at most a hundred events, the first of which has its time as a text, as the
  -- events that come over Kafka have: when the save fails, the flush throws, the buffer is empty, and the
  -- dead letter queue is as it was.
  pub text_time_loses_batch :
      (e : Event M) (es : List (Event M)) (t : ℕ) (x : Error) (p : Processor client M)
      → e.timestamp ≡ iso t
      → p.click_buffer ≡ e ∷ es
      → length es < batch_size
      → (save_batch_to_database max_retries (e ∷ es) (record p { click_buffer = [] })).0 ≡ err x
      → ((flush_click_buffer p).0 ≡ err generic)
        × ((flush_click_buffer p).1.click_buffer ≡ [])
        × ((flush_click_buffer p).1.dead_letters ≡ p.dead_letters)
  text_time_loses_batch e es t x p text full fits fails =
      let q = record p { click_buffer = [] } in
      let taken : take batch_size p.click_buffer ≡ e ∷ es =
        rw full (take-all batch_size (e ∷ es) fits) in
      let left : drop batch_size p.click_buffer ≡ [] =
        rw full (drop-all batch_size (e ∷ es) fits) in
      let dead = flush_click-text e es t x q text fails in
      unfold flush_click_buffer in
      rw (taken, left, dead)
        (
          refl,
          save-Leaves (λ r. r.click_buffer) add_clicks-click_buffer max_retries (e ∷ es) q,
          save-Leaves (λ r. r.dead_letters) add_clicks-dead_letters max_retries (e ∷ es) q,
        )
