-- ===== src/Clicks/History.antt =====
-- modules/clicks/click-processor.service.ts: any history of messages, timer ticks and shutdowns.
use dist_link.Base.{
  ◌+◌, ◌<◌, String, ◌≡◌, refl, ◌∙◌, Bool, true, false, List, [], ◌∷◌, length, drop, arith, drop-all,
}
use dist_link.Base.Exec.{ok}
use dist_link.Urls.Types.{Database}
use dist_link.Clicks.Events.{Event}
use dist_link.Clicks.Processor.{Processor, batch_size}
use dist_link.Clicks.Counting.{counter, clicks_of}
use dist_link.Clicks.Buffers.{click_buffer-bounded}
use dist_link.Clicks.DeadLetters.{flush_all_buffers}
use dist_link.Clicks.Rounds.{
  IsCalm, stock, process_click_event-Settles, process_analytics_event-Settles,
}
use dist_link.Clicks.Drains.{flush_all_buffers-Settles}
use dist_link.Clicks.Service.{
  Service, Action, receive_click, receive_analytics, interval, destroy, perform, if_set, in_service,
  periodic_flush, on_module_destroy, run_actions,
}

module _ {M : Type 0} where
  drop_batch-bounded :
      (xs : List (Event M)) → length xs < batch_size → length (drop batch_size xs) < batch_size
  drop_batch-bounded xs h = rw (drop-all batch_size xs (omega arith)) (omega arith)

  -- The click events among the actions.
  abbrev pub received : List (Action M) → List (Event M)
  received [] = []
  received (receive_click e ∷ actions) = e ∷ received actions
  received (receive_analytics e ∷ actions) = received actions
  received (interval ∷ actions) = received actions
  received (destroy ∷ actions) = received actions

  abbrev gets_click : Action M → List (Event M)
  gets_click (receive_click e) = e ∷ []
  gets_click (receive_analytics e) = []
  gets_click interval = []
  gets_click destroy = []

  clicks_of-received :
      (code : String) (a : Action M) (actions : List (Action M))
      → clicks_of code (received (a ∷ actions))
        ≡ clicks_of code (gets_click a) + clicks_of code (received actions)
  clicks_of-received code (receive_click e) actions = omega arith
  clicks_of-received code (receive_analytics e) actions = omega arith
  clicks_of-received code interval actions = omega arith
  clicks_of-received code destroy actions = omega arith

module _ {client : Database} {M : Type 0} where
  -- No statement fails, and the buffer of clicks is below its bound.
  pub record IsSteady (p : Processor client M) : Type 0 where
    pub calm : IsCalm p
    pub bounded : length p.click_buffer < batch_size

  pub shutdown-empty :
      (s : Service client M)
      → IsSteady s.processor
      → ((on_module_destroy s).0 ≡ ok tt)
        × ((on_module_destroy s).1.timer ≡ false)
        × ((on_module_destroy s).1.processor.click_buffer ≡ [])
        × ((on_module_destroy s).1.processor.dead_letters ≡ [])
        × ((code : String)
            → counter (on_module_destroy s).1.processor code ≡ stock s.processor code)
  unfolding on_module_destroy
  shutdown-empty s h =
      let ((done, quiet, exact), empty, left) = flush_all_buffers-Settles s.processor h.calm in
      let gone : (flush_all_buffers s.processor).1.click_buffer ≡ [] =
        rw (left, drop-all batch_size s.processor.click_buffer (omega (arith, h.bounded))) refl in
      (
        done,
        refl,
        gone,
        empty,
        λ code.
            let total = exact code in
            let total' = rw (gone, empty) at total in omega (arith, total'),
      )

module _ {client : Database} {M : Type 0} (enrich : Event M → Event M) where
  -- What one action does to the clicks.
  abbrev Moves : Service client M → Action M → Service client M → Type 0
  Moves s a t =
      IsSteady t.processor
      × ((code : String)
          → stock t.processor code ≡ stock s.processor code + clicks_of code (gets_click a))

  flush-Moves :
      (p : Processor client M)
      → IsSteady p
      → IsSteady (flush_all_buffers p).1
        × ((code : String) → stock (flush_all_buffers p).1 code ≡ stock p code + 0)
  flush-Moves p h =
      let ((done, quiet, exact), empty, left) = flush_all_buffers-Settles p h.calm in
      (
        record { calm = quiet; bounded = rw left (drop_batch-bounded p.click_buffer h.bounded) },
        exact,
      )

  if_set-Moves :
      (b : Bool) (s : Service client M)
      → IsSteady s.processor
      → Moves s interval (if_set b (in_service flush_all_buffers) s).1
  if_set-Moves true s h = flush-Moves s.processor h
  if_set-Moves false s h = (h, λ code. omega arith)

  perform-Moves :
      (a : Action M) (s : Service client M)
      → IsSteady s.processor
      → Moves s a (perform enrich a s).1
  perform-Moves (receive_click e) s h =
      let (done, quiet, exact) = process_click_event-Settles e s.processor h.calm in
      unfold perform in
      (record { calm = quiet; bounded = click_buffer-bounded e s.processor h.bounded }, exact)
  perform-Moves (receive_analytics e) s h =
      let ((done, quiet, exact), same) =
        process_analytics_event-Settles enrich e s.processor h.calm in
      unfold perform in (record { calm = quiet; bounded = rw same h.bounded }, exact)
  perform-Moves interval s h = unfold perform periodic_flush in if_set-Moves s.timer s h
  perform-Moves destroy s h = unfold perform on_module_destroy in flush-Moves s.processor h

  -- However messages come, the timer fires and the service is shut down, no click is lost or counted
  -- twice while no statement fails: the clicks of each code that are counted, wait in the buffer or wait
  -- for a retry are those of the constructed and those received since.
  pub run_actions-stock :
      (actions : List (Action M)) (s : Service client M)
      → IsSteady s.processor
      → IsSteady (run_actions enrich actions s).processor
        × ((code : String)
            → stock (run_actions enrich actions s).processor code
              ≡ stock s.processor code + clicks_of code (received actions))
  unfolding run_actions
  run_actions-stock [] s h = (h, λ code. omega arith)
  run_actions-stock (a ∷ actions) s h =
      let (steady, step) = perform-Moves a s h in
      let (steady', rest) = run_actions-stock actions (perform enrich a s).1 steady in
      (steady', λ code. omega (arith, step code, rest code, clicks_of-received code a actions))

  -- A shutdown after any such history, with no failing statement, returns, stops the timer and leaves no
  -- click in the buffer and no dead letter: each click that was received is counted, once.
  pub shutdown_counts_all :
      (actions : List (Action M)) (s : Service client M)
      → IsSteady s.processor
      → ((on_module_destroy (run_actions enrich actions s)).0 ≡ ok tt)
        × ((on_module_destroy (run_actions enrich actions s)).1.timer ≡ false)
        × ((on_module_destroy (run_actions enrich actions s)).1.processor.click_buffer ≡ [])
        × ((on_module_destroy (run_actions enrich actions s)).1.processor.dead_letters ≡ [])
        × ((code : String)
            → counter (on_module_destroy (run_actions enrich actions s)).1.processor code
              ≡ stock s.processor code + clicks_of code (received actions))
  shutdown_counts_all actions s h =
      let (steady, total) = run_actions-stock actions s h in
      let (done, stopped, gone, empty, exact) =
        shutdown-empty (run_actions enrich actions s) steady in
      (done, stopped, gone, empty, λ code. exact code ∙ total code)
