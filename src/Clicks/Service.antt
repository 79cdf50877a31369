-- ===== src/Clicks/Service.antt =====
-- modules/clicks/click-processor.service.ts: the life of `ClickProcessorService`, from its constructor to
-- `onModuleDestroy`. The timer fires between the messages.
use dist_link.Base.{Bool, true, false, List, [], ◌∷◌}
use dist_link.Base.Exec.{Exec, pure, modify, zoom, ◌>>◌}
use dist_link.Urls.Types.{Database}
use dist_link.Clicks.Events.{Event}
use dist_link.Clicks.Processor.{Processor, process_click_event, process_analytics_event}
use dist_link.Clicks.DeadLetters.{flush_all_buffers}

pub record Service (client : Database) (M : Type 0) : Type 0 where
  pub processor : Processor client M
  -- whether `processingInterval` is set
  pub timer : Bool

pub data Action (M : Type 0) : Type 0 where
  receive_click : Event M → Action M
  receive_analytics : Event M → Action M
  interval : Action M
  destroy : Action M

module _ {client : Database} {M : Type 0} where
  abbrev pub in_service : Exec (Processor client M) Unit → Exec (Service client M) Unit
  in_service = zoom (λ s. s.processor) (λ p s. record s { processor = p })

  -- The constructor starts the periodic flush.
  abbrev pub constructed : Processor client M → Service client M
  constructed p = record { processor = p; timer = true }

  unfoldable pub on_module_destroy : Exec (Service client M) Unit
  unfolding flush_all_buffers
  on_module_destroy = do modify (λ s. record s { timer = false }); in_service flush_all_buffers

  -- `startPeriodicFlush`: what its interval calls, while it is set
  abbrev pub if_set : Bool → Exec (Service client M) Unit → Exec (Service client M) Unit
  if_set true m = m
  if_set false m = pure tt

  unfoldable pub periodic_flush : Exec (Service client M) Unit
  unfolding flush_all_buffers
  periodic_flush s = if_set s.timer (in_service flush_all_buffers) s

  module _ (enrich : Event M → Event M) where
    unfoldable pub perform : Action M → Exec (Service client M) Unit
    unfolding process_click_event process_analytics_event on_module_destroy periodic_flush
    perform (receive_click e) = in_service (process_click_event e)
    perform (receive_analytics e) = in_service (process_analytics_event enrich e)
    perform interval = periodic_flush
    perform destroy = on_module_destroy

    unfoldable pub run_actions : List (Action M) → Service client M → Service client M
    unfolding perform
    run_actions [] s = s
    run_actions (a ∷ actions) s = run_actions actions (perform a s).1
