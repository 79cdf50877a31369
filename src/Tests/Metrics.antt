-- ===== src/Tests/Metrics.antt =====
-- The theorems on the processing of click events, over the tables of the stores.
use dist_link.Base.{ℕ, String, ◌≡◌, refl, ◌+◌, ◌≤◌, arith, true, false, List, [], ◌∷◌}
use dist_link.Base.Dict.{get, put}
use dist_link.Base.Exec.{ok, err, generic}
use dist_link.Urls.Types.{date, iso}
use dist_link.Clicks.Rounds.{stock}
use dist_link.Clicks.Service.{
  Action, receive_click, receive_analytics, interval, constructed, run_actions, on_module_destroy,
}
use dist_link.Clicks.History.{IsSteady, received, run_actions-stock, shutdown_counts_all}
use dist_link.Clicks.Events.{Event, Key, Letter, click, analytics}
use dist_link.Clicks.Processor.{Processor, save_batch_to_database, flush_click_buffer}
use dist_link.Clicks.Counting.{counter, clicks_of, save_batch_complete}
use dist_link.Clicks.Buffers.{text_time_loses_batch}
use dist_link.Tests.Stores.{tables}

-- An event with the address of its client.
abbrev click_on : String → Event String
click_on code = record { short_code = code; timestamp = date 5; metadata = "10.0.0.1" }

abbrev idle : Processor tables String
idle = record {
  db = record { rows = []; counts = ("a", 4) ∷ [] };
  saved_analytics = [];
  click_buffer = [];
  analytics_buffer = [];
  dead_letters = [];
  reported = [];
  faults = [];
}

abbrev three_clicks : List (Event String)
three_clicks = click_on "a" ∷ click_on "b" ∷ click_on "a" ∷ []

-- The update of the second code fails, and both are sent again.
abbrev shaky : Processor tables String
shaky = record idle { faults = false ∷ true ∷ [] }

shaky_saves : (save_batch_to_database 3 three_clicks shaky).0 ≡ ok tt
unfolding save_batch_to_database put
shaky_saves = refl

-- The clicks of the first code are counted twice: 4 + 2 + 2.
shaky_counts : counter (save_batch_to_database 3 three_clicks shaky).1 "a" ≡ 8
unfolding save_batch_to_database get put
shaky_counts = refl

save_batch_complete_example :
    counter shaky "a" + clicks_of "a" three_clicks
    ≤ counter (save_batch_to_database 3 three_clicks shaky).1 "a"
save_batch_complete_example = save_batch_complete 3 three_clicks shaky "a" shaky_saves

abbrev waiting : Processor tables String
waiting = record idle { click_buffer = three_clicks }

-- The buffer has three clicks, and every try of the save fails.
abbrev outage : Processor tables String
outage = record idle {
  click_buffer = three_clicks;
  faults = true ∷ true ∷ true ∷ true ∷ true ∷ true ∷ true ∷ true ∷ [];
}

-- A click that came over Kafka, in a buffer whose save fails.
abbrev kafka_click : Event String
kafka_click = record { short_code = "a"; timestamp = iso 5; metadata = "10.0.0.1" }

abbrev doomed : Processor tables String
doomed = record outage { click_buffer = kafka_click ∷ [] }

doomed_fails :
    (save_batch_to_database 3 (kafka_click ∷ []) (record doomed { click_buffer = [] })).0
    ≡ err generic
unfolding save_batch_to_database put
doomed_fails = refl

text_time_loses_batch_example :
    ((flush_click_buffer doomed).0 ≡ err generic)
    × ((flush_click_buffer doomed).1.click_buffer ≡ [])
    × ((flush_click_buffer doomed).1.dead_letters ≡ [])
text_time_loses_batch_example =
    text_time_loses_batch kafka_click [] 5 generic doomed refl refl (omega arith) doomed_fails

-- A click that failed once, an analytics event that failed twice, and a click that failed three times.
abbrev key_on : String → Key
key_on code = record { kind = click; short_code = code; time = 5 }

abbrev tried : String → ℕ → Letter String
tried code n = record { event = click_on code; failures = n }

abbrev backlog : Processor tables String
backlog = record idle {
  dead_letters =
      (key_on "a", tried "a" 1)
      ∷ (record (key_on "b") { kind = analytics }, tried "b" 2)
      ∷ (key_on "c", tried "c" 3)
      ∷ [];
}

waiting-IsSteady : IsSteady waiting
waiting-IsSteady = record { calm = refl; bounded = omega arith }

-- Two messages of clicks with a flush by the timer between them, and an analytics event.
abbrev busy_day : List (Action String)
busy_day =
    receive_click (click_on "a")
    ∷ receive_analytics (click_on "a")
    ∷ interval
    ∷ receive_click (click_on "b")
    ∷ []

run_actions-stock_example :
    IsSteady (run_actions (λ e. e) busy_day (constructed waiting)).processor
    × ((code : String)
        → stock (run_actions (λ e. e) busy_day (constructed waiting)).processor code
          ≡ stock waiting code + clicks_of code (received busy_day))
run_actions-stock_example =
    run_actions-stock (λ e. e) busy_day (constructed waiting) waiting-IsSteady

shutdown_counts_all_example :
    ((on_module_destroy (run_actions (λ e. e) busy_day (constructed waiting))).0 ≡ ok tt)
    × ((on_module_destroy (run_actions (λ e. e) busy_day (constructed waiting))).1.timer ≡ false)
    × ((on_module_destroy
          (run_actions (λ e. e) busy_day (constructed waiting))).1.processor.click_buffer
        ≡ [])
    × ((on_module_destroy
          (run_actions (λ e. e) busy_day (constructed waiting))).1.processor.dead_letters
        ≡ [])
    × ((code : String)
        → counter
            (on_module_destroy (run_actions (λ e. e) busy_day (constructed waiting))).1.processor
            code
          ≡ stock waiting code + clicks_of code (received busy_day))
shutdown_counts_all_example =
    shutdown_counts_all (λ e. e) busy_day (constructed waiting) waiting-IsSteady
