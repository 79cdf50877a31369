-- ===== src/Tests/Counters.antt =====
-- The counters of the service after a few calls.
use dist_link.Base.{◌≡◌, refl, none, some, [], ◌∷◌}
use dist_link.Base.Dict.{get, put}
use dist_link.Metrics.{setup_metrics, increments}

-- The counter `clicks_received`, which the click processor increments, was not created.
counters_test :
    (get
        (increments (("clicks_received", 1) ∷ ("kafka_errors", 2) ∷ []) setup_metrics).counters
        "clicks_received"
      ≡ none)
    × (get
          (increments (("clicks_received", 1) ∷ ("kafka_errors", 2) ∷ []) setup_metrics).counters
          "kafka_errors"
        ≡ some 2)
unfolding increments setup_metrics get put
counters_test = (refl, refl)
