-- ===== src/Tests/Topics.antt =====
-- The theorems on the start with Kafka, over a cluster that is a list of topics.
use dist_link.Base.{◌≤◌, String, ◌≡◌, refl, true, ◌||◌, List, [], ◌∷◌, ◌++◌, has, arith}
use dist_link.Base.Exec.{ok}
use dist_link.Kafka.Admin.{Cluster, Topics, Admin, ensure_topics_exist}
use dist_link.Kafka.Provision.{IsMaking, ensure_topics_exist-IsMaking}

pub has-append : (xs ys : List String) (t : String) → has (xs ++ ys) t ≡ (has xs t || has ys t)
has-append [] ys t = refl
has-append (x ∷ xs) ys t = ground (arith, has-append xs ys t)

abbrev cluster : Cluster
cluster = record {
  State = List String;
  topics = λ s. s;
  create = λ s names. s ++ names;
  has-create = has-append;
}

abbrev topics : Topics
topics = record { url_clicks = "clicks"; url_analytics = "analytics"; url_errors = "errors" }

-- The first two attempts to connect fail.
abbrev starting : Admin cluster
starting = record { state = "clicks" ∷ "other" ∷ []; waited = 0; faults = true ∷ true ∷ [] }

topics_test :
    ((ensure_topics_exist topics starting).0 ≡ ok true)
    × ((ensure_topics_exist topics starting).1.state
        ≡ "clicks" ∷ "other" ∷ "analytics" ∷ "errors" ∷ [])
    × ((ensure_topics_exist topics starting).1.waited ≡ 4000)
unfolding ensure_topics_exist
topics_test = (refl, refl, refl)

ensure_topics_exist-IsMaking_example :
    IsMaking topics "other" starting (ensure_topics_exist topics starting)
    × ((ensure_topics_exist topics starting).1.waited ≤ 8000)
ensure_topics_exist-IsMaking_example = ensure_topics_exist-IsMaking topics "other" starting
