-- ===== src/Kafka/Admin.antt =====
-- modules/kafka/kafka-admin.service.ts: `ensureTopicsExist`; modules/kafka/kafka-consumer.service.ts:
-- `onModuleInit`. The cluster is a parameter; a wait is counted in milliseconds.
use dist_link.Base.{
  ℕ, zero, suc, ◌+◌, String, ◌≡◌, Bool, true, false, not, ◌||◌, List, [], ◌∷◌, has, keep,
  if◌then◌else◌,
}
use dist_link.Base.Exec.{generic, ok, err, Exec, pure, try_catch, ◌>>=◌, ◌>>◌}
use dist_link.Base.Faults.{next_fails, later}

-- The topics of a cluster: `createTopics` adds the topics that it is given, and takes none away.
pub record Cluster : Type 1 where
  pub State : Type 0
  pub topics : State → List String
  pub create : State → List String → State
  pub has-create :
      (s : State) (names : List String) (t : String)
      → has (topics (create s names)) t ≡ (has (topics s) t || has names t)

-- `kafka.topics`
pub record Topics : Type 0 where
  pub url_clicks : String
  pub url_analytics : String
  pub url_errors : String

abbrev pub topic_list : Topics → List String
topic_list t = t.url_clicks ∷ t.url_analytics ∷ t.url_errors ∷ []

pub record Admin (cluster : Cluster) : Type 0 where
  pub state : cluster.State
  -- the milliseconds that the service has waited
  pub waited : ℕ
  pub faults : List Bool

-- `retries === 0`
abbrev pub is_over : ℕ → Bool
is_over zero = true
is_over (suc retries) = false

abbrev pub is_empty : List String → Bool
is_empty [] = true
is_empty (t ∷ ts) = false

abbrev pub missing : List String → List String → List String
missing existing names = keep (λ t. not (has existing t)) names

module _ {cluster : Cluster} where
  -- A call of the client of Kafka.
  unfoldable pub call : (Admin cluster → Admin cluster) → Exec (Admin cluster) Unit
  call f a =
      if next_fails a.faults
      then (err generic, record a { faults = later a.faults })
      else (ok tt, record (f a) { faults = later a.faults })

  abbrev pub wait : ℕ → Exec (Admin cluster) Unit
  wait n a = (ok tt, record a { waited = a.waited + n })

  abbrev pub connect_once : Exec (Admin cluster) Unit
  connect_once = call (λ a. a)

  -- The loop of the connection, by the retries that are left: whether it is there at the end. `pause`
  -- and `set_up` are those of the service.
  unfoldable pub connect :
      (pause : ℕ) → (set_up : Exec (Admin cluster) Unit) → (retries : ℕ) → Exec (Admin cluster) Bool
  unfolding call
  connect pause set_up zero = pure false
  connect pause set_up (suc left) =
      let again = connect pause set_up left in
      try_catch (do connect_once; set_up; pure true)
        (λ _. if is_over left then pure false else (do wait pause; again))

  abbrev pub create_missing : List String → Exec (Admin cluster) Unit
  create_missing names =
      if is_empty names
      then pure tt
      else call (λ a. record a { state = cluster.create a.state names })

  abbrev pub list_topics : Exec (Admin cluster) (List String)
  list_topics = do call (λ a. a); λ a. (ok (cluster.topics a.state), a)

  abbrev pub disconnect : Exec (Admin cluster) Unit
  disconnect = call (λ a. a)

  -- The catch, whose own failure is ignored.
  abbrev pub give_up : Exec (Admin cluster) Bool
  give_up = do try_catch disconnect (λ _. pure tt); pure false

  abbrev pub make_topics : List String → Exec (Admin cluster) Bool
  make_topics names =
      try_catch
        (do existing ← list_topics; create_missing (missing existing names); disconnect; pure true)
        (λ _. give_up)

  unfoldable pub ensure_topics_exist : Topics → Exec (Admin cluster) Bool
  unfolding connect call
  ensure_topics_exist topics = do
    connected ← connect 2000 (pure tt) 5
    if connected then make_topics (topic_list topics) else pure false

  -- `setupSubscriptions`: two subscriptions, and the start of the handler.
  unfoldable pub set_up_subscriptions : Exec (Admin cluster) Unit
  unfolding call
  set_up_subscriptions = do call (λ a. a); call (λ a. a); call (λ a. a)

  -- `KafkaConsumerService.onModuleInit`: whether the consumer is there at the end.
  unfoldable pub connect_consumer : Exec (Admin cluster) Bool
  unfolding connect set_up_subscriptions
  connect_consumer = connect 3000 set_up_subscriptions 3

  -- `KafkaConsumerService.onModuleDestroy`
  unfoldable pub disconnect_consumer : Exec (Admin cluster) Unit
  unfolding call
  disconnect_consumer = call (λ a. a)
