-- ===== src/Kafka/Provision.antt =====
-- The start of the service with Kafka: it ends, and what it leaves in the cluster.
use dist_link.Base.{
  ◌+◌, ◌≤◌, String, ◌≡◌, refl, inl, inr, Bool, true, false, ◌||◌, List, [], ◌∷◌, All, ◌∙◌, has,
  eq_iff, eq_refl, sym, ap, Bool-cases, arith,
}
use dist_link.Base.Exec.{Result, ok, pure}
use dist_link.Base.Faults.{next_fails, later}
use dist_link.Kafka.Admin.{
  Cluster, Topics, topic_list, Admin, is_empty, missing, call, connect, give_up, make_topics,
  ensure_topics_exist,
}
use dist_link.Kafka.Connection.{IsIdle, connect-IsEnding}

has-missing :
    (existing names : List String) (t : String)
    → has names t ≡ true
    → (has existing t || has (missing existing names) t) ≡ true
has-missing existing [] t h = cc
has-missing existing (n ∷ names) t h = elim (Bool-cases (has names t)) [
  | inl later_on ↦ let ih = has-missing existing names t later_on in ground (arith, ih)
  | inr elsewhere ↦ ground (arith, eq_iff n t)
]

has-empty : (names : List String) (t : String) → is_empty names ≡ true → has names t ≡ false
has-empty [] t h = refl
has-empty (n ∷ names) t h = cc

asked_for :
    (topics : Topics)
    → (has (topic_list topics) topics.url_clicks ≡ true)
      × (has (topic_list topics) topics.url_analytics ≡ true)
      × (has (topic_list topics) topics.url_errors ≡ true)
asked_for topics = (
  ground (arith, eq_refl topics.url_clicks),
  ground (arith, eq_refl topics.url_analytics),
  ground (arith, eq_refl topics.url_errors),
)

module _ {cluster : Cluster} where
  -- Where the start has succeeded, the three topics are there.
  abbrev pub IsProvided : Bool → Topics → Admin cluster → Type 0
  IsProvided true topics a = All (λ t. has (cluster.topics a.state) t ≡ true) (topic_list topics)
  IsProvided false topics a = Unit

  abbrev pub there : Admin cluster → String → Bool
  there a t = has (cluster.topics a.state) t

  -- The result of an action that makes topics.
  abbrev pub IsMaking : Topics → String → Admin cluster → Result Bool × Admin cluster → Type 0
  IsMaking topics t a out =
      (ready : Bool) × (out.0 ≡ ok ready)
      × IsProvided ready topics out.1
      × (there out.1 t ≡ (there out.1 t || there a t))

  give_up_effect :
      (a : Admin cluster) → give_up a ≡ (ok false, record a { faults = later a.faults })
  unfolding call
  give_up_effect a = elim (Bool-cases (next_fails a.faults)) [
    | inl lost ↦ rw lost refl
    | inr kept ↦ rw kept refl
  ]

  -- What `createTopics` leaves, with and without a topic to make.
  abbrev made : Topics → Admin cluster → cluster.State
  made topics a = cluster.create a.state (missing (cluster.topics a.state) (topic_list topics))

  unmade-there :
      (topics : Topics) (a : Admin cluster) (t : String)
      → is_empty (missing (cluster.topics a.state) (topic_list topics)) ≡ true
      → has (topic_list topics) t ≡ true
      → there a t ≡ true
  unmade-there topics a t empty asked =
      let lost = missing (cluster.topics a.state) (topic_list topics) in
      ground (
        arith,
        has-missing (cluster.topics a.state) (topic_list topics) t asked,
        has-empty lost t empty,
      )

  made-there :
      (topics : Topics) (a : Admin cluster) (t : String)
      → has (topic_list topics) t ≡ true
      → has (cluster.topics (made topics a)) t ≡ true
  made-there topics a t asked =
      cluster.has-create a.state (missing (cluster.topics a.state) (topic_list topics)) t
      ∙ has-missing (cluster.topics a.state) (topic_list topics) t asked

  made-keeps :
      (topics : Topics) (a : Admin cluster) (t : String)
      → has (cluster.topics (made topics a)) t
        ≡ (has (cluster.topics (made topics a)) t || there a t)
  made-keeps topics a t =
      ground
        (arith, cluster.has-create a.state (missing (cluster.topics a.state) (topic_list topics)) t)

  make_topics-IsMaking :
      (topics : Topics) (t : String) (a : Admin cluster)
      → IsMaking topics t a (make_topics (topic_list topics) a)
  unfolding call
  make_topics-IsMaking topics t a =
      let lost = missing (cluster.topics a.state) (topic_list topics) in
      let b = record a { faults = later a.faults } in
      let (clicks, analytics, errors) = asked_for topics in
      let same : there a t ≡ (there a t || there a t) = ground arith in
      elim (Bool-cases (next_fails a.faults)) [
        | inl unlisted ↦ rw (unlisted, give_up_effect) (false, refl, tt, same)
        | inr listed ↦ elim (Bool-cases (is_empty lost)) [
          | inl empty ↦ elim (Bool-cases (next_fails (later a.faults))) [
            | inl stays ↦ rw (listed, empty, stays, give_up_effect) (false, refl, tt, same)
            | inr leaves ↦
                rw (listed, empty, leaves)
                  (
                    true,
                    refl,
                    (
                      unmade-there topics a _ empty clicks,
                      (
                        unmade-there topics a _ empty analytics,
                        (unmade-there topics a _ empty errors, tt),
                      ),
                    ),
                    same,
                  )
          ]
          | inr some_lost ↦ elim (Bool-cases (next_fails (later a.faults))) [
            | inl unmade ↦ rw (listed, some_lost, unmade, give_up_effect) (false, refl, tt, same)
            | inr created ↦ elim (Bool-cases (next_fails (later (later a.faults)))) [
              | inl stays ↦
                  rw (listed, some_lost, created, stays, give_up_effect)
                    (false, refl, tt, made-keeps topics a t)
              | inr leaves ↦
                  rw (listed, some_lost, created, leaves)
                    (
                      true,
                      refl,
                      (
                        made-there topics a _ clicks,
                        (made-there topics a _ analytics, (made-there topics a _ errors, tt)),
                      ),
                      made-keeps topics a t,
                    )
            ]
          ]
        ]
      ]

  make_topics-waited :
      (names : List String) (a : Admin cluster) → (make_topics names a).1.waited ≡ a.waited
  unfolding call
  make_topics-waited names a = ground arith

  after_connect :
      (topics : Topics) (t : String) (a b : Admin cluster) (done : Bool)
      → IsIdle 8000 a b
      → connect 2000 (pure tt) 5 a ≡ (ok done, b)
      → IsMaking topics t a (ensure_topics_exist topics a)
        × ((ensure_topics_exist topics a).1.waited ≤ a.waited + 8000)
  unfolding ensure_topics_exist
  after_connect topics t a b true (soon, alone) e =
      let (ready, ends, provided, kept) = make_topics-IsMaking topics t b in
      let waited = make_topics-waited (topic_list topics) b in
      rw e ((ready, ends, provided, rw (sym alone) kept), omega arith)
  after_connect topics t a b false (soon, alone) e =
      let same : there b t ≡ there a t = ap (λ s. has (cluster.topics s) t) alone in
      rw e ((false, refl, tt, ground (arith, same)), soon)

  -- The start of the service with Kafka ends, whatever calls fail, and has waited for at most eight
  -- seconds; no topic is taken away, and when it reports success, the three topics are there.
  pub ensure_topics_exist-IsMaking :
      (topics : Topics) (t : String) (a : Admin cluster)
      → IsMaking topics t a (ensure_topics_exist topics a)
        × ((ensure_topics_exist topics a).1.waited ≤ a.waited + 8000)
  ensure_topics_exist-IsMaking topics t a =
      let (done, ends, idle) = connect-IsEnding 2000 (pure tt) 4 a (λ b. (refl, refl)) in
      after_connect topics t a (connect 2000 (pure tt) 5 a).1 done idle
        (ap (λ (r : Result Bool). (r, (connect 2000 (pure tt) 5 a).1)) ends)
