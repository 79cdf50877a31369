-- ===== src/Kafka/Connection.antt =====
-- The loop that connects to Kafka ends.
use dist_link.Base.{
  ℕ, zero, suc, ◌+◌, ◌≤◌, ◌≡◌, refl, inl, inr, Bool, true, false, ◌∙◌, if◌then◌else◌, Bool-cases,
  arith,
}
use dist_link.Base.Exec.{Error, Result, ok, err, Exec, pure, recover, Result-cases, ◌>>◌}
use dist_link.Base.Faults.{next_fails, later}
use dist_link.Kafka.Admin.{
  Cluster, Admin, is_over, call, connect_once, connect, wait, set_up_subscriptions,
  connect_consumer,
}

-- The waits between as many attempts and one more.
abbrev pub waits : (pause left : ℕ) → ℕ
waits pause zero = 0
waits pause (suc left) = pause + waits pause left

module _ {cluster : Cluster} where
  -- The service has waited for at most `time`, and has left the topics alone.
  abbrev pub IsIdle : (time : ℕ) → (before after : Admin cluster) → Type 0
  IsIdle time a b = (b.waited ≤ a.waited + time) × (b.state ≡ a.state)

  -- An attempt that ends, and is idle until then.
  abbrev pub IsEnding : (time : ℕ) → Admin cluster → Result Bool × Admin cluster → Type 0
  IsEnding time a out = (done : Bool) × (out.0 ≡ ok done) × IsIdle time a out.1

  abbrev retry : ℕ → Exec (Admin cluster) Unit → ℕ → Error → Exec (Admin cluster) Bool
  retry pause set_up left e =
      if is_over left then pure false else (do wait pause; connect pause set_up left)

  recover_last :
      (pause : ℕ) (set_up : Exec (Admin cluster) Unit) (a b : Admin cluster) (r : Result Bool)
      → b.waited ≡ a.waited
      → b.state ≡ a.state
      → IsEnding 0 a (recover r b (retry pause set_up zero))
  recover_last pause set_up a b (ok done) same kept = (done, refl, (omega arith, kept))
  recover_last pause set_up a b (err e) same kept = (false, refl, (omega arith, kept))

  recover_next :
      (pause left : ℕ) (set_up : Exec (Admin cluster) Unit) (a b : Admin cluster) (r : Result Bool)
      → b.waited ≡ a.waited
      → b.state ≡ a.state
      → ((c : Admin cluster) → IsEnding (waits pause left) c (connect pause set_up (suc left) c))
      → IsEnding (waits pause (suc left)) a (recover r b (retry pause set_up (suc left)))
  recover_next pause left set_up a b (ok done) same kept ih = (done, refl, (omega arith, kept))
  recover_next pause left set_up a b (err e) same kept ih =
      let (done, ends, (soon, alone)) = ih (record b { waited = b.waited + pause }) in
      (done, ends, (omega arith, alone ∙ kept))

  -- An action that neither waits nor changes the topics.
  abbrev pub IsQuiet : Exec (Admin cluster) Unit → Type 0
  IsQuiet m = (a : Admin cluster) → ((m a).1.waited ≡ a.waited) × ((m a).1.state ≡ a.state)

  body-IsQuiet :
      (set_up : Exec (Admin cluster) Unit) (a : Admin cluster)
      → IsQuiet set_up
      → (((connect_once >> (set_up >> pure true)) a).1.waited ≡ a.waited)
        × (((connect_once >> (set_up >> pure true)) a).1.state ≡ a.state)
  unfolding call
  body-IsQuiet set_up a quiet =
      let b = record a { faults = later a.faults } in
      elim (Bool-cases (next_fails a.faults)) [
        | inl lost ↦ rw lost (refl, refl)
        | inr there ↦ elim (Result-cases (set_up b).0) [
          | inl (u, done) ↦ rw (there, done) (quiet b)
          | inr (e, failed) ↦ rw (there, failed) (quiet b)
        ]
      ]

  connect_step :
      (pause : ℕ) (set_up : Exec (Admin cluster) Unit) (left : ℕ) (a : Admin cluster)
      → IsQuiet set_up
      → ((c : Admin cluster) → IsEnding (waits pause left) c (connect pause set_up (suc left) c))
      → IsEnding (waits pause (suc left)) a (connect pause set_up (suc (suc left)) a)
  unfolding connect
  connect_step pause set_up left a quiet next =
      let out = (connect_once >> (set_up >> pure true)) a in
      let (same, kept) = body-IsQuiet set_up a quiet in
      recover_next pause left set_up a out.1 out.0 same kept next

  pub connect-IsEnding :
      (pause : ℕ) (set_up : Exec (Admin cluster) Unit) (left : ℕ) (a : Admin cluster)
      → IsQuiet set_up
      → IsEnding (waits pause left) a (connect pause set_up (suc left) a)
  unfolding connect
  connect-IsEnding pause set_up zero a quiet =
      let out = (connect_once >> (set_up >> pure true)) a in
      let (same, kept) = body-IsQuiet set_up a quiet in
      recover_last pause set_up a out.1 out.0 same kept
  connect-IsEnding pause set_up (suc left) a quiet =
      connect_step pause set_up left a quiet (λ c. connect-IsEnding pause set_up left c quiet)

  set_up_subscriptions-IsQuiet : IsQuiet (set_up_subscriptions {cluster = cluster})
  unfolding set_up_subscriptions
  set_up_subscriptions-IsQuiet a = ground arith

  -- The start of the consumer ends, whatever calls fail, after at most six seconds of waiting.
  connect_consumer-IsEnding : (a : Admin cluster) → IsEnding 6000 a (connect_consumer a)
  unfolding connect_consumer
  connect_consumer-IsEnding a =
      connect-IsEnding 3000 set_up_subscriptions 2 a set_up_subscriptions-IsQuiet
