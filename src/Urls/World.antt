-- ===== src/Urls/World.antt =====
-- What the URL service runs in: its configuration, the clients of the database and of Redis, and
-- the state that its calls change. Every call of a client consumes the next outcome of a script.
use dist_link.Base.{ℕ, String, Bool, Option, List, [], if◌then◌else◌}
use dist_link.Base.Exec.{generic, ok, err, Exec}
use dist_link.Base.Faults.{next_fails, later}
use dist_link.Redis.{Redis}
use dist_link.SafeBrowsing.{SafeBrowsing}
use dist_link.Urls.Types.{Database, Cached}

pub record Env : Type 1 where
  pub db : Database
  pub redis : Redis Cached
  pub safe_browsing : SafeBrowsing
  pub base_url : String
  pub key_prefix : String
  pub ttl : ℕ

pub record World (env : Env) : Type 0 where
  pub now : ℕ
  pub db : env.db.State
  pub redis : env.redis.State
  -- `codePool`, its last element first, and the results of the coming `generateBatch` calls
  pub pool : List String
  pub drawn : ℕ
  pub batch : ℕ → List String
  -- whether each of the coming calls of a client fails; none does beyond the end of the script
  pub faults : List Bool

module _ {env : Env} where
  -- A call that fails changes nothing.
  unfoldable pub query : {A : Type 0} → (World env → A) → Exec (World env) A
  query f w =
      if next_fails w.faults
      then (err generic, record w { faults = later w.faults })
      else (ok (f w), record w { faults = later w.faults })

  unfoldable pub execute : (env.db.State → env.db.State) → Exec (World env) Unit
  execute f w =
      if next_fails w.faults
      then (err generic, record w { faults = later w.faults })
      else (ok tt, record w { db = f w.db; faults = later w.faults })

  -- redis.service.ts
  unfoldable pub redis_get : String → Exec (World env) (Option Cached)
  unfolding query
  redis_get key = query (λ w. env.redis.get w.redis key)

  unfoldable pub redis_set : String → Cached → ℕ → Exec (World env) Unit
  redis_set key value ttl w =
      if next_fails w.faults then (err generic, record w { faults = later w.faults }) else (
        ok tt,
        record w { redis = env.redis.set w.redis key value ttl; faults = later w.faults },
      )

  unfoldable pub redis_del : String → Exec (World env) Unit
  redis_del key w =
      if next_fails w.faults
      then (err generic, record w { faults = later w.faults })
      else (ok tt, record w { redis = env.redis.del w.redis key; faults = later w.faults })

  -- A world in which no call of a client fails.
  abbrev pub calm : World env → World env
  calm w = record w { faults = [] }
