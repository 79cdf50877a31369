-- ===== src/Redis.antt =====
-- modules/redis/redis.service.ts over the client of `ioredis`, which is a parameter.
use dist_link.Base.{ℕ, String, ◌≡◌, Option, none, some, ◌==◌, if◌then◌else◌}

-- A key space with values of type `V`: `GET`, `SET … EX ttl` and `DEL`, and how they read back.
pub record Redis (V : Type 0) : Type 1 where
  pub State : Type 0
  pub get : State → String → Option V
  pub set : State → String → V → (ttl : ℕ) → State
  pub del : State → String → State
  pub get-set :
      (s : State) (k j : String) (v : V) (ttl : ℕ)
      → get (set s k v ttl) j ≡ (if k == j then some v else get s j)
  pub get-del : (s : State) (k j : String) → get (del s k) j ≡ (if k == j then none else get s j)
