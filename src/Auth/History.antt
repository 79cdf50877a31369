-- ===== src/Auth/History.antt =====
-- Any history of requests to `AuthController`, one after another, each under its own script of failing
-- calls, with the time that passes and the keys that Redis drops in between.
use dist_link.Base.{ℕ, ◌+◌, String, ◌≡◌, Bool, Option, some, List, [], ◌∷◌}
use dist_link.Base.Exec.{Result}
use dist_link.Auth.World.{UserRow, Env, World}
use dist_link.Auth.Users.{User}
use dist_link.Auth.Writes.{Evolves, stays, writes, IsSound, IsKept, Write-IsSound, Write-IsKept}
use dist_link.Auth.Steps.{IsUnused}
use dist_link.Auth.Guards.{Passport, Attempt}
use dist_link.Auth.Controller.{Endpoint, route}
use dist_link.Auth.Served.{route-Grown}

module _ (env : Env) where
  pub evolves-IsSound :
      (s s' : env.users.State) → Evolves env.users s s' → IsSound env.users s → IsSound env.users s'
  evolves-IsSound s s' stays h = h
  evolves-IsSound s s' (writes {t = t} e w) h =
      Write-IsSound env.users t s' w (evolves-IsSound s t e h)

  pub evolves-IsKept :
      (s s' : env.users.State) (j : String) (r : UserRow)
      → Evolves env.users s s'
      → env.users.by_id s j ≡ some r
      → IsKept env.users r (env.users.by_id s' j)
  evolves-IsKept s s' j r stays there = (r, there, λ e h. h, λ h. h)
  evolves-IsKept s s' j r (writes {t = t} e w) there =
      let (q, at, email, active) = evolves-IsKept s t j r e there in
      let (p, now, email', active') = Write-IsKept env.users t s' j q w at in
      (p, now, λ a h. email' a (email a h), λ h. active' (active h))

pub data Occurrence : Type 0 where
  request : Endpoint → (faults : List Bool) → Occurrence
  waits : ℕ → Occurrence
  drop_key : String → Occurrence

module _ {env : Env} (passport : Passport env) (google_guard : Attempt → Result (Option User))
    (url : String) where
  unfoldable pub occur : Occurrence → World env → World env
  unfolding route
  occur (request e faults) w = (route passport google_guard url e (record w { faults = faults })).1
  occur (waits t) w = record w { now = w.now + t }
  occur (drop_key k) w = record w { redis = env.redis.del w.redis k }

  unfoldable pub history : List Occurrence → World env → World env
  unfolding occur
  history [] w = w
  history (e ∷ es) w = history es (occur e w)

  -- No id that is drawn during the history is an account's before it is drawn.
  unfoldable pub IsUndrawn : List Occurrence → World env → Type 0
  unfolding occur
  IsUndrawn [] w = Unit
  IsUndrawn (e ∷ es) w = IsUnused w × IsUndrawn es (occur e w)

  occur-Evolves :
      (e : Occurrence) (w : World env)
      → IsSound env.users w.users
      → IsUnused w
      → Evolves env.users w.users (occur e w).users
  unfolding occur
  occur-Evolves (request e faults) w sound unused =
      route-Grown passport google_guard url e (record w { faults = faults }) sound.keyed unused
  occur-Evolves (waits t) w sound unused = stays
  occur-Evolves (drop_key k) w sound unused = stays

  -- Whatever requests come, and whatever calls of the database, of Redis and of the queue fail on the
  -- way: while each new id is unused when it is drawn, accounts that stand under their own ids, with no
  -- email and no Google id twice among them, stay so.
  pub history-IsSound :
      (es : List Occurrence) (w : World env)
      → IsSound env.users w.users
      → IsUndrawn es w
      → IsSound env.users (history es w).users
  unfolding history IsUndrawn
  history-IsSound [] w sound undrawn = sound
  history-IsSound (e ∷ es) w sound (unused, undrawn) =
      let step = occur-Evolves e w sound unused in
      history-IsSound es (occur e w) (evolves-IsSound env w.users (occur e w).users step sound)
        undrawn

  -- Under the same conditions no history loses an account: it is still there at the end, with the same
  -- email, and active if it was active.
  pub history-IsKept :
      (es : List Occurrence) (w : World env) (id : String) (r : UserRow)
      → IsSound env.users w.users
      → IsUndrawn es w
      → env.users.by_id w.users id ≡ some r
      → IsKept env.users r (env.users.by_id (history es w).users id)
  unfolding history IsUndrawn
  history-IsKept [] w id r sound undrawn there = (r, there, λ e h. h, λ h. h)
  history-IsKept (e ∷ es) w id r sound (unused, undrawn) there =
      let step = occur-Evolves e w sound unused in
      let (q, at, email, active) = evolves-IsKept env w.users (occur e w).users id r step there in
      let later = evolves-IsSound env w.users (occur e w).users step sound in
      let (p, now, email', active') = history-IsKept es (occur e w) id q later undrawn at in
      (p, now, λ a h. email' a (email a h), λ h. active' (active h))
