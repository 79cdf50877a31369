-- ===== src/RateLimit.antt =====
-- common/guards/rate-limit.guard.ts and common/decorators/rate-limit.decorator.ts, over the counters
-- of Redis, which are a parameter.
pub mod Window
use dist_link.Base.{
  ℕ, suc, ◌+◌, ◌-◌, ◌≤◌, ◌<◌, String, ◌≡◌, Bool, true, false, Option, none, some, List, [], ◌∷◌,
  ◌==◌, eqb, ltb, if◌then◌else◌,
}
use dist_link.Base.Exec.{
  Error, throttled, Result, ok, err, Exec, pure, throw, gets, modify, ◌>>=◌, ◌>>◌,
}

-- `INCR` and `EXPIRE`, and the passing of time in seconds: a key that has a time to live is gone when
-- that has passed, and one that has none stays.
pub record Counters : Type 1 where
  pub State : Type 0
  pub count : State → String → ℕ
  pub ttl : State → String → Option ℕ
  pub incr : State → String → State
  pub expire : State → String → (seconds : ℕ) → State
  pub pass : State → (seconds : ℕ) → State
  pub count-incr :
      (s : State) (k j : String)
      → count (incr s k) j ≡ (if k == j then count s j + 1 else count s j)
  pub ttl-incr : (s : State) (k j : String) → ttl (incr s k) j ≡ ttl s j
  pub count-expire : (s : State) (k j : String) (n : ℕ) → 0 < n → count (expire s k n) j ≡ count s j
  pub ttl-expire :
      (s : State) (k : String) (n : ℕ) → 0 < n → 0 < count s k → ttl (expire s k n) k ≡ some n
  pub pass-live :
      (s : State) (k : String) (n t : ℕ)
      → ttl s k ≡ some n
      → t < n
      → (count (pass s t) k ≡ count s k) × (ttl (pass s t) k ≡ some (n - t))
  pub pass-over :
      (s : State) (k : String) (n t : ℕ)
      → ttl s k ≡ some n
      → n ≤ t
      → (count (pass s t) k ≡ 0) × (ttl (pass s t) k ≡ none)
  pub pass-forever :
      (s : State) (k : String) (t : ℕ)
      → ttl s k ≡ none
      → (count (pass s t) k ≡ count s k) × (ttl (pass s t) k ≡ none)

-- The metadata of `@RateLimit`.
pub record Options : Type 0 where
  pub limit : ℕ
  pub window : ℕ

-- `options.limit || 100`: 0 and a missing value give the default
abbrev pub or_default : ℕ → Option ℕ → ℕ
or_default d none = d
or_default d (some n) = if eqb n 0 then d else n

unfoldable pub rate_limit : Option ℕ → Option ℕ → Options
rate_limit limit window = record { limit = or_default 100 limit; window = or_default 3600 window }

-- What the guard uses where neither the handler nor the class has the metadata.
abbrev pub options_or_default : Option Options → Options
options_or_default none = record { limit = 100; window = 3600 }
options_or_default (some o) = o

module _ (c : Counters) where
  -- One check of a request whose key is `key`.
  unfoldable pub can_activate : Option Options → String → Exec c.State Bool
  can_activate found key = do
    let options = options_or_default found
    modify (λ s. c.incr s key)
    current ← gets (λ s. c.count s key)
    if eqb current 1 then modify (λ s. c.expire s key options.window) else pure tt
    if ltb options.limit current then throw throttled else pure true

  abbrev pub is_ok : Result Bool → Bool
  is_ok (ok b) = b
  is_ok (err e) = false

  -- Requests with one key, each with the seconds since the one before: which are let through.
  unfoldable pub serve : Option Options → String → c.State → List ℕ → List Bool
  unfolding can_activate
  serve found key s [] = []
  serve found key s (wait ∷ waits) =
      is_ok (can_activate found key (c.pass s wait)).0
      ∷ serve found key (can_activate found key (c.pass s wait)).1 waits
