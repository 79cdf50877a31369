-- ===== src/Urls/Expiry.antt =====
-- What the hourly cleanup removes, and what it leaves.
use Prim.Native.String
use text.Mathlib.TextLemmas.{head-eq_of_cons-eq, cons-append}
use Prim.Native.Char.{code}
use dist_link.Base.{
  ℕ, String, ◌≡◌, refl, sym, inl, inr, ap, ◌∙◌, false, none, List, [], ◌∷◌, ◌++◌, map, arith, ◌==◌,
  eq_iff, has, if◌then◌else◌, Bool-cases,
}
use dist_link.Base.Exec.{ok, Exec, promise_all}
use dist_link.Urls.World.{Env, World, calm, execute, redis_del}
use dist_link.Urls.Values.{get_redis_key}
use dist_link.Urls.Cleanup.{deletions, cleanup_expired_urls}

abbrev drop_rows : (env : Env) → List String → env.db.State → env.db.State
drop_rows env [] d = d
drop_rows env (c ∷ cs) d = drop_rows env cs (env.db.delete d c)

abbrev drop_counters : (env : Env) → List String → env.db.State → env.db.State
drop_counters env [] d = d
drop_counters env (c ∷ cs) d = drop_counters env cs (env.db.delete_clicks d c)

abbrev drop_keys : (env : Env) → List String → env.redis.State → env.redis.State
drop_keys env [] s = s
drop_keys env (c ∷ cs) s = drop_keys env cs (env.redis.del s (String.◌++◌ "url:" c))

module _ (env : Env) where
  url-drop_counters :
      (cs : List String) (d : env.db.State) (j : String)
      → env.db.url (drop_counters env cs d) j ≡ env.db.url d j
  url-drop_counters [] d j = refl
  url-drop_counters (c ∷ cs) d j =
      url-drop_counters cs (env.db.delete_clicks d c) j ∙ env.db.url-delete_clicks d c j

  url-drop_rows :
      (cs : List String) (d : env.db.State) (j : String)
      → env.db.url (drop_rows env cs d) j ≡ (if has cs j then none else env.db.url d j)
  url-drop_rows [] d j = refl
  url-drop_rows (c ∷ cs) d j =
      rw (url-drop_rows cs (env.db.delete d c) j, env.db.url-delete) (ground arith)

  clicks-drop_counters :
      (cs : List String) (d : env.db.State) (j : String)
      → env.db.clicks (drop_counters env cs d) j ≡ (if has cs j then none else env.db.clicks d j)
  clicks-drop_counters [] d j = refl
  clicks-drop_counters (c ∷ cs) d j =
      rw (clicks-drop_counters cs (env.db.delete_clicks d c) j, env.db.clicks-delete_clicks)
        (ground arith)

  clicks-drop_rows :
      (cs : List String) (d : env.db.State) (j : String)
      → env.db.clicks (drop_rows env cs d) j ≡ env.db.clicks d j
  clicks-drop_rows [] d j = refl
  clicks-drop_rows (c ∷ cs) d j =
      clicks-drop_rows cs (env.db.delete d c) j ∙ env.db.clicks-delete d c j

  -- Redis keys that the cleanup does not name read as before.
  get-drop_keys :
      (cs : List String) (s : env.redis.State) (key : String)
      → ((c : String) → (String.◌++◌ "url:" c == key) ≡ false)
      → env.redis.get (drop_keys env cs s) key ≡ env.redis.get s key
  get-drop_keys [] s key other = refl
  get-drop_keys (c ∷ cs) s key other =
      get-drop_keys cs (env.redis.del s (String.◌++◌ "url:" c)) key other
      ∙ rw (env.redis.get-del, other c)

-- The keys of the cleanup are none of the service's keys.
key_mismatch : (c j : String) → (String.◌++◌ "url:" c == get_redis_key "distlink:" j) ≡ false
key_mismatch c j = elim (Bool-cases (String.◌++◌ "url:" c == get_redis_key "distlink:" j)) [
  | inr differ ↦ differ
  | inl same ↦
      let e = (eq_iff _ _).0 same in
      let letters : Path String (String.◌∷◌ "u" (String.◌++◌ "rl:" c))
          (String.◌∷◌ "d" (String.◌++◌ "istlink:" (String.◌++◌ "urls:" j))) =
        sym (cons-append _ _ _) ∙ e ∙ cons-append _ _ _ in
      let bad : ◌≡◌ {A = ℕ} b'u' b'd' = ap code (head-eq_of_cons-eq letters) in absurd (omega arith)
]

module _ {env : Env} where
  drop_keys_run :
      (cs : List String) (w : World env)
      → promise_all (map (λ c. redis_del (String.◌++◌ "url:" c)) cs) (calm w)
        ≡ (ok tt, record w { redis = drop_keys env cs w.redis; faults = [] })
  unfolding redis_del
  drop_keys_run [] w = refl
  drop_keys_run (c ∷ cs) w =
      rw (drop_keys_run cs (record w { redis = env.redis.del w.redis (String.◌++◌ "url:" c) }))

  drop_counters_run :
      (cs : List String) (more : List (Exec (World env) Unit)) (w : World env)
      → promise_all (map (λ c. execute (λ d. env.db.delete_clicks d c)) cs ++ more) (calm w)
        ≡ promise_all more (record w { db = drop_counters env cs w.db; faults = [] })
  unfolding execute
  drop_counters_run [] more w = refl
  drop_counters_run (c ∷ cs) more w =
      drop_counters_run cs more (record w { db = env.db.delete_clicks w.db c })

  drop_rows_run :
      (cs : List String) (more : List (Exec (World env) Unit)) (w : World env)
      → promise_all (map (λ c. execute (λ d. env.db.delete d c)) cs ++ more) (calm w)
        ≡ promise_all more (record w { db = drop_rows env cs w.db; faults = [] })
  unfolding execute
  drop_rows_run [] more w = refl
  drop_rows_run (c ∷ cs) more w = drop_rows_run cs more (record w { db = env.db.delete w.db c })

  deletions_run :
      (cs : List String) (w : World env)
      → promise_all (deletions cs) (calm w) ≡ (
        ok tt,
        record w {
          db = drop_counters env cs (drop_rows env cs w.db);
          redis = drop_keys env cs w.redis;
          faults = [];
        },
      )
  deletions_run cs w =
      drop_rows_run cs _ w
      ∙ drop_counters_run cs _ (record w { db = drop_rows env cs w.db })
      ∙ drop_keys_run cs (record w { db = drop_counters env cs (drop_rows env cs w.db) })

  abbrev pub swept : List String → World env → World env
  swept codes w = record w {
    db = drop_counters env codes (drop_rows env codes w.db);
    redis = env.redis.del (drop_keys env codes w.redis) "url:all";
    faults = [];
  }

  cleanup_effect :
      (c : String) (cs : List String) (w : World env)
      → env.db.expired_codes w.db w.now ≡ c ∷ cs
      → (cleanup_expired_urls (calm w)).1 ≡ swept (c ∷ cs) w
  unfolding cleanup_expired_urls
  cleanup_effect c cs w expired = rw (expired, deletions_run (c ∷ cs) w)

  cleanup_nothing :
      (w : World env)
      → env.db.expired_codes w.db w.now ≡ []
      → (cleanup_expired_urls (calm w)).1 ≡ calm w
  unfolding cleanup_expired_urls
  cleanup_nothing w expired = rw expired

  -- When no call fails, the cleanup deletes the row and the counter of each code that has expired, and
  -- of no other code.
  cleanup_exact :
      (code : String) (w : World env)
      → (env.db.url (cleanup_expired_urls (calm w)).1.db code
          ≡ (if has (env.db.expired_codes w.db w.now) code then none else env.db.url w.db code))
        × (env.db.clicks (cleanup_expired_urls (calm w)).1.db code ≡ (
            if has (env.db.expired_codes w.db w.now) code then none else env.db.clicks w.db code))
  cleanup_exact code w = split (env.db.expired_codes w.db w.now) refl
    where
      split :
          (cs : List String)
          → env.db.expired_codes w.db w.now ≡ cs
          → (env.db.url (cleanup_expired_urls (calm w)).1.db code
              ≡ (if has (env.db.expired_codes w.db w.now) code then none else env.db.url w.db code))
            × (env.db.clicks (cleanup_expired_urls (calm w)).1.db code ≡ (
                if has (env.db.expired_codes w.db w.now) code
                then none
                else env.db.clicks w.db code))
      split [] e = (rw (cleanup_nothing w e, e), rw (cleanup_nothing w e, e))
      split (c ∷ cs) e = (
        rw (cleanup_effect c cs w e, e)
            (url-drop_counters env (c ∷ cs) (drop_rows env (c ∷ cs) w.db) code
              ∙ url-drop_rows env (c ∷ cs) w.db code),
        rw (cleanup_effect c cs w e, e)
            (clicks-drop_counters env (c ∷ cs) (drop_rows env (c ∷ cs) w.db) code
              ∙ rw (clicks-drop_rows env (c ∷ cs) w.db code)),
      )

  -- With the prefix of the configuration, `distlink:`, the cleanup drops no entry of the cache: every
  -- key that the service uses reads afterwards as before, the keys of the expired codes among them.
  cleanup_keeps_cache :
      (key : String) (w : World env)
      → env.key_prefix ≡ "distlink:"
      → env.redis.get (cleanup_expired_urls (calm w)).1.redis (get_redis_key env.key_prefix key)
        ≡ env.redis.get w.redis (get_redis_key env.key_prefix key)
  cleanup_keeps_cache key w prefix = split (env.db.expired_codes w.db w.now) refl
    where
      other : (c : String) → (String.◌++◌ "url:" c == get_redis_key env.key_prefix key) ≡ false
      other c = rw prefix (key_mismatch c key)

      split :
          (cs : List String)
          → env.db.expired_codes w.db w.now ≡ cs
          → env.redis.get (cleanup_expired_urls (calm w)).1.redis (get_redis_key env.key_prefix key)
            ≡ env.redis.get w.redis (get_redis_key env.key_prefix key)
      split [] e = rw (cleanup_nothing w e)
      split (c ∷ cs) e =
          rw (cleanup_effect c cs w e) (
            env.redis.get-del _ _ _ ∙ rw (other "all") (get-drop_keys env (c ∷ cs) w.redis _ other))
