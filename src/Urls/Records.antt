-- ===== src/Urls/Records.antt =====
-- modules/urls/urls.service.ts: the cache, the pool of codes, and the writes of a URL record.
-- The logger's calls change nothing and are left out.
use dist_link.Base.{ℕ, suc, String, Option, none, some, List, [], ◌∷◌, ◌++◌, map}
use mathlib.Core.List.{reverse}
use dist_link.Base.Exec.{internal, ok, Exec, pure, throw, gets, try_catch, ◌>>=◌, ◌>>◌, promise_all}
use dist_link.Urls.Types.{UrlRow, Cached}
use dist_link.Urls.World.{Env, World, query, execute, redis_get, redis_set, redis_del}
use dist_link.Urls.Values.{json, user_key, get_redis_key, pop_code, of_option}

module _ {env : Env} where
  unfoldable pub get_from_cache : String → Exec (World env) (Option Cached)
  unfolding redis_get
  get_from_cache key = redis_get (get_redis_key env.key_prefix key)

  unfoldable pub set_cache : String → Cached → Exec (World env) Unit
  unfolding redis_set
  set_cache key value = redis_set (get_redis_key env.key_prefix key) (json value) env.ttl

  unfoldable pub invalidate_multiple_keys : List String → Exec (World env) Unit
  unfolding redis_del
  invalidate_multiple_keys keys =
      promise_all (map (λ key. redis_del (get_redis_key env.key_prefix key)) keys)

  unfoldable pub initialize_code_pool : Exec (World env) Unit
  initialize_code_pool w =
      (ok tt, record w { pool = reverse (w.batch w.drawn) ++ w.pool; drawn = suc w.drawn })

  abbrev pop : Exec (World env) (Option String)
  pop w = (ok (pop_code w.pool).0, record w { pool = (pop_code w.pool).1 })

  abbrev refill : List String → Exec (World env) Unit
  refill [] = initialize_code_pool
  refill (c ∷ cs) = pure tt

  -- `none` stands for `undefined`, popped from an empty pool
  unfoldable pub get_next_code : Exec (World env) (Option String)
  unfolding initialize_code_pool
  get_next_code = do pool ← gets (λ w. w.pool); refill pool; pop

  unfoldable pub create_url_record :
      String → String → Option String → ℕ → Option ℕ → Exec (World env) Unit
  unfolding execute
  create_url_record code original user now expires =
      try_catch
        (promise_all (
          execute (λ d. env.db.insert d (record {
            short_code = code;
            original_url = original;
            user_id = user;
            created_at = now;
            expires_at = expires;
          }))
          ∷ execute (λ d. env.db.add_clicks d code 0)
          ∷ []))
        (λ _. throw internal)

  -- The deletions of `remove`, once the row is read.
  unfoldable pub remove_row : String → Option UrlRow → Exec (World env) Unit
  unfolding execute redis_del
  remove_row code none = pure tt
  remove_row code (some row) = promise_all (
      execute (λ d. env.db.delete d code)
      ∷ execute (λ d. env.db.delete_clicks d code)
      ∷ redis_del (get_redis_key env.key_prefix code)
      ∷ redis_del (get_redis_key env.key_prefix "all")
      ∷ map (λ user. redis_del (get_redis_key env.key_prefix (user_key user)))
          (of_option row.user_id))

  unfoldable pub remove : String → Exec (World env) Unit
  unfolding query remove_row
  remove code =
      try_catch (do row ← query (λ w. env.db.url w.db code); remove_row code row)
        (λ _. throw internal)
