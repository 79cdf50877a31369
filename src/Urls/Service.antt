-- ===== src/Urls/Service.antt =====
-- modules/urls/urls.service.ts: the reads of `UrlsService`, each an action on the world.
-- The logger's calls change nothing and are left out.
use dist_link.Base.{ℕ, String, Option, none, some, List, map, if◌then◌else◌}
use dist_link.Base.Exec.{not_found, Exec, pure, throw, gets, ◌>>=◌, ◌>>◌, promise_both}
use dist_link.Urls.Types.{UrlRow, Cached, one, many}
use dist_link.Urls.World.{Env, World, query, execute}
use dist_link.Urls.Values.{user_key, url_of_row, dto_of_row, is_expired, bump}
use dist_link.Urls.Records.{get_from_cache, set_cache, remove}

-- The row is there: the answer of a cache miss.
module _ {env : Env} where
  unfoldable pub present : String → Option UrlRow × Option ℕ → Exec (World env) Cached
  unfolding is_expired remove set_cache
  present code (none, clicks) = throw not_found
  present code (some row, clicks) = do
    now ← gets (λ w. w.now)
    if is_expired now row.expires_at then (do remove code; throw not_found) else (do
      set_cache code (one (url_of_row env.base_url row clicks))
      pure (one (url_of_row env.base_url row clicks)))

  unfoldable pub or_load : String → Option Cached → Exec (World env) Cached
  unfolding present query
  or_load code (some cached) = pure cached
  or_load code none = do
    found ← promise_both (query (λ w. env.db.url w.db code)) (query (λ w. env.db.clicks w.db code))
    present code found

  unfoldable pub find_by_short_code : String → Exec (World env) Cached
  unfolding get_from_cache or_load
  find_by_short_code code = do cached ← get_from_cache code; or_load code cached

  -- `findAll` and `findByUserId` after a miss: the rows with their counters.
  unfoldable pub or_list :
      String → (World env → List UrlRow) → Option Cached → Exec (World env) Cached
  unfolding query set_cache
  or_list key rows (some cached) = pure cached
  or_list key rows none = do
    found ← promise_both (query rows) (query (λ w. env.db.counters w.db))
    let urls = many (map (dto_of_row env.base_url found.1) found.0)
    set_cache key urls
    pure urls

  unfoldable pub find_all : Exec (World env) Cached
  unfolding get_from_cache or_list
  find_all = do cached ← get_from_cache "all"; or_list "all" (λ w. env.db.urls w.db) cached

  unfoldable pub find_by_user_id : String → Exec (World env) Cached
  unfolding get_from_cache or_list
  find_by_user_id user = do
    cached ← get_from_cache (user_key user)
    or_list (user_key user) (λ w. env.db.user_urls w.db user) cached

  abbrev pub recache : String → Option Cached → Exec (World env) Unit
  recache code none = pure tt
  recache code (some cached) = set_cache code (bump cached)

  unfoldable pub update_clicks_in_cache : String → Exec (World env) Unit
  unfolding get_from_cache set_cache
  update_clicks_in_cache code = do cached ← get_from_cache code; recache code cached

  unfoldable pub increment_clicks : String → Exec (World env) Unit
  unfolding execute update_clicks_in_cache
  increment_clicks code = do execute (λ d. env.db.add_clicks d code 1); update_clicks_in_cache code
