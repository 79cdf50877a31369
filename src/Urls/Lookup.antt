-- ===== src/Urls/Lookup.antt =====
-- What `findByShortCode` and `remove` do when no call fails.
use dist_link.Base.{
  String, ◌≡◌, inl, inr, true, false, Option, none, some, [], eq_refl, Option-cases,
}
use dist_link.Base.Exec.{ok, err, not_found}
use dist_link.Urls.Types.{UrlRow, Cached, one}
use dist_link.Urls.World.{Env, World, calm}
use dist_link.Urls.Values.{get_redis_key, url_of_row, is_expired, json}
use dist_link.Urls.Records.{remove}
use dist_link.Urls.Service.{find_by_short_code}
use dist_link.Urls.Creation.{forget_lists, get-forget_lists}

module _ {env : Env} where
  abbrev pub forget : String → Option String → World env → World env
  forget code user w = record w {
    db = env.db.delete_clicks (env.db.delete w.db code) code;
    redis = forget_lists env (env.redis.del w.redis (get_redis_key env.key_prefix code)) user;
    faults = [];
  }

  pub remove_effect :
      (code : String) (row : UrlRow) (w : World env)
      → env.db.url w.db code ≡ some row
      → remove code (calm w) ≡ (ok tt, forget code row.user_id w)
  unfolding remove
  remove_effect code row w found = rw found (elim (Option-cases row.user_id) [
    | inl anonymous ↦ rw anonymous
    | inr (user, owned) ↦ rw owned
  ])

  pub remove_absent :
      (code : String) (w : World env)
      → env.db.url w.db code ≡ none
      → remove code (calm w) ≡ (ok tt, calm w)
  unfolding remove
  remove_absent code w missing = rw missing

  -- A row that is in the table is gone after `remove`, with its counter and its cache entry: a lookup
  -- of the code then answers 404.
  pub find-remove :
      (code : String) (row : UrlRow) (w : World env)
      → env.db.url w.db code ≡ some row
      → ((find_by_short_code code (remove code (calm w)).1).0 ≡ err not_found)
        × (env.db.clicks (remove code (calm w)).1.db code ≡ none)
  find-remove code row w found = (
    rw (remove_effect code row w found) (
        unfold find_by_short_code in
        rw
          (get-forget_lists env (env.redis.del w.redis (get_redis_key env.key_prefix code))
            row.user_id (get_redis_key env.key_prefix code) (rw (env.redis.get-del, eq_refl)))
          (rw (env.db.url-delete_clicks, env.db.url-delete, eq_refl))),
    rw (remove_effect code row w found) (rw (env.db.clicks-delete_clicks, eq_refl)),
  )

  -- A cached entry is the answer, at any time: neither the row nor its expiration is looked at.
  pub find_hit :
      (code : String) (cached : Cached) (w : World env)
      → env.redis.get w.redis (get_redis_key env.key_prefix code) ≡ some cached
      → find_by_short_code code (calm w) ≡ (ok cached, calm w)
  unfolding find_by_short_code
  find_hit code cached w hit = rw hit

  abbrev pub loaded : String → UrlRow → World env → Cached
  loaded code row w = one (url_of_row env.base_url row (env.db.clicks w.db code))

  abbrev pub remember : String → Cached → World env → World env
  remember code value w = record w {
    redis = env.redis.set w.redis (get_redis_key env.key_prefix code) (json value) env.ttl;
    faults = [];
  }

  module _ (code : String) (row : UrlRow) (w : World env)
      (miss : env.redis.get w.redis (get_redis_key env.key_prefix code) ≡ none)
      (found : env.db.url w.db code ≡ some row) where
    pub find_miss :
        is_expired w.now row.expires_at ≡ false
        → find_by_short_code code (calm w)
          ≡ (ok (loaded code row w), remember code (loaded code row w) w)
    unfolding find_by_short_code
    find_miss live = rw (miss, found, live)

    -- The first lookup of a row that has expired answers 404 and removes the row, its counter and the
    -- cached lists that show it.
    pub find_expired :
        is_expired w.now row.expires_at ≡ true
        → find_by_short_code code (calm w) ≡ (err not_found, forget code row.user_id w)
    unfolding find_by_short_code
    find_expired dead = rw (miss, found, dead, remove_effect code row w found)

    -- A lookup that misses the cache fills it: whatever happens to the table afterwards, the next
    -- lookup gives the same URL, its dates as texts, as long as the entry is kept.
    pub find-find :
        (later : World env)
        → is_expired w.now row.expires_at ≡ false
        → later.redis ≡ (find_by_short_code code (calm w)).1.redis
        → ((find_by_short_code code (calm w)).0 ≡ ok (loaded code row w))
          × (find_by_short_code code (calm later) ≡ (ok (json (loaded code row w)), calm later))
    find-find later live kept = (
      rw (find_miss live),
      find_hit code (json (loaded code row w)) later
          (rw kept (rw (find_miss live) (rw (env.redis.get-set, eq_refl)))),
    )

  -- Of a code that is neither cached nor in the table the lookup says 404 and changes nothing.
  pub find_absent :
      (code : String) (w : World env)
      → env.redis.get w.redis (get_redis_key env.key_prefix code) ≡ none
      → env.db.url w.db code ≡ none
      → find_by_short_code code (calm w) ≡ (err not_found, calm w)
  unfolding find_by_short_code
  find_absent code w miss missing = rw (miss, missing)
