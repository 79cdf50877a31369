-- ===== src/Urls/Listing.antt =====
-- The state after the lists of URLs and after a counted click, when no call fails.
use dist_link.Base.{String, ◌≡◌, refl, inl, inr, some, List, [], map, Option-cases}
use dist_link.Urls.Types.{UrlRow, Url, Cached, one, many}
use dist_link.Urls.World.{Env, World, calm}
use dist_link.Urls.Values.{get_redis_key, json, bump, user_key, dto_of_row}
use dist_link.Urls.Service.{find_all, find_by_user_id, increment_clicks}
use dist_link.Urls.Coherence.{Shows, bump-Shows, set-IsCoherent, same-IsCoherent}
use dist_link.Urls.Directory.{keeps}
use dist_link.Urls.Effects.{IsTidy, Proceeds}

module _ {env : Env} where
  abbrev listed : (World env → List UrlRow) → World env → Cached
  listed found w = many (map (dto_of_row env.base_url (env.db.counters w.db)) (found (calm w)))

  listed-Proceeds :
      (key : String) (found : World env → List UrlRow) (w : World env)
      → IsTidy w
      → Proceeds w (record w {
        redis =
            env.redis.set w.redis
              (get_redis_key env.key_prefix key)
              (json (listed found w))
              env.ttl;
        faults = [];
      })
  listed-Proceeds key found w h = (
    set-IsCoherent env w.db w.redis h key (json (listed found w)) env.ttl (λ u e. cc),
    keeps (λ j. refl),
  )

  pub find_all-Proceeds : (w : World env) → IsTidy w → Proceeds w (find_all (calm w)).1
  unfolding find_all
  find_all-Proceeds w h =
      elim (Option-cases (env.redis.get w.redis (get_redis_key env.key_prefix "all"))) [
        | inr (cached, hit) ↦ rw hit (h, keeps (λ j. refl))
        | inl miss ↦ rw miss (listed-Proceeds "all" (λ v. env.db.urls v.db) w h)
      ]

  pub find_by_user_id-Proceeds :
      (user : String) (w : World env) → IsTidy w → Proceeds w (find_by_user_id user (calm w)).1
  unfolding find_by_user_id
  find_by_user_id-Proceeds user w h =
      elim (Option-cases (env.redis.get w.redis (get_redis_key env.key_prefix (user_key user)))) [
        | inr (cached, hit) ↦ rw hit (h, keeps (λ j. refl))
        | inl miss ↦ rw miss (listed-Proceeds (user_key user) (λ v. env.db.user_urls v.db user) w h)
      ]

  bumped-fits :
      (code : String) (w : World env)
      → IsTidy w
      → (cached : Cached) → env.redis.get w.redis (get_redis_key env.key_prefix code) ≡ some cached
      → (u : Url) → json (bump cached) ≡ one u
      → (row : UrlRow) × (env.db.url w.db code ≡ some row) × Shows u row
  bumped-fits code w h (one v) hit u e =
      let (row, there, shows) = h code v hit in (row, there, bump-Shows v u row shows e)
  bumped-fits code w h (many vs) hit u e = cc

  pub increment_clicks-Proceeds :
      (code : String) (w : World env) → IsTidy w → Proceeds w (increment_clicks code (calm w)).1
  unfolding increment_clicks
  increment_clicks-Proceeds code w h =
      let counted : IsTidy (record w { db = env.db.add_clicks w.db code 1 }) =
        same-IsCoherent env w.db w.redis h _ (λ j. env.db.url-add_clicks w.db code j 1) in
      elim (Option-cases (env.redis.get w.redis (get_redis_key env.key_prefix code))) [
        | inl miss ↦ rw miss (counted, keeps (λ j. env.db.url-add_clicks w.db code j 1))
        | inr (cached, hit) ↦ rw hit (
          set-IsCoherent env _ w.redis counted code (json (bump cached)) env.ttl (
              bumped-fits code (record w { db = env.db.add_clicks w.db code 1 }) counted cached
                hit),
          keeps (λ j. env.db.url-add_clicks w.db code j 1),
        )
      ]
