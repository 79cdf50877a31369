-- ===== src/Urls/Cleanup.antt =====
-- modules/urls/urls-cleanup.service.ts: `UrlsCleanupService.cleanupExpiredUrls`, run every hour.
use Prim.Native.String
use dist_link.Base.{String, List, [], ◌∷◌, ◌++◌, map}
use dist_link.Base.Exec.{Exec, pure, gets, try_catch, ◌>>=◌, ◌>>◌, promise_all}
use dist_link.Urls.World.{Env, World, query, execute, redis_del}

module _ {env : Env} where
  abbrev pub deletions : List String → List (Exec (World env) Unit)
  deletions codes =
      map (λ code. execute (λ d. env.db.delete d code)) codes
      ++ (map (λ code. execute (λ d. env.db.delete_clicks d code)) codes
          ++ map (λ code. redis_del (String.◌++◌ "url:" code)) codes)

  abbrev pub clean : List String → Exec (World env) Unit
  clean [] = pure tt
  clean (code ∷ codes) = do promise_all (deletions (code ∷ codes)); redis_del "url:all"

  unfoldable pub cleanup_expired_urls : Exec (World env) Unit
  unfolding query execute redis_del
  cleanup_expired_urls =
      try_catch
        (do
          now ← gets (λ w. w.now)
          codes ← query (λ w. env.db.expired_codes w.db now)
          clean codes)
        (λ _. pure tt)
