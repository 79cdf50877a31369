-- ===== src/Urls/Updates.antt =====
-- The cases of `update` when no call fails, together.
use dist_link.Base.{
  String, ◌≡◌, refl, ap, inl, inr, true, false, none, some, List, Bool-cases, Option-cases,
}
use dist_link.Base.Exec.{recover-throw}
use dist_link.Urls.Types.{UrlRow, Url, Cached, one, many, UpdateUrlDto, UrlResponseDto}
use dist_link.Urls.World.{Env, World, calm}
use dist_link.Urls.Values.{get_redis_key, acceptable, is_expired, url_of_row, rethrow, time_of}
use dist_link.Urls.Edit.{replace, update}
use dist_link.Urls.Lookup.{forget, loaded, remember, remove_effect}
use dist_link.Urls.Directory.{keeps}
use dist_link.Urls.Effects.{IsTidy, Proceeds, forget-Proceeds, remember-Proceeds}
use dist_link.Urls.Renaming.{replace_taken, replace_unsafe, replace-Proceeds}

module _ {env : Env} where
  module _ (code : String) (dto : UpdateUrlDto) (w : World env) where
    update_hit :
        (old : Url)
        → env.redis.get w.redis (get_redis_key env.key_prefix code) ≡ some (one old)
        → (update code dto (calm w)).1 ≡ (replace code dto old (calm w)).1
    unfolding update
    update_hit old hit = rw hit (recover-throw _ _ rethrow)

    update_list :
        (us : List UrlResponseDto)
        → env.redis.get w.redis (get_redis_key env.key_prefix code) ≡ some (many us)
        → (update code dto (calm w)).1 ≡ calm w
    unfolding update
    update_list us hit = rw hit

    update_absent :
        env.redis.get w.redis (get_redis_key env.key_prefix code) ≡ none
        → env.db.url w.db code ≡ none
        → (update code dto (calm w)).1 ≡ calm w
    unfolding update
    update_absent miss absent = rw (miss, absent)

    module _ (row : UrlRow)
        (miss : env.redis.get w.redis (get_redis_key env.key_prefix code) ≡ none)
        (there : env.db.url w.db code ≡ some row) where
      update_expired :
          is_expired w.now row.expires_at ≡ true
          → (update code dto (calm w)).1 ≡ forget code row.user_id w
      unfolding update
      update_expired dead = rw (miss, there, dead, remove_effect code row w there)

      update_loaded :
          is_expired w.now row.expires_at ≡ false
          → (update code dto (calm w)).1
            ≡ (replace code dto
                (url_of_row env.base_url row (env.db.clicks w.db code))
                (remember code (loaded code row w) w)).1
      unfolding update
      update_loaded live = rw (miss, there, live) (recover-throw _ _ rethrow)

  -- The replacement of a URL that shows the row of its code.
  replaced-Proceeds :
      (code : String) (dto : UpdateUrlDto) (old : Url) (w : World env) (row : UrlRow)
      → IsTidy w
      → env.db.url w.db code ≡ some row
      → old.original_url ≡ row.original_url
      → old.user_id ≡ row.user_id
      → time_of old.created_at ≡ row.created_at
      → Proceeds w (replace code dto old (calm w)).1
  replaced-Proceeds code dto old w row h there target owner time =
      elim (Option-cases (env.db.url w.db dto.new_code)) [
        | inl free ↦ replace-Proceeds code dto old w row h free there target owner time
        | inr (other, taken) ↦
            elim (Bool-cases (acceptable env.safe_browsing dto.original_url old)) [
              | inl safe ↦ rw (replace_taken code dto old w other safe taken) (h, keeps (λ j. refl))
              | inr unsafe ↦ rw (replace_unsafe code dto old w unsafe) (h, keeps (λ j. refl))
            ]
      ]

  hit-Proceeds :
      (code : String) (dto : UpdateUrlDto) (w : World env) (cached : Cached)
      → IsTidy w
      → env.redis.get w.redis (get_redis_key env.key_prefix code) ≡ some cached
      → Proceeds w (update code dto (calm w)).1
  hit-Proceeds code dto w (one old) h hit =
      let (row, there, (target, owner, time, _)) = h code old hit in
      rw (update_hit code dto w old hit)
        (replaced-Proceeds code dto old w row h there target owner (ap time_of time))
  hit-Proceeds code dto w (many us) h hit =
      rw (update_list code dto w us hit) (h, keeps (λ j. refl))

  pub update-Proceeds :
      (code : String) (dto : UpdateUrlDto) (w : World env)
      → IsTidy w
      → Proceeds w (update code dto (calm w)).1
  update-Proceeds code dto w h =
      elim (Option-cases (env.redis.get w.redis (get_redis_key env.key_prefix code))) [
        | inr (cached, hit) ↦ hit-Proceeds code dto w cached h hit
        | inl miss ↦ elim (Option-cases (env.db.url w.db code)) [
          | inl absent ↦ rw (update_absent code dto w miss absent) (h, keeps (λ j. refl))
          | inr (row, there) ↦ elim (Bool-cases (is_expired w.now row.expires_at)) [
            | inl dead ↦
                rw (update_expired code dto w row miss there dead)
                  (forget-Proceeds code row.user_id w h)
            | inr live ↦
                let found = (remember-Proceeds code row w h there).0 in
                rw (update_loaded code dto w row miss there live) (
                  replaced-Proceeds code dto (url_of_row env.base_url row (env.db.clicks w.db code))
                    (remember code (loaded code row w) w) row found there refl refl refl)
          ]
        ]
      ]
