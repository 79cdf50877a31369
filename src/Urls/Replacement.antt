-- ===== src/Urls/Replacement.antt =====
-- What `update` does: the new code, the old one, the refusals.
use Prim.Native.String
use dist_link.Base.{String, ◌≡◌, inl, inr, true, false, none, some, eq_refl, Option-cases}
use dist_link.Base.Dict.{ne_of_get}
use dist_link.Base.Exec.{ok, err, conflict, internal}
use dist_link.Urls.Types.{UrlRow, Url, UpdateUrlDto, UrlResponseDto, one}
use dist_link.Urls.World.{Env, World, calm}
use dist_link.Urls.Values.{get_redis_key, acceptable, new_expiration, time_of}
use dist_link.Urls.Edit.{update}

module _ {env : Env} (code : String) (dto : UpdateUrlDto) (old : Url) (w : World env)
    (hit : env.redis.get w.redis (get_redis_key env.key_prefix code) ≡ some (one old)) where
  -- A new code that is in use answers 409, and nothing changes.
  pub update_conflict :
      (row : UrlRow)
      → acceptable env.safe_browsing dto.original_url old ≡ true
      → env.db.url w.db dto.new_code ≡ some row
      → update code dto (calm w) ≡ (err conflict, calm w)
  unfolding update
  update_conflict row safe taken = rw (hit, safe, taken)

  -- A new URL that Safe Browsing reports answers 500 in place of 400, and nothing changes.
  pub update_unsafe :
      acceptable env.safe_browsing dto.original_url old ≡ false
      → update code dto (calm w) ≡ (err internal, calm w)
  unfolding update
  update_unsafe unsafe = rw (hit, unsafe)

  abbrev pub new_row : UrlRow
  new_row = record {
    short_code = dto.new_code;
    original_url = old.original_url;
    user_id = old.user_id;
    created_at = time_of old.created_at;
    expires_at = new_expiration w.now dto.expiration old;
  }

  abbrev pub renamed : env.db.State
  renamed =
      env.db.delete_clicks
        (env.db.delete (env.db.add_clicks (env.db.insert w.db new_row) dto.new_code 0) code) code

  abbrev pub answer : UrlResponseDto
  answer = record {
    short_code = dto.new_code;
    original_url = old.original_url;
    user_id = old.user_id;
    created_at = old.created_at;
    expires_at = old.expires_at;
    clicks = old.clicks;
    new_url = String.◌++◌ env.base_url (String.◌++◌ "/" dto.new_code);
  }

  module _ (row : UrlRow) (safe : acceptable env.safe_browsing dto.original_url old ≡ true)
      (free : env.db.url w.db dto.new_code ≡ none) (there : env.db.url w.db code ≡ some row) where
    update_effect :
        ((update code dto (calm w)).0 ≡ ok answer) × ((update code dto (calm w)).1.db ≡ renamed)
    unfolding update
    update_effect =
        let other = (ne_of_get env.db.url w.db dto.new_code code row free there).0 in
        elim (Option-cases row.user_id) [
          | inl a ↦ elim (Option-cases old.user_id) [
            | inl b ↦ (
              rw (hit, safe, free, env.db.url-add_clicks, env.db.url-insert, other, there, a, b),
              rw (hit, safe, free, env.db.url-add_clicks, env.db.url-insert, other, there, a, b),
            )
            | inr (u, b) ↦ (
              rw (hit, safe, free, env.db.url-add_clicks, env.db.url-insert, other, there, a, b),
              rw (hit, safe, free, env.db.url-add_clicks, env.db.url-insert, other, there, a, b),
            )
          ]
          | inr (v, a) ↦ elim (Option-cases old.user_id) [
            | inl b ↦ (
              rw (hit, safe, free, env.db.url-add_clicks, env.db.url-insert, other, there, a, b),
              rw (hit, safe, free, env.db.url-add_clicks, env.db.url-insert, other, there, a, b),
            )
            | inr (u, b) ↦ (
              rw (hit, safe, free, env.db.url-add_clicks, env.db.url-insert, other, there, a, b),
              rw (hit, safe, free, env.db.url-add_clicks, env.db.url-insert, other, there, a, b),
            )
          ]
        ]

    -- With no failing call, for a URL that is cached and has a row, and where the request names no other URL
    -- or one that Safe Browsing finds safe, a free new code takes the URL over: the new code has a row with
    -- the old target, owner and
    -- creation time and the new expiration, and the old code has no row and no counter any more. The
    -- target stays the old one, also where the request names another, and the answer shows the old
    -- expiration and the old count of clicks.
    pub update_renames :
        ((update code dto (calm w)).0 ≡ ok answer)
        × (env.db.url (update code dto (calm w)).1.db dto.new_code ≡ some new_row)
        × (env.db.url (update code dto (calm w)).1.db code ≡ none)
        × (env.db.clicks (update code dto (calm w)).1.db code ≡ none)
    update_renames =
        let other = (ne_of_get env.db.url w.db dto.new_code code row free there).1 in
        (
          update_effect.0,
          rw (update_effect.1) (
              rw (
                env.db.url-delete_clicks, env.db.url-delete, other, env.db.url-add_clicks,
                env.db.url-insert, eq_refl,
              )),
          rw (update_effect.1) (rw (env.db.url-delete_clicks, env.db.url-delete, eq_refl)),
          rw (update_effect.1) (rw (env.db.clicks-delete_clicks, eq_refl)),
        )
