-- ===== src/Urls/Creation.antt =====
-- What `create` does when no call fails, and when calls do.
use Prim.Native.String
use mathlib.Core.Option
use native.Mathlib.Nat.{add-zero}
use dist_link.Base.{
  ℕ, String, ◌≡◌, refl, true, false, Option, none, some, List, [], ◌∷◌, arith, ◌==◌, eq_refl,
}
use dist_link.Base.Dict.{or_else}
use dist_link.Base.Exec.{ok, err, bad_request}
use dist_link.SafeBrowsing.{check_url}
use dist_link.Urls.Types.{
  UrlRow, UrlResponseDto, CreateUrlDto, date, one, ExpirationOption, forever,
}
use dist_link.Urls.World.{Env, World}
use dist_link.Urls.Values.{
  calculate_expiration_date, get_redis_key, user_key, url_of_row, is_expired,
}
use dist_link.Urls.Service.{find_by_short_code}
use dist_link.Urls.Edit.{create}

-- The state of Redis when the lists that hold a user's URLs are dropped.
abbrev pub forget_lists : (env : Env) → env.redis.State → Option String → env.redis.State
forget_lists env s none = env.redis.del s (get_redis_key env.key_prefix "all")
forget_lists env s (some user) =
    env.redis.del (env.redis.del s (get_redis_key env.key_prefix "all"))
      (get_redis_key env.key_prefix (user_key user))

pub get-forget_lists :
    (env : Env) (s : env.redis.State) (user : Option String) (key : String)
    → env.redis.get s key ≡ none
    → env.redis.get (forget_lists env s user) key ≡ none
get-forget_lists env s none key h = rw (env.redis.get-del, h) (ground arith)
get-forget_lists env s (some user) key h =
    rw (env.redis.get-del, env.redis.get-del, h) (ground arith)

-- A URL is not expired at the moment of its creation.
not_expired :
    (now : ℕ) (expiration : ExpirationOption)
    → is_expired now (calculate_expiration_date now expiration) ≡ false
unfolding is_expired calculate_expiration_date
not_expired now forever = refl
not_expired now _ = ground arith

module _ {env : Env} where
  -- A world in which `code` is the next code of the pool and no call of a client fails.
  abbrev pub stocked : String → List String → World env → World env
  stocked code rest w = record w { pool = code ∷ rest; faults = [] }

  abbrev pub created_row : String → CreateUrlDto → Option String → World env → UrlRow
  created_row code dto user w = record {
    short_code = code;
    original_url = dto.original_url;
    user_id = user;
    created_at = w.now;
    expires_at = calculate_expiration_date w.now dto.expiration;
  }

  abbrev pub after_create :
      String → List String → CreateUrlDto → Option String → World env → World env
  after_create code rest dto user w = record w {
    db = env.db.add_clicks (env.db.insert w.db (created_row code dto user w)) code 0;
    redis = forget_lists env w.redis user;
    pool = rest;
    faults = [];
  }

  pub create_effect :
      (code : String) (rest : List String) (dto : CreateUrlDto) (user : Option String)
      (w : World env)
      → (check_url env.safe_browsing dto.original_url).is_safe ≡ true
      → (create dto user (stocked code rest w)).1 ≡ after_create code rest dto user w
  unfolding create
  create_effect code rest dto none w safe = rw safe
  create_effect code rest dto (some user) w safe = rw safe

  abbrev pub created : String → CreateUrlDto → Option String → World env → UrlResponseDto
  created code dto user w = record {
    short_code = code;
    original_url = dto.original_url;
    user_id = user;
    created_at = date w.now;
    expires_at = Option.map date (calculate_expiration_date w.now dto.expiration);
    clicks = 0;
    new_url = String.◌++◌ env.base_url (String.◌++◌ "/" code);
  }

  create_result :
      (code : String) (rest : List String) (dto : CreateUrlDto) (user : Option String)
      (w : World env)
      → (check_url env.safe_browsing dto.original_url).is_safe ≡ true
      → (create dto user (stocked code rest w)).0 ≡ ok (created code dto user w)
  unfolding create
  create_result code rest dto none w safe = rw safe
  create_result code rest dto (some user) w safe = rw safe

  -- `create` of a safe URL, with the next code of the pool and no failing call, answers with that
  -- code, the URL and a count of 0. Whatever row the code had before, a lookup of the code then finds
  -- the new URL, with the owner, the creation time and the expiration of this call and with the clicks
  -- that were already counted for the code, unless the cache holds an entry for it.
  pub find-create :
      (code : String) (rest : List String) (dto : CreateUrlDto) (user : Option String)
      (w : World env)
      → (check_url env.safe_browsing dto.original_url).is_safe ≡ true
      → env.redis.get w.redis (get_redis_key env.key_prefix code) ≡ none
      → ((create dto user (stocked code rest w)).0 ≡ ok (created code dto user w))
        × ((find_by_short_code code (create dto user (stocked code rest w)).1).0
            ≡ ok (
                one (
                  url_of_row env.base_url
                    (created_row code dto user w)
                    (some (or_else (env.db.clicks w.db code) 0)))))
  find-create code rest dto user w safe miss = (
    create_result code rest dto user w safe,
    rw (create_effect code rest dto user w safe) (
        unfold find_by_short_code in
        rw (get-forget_lists env w.redis user (get_redis_key env.key_prefix code) miss) (
          rw (
            env.db.url-add_clicks, env.db.url-insert, eq_refl, not_expired,
            env.db.clicks-add_clicks, eq_refl, env.db.clicks-insert, add-zero,
          ))),
  )

  -- A URL that Safe Browsing reports is refused with 400, and nothing changes: no code is taken, and
  -- neither the database nor the cache is touched, whatever calls would fail.
  pub create_unsafe :
      (dto : CreateUrlDto) (user : Option String) (w : World env)
      → (check_url env.safe_browsing dto.original_url).is_safe ≡ false
      → create dto user w ≡ (err bad_request, w)
  unfolding create
  create_unsafe dto user w unsafe = rw unsafe

  -- Two codes in the pool; the first INSERT fails, and no later call.
  abbrev pub stocked_failing : String → String → List String → World env → World env
  stocked_failing code next rest w = record w { pool = code ∷ next ∷ rest; faults = true ∷ [] }

  -- When the first INSERT fails, `create` goes on with the next code of the pool: it answers with
  -- that code, which then has the new row, while the first code has the row that it had before.
  pub create_retries :
      (code next : String) (rest : List String) (dto : CreateUrlDto) (user : Option String)
      (w : World env)
      → (check_url env.safe_browsing dto.original_url).is_safe ≡ true
      → (next == code) ≡ false
      → ((create dto user (stocked_failing code next rest w)).0 ≡ ok (created next dto user w))
        × (env.db.url (create dto user (stocked_failing code next rest w)).1.db next
            ≡ some (created_row next dto user w))
        × (env.db.url (create dto user (stocked_failing code next rest w)).1.db code
            ≡ env.db.url w.db code)
  unfolding create
  create_retries code next rest dto none w safe other = (
    rw safe,
    rw safe (rw (env.db.url-add_clicks, env.db.url-insert, eq_refl)),
    rw safe (rw (env.db.url-add_clicks, env.db.url-insert, other, env.db.url-add_clicks)),
  )
  create_retries code next rest dto (some user) w safe other = (
    rw safe,
    rw safe (rw (env.db.url-add_clicks, env.db.url-insert, eq_refl)),
    rw safe (rw (env.db.url-add_clicks, env.db.url-insert, other, env.db.url-add_clicks)),
  )
