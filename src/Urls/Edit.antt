-- ===== src/Urls/Edit.antt =====
-- modules/urls/urls.service.ts: `create` and `update`.
-- The logger's calls change nothing and are left out.
use dist_link.Base.{ℕ, zero, suc, String, not, Option, none, some, [], ◌∷◌, if◌then◌else◌}
use Prim.Native.String
use mathlib.Core.Option
use dist_link.Base.Exec.{
  bad_request, conflict, internal, generic, Result, ok, err, Exec, pure, throw, gets, try_catch,
  ◌>>=◌, ◌>>◌, promise_all, guard,
}
use dist_link.SafeBrowsing.{check_url}
use dist_link.Urls.Types.{date, Url, UrlResponseDto, CreateUrlDto, UpdateUrlDto, Cached, one, many}
use dist_link.Urls.World.{Env, World, query}
use dist_link.Urls.Values.{
  retry_attempts, calculate_expiration_date, list_keys, time_of, acceptable, new_expiration,
  is_taken, rethrow,
}
use dist_link.Urls.Records.{invalidate_multiple_keys, get_next_code, create_url_record, remove}
use dist_link.Urls.Service.{find_by_short_code}

module _ {env : Env} where
  -- A failure of one attempt is logged, and the next one is made.
  abbrev pub or_else_try :
      {A : Type 0} → Result A → World env → Exec (World env) A → Result A × World env
  or_else_try (ok a) w next = (ok a, w)
  or_else_try (err e) w next = next w

  abbrev pub create_as :
      CreateUrlDto → Option String → ℕ → Option ℕ → Option String → Exec (World env) UrlResponseDto
  create_as dto user now expires none = throw internal
  create_as dto user now expires (some code) = do
    create_url_record code dto.original_url user now expires
    invalidate_multiple_keys (list_keys user)
    pure (record {
      short_code = code;
      original_url = dto.original_url;
      user_id = user;
      created_at = date now;
      expires_at = Option.map date expires;
      clicks = 0;
      new_url = String.◌++◌ env.base_url (String.◌++◌ "/" code);
    })

  unfoldable pub create_attempts :
      ℕ → CreateUrlDto → Option String → ℕ → Option ℕ → Exec (World env) UrlResponseDto
  unfolding get_next_code create_url_record invalidate_multiple_keys
  create_attempts zero dto user now expires = throw generic
  create_attempts (suc left) dto user now expires = do
    code ← get_next_code
    λ w.
        let made = create_as dto user now expires code w in
        or_else_try made.0 made.1 (create_attempts left dto user now expires)

  unfoldable pub create : CreateUrlDto → Option String → Exec (World env) UrlResponseDto
  unfolding check_url calculate_expiration_date create_attempts
  create dto user =
      if (check_url env.safe_browsing dto.original_url).is_safe
      then (do
        now ← gets (λ w. w.now)
        create_attempts retry_attempts dto user now (calculate_expiration_date now dto.expiration))
      else throw bad_request

  -- The body of the `try` of `update`, from the check of the new URL on.
  unfoldable pub replace : String → UpdateUrlDto → Url → Exec (World env) UrlResponseDto
  unfolding check_url calculate_expiration_date query create_url_record remove
      invalidate_multiple_keys
  replace code dto old = do
    guard (acceptable env.safe_browsing dto.original_url old) bad_request
    existing ← query (λ w. env.db.url w.db dto.new_code)
    guard (not (is_taken existing)) conflict
    now ← gets (λ w. w.now)
    create_url_record dto.new_code old.original_url old.user_id (time_of old.created_at)
        (new_expiration now dto.expiration old)
    promise_all (remove code ∷ invalidate_multiple_keys (list_keys old.user_id) ∷ [])
    pure (record {
      short_code = dto.new_code;
      original_url = old.original_url;
      user_id = old.user_id;
      created_at = old.created_at;
      expires_at = old.expires_at;
      clicks = old.clicks;
      new_url = String.◌++◌ env.base_url (String.◌++◌ "/" dto.new_code);
    })

  -- A list under the key of a code is outside the model: no code that the controller's pattern
  -- lets through is the name of a list.
  abbrev pub replace_found : String → UpdateUrlDto → Cached → Exec (World env) UrlResponseDto
  replace_found code dto (one old) = replace code dto old
  replace_found code dto (many us) = throw internal

  unfoldable pub update : String → UpdateUrlDto → Exec (World env) UrlResponseDto
  unfolding find_by_short_code replace
  update code dto =
      try_catch (do old ← find_by_short_code code; replace_found code dto old)
        (λ e. throw (rethrow e))
