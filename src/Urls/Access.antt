-- ===== src/Urls/Access.antt =====
-- Who may change a URL through the controller, and which codes it lets through.
use dist_link.Base.{
  ℕ, String, ◌≡◌, refl, ◌⊎◌, ◌<◌, ◌∙◌, inl, inr, true, false, ◌||◌, none, some, List, All, length,
  arith, ◌==◌, Option-cases, Bool-cases, eq_refl,
}
use dist_link.Base.Exec.{ok, err, bad_request}
use dist_link.ShortCode.{generate}
use dist_link.ShortCode.Alphabet.{count-generate}
use dist_link.Urls.Types.{Stamp, date, iso, UrlRow, UpdateUrlDto, Cached, one, many}
use dist_link.Urls.World.{Env, World, calm}
use dist_link.Urls.Values.{get_redis_key, is_expired, json}
use dist_link.Urls.Service.{find_by_short_code}
use dist_link.Urls.Lookup.{find-find, find_miss, find_hit, remember, forget, remove_effect, loaded}
use dist_link.Urls.Controller
use dist_link.Urls.Records
use dist_link.Urls.Controller.{owner_of, is_allowed, is_custom_code, find_one}

Stamp-cases : (t : Stamp) → ((n : ℕ) × (t ≡ date n)) ⊎ ((n : ℕ) × (t ≡ iso n))
Stamp-cases (date n) = inl (n, refl)
Stamp-cases (iso n) = inr (n, refl)

foreign-refused :
    (cached : Cached) (owner user : String)
    → owner_of cached ≡ some owner
    → (owner == "") ≡ false
    → (owner == user) ≡ false
    → is_allowed cached user ≡ false
foreign-refused (many us) owner user owned real other = cc
foreign-refused (one u) owner user owned real other = elim (Stamp-cases u.created_at) [
  | inl (t, dated) ↦ rw (owned, dated)
  | inr (t, texts) ↦ rw (owned, texts, real, other)
]

owner_passes : (user : String) → (user == "" || user == user) ≡ true
owner_passes user = ground (arith, eq_refl user)

module _ {env : Env} where
  -- A lookup that answers with a URL leaves the database alone, whatever calls fail in it.
  find-ok-db :
      (code : String) (cached : Cached) (w : World env)
      → (find_by_short_code code w).0 ≡ ok cached
      → (find_by_short_code code w).1.db ≡ w.db
  unfolding find_by_short_code
  find-ok-db code cached w h = ground arith

  -- DELETE and PATCH of a URL that the lookup finds and that has an owner other than the caller answer 400,
  -- where the controller documents 403, and leave the database as it was, whatever the body of the request is
  -- and whatever calls fail.
  pub foreign_url_unchanged :
      (user owner code : String) (dto : UpdateUrlDto) (cached : Cached) (w : World env)
      → (find_by_short_code code w).0 ≡ ok cached
      → owner_of cached ≡ some owner
      → (owner == "") ≡ false
      → (owner == user) ≡ false
      → ((Controller.remove user code w).0 ≡ err bad_request)
        × ((Controller.remove user code w).1.db ≡ w.db)
        × ((Controller.update user code dto w).0 ≡ err bad_request)
        × ((Controller.update user code dto w).1.db ≡ w.db)
  foreign_url_unchanged user owner code dto cached w found owned real other =
      let kept = find-ok-db code cached w found in
      let refused = foreign-refused cached owner user owned real other in
      (
        unfold Controller.remove in ground arith,
        unfold Controller.remove in ground arith,
        unfold Controller.update in ground arith,
        unfold Controller.update in ground arith,
      )

  delete-allowed :
      (user code : String) (cached : Cached) (w v : World env)
      → find_by_short_code code w ≡ (ok cached, v)
      → is_allowed cached user ≡ true
      → Controller.remove user code w ≡ Records.remove code v
  unfolding Controller.remove
  delete-allowed user code cached w v found allowed = rw (found, allowed)

  -- The owner of a URL that the cache does not hold, and whose row is alive, is answered 400 by DELETE and by
  -- PATCH of its code when no call fails, and the database stays as it was. The same DELETE then finds the URL
  -- in the cache, succeeds, and the row is gone.
  pub uncached_owner_refused :
      (user code : String) (dto : UpdateUrlDto) (row : UrlRow) (w : World env)
      → env.redis.get w.redis (get_redis_key env.key_prefix code) ≡ none
      → env.db.url w.db code ≡ some row
      → is_expired w.now row.expires_at ≡ false
      → row.user_id ≡ some user
      → ((Controller.remove user code (calm w)).0 ≡ err bad_request)
        × ((Controller.remove user code (calm w)).1.db ≡ w.db)
        × ((Controller.update user code dto (calm w)).0 ≡ err bad_request)
        × ((Controller.update user code dto (calm w)).1.db ≡ w.db)
        × ((Controller.remove user code (Controller.remove user code (calm w)).1).0 ≡ ok tt)
        × (env.db.url
              (Controller.remove user code (Controller.remove user code (calm w)).1).1.db
              code
            ≡ none)
  uncached_owner_refused user code dto row w miss found live owned =
      let filled = remember code (loaded code row w) w in
      let first = find_miss code row w miss found live in
      let again =
        find_hit code (json (loaded code row w)) filled (rw (env.redis.get-set, eq_refl)) in
      let refused : Controller.remove user code (calm w) ≡ (err bad_request, filled) =
        unfold Controller.remove in rw (first, owned) in
      let patched : ((Controller.update user code dto (calm w)).0 ≡ err bad_request)
          × ((Controller.update user code dto (calm w)).1.db ≡ w.db) =
        elim (Bool-cases (is_custom_code code)) [
          | inl custom ↦ unfold Controller.update in rw (custom, first, owned) (refl, refl)
          | inr short ↦ unfold Controller.update in rw short (refl, refl)
        ] in
      let deleted : Controller.remove user code filled ≡ (ok tt, forget code row.user_id filled) =
        delete-allowed user code (json (loaded code row w)) filled filled again
          (rw (owned, owner_passes user))
        ∙ remove_effect code row filled found in
      rw (refused, deleted)
        (
          refl,
          refl,
          patched.0,
          patched.1,
          refl,
          rw (env.db.url-delete_clicks, env.db.url-delete, eq_refl),
        )

  -- No code that the generator makes from six bytes can be changed by PATCH: the handler's pattern
  -- wants eight characters, so the answer is 400 before anything is looked up.
  generated_code_rejected :
      (bytes : List ℕ) (user : String) (dto : UpdateUrlDto) (w : World env)
      → All (λ b. b < 256) bytes
      → length bytes ≡ 6
      → Controller.update user (generate bytes) dto w ≡ (err bad_request, w)
  generated_code_rejected bytes user dto w h six =
      let size = count-generate bytes h in
      let short : is_custom_code (generate bytes) ≡ false = unfold is_custom_code in ground arith in
      unfold Controller.update in rw short

  -- A URL that was cached while it was alive is served by GET /urls/:shortCode at every later time at
  -- which the entry is still kept, its expiration date passed or not.
  find_one_ignores_expiration :
      (code : String) (row : UrlRow) (w later : World env)
      → env.redis.get w.redis (get_redis_key env.key_prefix code) ≡ none
      → env.db.url w.db code ≡ some row
      → is_expired w.now row.expires_at ≡ false
      → later.redis ≡ (find_by_short_code code (calm w)).1.redis
      → (find_one code (calm later)).0 ≡ ok (json (loaded code row w))
  find_one_ignores_expiration code row w later miss found live kept =
      let again = (find-find code row w miss found later live kept).1 in
      unfold find_one in
      rw again (elim (Option-cases row.expires_at) [
        | inl never ↦ rw never
        | inr (t, some_day) ↦ rw some_day
      ])
