-- ===== src/Urls/Coherence.antt =====
-- What the cache holds under the code of a URL, against the row of the code.
use mathlib.Core.Option
use mathlib.Core.Path.{subst}
use text.Mathlib.TextLemmas.{append_cancel_left}
use dist_link.Base.{
  ℕ, String, ◌≡◌, refl, ap, ◌∙◌, inl, inr, true, Option, none, some, arith, ◌==◌, eq_iff,
  Bool-cases,
}
use dist_link.Urls.Types.{UrlRow, Url, Cached, one, date, iso, to_iso}
use dist_link.Urls.World.{Env}
use dist_link.Urls.Values.{get_redis_key, json, bump, url_of_row}

-- A cached URL shows the row, its dates as texts; the clicks may be out of date.
abbrev pub Shows : Url → UrlRow → Type 0
Shows u row =
    (u.original_url ≡ row.original_url)
    × (u.user_id ≡ row.user_id)
    × (u.created_at ≡ iso row.created_at)
    × (u.expires_at ≡ Option.map iso row.expires_at)

to_iso-date : (o : Option ℕ) → Option.map to_iso (Option.map date o) ≡ Option.map iso o
to_iso-date none = refl
to_iso-date (some t) = refl

to_iso-iso : (o : Option ℕ) → Option.map to_iso (Option.map iso o) ≡ Option.map iso o
to_iso-iso none = refl
to_iso-iso (some t) = refl

pub json-Shows :
    (base : String) (row : UrlRow) (clicks : Option ℕ) (u : Url)
    → json (one (url_of_row base row clicks)) ≡ one u
    → Shows u row
json-Shows base row clicks u h = ground (arith, to_iso-date row.expires_at)

pub bump-Shows :
    (v u : Url) (row : UrlRow) → Shows v row → json (bump (one v)) ≡ one u → Shows u row
bump-Shows v u row shown h =
    ground (arith, ap (Option.map to_iso) shown.3, to_iso-iso row.expires_at, ap to_iso shown.2)

-- Codes with the same key are the same.
pub key_injective :
    (prefix a b : String) → (get_redis_key prefix a == get_redis_key prefix b) ≡ true → a ≡ b
key_injective prefix a b h =
    append_cancel_left "urls:" a b (append_cancel_left prefix _ _ ((eq_iff _ _).0 h))

module _ (env : Env) where
  -- Each URL that is cached under a code shows the row of that code.
  abbrev pub IsCoherent : env.db.State → env.redis.State → Type 0
  IsCoherent db cache =
      (code : String) (u : Url)
      → env.redis.get cache (get_redis_key env.key_prefix code) ≡ some (one u)
      → (row : UrlRow) × (env.db.url db code ≡ some row) × Shows u row

  module _ (db : env.db.State) (cache : env.redis.State) (h : IsCoherent db cache) where
    pub del-IsCoherent : (key : String) → IsCoherent db (env.redis.del cache key)
    del-IsCoherent key code u hit =
        h code u (ground (arith, env.redis.get-del cache key (get_redis_key env.key_prefix code)))

    -- An entry that is written shows its row, if it is a URL.
    pub set-IsCoherent :
        (code : String) (v : Cached) (ttl : ℕ)
        → ((u : Url) → v ≡ one u → (row : UrlRow) × (env.db.url db code ≡ some row) × Shows u row)
        → IsCoherent db (env.redis.set cache (get_redis_key env.key_prefix code) v ttl)
    set-IsCoherent written v ttl fits code u hit =
        let same = get_redis_key env.key_prefix written == get_redis_key env.key_prefix code in
        let read =
          env.redis.get-set cache (get_redis_key env.key_prefix written)
            (get_redis_key env.key_prefix code) v ttl in
        elim (Bool-cases same) [
          | inl yes_same ↦
              let e = key_injective env.key_prefix written code yes_same in
              let (row, there, shows) = fits u (ground arith) in
              (row, subst (λ c. env.db.url db c ≡ some row) e there, shows)
          | inr other ↦ h code u (ground arith)
        ]

    -- Writes that leave the rows alone.
    pub same-IsCoherent :
        (db' : env.db.State)
        → ((j : String) → env.db.url db' j ≡ env.db.url db j)
        → IsCoherent db' cache
    same-IsCoherent db' same code u hit =
        let (row, there, shows) = h code u hit in (row, same code ∙ there, shows)

    -- A row under a code that had none.
    pub insert-IsCoherent :
        (row : UrlRow)
        → env.db.url db row.short_code ≡ none
        → IsCoherent (env.db.insert db row) cache
    insert-IsCoherent new free code u hit =
        let (row, there, shows) = h code u hit in
        let read = env.db.url-insert db new code in
        elim (Bool-cases (new.short_code == code)) [
          | inl same ↦
              let e = (eq_iff new.short_code code).0 same in
              absurd (cc (free, there, ap (env.db.url db) e))
          | inr other ↦ (row, ground arith, shows)
        ]

    -- A row whose code is not cached goes.
    pub delete-IsCoherent :
        (gone : String)
        → env.redis.get cache (get_redis_key env.key_prefix gone) ≡ none
        → IsCoherent (env.db.delete db gone) cache
    delete-IsCoherent gone missing code u hit =
        let (row, there, shows) = h code u hit in
        let read = env.db.url-delete db gone code in
        elim (Bool-cases (gone == code)) [
          | inl same ↦
              let e = (eq_iff gone code).0 same in
              absurd (
                cc (missing, hit, ap (λ c. env.redis.get cache (get_redis_key env.key_prefix c)) e))
          | inr other ↦ (row, ground arith, shows)
        ]
