-- ===== src/Urls/History.antt =====
-- What holds of the URL service in any history of its operations in which no call of a client fails.
use dist_link.Base.{
  ℕ, ◌+◌, String, ◌≡◌, refl, ap, ◌∙◌, ◌⊎◌, inl, inr, Option, none, some, List, arith, Option-cases,
  Bool-cases,
}
use dist_link.Base.Exec.{ok}
use dist_link.Urls.Types.{UrlRow, Url, one, UpdateUrlDto, CreateUrlDto}
use dist_link.Urls.World.{Env, World, calm}
use dist_link.Urls.Values.{get_redis_key, is_expired}
use dist_link.Urls.Records.{remove}
use dist_link.Urls.Service.{find_by_short_code, find_all, find_by_user_id, increment_clicks}
use dist_link.Urls.Edit.{create, update}
use dist_link.Urls.Creation.{stocked}
use dist_link.Urls.Lookup.{loaded, find_hit, find_miss, find_expired, find_absent}
use dist_link.Urls.Coherence.{del-IsCoherent, same-IsCoherent}
use dist_link.Urls.Directory.{keeps, Change-row}
use dist_link.Urls.Effects.{rows, IsTidy, Proceeds, find-Proceeds, remove-Proceeds, create-Proceeds}
use dist_link.Urls.Listing.{find_all-Proceeds, find_by_user_id-Proceeds, increment_clicks-Proceeds}
use dist_link.Urls.Updates.{update-Proceeds}

module _ {env : Env} where
  -- A call of the service that no client fails, or what happens around it: time passes, Redis drops
  -- a key, the click processor counts, the pool is filled. A code that `create` takes is free; the
  -- cleanup is no step.
  pub data Step (w w' : World env) : Type 0 where
    creates :
        (code : String) (rest : List String) (dto : CreateUrlDto) (user : Option String)
        → env.db.url w.db code ≡ none
        → w' ≡ (create dto user (stocked code rest w)).1
        → Step w w'
    looks_up : (code : String) → w' ≡ (find_by_short_code code (calm w)).1 → Step w w'
    lists : w' ≡ (find_all (calm w)).1 → Step w w'
    lists_of : (user : String) → w' ≡ (find_by_user_id user (calm w)).1 → Step w w'
    removes : (code : String) → w' ≡ (remove code (calm w)).1 → Step w w'
    updates : (code : String) (dto : UpdateUrlDto) → w' ≡ (update code dto (calm w)).1 → Step w w'
    clicks : (code : String) → w' ≡ (increment_clicks code (calm w)).1 → Step w w'
    counts :
        (code : String) (n : ℕ) → w' ≡ record w { db = env.db.add_clicks w.db code n } → Step w w'
    waits : (n : ℕ) → w' ≡ record w { now = w.now + n } → Step w w'
    evicts : (key : String) → w' ≡ record w { redis = env.redis.del w.redis key } → Step w w'
    fills : (codes : List String) → w' ≡ record w { pool = codes } → Step w w'

  -- Each step keeps the cache coherent and changes the rows as the directory allows: a free code gets
  -- a row, a row goes, or a row goes over to a free code with its target, owner and creation time.
  Step-Proceeds : (w w' : World env) → Step w w' → IsTidy w → Proceeds w w'
  Step-Proceeds w w' (creates code rest dto user free e) h =
      rw e (create-Proceeds code rest dto user w h free)
  Step-Proceeds w w' (looks_up code e) h = rw e (find-Proceeds code w h)
  Step-Proceeds w w' (lists e) h = rw e (find_all-Proceeds w h)
  Step-Proceeds w w' (lists_of user e) h = rw e (find_by_user_id-Proceeds user w h)
  Step-Proceeds w w' (removes code e) h = rw e (remove-Proceeds code w h)
  Step-Proceeds w w' (updates code dto e) h = rw e (update-Proceeds code dto w h)
  Step-Proceeds w w' (clicks code e) h = rw e (increment_clicks-Proceeds code w h)
  Step-Proceeds w w' (counts code n e) h = rw e (
    same-IsCoherent env w.db w.redis h _ (λ j. env.db.url-add_clicks w.db code j n),
    keeps (λ j. env.db.url-add_clicks w.db code j n),
  )
  Step-Proceeds w w' (waits n e) h = rw e (h, keeps (λ j. refl))
  Step-Proceeds w w' (evicts key e) h =
      rw e (del-IsCoherent env w.db w.redis h key, keeps (λ j. refl))
  Step-Proceeds w w' (fills codes e) h = rw e (h, keeps (λ j. refl))

  pub data Reach (w : World env) : World env → Type 0 where
    here : Reach w w
    next : {v w' : World env} → Reach w v → Step v w' → Reach w w'

  -- In a history of the methods of UrlsService, the cleanup not among them, that starts with an empty cache,
  -- in which no call fails and each code that create draws has no row at that time, the cache stays
  -- coherent: what it holds under the code of a URL shows the row of that code, except for its clicks.
  pub Reach-IsTidy :
      {w w' : World env}
      → ((key : String) → env.redis.get w.redis key ≡ none)
      → Reach w w'
      → IsTidy w'
  Reach-IsTidy empty here = λ code u hit. cc (hit, empty (get_redis_key env.key_prefix code))
  Reach-IsTidy empty (next {v} {w'} r s) = (Step-Proceeds v w' s (Reach-IsTidy empty r)).0

  lookup-row :
      (code : String) (w : World env) (u : Url)
      → IsTidy w
      → (find_by_short_code code (calm w)).0 ≡ ok (one u)
      → (row : UrlRow) × (env.db.url w.db code ≡ some row)
        × (u.original_url ≡ row.original_url)
        × (u.user_id ≡ row.user_id)
  lookup-row code w u h found =
      elim (Option-cases (env.redis.get w.redis (get_redis_key env.key_prefix code))) [
        | inr (cached, hit) ↦
            let same : cached ≡ one u = cc (rw (find_hit code cached w hit) at found) in
            let (row, there, (target, owner, _, _)) = h code u (hit ∙ ap some same) in
            (row, there, target, owner)
        | inl miss ↦ elim (Option-cases (env.db.url w.db code)) [
          | inl absent ↦ cc (rw (find_absent code w miss absent) at found)
          | inr (row, there) ↦ elim (Bool-cases (is_expired w.now row.expires_at)) [
            | inl dead ↦ cc (rw (find_expired code row w miss there dead) at found)
            | inr live ↦
                let same : loaded code row w ≡ one u =
                  cc (rw (find_miss code row w miss there live) at found) in
                (row, there, ground arith, ground arith)
          ]
        ]
      ]

  -- In such a history, of the methods of UrlsService without the cleanup, from an empty cache, with no
  -- failing call and with a free code for each create, a lookup that answers with a URL shows the target and
  -- the owner of the row of its code, and the next step leaves the row as it is or takes it away: as long as
  -- the drawn codes are free, a code is not pointed at another target.
  pub lookup_refines :
      {w v : World env} (w' : World env) (code : String) (u : Url)
      → ((key : String) → env.redis.get w.redis key ≡ none)
      → Reach w v
      → Step v w'
      → (find_by_short_code code (calm v)).0 ≡ ok (one u)
      → (row : UrlRow) × (env.db.url v.db code ≡ some row)
        × (u.original_url ≡ row.original_url)
        × (u.user_id ≡ row.user_id)
        × ((env.db.url w'.db code ≡ some row) ⊎ (env.db.url w'.db code ≡ none))
  lookup_refines {v} w' code u empty r s found =
      let tidy = Reach-IsTidy empty r in
      let (row, there, target, owner) = lookup-row code v u tidy found in
      let change = (Step-Proceeds v w' s tidy).1 in
      (row, there, target, owner, Change-row (rows v) (rows w') code row change there)
