-- ===== src/Urls/Effects.antt =====
-- The state after each operation of the URL service when no call fails: the cache stays coherent,
-- and the rows change as the directory allows.
use dist_link.Base.{
  String, ◌≡◌, refl, inl, inr, Option, none, some, List, eq_refl, Bool-cases, Option-cases,
}
use dist_link.SafeBrowsing.{check_url}
use dist_link.Urls.Types.{UrlRow, CreateUrlDto}
use dist_link.Urls.World.{Env, World, calm}
use dist_link.Urls.Values.{get_redis_key, json, is_expired}
use dist_link.Urls.Records.{remove}
use dist_link.Urls.Service.{find_by_short_code}
use dist_link.Urls.Edit.{create}
use dist_link.Urls.Creation.{
  forget_lists, get-forget_lists, stocked, after_create, created_row, create_effect, create_unsafe,
}
use dist_link.Urls.Lookup.{
  forget, remember, loaded, remove_effect, remove_absent, find_hit, find_miss, find_expired,
  find_absent,
}
use dist_link.Urls.Coherence.{
  IsCoherent, json-Shows, del-IsCoherent, set-IsCoherent, same-IsCoherent, insert-IsCoherent,
  delete-IsCoherent,
}
use dist_link.Urls.Directory.{Directory, Change, keeps, adds, drops}

pub forget_lists-IsCoherent :
    (env : Env) (db : env.db.State) (cache : env.redis.State) (user : Option String)
    → IsCoherent env db cache
    → IsCoherent env db (forget_lists env cache user)
forget_lists-IsCoherent env db cache none h = del-IsCoherent env db cache h _
forget_lists-IsCoherent env db cache (some user) h =
    del-IsCoherent env db _ (del-IsCoherent env db cache h _) _

module _ {env : Env} where
  abbrev pub rows : World env → Directory
  rows w code = env.db.url w.db code

  abbrev pub IsTidy : World env → Type 0
  IsTidy w = IsCoherent env w.db w.redis

  -- What each operation achieves.
  abbrev pub Proceeds : World env → World env → Type 0
  Proceeds w w' = IsTidy w' × Change (rows w) (rows w')

  pub forget-Proceeds :
      (code : String) (user : Option String) (w : World env)
      → IsTidy w
      → Proceeds w (forget code user w)
  forget-Proceeds code user w h =
      let key = get_redis_key env.key_prefix code in
      let cache = env.redis.del w.redis key in
      let cleared =
        forget_lists-IsCoherent env w.db cache user (del-IsCoherent env w.db w.redis h key) in
      let missing = get-forget_lists env cache user key (rw (env.redis.get-del, eq_refl)) in
      let gone = delete-IsCoherent env w.db (forget_lists env cache user) cleared code missing in
      (
        same-IsCoherent env _ _ gone (env.db.delete_clicks (env.db.delete w.db code) code)
            (env.db.url-delete_clicks (env.db.delete w.db code) code),
        drops code (λ j. rw (env.db.url-delete_clicks, env.db.url-delete)),
      )

  pub remember-Proceeds :
      (code : String) (row : UrlRow) (w : World env)
      → IsTidy w
      → env.db.url w.db code ≡ some row
      → Proceeds w (remember code (loaded code row w) w)
  remember-Proceeds code row w h there = (
    set-IsCoherent env w.db w.redis h code (json (loaded code row w)) env.ttl
        (λ u e. (row, there, json-Shows env.base_url row (env.db.clicks w.db code) u e)),
    keeps (λ j. refl),
  )

  pub find-Proceeds :
      (code : String) (w : World env) → IsTidy w → Proceeds w (find_by_short_code code (calm w)).1
  find-Proceeds code w h =
      elim (Option-cases (env.redis.get w.redis (get_redis_key env.key_prefix code))) [
        | inr (cached, hit) ↦ rw (find_hit code cached w hit) (h, keeps (λ j. refl))
        | inl miss ↦ elim (Option-cases (env.db.url w.db code)) [
          | inl absent ↦ rw (find_absent code w miss absent) (h, keeps (λ j. refl))
          | inr (row, there) ↦ elim (Bool-cases (is_expired w.now row.expires_at)) [
            | inl dead ↦
                rw (find_expired code row w miss there dead) (forget-Proceeds code row.user_id w h)
            | inr live ↦
                rw (find_miss code row w miss there live) (remember-Proceeds code row w h there)
          ]
        ]
      ]

  pub remove-Proceeds :
      (code : String) (w : World env) → IsTidy w → Proceeds w (remove code (calm w)).1
  remove-Proceeds code w h = elim (Option-cases (env.db.url w.db code)) [
    | inl absent ↦ rw (remove_absent code w absent) (h, keeps (λ j. refl))
    | inr (row, there) ↦ rw (remove_effect code row w there) (forget-Proceeds code row.user_id w h)
  ]

  create_safe-Proceeds :
      (code : String) (rest : List String) (dto : CreateUrlDto) (user : Option String)
      (w : World env)
      → IsTidy w
      → env.db.url w.db code ≡ none
      → Proceeds w (after_create code rest dto user w)
  create_safe-Proceeds code rest dto user w h free =
      let row = created_row code dto user w in
      let added = insert-IsCoherent env w.db w.redis h row free in
      let counted =
        same-IsCoherent env _ _ added (env.db.add_clicks (env.db.insert w.db row) code 0)
          (λ j. env.db.url-add_clicks _ code j 0) in
      (
        forget_lists-IsCoherent env _ w.redis user counted,
        adds row free (λ j. rw (env.db.url-add_clicks, env.db.url-insert)),
      )

  pub create-Proceeds :
      (code : String) (rest : List String) (dto : CreateUrlDto) (user : Option String)
      (w : World env)
      → IsTidy w
      → env.db.url w.db code ≡ none
      → Proceeds w (create dto user (stocked code rest w)).1
  create-Proceeds code rest dto user w h free =
      elim (Bool-cases (check_url env.safe_browsing dto.original_url).is_safe) [
        | inl safe ↦
            rw (create_effect code rest dto user w safe)
              (create_safe-Proceeds code rest dto user w h free)
        | inr unsafe ↦
            rw (create_unsafe dto user (stocked code rest w) unsafe) (h, keeps (λ j. refl))
      ]
