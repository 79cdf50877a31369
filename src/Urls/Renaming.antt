-- ===== src/Urls/Renaming.antt =====
-- The state after `update` when no call fails.
use dist_link.Base.{String, ◌≡◌, refl, inl, inr, true, false, none, some, Bool-cases, Option-cases}
use dist_link.Base.Dict.{ne_of_get}
use dist_link.Urls.Types.{UrlRow, Url, UpdateUrlDto}
use dist_link.Urls.World.{Env, World, calm}
use dist_link.Urls.Values.{acceptable, new_expiration, time_of}
use dist_link.Urls.Edit.{replace}
use dist_link.Urls.Creation.{forget_lists}
use dist_link.Urls.Lookup.{forget}
use dist_link.Urls.Coherence.{insert-IsCoherent, same-IsCoherent}
use dist_link.Urls.Directory.{keeps, moves}
use dist_link.Urls.Effects.{IsTidy, Proceeds, forget-Proceeds, forget_lists-IsCoherent}

module _ {env : Env} (code : String) (dto : UpdateUrlDto) (old : Url) (w : World env) where
  pub replace_unsafe :
      acceptable env.safe_browsing dto.original_url old ≡ false
      → (replace code dto old (calm w)).1 ≡ calm w
  unfolding replace
  replace_unsafe unsafe = rw unsafe

  pub replace_taken :
      (row : UrlRow)
      → acceptable env.safe_browsing dto.original_url old ≡ true
      → env.db.url w.db dto.new_code ≡ some row
      → (replace code dto old (calm w)).1 ≡ calm w
  unfolding replace
  replace_taken row safe taken = rw (safe, taken)

  -- The row under the new code, and the state once it is written.
  abbrev pub moved_row : UrlRow
  moved_row = record {
    short_code = dto.new_code;
    original_url = old.original_url;
    user_id = old.user_id;
    created_at = time_of old.created_at;
    expires_at = new_expiration w.now dto.expiration old;
  }

  abbrev pub copied : World env
  copied = record w { db = env.db.add_clicks (env.db.insert w.db moved_row) dto.new_code 0 }

  replace_free :
      (row : UrlRow)
      → acceptable env.safe_browsing dto.original_url old ≡ true
      → env.db.url w.db dto.new_code ≡ none
      → env.db.url copied.db code ≡ some row
      → (replace code dto old (calm w)).1 ≡ record (forget code row.user_id copied) {
        redis = forget_lists env (forget code row.user_id copied).redis old.user_id;
      }
  unfolding replace
  replace_free row safe free there = elim (Option-cases old.user_id) [
    | inl a ↦ elim (Option-cases row.user_id) [
      | inl b ↦ rw (safe, free, there, a, b)
      | inr (v, b) ↦ rw (safe, free, there, a, b)
    ]
    | inr (u, a) ↦ elim (Option-cases row.user_id) [
      | inl b ↦ rw (safe, free, there, a, b)
      | inr (v, b) ↦ rw (safe, free, there, a, b)
    ]
  ]

  module _ (row : UrlRow) (h : IsTidy w) (free : env.db.url w.db dto.new_code ≡ none)
      (there : env.db.url w.db code ≡ some row) where
    copied-row : env.db.url copied.db code ≡ some row
    copied-row =
        let other = (ne_of_get env.db.url w.db dto.new_code code row free there).0 in
        rw (env.db.url-add_clicks, env.db.url-insert, other) there

    moved-Proceeds :
        old.original_url ≡ row.original_url
        → old.user_id ≡ row.user_id
        → time_of old.created_at ≡ row.created_at
        → Proceeds w (record (forget code row.user_id copied) {
          redis = forget_lists env (forget code row.user_id copied).redis old.user_id;
        })
    moved-Proceeds target owner time =
        let inserted = insert-IsCoherent env w.db w.redis h moved_row free in
        let tidy : IsTidy copied =
          same-IsCoherent env _ w.redis inserted copied.db
            (λ j. env.db.url-add_clicks _ dto.new_code j 0) in
        let gone = (forget-Proceeds code row.user_id copied tidy).0 in
        (
          forget_lists-IsCoherent env (forget code row.user_id copied).db
              (forget code row.user_id copied).redis old.user_id gone,
          moves code row moved_row there free target owner time (λ j. rw (
            env.db.url-delete_clicks, env.db.url-delete, env.db.url-add_clicks, env.db.url-insert,
          )),
        )

    pub replace-Proceeds :
        old.original_url ≡ row.original_url
        → old.user_id ≡ row.user_id
        → time_of old.created_at ≡ row.created_at
        → Proceeds w (replace code dto old (calm w)).1
    replace-Proceeds target owner time =
        elim (Bool-cases (acceptable env.safe_browsing dto.original_url old)) [
          | inr unsafe ↦ rw (replace_unsafe unsafe) (h, keeps (λ j. refl))
          | inl safe ↦ rw (replace_free row safe free copied-row) (moved-Proceeds target owner time)
        ]
