-- ===== src/Auth/Steps.antt =====
-- What the single calls of the services do to the accounts, and how that adds up along a method.
use mathlib.Core.Path.{subst}
use dist_link.Base.{
  ℕ, ◌≤◌, String, ◌≡◌, refl, sym, ◌∙◌, Bool, true, false, Option, none, some, Bool-cases, arith,
  inl, inr, ◌⊎◌,
}
use dist_link.Base.Dict.{or_else}
use dist_link.Base.Exec.{Error, Result, ok, err, Exec, pure, guard, proceed, recover, ◌>>◌}
use dist_link.Base.Faults.{next_fails}
use dist_link.Auth.World.{UserRow, blank, Env, World, query, call}
use dist_link.Auth.Users.{or_throw, insert_user, update_user}
use dist_link.Auth.Writes.{IsFree, Write, Evolves, stays, writes, evolves_trans}

module _ {env : Env} where
  -- The accounts that an action leaves are grown out of those that it found.
  abbrev pub Grown : {A : Type 0} → World env → Result A × World env → Type 0
  Grown w out = Evolves env.users w.users out.1.users

  pub same-Grown :
      {A : Type 0} (w : World env) (out : Result A × World env)
      → out.1.users ≡ w.users
      → Grown w out
  same-Grown w out same = subst (λ u. Evolves env.users w.users u) (sym same) stays

  pub proceed-Grown :
      {A B : Type 0} (w v : World env) (r : Result A) (k : A → Exec (World env) B)
      → Evolves env.users w.users v.users
      → ((a : A) → r ≡ ok a → Grown v (k a v))
      → Grown w (proceed r v k)
  proceed-Grown w v (ok a) k e h =
      evolves_trans env.users w.users v.users (k a v).1.users e (h a refl)
  proceed-Grown w v (err e) k g h = g

  pub recover-Grown :
      {A : Type 0} (w v : World env) (r : Result A) (h : Error → Exec (World env) A)
      → Evolves env.users w.users v.users
      → ((e : Error) → Grown v (h e v))
      → Grown w (recover r v h)
  recover-Grown w v (ok a) h g k = g
  recover-Grown w v (err e) h g k = evolves_trans env.users w.users v.users (h e v).1.users g (k e)

  pub query-users : {A : Type 0} (f : World env → A) (w : World env) → (query f w).1.users ≡ w.users
  unfolding query
  query-users f w = ground arith

  pub query-seed : {A : Type 0} (f : World env → A) (w : World env) → (query f w).1.seed ≡ w.seed
  unfolding query
  query-seed f w = ground arith

  pub query-ok :
      {A : Type 0} (f : World env → A) (w : World env) (a : A) → (query f w).0 ≡ ok a → a ≡ f w
  unfolding query
  query-ok f w a h = ground arith

  pub guard-ok :
      (b : Bool) (e : Error) (w : World env) (t : Unit {0}) → (guard b e w).0 ≡ ok t → b ≡ true
  guard-ok true e w t h = refl
  guard-ok false e w t h = cc

  pub query-Grown :
      {A : Type 0} (f : World env → A) (w : World env)
      → Evolves env.users w.users (query f w).1.users
  query-Grown f w = same-Grown w (query f w) (query-users f w)

  pub call-users :
      (f : World env → World env) (w : World env)
      → (f w).users ≡ w.users
      → (call f w).1.users ≡ w.users
  unfolding call
  call-users f w h = ground (arith, h)

  pub guard-Grown :
      (b : Bool) (e : Error) (w : World env) → Evolves env.users w.users (guard b e w).1.users
  guard-Grown true e w = stays
  guard-Grown false e w = stays

  pub or_throw-Grown :
      {A : Type 0} (e : Error) (o : Option A) (w : World env)
      → Evolves env.users w.users (or_throw e o w).1.users
  or_throw-Grown e none w = stays
  or_throw-Grown e (some a) w = stays

  -- A call that may fail grows the accounts when its write does.
  pub call-Grown :
      (f : World env → World env) (w : World env)
      → Evolves env.users w.users (f w).users
      → Evolves env.users w.users (call f w).1.users
  unfolding call
  call-Grown f w h = elim (Bool-cases (next_fails w.faults)) [
    | inl fails ↦ rw fails stays
    | inr works ↦ rw works h
  ]

  -- No account stands under an id that is still to be drawn.
  abbrev pub IsUnused : World env → Type 0
  IsUnused w = (n : ℕ) → w.seed ≤ n → env.users.by_id w.users (env.uuid n) ≡ none

  pub insert-Grown :
      {A : Type 0} (row : UserRow) (a : A) (w : World env)
      → env.users.by_id w.users row.id ≡ none
      → ((e : String) → row.email ≡ some e → IsFree env.users (λ r. r.email) w.users e)
      → ((e : String) → row.google_id ≡ some e → IsFree env.users (λ r. r.google_id) w.users e)
      → Evolves env.users w.users ((insert_user row >> pure a) w).1.users
  insert-Grown row a w absent email google =
      let write : Write env.users w.users (env.users.insert w.users row) = record {
        target = row.id;
        row = row;
        written = env.users.by_id-insert w.users row;
        id_kept = rw absent refl;
        email_kept = λ e h. cc (rw absent at h);
        active_kept = λ h. cc (rw absent at h);
        email_allowed = λ e h. inr (email e h);
        google_allowed = λ e h. inr (google e h);
      } in
      let step =
        call-Grown (λ v. record v { users = env.users.insert v.users row }) w
          (writes stays write) in
      proceed-Grown w (insert_user row w).1 (insert_user row w).0 (λ _. pure a) step (λ _ _. stays)

  pub update-Grown :
      (id : String) (f : UserRow → UserRow) (w : World env)
      → ((r : UserRow) → (f r).id ≡ r.id)
      → ((r : UserRow) → (f r).email ≡ r.email)
      → ((r : UserRow) → r.is_active ≡ true → (f r).is_active ≡ true)
      → ((r : UserRow) (e : String)
          → (f r).google_id ≡ some e
          → (r.google_id ≡ some e) ⊎ IsFree env.users (λ r. r.google_id) w.users e)
      → Evolves env.users w.users (update_user id f w).1.users
  update-Grown id f w ids emails active google =
      let old = or_else (env.users.by_id w.users id) (blank id) in
      call-Grown (λ v. record v { users = env.users.update v.users id f }) w
        (writes stays (record {
          target = id;
          row = f old;
          written = λ j. env.users.by_id-update w.users id j f;
          id_kept = ids old;
          email_kept = λ e h. emails old ∙ h;
          active_kept = active old;
          email_allowed = λ e h. inl (sym (emails old) ∙ h);
          google_allowed = google old;
        }))
