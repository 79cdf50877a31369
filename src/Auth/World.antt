-- ===== src/Auth/World.antt =====
-- What the user and authentication services run in: the table `link_users`, Redis, bcrypt, the JWT
-- library and the email queue. Each call of a client consumes the next outcome of a script.
use dist_link.Base.{
  ℕ, suc, ◌+◌, ◌<◌, String, ◌≡◌, Bool, true, false, Option, none, some, List, [], ◌∷◌, ◌++◌, ◌==◌,
  if◌then◌else◌,
}
use dist_link.Base.Dict.{or_else}
use dist_link.Base.Exec.{generic, ok, err, Exec}
use dist_link.Redis.{Redis}
use dist_link.Base.Faults.{next_fails, later}

-- A row of `link_users`; a column that was never written is null.
pub record UserRow : Type 0 where
  pub id : String
  pub email : Option String
  pub password : Option String
  pub full_name : Option String
  pub google_id : Option String
  pub is_active : Bool
  pub created_at : Option ℕ
  pub updated_at : Option ℕ

abbrev pub blank : String → UserRow
blank id = record {
  id = id;
  email = none;
  password = none;
  full_name = none;
  google_id = none;
  is_active = false;
  created_at = none;
  updated_at = none;
}

-- The table, by its key and by its two indexes. An INSERT replaces a row; an UPDATE of a key that is
-- not there makes its row.
pub record UserTable : Type 1 where
  pub State : Type 0
  pub by_id : State → String → Option UserRow
  pub by_email : State → String → Option UserRow
  pub by_google_id : State → String → Option UserRow
  pub insert : State → UserRow → State
  pub update : State → String → (UserRow → UserRow) → State
  pub by_id-insert :
      (s : State) (r : UserRow) (j : String)
      → by_id (insert s r) j ≡ (if r.id == j then some r else by_id s j)
  pub by_id-update :
      (s : State) (k j : String) (f : UserRow → UserRow)
      → by_id (update s k f) j
        ≡ (if k == j then some (f (or_else (by_id s k) (blank k))) else by_id s j)
  pub by_email-by_id :
      (s : State) (e : String) (r : UserRow)
      → by_email s e ≡ some r
      → (by_id s r.id ≡ some r) × (r.email ≡ some e)
  pub by_google_id-by_id :
      (s : State) (g : String) (r : UserRow)
      → by_google_id s g ≡ some r
      → (by_id s r.id ≡ some r) × (r.google_id ≡ some g)
  pub by_email-complete :
      (s : State) (e : String) (r : UserRow)
      → by_id s r.id ≡ some r
      → r.email ≡ some e
      → (q : UserRow) × (by_email s e ≡ some q)
  pub by_google_id-complete :
      (s : State) (g : String) (r : UserRow)
      → by_id s r.id ≡ some r
      → r.google_id ≡ some g
      → (q : UserRow) × (by_google_id s g ≡ some q)

-- The key that signs: `JWT_SECRET` or `JWT_REFRESH_SECRET`.
pub data Secret : Type 0 where
  access_secret refresh_secret : Secret

pub record Payload : Type 0 where
  pub sub : String
  pub email : Option String

-- `sign` takes the time of issue and the life of the token; `verify` the time of the check.
pub record Jwt : Type 0 where
  pub sign : Secret → Payload → (issued life : ℕ) → String
  pub verify : Secret → String → (now : ℕ) → Option Payload
  pub verify-sign :
      (s : Secret) (p : Payload) (issued life now : ℕ)
      → now < issued + life
      → verify s (sign s p issued life) now ≡ some p

-- `hash` takes the random salt.
pub record Bcrypt : Type 0 where
  pub hash : (salt : ℕ) → String → String
  pub compare : String → String → Bool
  pub compare-hash : (salt : ℕ) (password : String) → compare password (hash salt password) ≡ true

pub record Env : Type 1 where
  pub users : UserTable
  pub redis : Redis String
  pub jwt : Jwt
  pub bcrypt : Bcrypt
  pub uuid : ℕ → String
  pub base_url : String

-- A job of the email queue.
pub data Job : Type 0 where
  verification : (to : Option String) (name : Option String) (link : String) → Job
  password_reset : (to : Option String) (name : Option String) (link : String) → Job

pub record World (env : Env) : Type 0 where
  pub now : ℕ
  pub users : env.users.State
  pub redis : env.redis.State
  -- what the next random choice, of a salt or of an id, is made from
  pub seed : ℕ
  pub jobs : List Job
  pub faults : List Bool

module _ {env : Env} where
  unfoldable pub query : {A : Type 0} → (World env → A) → Exec (World env) A
  query f w =
      if next_fails w.faults
      then (err generic, record w { faults = later w.faults })
      else (ok (f w), record w { faults = later w.faults })

  -- A call that changes the world, or fails and changes nothing.
  unfoldable pub call : (World env → World env) → Exec (World env) Unit
  call f w =
      if next_fails w.faults
      then (err generic, record w { faults = later w.faults })
      else (ok tt, record (f w) { faults = later w.faults })

  abbrev pub fresh : Exec (World env) ℕ
  fresh w = (ok w.seed, record w { seed = suc w.seed })

  -- `addVerificationEmailJob` and `addPasswordResetEmailJob`
  unfoldable pub add_job : Job → Exec (World env) Unit
  unfolding call
  add_job job = call (λ w. record w { jobs = w.jobs ++ job ∷ [] })

  abbrev pub calm : World env → World env
  calm w = record w { faults = [] }
