-- ===== src/Auth/Users.antt =====
-- modules/users/users.service.ts: the methods of `UsersService`.
use dist_link.Base.{String, Bool, true, false, not, Option, none, some, ◌==◌}
use dist_link.Base.Exec.{
  Error, conflict, not_found, bad_request, Exec, pure, throw, gets, guard, ◌>>=◌, ◌>>◌,
}
use dist_link.Auth.World.{UserRow, Env, World, query, call, fresh}

-- users/entities/user.entity.ts, as far as the services read it
pub record User : Type 0 where
  pub id : String
  pub email : Option String
  pub password : Option String
  pub full_name : Option String
  pub google_id : Option String
  pub is_active : Bool

-- The `userData` of a registration.
pub record UserData : Type 0 where
  pub email : String
  pub password : String
  pub full_name : String

abbrev pub user_of : UserRow → User
user_of r = record {
  id = r.id;
  email = r.email;
  password = r.password;
  full_name = r.full_name;
  google_id = r.google_id;
  is_active = r.is_active;
}

-- `findByEmail` does not read the column `google_id`.
abbrev pub user_by_email : UserRow → User
user_by_email r = record (user_of r) { google_id = none }

abbrev pub map_user : (UserRow → User) → Option UserRow → Option User
map_user f none = none
map_user f (some r) = some (f r)

abbrev pub is_some : {A : Type 0} → Option A → Bool
is_some none = false
is_some (some a) = true

-- `existingGoogleLink && existingGoogleLink.id !== userId`
abbrev pub linked_elsewhere : Option User → String → Bool
linked_elsewhere none id = false
linked_elsewhere (some u) id = not (u.id == id)

-- `currentPassword.rows[0].password === hashedPassword`
abbrev pub same_password : Option String → String → Bool
same_password none hashed = false
same_password (some p) hashed = p == hashed

abbrev pub or_throw : {S A : Type 0} → Error → Option A → Exec S A
or_throw e none = throw e
or_throw e (some a) = pure a

module _ {env : Env} where
  unfoldable pub find_by_email : String → Exec (World env) (Option User)
  unfolding query
  find_by_email email = query (λ w. map_user user_by_email (env.users.by_email w.users email))

  unfoldable pub find_by_google_id : String → Exec (World env) (Option User)
  unfolding query
  find_by_google_id g = query (λ w. map_user user_of (env.users.by_google_id w.users g))

  unfoldable pub find_by_id : String → Exec (World env) (Option User)
  unfolding query
  find_by_id id = query (λ w. map_user user_of (env.users.by_id w.users id))

  abbrev pub hash : String → Exec (World env) String
  hash password = do salt ← fresh; pure (env.bcrypt.hash salt password)

  abbrev pub insert_user : UserRow → Exec (World env) Unit
  insert_user row = call (λ w. record w { users = env.users.insert w.users row })

  abbrev pub update_user : String → (UserRow → UserRow) → Exec (World env) Unit
  update_user id f = call (λ w. record w { users = env.users.update w.users id f })

  unfoldable pub create : UserData → Exec (World env) User
  unfolding query call
  create data' = do
    existing ← query (λ w. env.users.by_email w.users data'.email)
    guard (not (is_some existing)) conflict
    hashed ← hash data'.password
    seed ← fresh
    now ← gets (λ w. w.now)
    insert_user (record {
      id = env.uuid seed;
      email = some data'.email;
      password = some hashed;
      full_name = some data'.full_name;
      google_id = none;
      is_active = false;
      created_at = some now;
      updated_at = some now;
    })
    pure (record {
      id = env.uuid seed;
      email = some data'.email;
      password = none;
      full_name = some data'.full_name;
      google_id = none;
      is_active = false;
    })

  unfoldable pub update_password : String → String → Exec (World env) Bool
  unfolding query call
  update_password id new = do
    hashed ← hash new
    current ← query (λ w. env.users.by_id w.users id)
    row ← or_throw not_found current
    guard (not (same_password row.password hashed)) bad_request
    now ← gets (λ w. w.now)
    update_user id (λ r. record r { password = some hashed; updated_at = some now })
    pure true

  unfoldable pub activate_user : String → Exec (World env) Unit
  unfolding call
  activate_user id = update_user id (λ r. record r { is_active = true })

  unfoldable pub create_from_google :
      (email : String) (full_name : String) (google_id : String) → Exec (World env) User
  unfolding call
  create_from_google email full_name google_id = do
    seed ← fresh
    now ← gets (λ w. w.now)
    insert_user (record {
      id = env.uuid seed;
      email = some email;
      password = none;
      full_name = some full_name;
      google_id = some google_id;
      is_active = true;
      created_at = some now;
      updated_at = some now;
    })
    pure (record {
      id = env.uuid seed;
      email = some email;
      password = none;
      full_name = some full_name;
      google_id = some google_id;
      is_active = true;
    })

  unfoldable pub link_google_id : String → String → Exec (World env) User
  unfolding find_by_google_id find_by_id call
  link_google_id id google_id = do
    existing ← find_by_google_id google_id
    guard (not (linked_elsewhere existing id)) conflict
    now ← gets (λ w. w.now)
    update_user id
        (λ r. record r { google_id = some google_id; updated_at = some now; is_active = true })
    updated ← find_by_id id
    or_throw not_found updated

  unfoldable pub update_google_profile : String → String → Exec (World env) User
  unfolding find_by_id call
  update_google_profile id full_name = do
    now ← gets (λ w. w.now)
    update_user id (λ r. record r { full_name = some full_name; updated_at = some now })
    updated ← find_by_id id
    or_throw not_found updated
