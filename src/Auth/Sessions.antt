-- ===== src/Auth/Sessions.antt =====
-- Sessions: who can log in, and which refresh tokens are accepted.
use dist_link.Base.{
  ◌+◌, ◌<◌, String, ◌≡◌, refl, ap, inl, inr, true, false, ◌&&◌, none, some, [], arith, ◌==◌,
  eq_refl, eq_iff, ◌≢◌, Option, Bool-cases, Option-cases,
}
use dist_link.Base.Exec.{Result, ok, err, unauthorized}
use dist_link.Auth.World.{Env, World, calm, UserRow, access_secret, refresh_secret, Payload}
use dist_link.Auth.Users.{User, user_of, user_by_email}
use dist_link.Auth.Tokens.{Tokens, refresh_key, payload_of, access_life, refresh_life}
use dist_link.Auth.Service.{login, logout, refresh_token, is_stored}

-- What a login shows of an account: all but its password.
abbrev pub public_user : UserRow → User
public_user row = record (user_by_email row) { password = none }

not_stored : (o : Option String) (token : String) → o ≢ some token → is_stored o token ≡ false
not_stored none token h = refl
not_stored (some s) token h = elim (Bool-cases (s == token)) [
  | inl same ↦ absurd (h (ap some ((eq_iff s token).0 same)))
  | inr other ↦ ground arith
]

module _ {env : Env} where
  abbrev pub tokens_at : World env → User → Tokens
  tokens_at w user = record {
    access_token = env.jwt.sign access_secret (payload_of user) w.now access_life;
    refresh_token = env.jwt.sign refresh_secret (payload_of user) w.now refresh_life;
  }

  abbrev pub remember : String → String → World env → World env
  remember id token w = record w {
    redis = env.redis.set w.redis (refresh_key id) token refresh_life;
    faults = [];
  }

  -- The password of an active account opens a session: the answer has the account without its
  -- password, and the refresh token of the answer is the one that Redis keeps for it.
  pub login_effect :
      (email password hashed : String) (row : UserRow) (w : World env)
      → env.users.by_email w.users email ≡ some row
      → row.password ≡ some hashed
      → env.bcrypt.compare password hashed ≡ true
      → row.is_active ≡ true
      → login email password (calm w) ≡ (
        ok (record { user = public_user row; tokens = tokens_at w (public_user row) }),
        remember row.id (tokens_at w (public_user row)).refresh_token w,
      )
  unfolding login
  login_effect email password hashed row w found kept good active = rw (found, kept, good, active)

  login_unknown :
      (email password : String) (w : World env)
      → env.users.by_email w.users email ≡ none
      → login email password (calm w) ≡ (err unauthorized, calm w)
  unfolding login
  login_unknown email password w missing = rw missing

  -- A wrong password, or an account that is not activated, is answered with 401, and nothing changes.
  login_refused :
      (email password hashed : String) (row : UserRow) (w : World env)
      → env.users.by_email w.users email ≡ some row
      → row.password ≡ some hashed
      → (env.bcrypt.compare password hashed && row.is_active) ≡ false
      → login email password (calm w) ≡ (err unauthorized, calm w)
  unfolding login
  login_refused email password hashed row w found kept bad =
      elim (Bool-cases (env.bcrypt.compare password hashed)) [
        | inr wrong ↦ rw (found, kept, wrong)
        | inl good ↦
            let inactive : row.is_active ≡ false = ground arith in rw (found, kept, good, inactive)
      ]

  -- A refresh token that is stored and verifies gives new tokens for its user, and the new refresh
  -- token takes its place.
  pub refresh_effect :
      (token : String) (p : Payload) (row : UserRow) (w : World env)
      → env.jwt.verify refresh_secret token w.now ≡ some p
      → env.redis.get w.redis (refresh_key p.sub) ≡ some token
      → (token == "") ≡ false
      → env.users.by_id w.users p.sub ≡ some row
      → refresh_token token (calm w) ≡ (
        ok (tokens_at w (user_of row)),
        remember row.id (tokens_at w (user_of row)).refresh_token w,
      )
  unfolding refresh_token
  refresh_effect token p row w valid stored real there =
      rw (valid, stored, real, eq_refl token, there)

  -- Whatever calls fail: a refresh token that is not the one that Redis keeps for the user whom it
  -- names is answered with 401, and changes neither the accounts nor Redis.
  pub refresh_rejects :
      (token : String) (w : World env)
      → ((p : Payload)
          → env.jwt.verify refresh_secret token w.now ≡ some p
          → env.redis.get w.redis (refresh_key p.sub) ≢ some token)
      → ((refresh_token token w).0 ≡ err unauthorized)
        × ((refresh_token token w).1.redis ≡ w.redis)
        × ((refresh_token token w).1.users ≡ w.users)
  refresh_rejects token w bad = elim (Option-cases (env.jwt.verify refresh_secret token w.now)) [
    | inl invalid ↦ unfold refresh_token in rw invalid (refl, refl, refl)
    | inr (p, valid) ↦
        let foreign = not_stored (env.redis.get w.redis (refresh_key p.sub)) token (bad p valid) in
        unfold refresh_token in ground arith
  ]

  -- After a logout no refresh token of the user is accepted, as long as nobody logs in again.
  pub logout_revokes :
      (token : String) (p : Payload) (w : World env)
      → env.jwt.verify refresh_secret token w.now ≡ some p
      → refresh_token token (logout p.sub (calm w)).1
        ≡ (err unauthorized, (logout p.sub (calm w)).1)
  unfolding refresh_token logout
  logout_revokes token p w valid = rw (valid, env.redis.get-del, eq_refl)

  -- A login opens a session that can be refreshed: at any time before the refresh token runs out, if
  -- Redis and the account are as the login left them, the token gives new tokens.
  pub refresh-login :
      (email password hashed : String) (row : UserRow) (w later : World env)
      → env.users.by_email w.users email ≡ some row
      → row.password ≡ some hashed
      → env.bcrypt.compare password hashed ≡ true
      → row.is_active ≡ true
      → (env.jwt.sign refresh_secret (payload_of (public_user row)) w.now refresh_life == "")
        ≡ false
      → later.redis ≡ (login email password (calm w)).1.redis
      → later.users ≡ w.users
      → later.now < w.now + refresh_life
      → (refresh_token (tokens_at w (public_user row)).refresh_token (calm later)).0
        ≡ ok (tokens_at later (user_of row))
  refresh-login email password hashed row w later found kept good active real cache table soon =
      let valid =
        env.jwt.verify-sign refresh_secret (payload_of (public_user row)) w.now refresh_life
          later.now soon in
      let opened = login_effect email password hashed row w found kept good active in
      let stored : env.redis.get later.redis (refresh_key row.id)
          ≡ some (tokens_at w (public_user row)).refresh_token =
        rw (cache, opened, env.redis.get-set, eq_refl) in
      let there : env.users.by_id later.users row.id ≡ some row =
        rw table (env.users.by_email-by_id w.users email row found).0 in
      ap (λ (r : Result Tokens × World env). r.0)
        (refresh_effect (tokens_at w (public_user row)).refresh_token (payload_of (public_user row))
          row later valid stored real there)
