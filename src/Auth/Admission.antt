-- ===== src/Auth/Admission.antt =====
-- Which requests the guards let through, and what the handlers behind them answer.
use dist_link.Base.{suc, ◌+◌, ◌<◌, String, ◌≡◌, refl, true, false, Option, none, some, arith}
use dist_link.Base.Exec.{Error, Result, ok, err}
use dist_link.Auth.World.{Env, World, calm, UserRow, access_secret, Payload}
use dist_link.Auth.Users.{User, user_of, UserData}
use dist_link.Auth.Tokens.{payload_of, access_life, verification_life}
use dist_link.Auth.Service.{Session, login, register}
use dist_link.Auth.Sessions.{public_user, tokens_at, login_effect}
use dist_link.Auth.Accounts.{new_account, verification_token, verify-register}
use dist_link.Auth.Guards.{
  refusal, Attempt, judge, judge_optional, handle_request, handle_optional_request, validate,
  Passport, user_of_request, optional_user_of_request, logout, get_profile, check_token,
  change_password,
}

-- A refusal is null to a handler whose user is optional.
abbrev pub as_optional : Result User → Result (Option User)
as_optional (ok user) = ok (some user)
as_optional (err e) = ok none

judge-as_optional : (a : Attempt) → judge_optional a ≡ as_optional (judge a)
unfolding handle_request handle_optional_request
judge-as_optional a = ground arith

module _ {env : Env} (passport : Passport env) where
  -- The optional guard lets every request through: with the user where the guard lets it through, and
  -- with null where the guard refuses it.
  optional_user_agrees :
      (token : String) (w : World env)
      → optional_user_of_request passport token w
        ≡ (as_optional (user_of_request passport token w).0, (user_of_request passport token w).1)
  unfolding user_of_request optional_user_of_request
  optional_user_agrees token w = rw (judge-as_optional (passport.authenticate validate token w).0)

  judge_absent : (a : Attempt) → a.user ≡ none → judge a ≡ err (refusal a.failure a.info)
  unfolding handle_request
  judge_absent a absent = ground arith

  pub user_refused :
      (token : String) (w : World env)
      → env.jwt.verify access_secret token w.now ≡ none
      → (e : Error) × (user_of_request passport token w ≡ (err e, w))
  unfolding user_of_request
  user_refused token w invalid =
      let (absent, same) = passport.authenticate-invalid validate token w invalid in
      let a = (passport.authenticate validate token w).0 in
      (refusal a.failure a.info, rw (judge_absent a absent, same))

  -- A token that does not verify under JWT_SECRET opens no handler behind the guard: each of them
  -- answers with the same error and changes nothing.
  invalid_token_refused :
      (token current new : String) (w : World env)
      → env.jwt.verify access_secret token w.now ≡ none
      → (e : Error) × (get_profile passport token w ≡ (err e, w))
        × (check_token passport token w ≡ (err e, w))
        × (logout passport token w ≡ (err e, w))
        × (change_password passport token current new w ≡ (err e, w))
  unfolding get_profile check_token logout change_password
  invalid_token_refused token current new w invalid =
      let (e, out) = user_refused token w invalid in (e, out, rw out, rw out, rw out)

  admitted :
      (token : String) (p : Payload) (row : UserRow) (w : World env)
      → env.jwt.verify access_secret token w.now ≡ some p
      → env.users.by_id w.users p.sub ≡ some row
      → get_profile passport token (calm w) ≡ (ok (user_of row), calm w)
  unfolding get_profile user_of_request validate
  admitted token p row w valid there =
      rw (passport.authenticate-valid validate token p (calm w) valid, there)

  -- The access token of a login admits its user for fifteen minutes, if the account is as the login
  -- found it; the profile that is then shown has the hash of the password, which the login hides.
  pub get_profile-login :
      (email password hashed : String) (row : UserRow) (w later : World env)
      → env.users.by_email w.users email ≡ some row
      → row.password ≡ some hashed
      → env.bcrypt.compare password hashed ≡ true
      → row.is_active ≡ true
      → later.users ≡ w.users
      → later.now < w.now + access_life
      → (s : Session) × ((login email password (calm w)).0 ≡ ok s)
        × (s.user.password ≡ none)
        × ((get_profile passport s.tokens.access_token (calm later)).0 ≡ ok (user_of row))
        × ((user_of row).password ≡ some hashed)
  get_profile-login email password hashed row w later found kept good active same soon =
      let s : Session = record { user = public_user row; tokens = tokens_at w (public_user row) } in
      let valid =
        env.jwt.verify-sign access_secret (payload_of (public_user row)) w.now access_life later.now
          soon in
      let there : env.users.by_id later.users row.id ≡ some row =
        rw same (env.users.by_email-by_id w.users email row found).0 in
      (
        s,
        rw (login_effect email password hashed row w found kept good active),
        refl,
        rw (admitted s.tokens.access_token (payload_of (public_user row)) row later valid there),
        kept,
      )

  -- The token of the verification email admits an account that is not active: within a day of a
  -- registration of a new email, with no failing call and if the accounts are as the registration left
  -- them, its profile is shown to the holder of the token, who has verified nothing.
  pub verification_token_admits :
      (d : UserData) (w later : World env)
      → env.users.by_email w.users d.email ≡ none
      → later.users ≡ (register d (calm w)).1.users
      → later.now < w.now + verification_life
      → (u : User) × ((get_profile passport (verification_token d w) (calm later)).0 ≡ ok u)
        × (u.email ≡ some d.email)
        × (u.is_active ≡ false)
  verification_token_admits d w later free same soon =
      let p : Payload = record { sub = env.uuid (suc w.seed); email = some d.email } in
      let valid = env.jwt.verify-sign access_secret p w.now verification_life later.now soon in
      let there = (verify-register d w later free same soon).0 in
      (
        user_of (new_account d w),
        rw (admitted (verification_token d w) p (new_account d w) later valid there),
        refl,
        refl,
      )
