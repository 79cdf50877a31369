-- ===== src/Auth/Service.antt =====
-- modules/auth/auth.service.ts: the methods of `AuthService`.
use Prim.Native.String
use dist_link.Base.{String, Bool, false, not, ◌&&◌, Option, none, some, ◌==◌, if◌then◌else◌}
use dist_link.Base.Exec.{
  conflict, bad_request, unauthorized, generic, Exec, pure, throw, guard, try_catch, ◌>>=◌, ◌>>◌,
}
use dist_link.Auth.World.{
  Env, World, query, call, add_job, verification, password_reset, access_secret, refresh_secret,
}
use dist_link.Auth.Users
use dist_link.Auth.Users.{
  User, UserData, or_throw, is_some, find_by_email, find_by_id, find_by_google_id, update_password,
  activate_user, create_from_google, link_google_id, update_google_profile,
}
use dist_link.Auth.Tokens.{
  Tokens, full_name_of, verification_life, reset_life, refresh_key, verification_key, reset_key,
  payload_of, sign, generate_tokens, redis_set, redis_get, redis_del, store_refresh_token, verify,
}

-- A user with the tokens of a login.
pub record Session : Type 0 where
  pub user : User
  pub tokens : Tokens

-- The profile that Google sends.
pub record GoogleDetails : Type 0 where
  pub email : String
  pub first_name : Option String
  pub last_name : Option String
  pub google_id : String

-- `!storedToken || storedToken !== refreshToken` fails
abbrev pub is_stored : Option String → String → Bool
is_stored none token = false
is_stored (some stored) token = not (stored == "") && stored == token

abbrev pub link_to : (base path token : String) → String
link_to base path token = String.◌++◌ base (String.◌++◌ path token)

module _ {env : Env} where
  -- `bcrypt.compare` throws where there is no hash
  abbrev pub compare : String → Option String → Exec (World env) Bool
  compare password none = throw generic
  compare password (some hashed) = pure (env.bcrypt.compare password hashed)

  abbrev pub check_user : String → Option User → Exec (World env) (Option User)
  check_user password none = pure none
  check_user password (some user) = do
    valid ← compare password user.password
    if valid then pure (some (record user { password = none })) else pure none

  unfoldable pub validate_user : String → String → Exec (World env) (Option User)
  unfolding find_by_email
  validate_user email password = do user ← find_by_email email; check_user password user

  abbrev pub open_session : User → Exec (World env) Session
  open_session user = do
    tokens ← generate_tokens user
    store_refresh_token user.id tokens.refresh_token
    pure (record { user = user; tokens = tokens })

  unfoldable pub login : String → String → Exec (World env) Session
  unfolding validate_user generate_tokens store_refresh_token
  login email password = do
    found ← validate_user email password
    user ← or_throw unauthorized found
    guard user.is_active unauthorized
    open_session user

  unfoldable pub register : UserData → Exec (World env) User
  unfolding Users.create call add_job
  register data' = do
    user ← Users.create data'
    token ← sign access_secret (payload_of user) verification_life
    redis_set (verification_key user.id) token verification_life
    add_job (
        verification user.email user.full_name
          (link_to env.base_url "/auth/verify-email?token=" token))
    pure user

  unfoldable pub verify_email : String → Exec (World env) Unit
  unfolding activate_user call
  verify_email token =
      try_catch
        (do
          payload ← verify access_secret token
          activate_user payload.sub
          redis_del (verification_key payload.sub))
        (λ _. throw bad_request)

  unfoldable pub refresh_token : String → Exec (World env) Tokens
  unfolding query find_by_id generate_tokens store_refresh_token
  refresh_token token =
      try_catch
        (do
          payload ← verify refresh_secret token
          stored ← redis_get (refresh_key payload.sub)
          guard (is_stored stored token) unauthorized
          found ← find_by_id payload.sub
          user ← or_throw unauthorized found
          tokens ← generate_tokens user
          store_refresh_token user.id tokens.refresh_token
          pure tokens)
        (λ _. throw unauthorized)

  unfoldable pub logout : String → Exec (World env) Unit
  unfolding call
  logout id = redis_del (refresh_key id)

  abbrev pub send_reset : Option User → Exec (World env) Unit
  send_reset none = pure tt
  send_reset (some user) = do
    token ← sign access_secret (payload_of user) reset_life
    redis_set (reset_key user.id) token reset_life
    add_job (
        password_reset user.email user.full_name
          (link_to env.base_url "/auth/reset-password?token=" token))

  unfoldable pub forgot_password : String → Exec (World env) Unit
  unfolding find_by_email call add_job
  forgot_password email = do user ← find_by_email email; send_reset user

  unfoldable pub reset_password : String → String → Exec (World env) Unit
  unfolding update_password call
  reset_password token new =
      try_catch
        (do
          payload ← verify access_secret token
          update_password payload.sub new
          redis_del (reset_key payload.sub))
        (λ _. throw bad_request)

  -- No user has this Google id: an account with the same email is linked, or a new one is made.
  abbrev pub link_or_create : GoogleDetails → String → Option User → Exec (World env) User
  link_or_create details name none = create_from_google details.email name details.google_id
  link_or_create details name (some account) =
      if is_some account.google_id then throw conflict else (do
        user ← link_google_id account.id details.google_id
        update_google_profile user.id name)

  abbrev pub google_user : GoogleDetails → String → Option User → Exec (World env) User
  google_user details name (some user) = update_google_profile user.id name
  google_user details name none = do
    existing ← find_by_email details.email
    link_or_create details name existing

  unfoldable pub validate_google_user : GoogleDetails → Exec (World env) User
  unfolding find_by_google_id find_by_email link_google_id update_google_profile create_from_google
  validate_google_user details = do
    found ← find_by_google_id details.google_id
    google_user details (full_name_of details.first_name details.last_name) found

  unfoldable pub login_with_google : Option User → Exec (World env) Session
  unfolding generate_tokens store_refresh_token
  login_with_google found = do user ← or_throw unauthorized found; open_session user

  unfoldable pub send_verification_email : String → String → String → Exec (World env) Unit
  unfolding add_job
  send_verification_email id email name = do
    token ← sign access_secret (record { sub = id; email = some email }) verification_life
    add_job
        (verification (some email) (some name) (link_to env.base_url "/verify-email?token=" token))

  unfoldable pub send_password_reset_email : User → Exec (World env) Unit
  unfolding add_job
  send_password_reset_email user = do
    token ← sign access_secret (payload_of user) reset_life
    add_job (
        password_reset user.email user.full_name
          (link_to env.base_url "/reset-password?token=" token))

  -- `findByEmail(user.email)`: an account with no email is found by none, and reading its password throws
  abbrev pub with_password : Option User → Exec (World env) User
  with_password none = throw generic
  with_password (some user) = pure user

  abbrev pub find_by_its_email : Option String → Exec (World env) (Option User)
  find_by_its_email none = throw generic
  find_by_its_email (some email) = find_by_email email

  unfoldable pub change_password : String → String → String → Exec (World env) Unit
  unfolding find_by_id find_by_email update_password call
  change_password id current new = do
    found ← find_by_id id
    user ← or_throw unauthorized found
    account ← find_by_its_email user.email
    full ← with_password account
    valid ← compare current full.password
    guard valid bad_request
    update_password id new
    redis_del (reset_key id)
