-- ===== src/Auth/Controller.antt =====
-- modules/auth/auth.controller.ts: the endpoints of `AuthController`, and the handler of each.
use dist_link.Base.{String, Option}
use dist_link.Base.Exec.{Result, Exec, pure, ◌>>=◌}
use dist_link.Auth.World.{Env, World}
use dist_link.Auth.Users.{User, UserData}
use dist_link.Auth.Tokens.{Tokens}
use dist_link.Auth.Service
use dist_link.Auth.Service.{Session}
use dist_link.Auth.Guards
use dist_link.Auth.Guards.{
  Passport, Attempt, GoogleProfile, validate_google_profile, google_auth_redirect,
}

-- A request, with its body, the token of its header, or the profile that Google has sent.
pub data Endpoint : Type 0 where
  post_login : (email password : String) → Endpoint
  post_register : UserData → Endpoint
  post_verify_email : (token : String) → Endpoint
  post_refresh_token : (token : String) → Endpoint
  post_logout : (token : String) → Endpoint
  post_forgot_password : (email : String) → Endpoint
  post_reset_password : (token new : String) → Endpoint
  get_me : (token : String) → Endpoint
  get_check_token : (token : String) → Endpoint
  post_change_password : (token current new : String) → Endpoint
  get_google_callback : GoogleProfile → Endpoint

pub data Reply : Type 0 where
  session : Session → Reply
  profile : User → Reply
  renewed : Tokens → Reply
  redirected : String → Reply
  done : Reply

abbrev pub of_result : {S A : Type 0} → Result A → Exec S A
of_result r s = (r, s)

-- The handlers that take a body alone.
module _ {env : Env} where
  unfoldable pub login : (email password : String) → Exec (World env) Session
  login email password = Service.login email password

  unfoldable pub register : UserData → Exec (World env) User
  register body = Service.register body

  unfoldable pub verify_email : (token : String) → Exec (World env) Unit
  verify_email token = Service.verify_email token

  unfoldable pub refresh_token : (token : String) → Exec (World env) Tokens
  refresh_token token = Service.refresh_token token

  unfoldable pub forgot_password : (email : String) → Exec (World env) Unit
  forgot_password email = Service.forgot_password email

  unfoldable pub reset_password : (token new : String) → Exec (World env) Unit
  reset_password token new = Service.reset_password token new

module _ {env : Env} (google_guard : Attempt → Result (Option User)) (frontend_url : String) where
  -- `GoogleStrategy`, `GoogleAuthGuard`, then `googleAuthRedirect`
  unfoldable pub google_callback : GoogleProfile → Exec (World env) String
  unfolding validate_google_profile google_auth_redirect
  google_callback sent = do
    attempt ← validate_google_profile sent
    user ← of_result (google_guard attempt)
    google_auth_redirect frontend_url user

module _ {env : Env} (passport : Passport env) (google_guard : Attempt → Result (Option User))
    (frontend_url : String) where
  unfoldable pub route : Endpoint → Exec (World env) Reply
  unfolding login register verify_email refresh_token forgot_password reset_password
  route (post_login email password) = do s ← login email password; pure (session s)
  route (post_register body) = do u ← register body; pure (profile u)
  route (post_verify_email token) = do _ ← verify_email token; pure done
  route (post_refresh_token token) = do t ← refresh_token token; pure (renewed t)
  route (post_logout token) = do _ ← Guards.logout passport token; pure done
  route (post_forgot_password email) = do _ ← forgot_password email; pure done
  route (post_reset_password token new) = do _ ← reset_password token new; pure done
  route (get_me token) = do u ← Guards.get_profile passport token; pure (profile u)
  route (get_check_token token) = do _ ← Guards.check_token passport token; pure done
  route (post_change_password token current new) = do
    _ ← Guards.change_password passport token current new
    pure done
  route (get_google_callback sent) = do
    url ← google_callback google_guard frontend_url sent
    pure (redirected url)
