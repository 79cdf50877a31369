-- ===== src/Auth/Guards.antt =====
-- modules/auth/guards and modules/auth/strategies/jwt.strategy.ts: `JwtAuthGuard`, `OptionalJwtAuthGuard`
-- and `JwtStrategy`; modules/auth/auth.controller.ts: the handlers behind a guard. Passport, which
-- reads the token of a request and calls the strategy, is a parameter.
use Prim.Native.String
use dist_link.Base.{String, ◌≡◌, Option, none, some, List, [], ◌∷◌}
use dist_link.Base.Exec.{Error, unauthorized, generic, Result, ok, err, Exec, pure, ◌>>=◌, ◌>>◌}
use dist_link.Auth.World.{Env, World, Payload, access_secret}
use dist_link.Auth.Users.{User, find_by_id}
use dist_link.Auth.Tokens.{Tokens}
use dist_link.Auth.Service
use dist_link.Auth.Service.{Session, GoogleDetails, login_with_google, validate_google_user}

-- The name of `info`, where Passport gives one.
pub data Info : Type 0 where
  token_expired_error json_web_token_error other_info : Info

-- What Passport hands to `handleRequest`.
pub record Attempt : Type 0 where
  pub failure : Option Error
  pub user : Option User
  pub info : Option Info

-- `err || new UnauthorizedException(...)`
abbrev pub or_unauthorized : Option Error → Error
or_unauthorized none = unauthorized
or_unauthorized (some e) = e

abbrev pub refusal : Option Error → Option Info → Error
refusal failure none = or_unauthorized failure
refusal failure (some token_expired_error) = unauthorized
refusal failure (some json_web_token_error) = unauthorized
refusal failure (some other_info) = or_unauthorized failure

-- `JwtAuthGuard.handleRequest`
unfoldable pub handle_request : Option Error → Option User → Option Info → Result User
handle_request none (some user) info = ok user
handle_request none none info = err (refusal none info)
handle_request (some e) user info = err (refusal (some e) info)

-- `OptionalJwtAuthGuard.handleRequest`
unfoldable pub handle_optional_request :
    Option Error → Option User → Option Info → Result (Option User)
handle_optional_request none (some user) info = ok (some user)
handle_optional_request none none info = ok none
handle_optional_request (some e) user info = ok none

abbrev pub attempt_of : Result (Option User) → Attempt
attempt_of (ok found) = record { failure = none; user = found; info = none }
attempt_of (err e) = record { failure = some e; user = none; info = none }

module _ {env : Env} where
  -- `JwtStrategy.validate`
  unfoldable pub validate : Payload → Exec (World env) (Option User)
  unfolding find_by_id
  validate payload = find_by_id payload.sub

-- `AuthGuard('jwt')` under `super.canActivate`: a token that verifies under JWT_SECRET goes to the
-- strategy, another one gives no user.
pub record Passport (env : Env) : Type 0 where
  pub authenticate :
      (Payload → Exec (World env) (Option User)) → String → World env → Attempt × World env
  pub authenticate-valid :
      (check : Payload → Exec (World env) (Option User)) (token : String) (p : Payload)
      (w : World env)
      → env.jwt.verify access_secret token w.now ≡ some p
      → authenticate check token w ≡ (attempt_of (check p w).0, (check p w).1)
  pub authenticate-invalid :
      (check : Payload → Exec (World env) (Option User)) (token : String) (w : World env)
      → env.jwt.verify access_secret token w.now ≡ none
      → ((authenticate check token w).0.user ≡ none) × ((authenticate check token w).1 ≡ w)

abbrev pub judge : Attempt → Result User
judge a = handle_request a.failure a.user a.info

abbrev pub judge_optional : Attempt → Result (Option User)
judge_optional a = handle_optional_request a.failure a.user a.info

module _ {env : Env} (passport : Passport env) where
  -- The user of a request that `JwtAuthGuard` lets through.
  unfoldable pub user_of_request : String → Exec (World env) User
  unfolding validate handle_request
  user_of_request token w =
      (judge (passport.authenticate validate token w).0, (passport.authenticate validate token w).1)

  -- The user that `OptionalJwtAuthGuard` gives, or null.
  unfoldable pub optional_user_of_request : String → Exec (World env) (Option User)
  unfolding validate handle_optional_request
  optional_user_of_request token w = (
    judge_optional (passport.authenticate validate token w).0,
    (passport.authenticate validate token w).1,
  )

  -- The handlers of `AuthController` behind the guard.
  unfoldable pub logout : String → Exec (World env) Unit
  logout token = do user ← user_of_request token; Service.logout user.id

  unfoldable pub get_profile : String → Exec (World env) User
  get_profile token = user_of_request token

  unfoldable pub check_token : String → Exec (World env) Unit
  check_token token = do user_of_request token; pure tt

  unfoldable pub change_password : String → (current new : String) → Exec (World env) Unit
  change_password token current new = do
    user ← user_of_request token
    Service.change_password user.id current new

abbrev pub redirect_url : (frontend_url : String) → Tokens → String
redirect_url frontend_url t = String.◌++◌ frontend_url (
    String.◌++◌ "/auth/callback?accessToken="
      (String.◌++◌ t.access_token (String.◌++◌ "&refreshToken=" t.refresh_token)))

module _ {env : Env} where
  -- `googleAuthRedirect`, with the user that Passport has found
  unfoldable pub google_auth_redirect :
      (frontend_url : String) → Option User → Exec (World env) String
  unfolding login_with_google
  google_auth_redirect frontend_url none = pure "/login/error"
  google_auth_redirect frontend_url (some user) = do
    session ← login_with_google (some user)
    pure (redirect_url frontend_url session.tokens)

-- The profile that Google sends, and the user that `GoogleStrategy` makes of it.
pub record GoogleProfile : Type 0 where
  pub emails : List String
  pub given_name : Option String
  pub family_name : Option String
  pub id : String

abbrev pub details_of : GoogleProfile → String → GoogleDetails
details_of profile email = record {
  email = email;
  first_name = profile.given_name;
  last_name = profile.family_name;
  google_id = profile.id;
}

-- What `done` is given
abbrev pub done_with : Result User → Attempt
done_with (ok user) = record { failure = none; user = some user; info = none }
done_with (err e) = record { failure = some e; user = none; info = none }

module _ {env : Env} where
  abbrev pub with_emails : GoogleProfile → List String → Exec (World env) Attempt
  with_emails profile [] w = (err generic, w)
  with_emails profile (email ∷ emails) w = (
    ok (done_with (validate_google_user (details_of profile email) w).0),
    (validate_google_user (details_of profile email) w).1,
  )

  -- `GoogleStrategy.validate`: the first email is read before the `try`.
  unfoldable pub validate_google_profile : GoogleProfile → Exec (World env) Attempt
  unfolding validate_google_user
  validate_google_profile profile = with_emails profile profile.emails
