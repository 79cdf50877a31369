-- ===== src/Auth/Served.antt =====
-- modules/auth/auth.controller.ts: what each request does to the accounts, whatever calls fail on its way.
use dist_link.Base.{String, Option, none, some, List, [], ◌∷◌, Option-cases, inl, inr}
use dist_link.Base.Exec.{Result}
use dist_link.Auth.World.{Env, World, access_secret}
use dist_link.Auth.Users.{User, map_user, user_of, find_by_id}
use dist_link.Auth.Writes.{Evolves, stays, IsKeyed}
use dist_link.Auth.Steps.{Grown, IsUnused, same-Grown, query-Grown}
use dist_link.Auth.Service
use dist_link.Auth.Guards
use dist_link.Auth.Guards.{
  Passport, Attempt, GoogleProfile, validate, user_of_request, with_emails, validate_google_profile,
  google_auth_redirect,
}
use dist_link.Auth.Methods.{
  steps, login-users, refresh_token-users, forgot_password-users, logout-users,
  login_with_google-users, verify_email-Grown, reset_password-Grown, change_password-Grown,
}
use dist_link.Auth.Joins.{register-Grown, validate_google_user-Grown}
use dist_link.Auth.Controller
use dist_link.Auth.Controller.{
  Endpoint, post_login, post_register, post_verify_email, post_refresh_token, post_logout,
  post_forgot_password, post_reset_password, get_me, get_check_token, post_change_password,
  get_google_callback, google_callback, route,
}

module _ {env : Env} where
  -- Passport reads an account, and writes none.
  user_of_request-Grown :
      (passport : Passport env) (token : String) (w : World env)
      → Evolves env.users w.users (user_of_request passport token w).1.users
  unfolding user_of_request validate find_by_id
  user_of_request-Grown passport token w =
      elim (Option-cases (env.jwt.verify access_secret token w.now)) [
        | inl invalid ↦
            let (absent, same) = passport.authenticate-invalid validate token w invalid in
            rw same stays
        | inr (p, valid) ↦
            let same = passport.authenticate-valid validate token p w valid in
            rw same (query-Grown (λ v. map_user user_of (env.users.by_id v.users p.sub)) w)
      ]

  google_auth_redirect-Grown :
      (url : String) (u : Option User) (w : World env)
      → Evolves env.users w.users (google_auth_redirect url u w).1.users
  unfolding google_auth_redirect
  google_auth_redirect-Grown url none w = stays
  google_auth_redirect-Grown url (some u) w =
      let login =
        same-Grown w (Service.login_with_google (some u) w) (login_with_google-users (some u) w) in
      search (steps, login)

  with_emails-Grown :
      (sent : GoogleProfile) (emails : List String) (w : World env)
      → IsKeyed env.users w.users
      → IsUnused w
      → Evolves env.users w.users (with_emails sent emails w).1.users
  with_emails-Grown sent [] w keyed unused = stays
  with_emails-Grown sent (email ∷ emails) w keyed unused =
      validate_google_user-Grown (Guards.details_of sent email) w keyed unused

  logout-Grown :
      (id : String) (w : World env) → Evolves env.users w.users (Service.logout id w).1.users
  logout-Grown id w = same-Grown w (Service.logout id w) (logout-users id w)

  google_callback-Grown :
      (google_guard : Attempt → Result (Option User)) (url : String) (sent : GoogleProfile)
      (w : World env)
      → IsKeyed env.users w.users
      → IsUnused w
      → Grown w (google_callback google_guard url sent w)
  unfolding google_callback validate_google_profile
  google_callback-Grown google_guard url sent w keyed unused =
      let sign_in = with_emails-Grown sent sent.emails w keyed unused in
      search (steps, sign_in, google_auth_redirect-Grown)

module _ {env : Env} (passport : Passport env) (google_guard : Attempt → Result (Option User))
    (url : String) where
  -- One request, whatever calls fail.
  pub route-Grown :
      (e : Endpoint) (w : World env)
      → IsKeyed env.users w.users
      → IsUnused w
      → Grown w (route passport google_guard url e w)
  unfolding route Controller.login Controller.register Controller.verify_email
      Controller.refresh_token Controller.forgot_password Controller.reset_password Guards.logout
      Guards.get_profile Guards.check_token Guards.change_password
  route-Grown (post_login email password) w keyed unused =
      let step = same-Grown w (Service.login email password w) (login-users email password w) in
      search (steps, step)
  route-Grown (post_register body) w keyed unused =
      let step = register-Grown body w keyed unused in search (steps, step)
  route-Grown (post_verify_email token) w keyed unused =
      let step = verify_email-Grown token w in search (steps, step)
  route-Grown (post_refresh_token token) w keyed unused =
      let step = same-Grown w (Service.refresh_token token w) (refresh_token-users token w) in
      search (steps, step)
  route-Grown (post_logout token) w keyed unused =
      let admitted = user_of_request-Grown passport token w in
      search (steps, admitted, logout-Grown)
  route-Grown (post_forgot_password email) w keyed unused =
      let step = same-Grown w (Service.forgot_password email w) (forgot_password-users email w) in
      search (steps, step)
  route-Grown (post_reset_password token new) w keyed unused =
      let step = reset_password-Grown token new w in search (steps, step)
  route-Grown (get_me token) w keyed unused =
      let admitted = user_of_request-Grown passport token w in search (steps, admitted)
  route-Grown (get_check_token token) w keyed unused =
      let admitted = user_of_request-Grown passport token w in search (steps, admitted)
  route-Grown (post_change_password token current new) w keyed unused =
      let admitted = user_of_request-Grown passport token w in
      search (steps, admitted, change_password-Grown)
  route-Grown (get_google_callback sent) w keyed unused =
      let step = google_callback-Grown google_guard url sent w keyed unused in search (steps, step)
