-- ===== src/Auth/Methods.antt =====
-- modules/users/users.service.ts and modules/auth/auth.service.ts: what the methods do that leave the
-- accounts or change one, whatever calls fail on their way.
use dist_link.Base.{ℕ, String, ◌≡◌, refl, true, Option, none, some, arith, inl}
use dist_link.Auth.World.{Env, World, query, call, add_job}
use dist_link.Auth.Writes.{
  IsFree, Evolves, stays, IsKeyed, IsSound, by_email-IsFree, by_google_id-IsFree,
}
use dist_link.Auth.Steps
use dist_link.Auth.Steps.{
  Grown, IsUnused, proceed-Grown, recover-Grown, query-Grown, call-Grown, guard-Grown,
  or_throw-Grown, query-users, query-seed, query-ok, guard-ok, insert-Grown, update-Grown,
  same-Grown,
}
use dist_link.Auth.Users
use dist_link.Auth.Users.{
  User, UserData, or_throw, update_password, activate_user, create_from_google, link_google_id,
  update_google_profile, find_by_id, find_by_email, find_by_google_id,
}
use dist_link.Auth.Tokens.{generate_tokens, store_refresh_token}
use dist_link.Auth.Service.{
  validate_user, login, verify_email, refresh_token, logout, forgot_password, reset_password,
  change_password, compare, with_password, find_by_its_email, login_with_google,
}

pub ruleset steps =
    (proceed-Grown, recover-Grown, query-Grown, call-Grown, guard-Grown, or_throw-Grown, stays)

module _ {env : Env} where
  pub login-users :
      (email password : String) (w : World env) → (login email password w).1.users ≡ w.users
  unfolding login validate_user find_by_email query generate_tokens store_refresh_token call
  login-users email password w = ground arith

  pub refresh_token-users :
      (token : String) (w : World env) → (refresh_token token w).1.users ≡ w.users
  unfolding refresh_token find_by_id query generate_tokens store_refresh_token call
  refresh_token-users token w = ground arith

  pub forgot_password-users :
      (email : String) (w : World env) → (forgot_password email w).1.users ≡ w.users
  unfolding forgot_password find_by_email query call add_job
  forgot_password-users email w = ground arith

  pub logout-users : (id : String) (w : World env) → (logout id w).1.users ≡ w.users
  unfolding logout call
  logout-users id w = ground arith

  pub login_with_google-users :
      (u : Option User) (w : World env) → (login_with_google u w).1.users ≡ w.users
  unfolding login_with_google generate_tokens store_refresh_token call
  login_with_google-users u w = ground arith

  activate_user-Grown :
      (id : String) (w : World env) → Evolves env.users w.users (activate_user id w).1.users
  unfolding activate_user
  activate_user-Grown id w =
      update-Grown id (λ r. record r { is_active = true }) w (λ r. refl) (λ r. refl) (λ r h. refl)
        (λ r e h. inl h)

  set_password-Grown :
      (id : String) (p : Option String) (t : Option ℕ) (w : World env)
      → Evolves env.users w.users
          (Users.update_user id (λ r. record r { password = p; updated_at = t }) w).1.users
  set_password-Grown id p t w =
      update-Grown id (λ r. record r { password = p; updated_at = t }) w (λ r. refl) (λ r. refl)
        (λ r h. h) (λ r e h. inl h)

  set_name-Grown :
      (id : String) (n : Option String) (t : Option ℕ) (w : World env)
      → Evolves env.users w.users
          (Users.update_user id (λ r. record r { full_name = n; updated_at = t }) w).1.users
  set_name-Grown id n t w =
      update-Grown id (λ r. record r { full_name = n; updated_at = t }) w (λ r. refl) (λ r. refl)
        (λ r h. h) (λ r e h. inl h)

  update_password-Grown :
      (id new : String) (w : World env)
      → Evolves env.users w.users (update_password id new w).1.users
  unfolding update_password
  update_password-Grown id new w = search (steps, set_password-Grown) depth 12

  pub update_google_profile-Grown :
      (id name : String) (w : World env)
      → Evolves env.users w.users (update_google_profile id name w).1.users
  unfolding update_google_profile find_by_id
  update_google_profile-Grown id name w = search (steps, set_name-Grown)

  pub verify_email-Grown : (token : String) (w : World env) → Grown w (verify_email token w)
  unfolding verify_email
  verify_email-Grown token w = search (steps, activate_user-Grown)

  pub reset_password-Grown :
      (token new : String) (w : World env) → Grown w (reset_password token new w)
  unfolding reset_password
  reset_password-Grown token new w = search (steps, update_password-Grown)

  its_email-Grown :
      (email : Option String) (w : World env)
      → Evolves env.users w.users (find_by_its_email email w).1.users
  unfolding find_by_email
  its_email-Grown none w = stays
  its_email-Grown (some e) w = search steps

  with_password-Grown :
      (u : Option User) (w : World env) → Evolves env.users w.users (with_password u w).1.users
  with_password-Grown none w = stays
  with_password-Grown (some u) w = stays

  compare-Grown :
      (p : String) (h : Option String) (w : World env)
      → Evolves env.users w.users (compare p h w).1.users
  compare-Grown p none w = stays
  compare-Grown p (some h) w = stays

  pub change_password-Grown :
      (id current new : String) (w : World env) → Grown w (change_password id current new w)
  unfolding change_password find_by_id
  change_password-Grown id current new w =
      search (steps, update_password-Grown, its_email-Grown, with_password-Grown, compare-Grown)
        depth 12
