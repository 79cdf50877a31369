-- ===== src/Auth/Joins.antt =====
-- modules/users/users.service.ts and modules/auth/auth.service.ts: what the methods that write a new account,
-- or a Google id, do to the accounts, whatever calls fail on their way.
use dist_link.Base.{
  ℕ, suc, String, ◌≡◌, refl, Bool, true, false, Option, none, some, List, Option-cases, Bool-cases,
  arith, inl, inr,
}
use dist_link.Base.Exec.{not_found, pure, ◌>>=◌, ◌>>◌}
use dist_link.Base.Faults.{next_fails, later}
use dist_link.Auth.World.{UserRow, Env, World, query, add_job}
use dist_link.Auth.Writes.{Evolves, stays, IsKeyed, by_email-IsFree, by_google_id-IsFree}
use dist_link.Auth.Steps.{Grown, IsUnused, insert-Grown, update-Grown}
use dist_link.Auth.Users
use dist_link.Auth.Users.{
  User, UserData, or_throw, update_password, activate_user, create_from_google, link_google_id,
  update_google_profile, find_by_id, find_by_email, find_by_google_id,
}
use dist_link.Auth.Tokens.{full_name_of}
use dist_link.Auth.Service.{GoogleDetails, register, google_user, validate_google_user}
use dist_link.Auth.Methods.{steps, update_google_profile-Grown}

module _ {env : Env} where
  -- A registration writes an account with an email that no account has.
  abbrev registered : UserData → World env → UserRow
  registered data' w = record {
    id = env.uuid (suc w.seed);
    email = some data'.email;
    password = some (env.bcrypt.hash w.seed data'.password);
    full_name = some data'.full_name;
    google_id = none;
    is_active = false;
    created_at = some w.now;
    updated_at = some w.now;
  }

  insert_registered-Grown :
      (data' : UserData) (user : User) (w : World env) (faults : List Bool)
      → IsKeyed env.users w.users
      → IsUnused w
      → env.users.by_email w.users data'.email ≡ none
      → Evolves env.users w.users
          ((Users.insert_user (registered data' w) >> pure user)
            (record w { faults = faults; seed = suc (suc w.seed) })).1.users
  insert_registered-Grown data' user w faults keyed unused unknown =
      insert-Grown (registered data' w) user (record w { faults = faults; seed = suc (suc w.seed) })
        (unused (suc w.seed) (omega arith))
        (λ e h. by_email-IsFree env.users w.users e keyed (cc (h, unknown))) (λ e h. cc h)

  create-Grown :
      (data' : UserData) (w : World env)
      → IsKeyed env.users w.users
      → IsUnused w
      → Grown w (Users.create data' w)
  unfolding Users.create query
  create-Grown data' w keyed unused = elim (Bool-cases (next_fails w.faults)) [
    | inl fails ↦ rw fails stays
    | inr works ↦ elim (Option-cases (env.users.by_email w.users data'.email)) [
      | inr (q, found) ↦ rw (works, found) stays
      | inl unknown ↦
          rw (works, unknown)
            (insert_registered-Grown data' _ w (later w.faults) keyed unused unknown)
    ]
  ]

  pub register-Grown :
      (data' : UserData) (w : World env)
      → IsKeyed env.users w.users
      → IsUnused w
      → Grown w (register data' w)
  unfolding register add_job
  register-Grown data' w keyed unused = search (steps, create-Grown, keyed, unused) depth 12

  -- A Google account joins under a Google id that no account has.
  create_from_google-Grown :
      (email name g : String) (w : World env)
      → IsKeyed env.users w.users
      → IsUnused w
      → env.users.by_email w.users email ≡ none
      → env.users.by_google_id w.users g ≡ none
      → Grown w (create_from_google email name g w)
  unfolding create_from_google
  create_from_google-Grown email name g w keyed unused unknown new =
      insert-Grown _ _ (record w { seed = suc w.seed }) (unused w.seed (omega arith))
        (λ e h. by_email-IsFree env.users w.users e keyed (cc (h, unknown)))
        (λ e h. by_google_id-IsFree env.users w.users e keyed (cc (h, new)))

  set_google_id-Grown :
      (id g : String) (t : Option ℕ) (w : World env)
      → IsKeyed env.users w.users
      → env.users.by_google_id w.users g ≡ none
      → Evolves env.users w.users
          (Users.update_user id
            (λ r. record r { google_id = some g; updated_at = t; is_active = true })
            w).1.users
  set_google_id-Grown id g t w keyed new =
      update-Grown id (λ r. record r { google_id = some g; updated_at = t; is_active = true }) w
        (λ r. refl) (λ r. refl) (λ r h. refl)
        (λ r e h. inr (by_google_id-IsFree env.users w.users e keyed (cc (h, new))))

  link_rest-Grown :
      (id g : String) (t : Option ℕ) (w : World env)
      → IsKeyed env.users w.users
      → env.users.by_google_id w.users g ≡ none
      → Grown w (
          (Users.update_user id
                (λ r. record r { google_id = some g; updated_at = t; is_active = true })
              >> (find_by_id id >>= λ found. or_throw not_found found))
            w)
  unfolding find_by_id
  link_rest-Grown id g t w keyed new =
      let step = set_google_id-Grown id g t w keyed new in search (steps, step)

  link_google_id-Grown :
      (id g : String) (w : World env)
      → IsKeyed env.users w.users
      → env.users.by_google_id w.users g ≡ none
      → Grown w (link_google_id id g w)
  unfolding link_google_id find_by_google_id query
  link_google_id-Grown id g w keyed new = elim (Bool-cases (next_fails w.faults)) [
    | inl fails ↦ rw fails stays
    | inr works ↦
        rw (works, new)
          (link_rest-Grown id g (some w.now) (record w { faults = later w.faults }) keyed new)
  ]

  -- An account with the email is linked and renamed.
  link_account-Grown :
      (id name g : String) (w : World env)
      → IsKeyed env.users w.users
      → env.users.by_google_id w.users g ≡ none
      → Grown w ((link_google_id id g >>= λ user. update_google_profile user.id name) w)
  link_account-Grown id name g w keyed new =
      let step = link_google_id-Grown id g w keyed new in
      search (steps, step, update_google_profile-Grown)

  unknown_google-Grown :
      (details : GoogleDetails) (name : String) (w : World env)
      → IsKeyed env.users w.users
      → IsUnused w
      → env.users.by_google_id w.users details.google_id ≡ none
      → Grown w (google_user details name none w)
  unfolding find_by_email query
  unknown_google-Grown details name w keyed unused new = elim (Bool-cases (next_fails w.faults)) [
    | inl fails ↦ rw fails stays
    | inr works ↦
        let v : World env = record w { faults = later w.faults } in
        elim (Option-cases (env.users.by_email w.users details.email)) [
          | inl unknown ↦
              rw (works, unknown)
                (create_from_google-Grown details.email name details.google_id v keyed unused
                  unknown new)
          | inr (account, found) ↦
              rw (works, found) (link_account-Grown account.id name details.google_id v keyed new)
        ]
  ]

  pub validate_google_user-Grown :
      (details : GoogleDetails) (w : World env)
      → IsKeyed env.users w.users
      → IsUnused w
      → Grown w (validate_google_user details w)
  unfolding validate_google_user find_by_google_id query
  validate_google_user-Grown details w keyed unused = elim (Bool-cases (next_fails w.faults)) [
    | inl fails ↦ rw fails stays
    | inr works ↦
        let name = full_name_of details.first_name details.last_name in
        let v : World env = record w { faults = later w.faults } in
        elim (Option-cases (env.users.by_google_id w.users details.google_id)) [
          | inl new ↦ rw (works, new) (unknown_google-Grown details name v keyed unused new)
          | inr (user, found) ↦ rw (works, found) (update_google_profile-Grown user.id name v)
        ]
  ]
