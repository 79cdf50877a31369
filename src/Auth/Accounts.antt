-- ===== src/Auth/Accounts.antt =====
-- Accounts: registration, activation, passwords and the link to Google.
use dist_link.Base.{suc, ◌+◌, ◌<◌, String, ◌≡◌, true, false, none, some, arith, eq_refl}
use dist_link.Base.Exec.{ok, err, conflict, bad_request}
use dist_link.Auth.World.{Env, World, calm, UserRow, blank, access_secret, Payload}
use dist_link.Auth.Users.{UserData, same_password}
use dist_link.Auth.Tokens.{full_name_of, verification_life}
use dist_link.Auth.Service.{
  GoogleDetails, register, verify_email, reset_password, change_password, validate_google_user,
}

module _ {env : Env} where
  -- The row and the token of a registration.
  abbrev pub new_account : UserData → World env → UserRow
  new_account d w = record {
    id = env.uuid (suc w.seed);
    email = some d.email;
    password = some (env.bcrypt.hash w.seed d.password);
    full_name = some d.full_name;
    google_id = none;
    is_active = false;
    created_at = some w.now;
    updated_at = some w.now;
  }

  abbrev pub verification_token : UserData → World env → String
  verification_token d w =
      env.jwt.sign access_secret (record { sub = env.uuid (suc w.seed); email = some d.email })
        w.now verification_life

  -- An email that has an account is refused with 409, and nothing changes.
  pub register_taken :
      (d : UserData) (row : UserRow) (w : World env)
      → env.users.by_email w.users d.email ≡ some row
      → register d (calm w) ≡ (err conflict, calm w)
  unfolding register
  register_taken d row w taken = rw taken

  register_users :
      (d : UserData) (w : World env)
      → env.users.by_email w.users d.email ≡ none
      → (register d (calm w)).1.users ≡ env.users.insert w.users (new_account d w)
  unfolding register
  register_users d w free = rw free

  verify_users :
      (token : String) (p : Payload) (w : World env)
      → env.jwt.verify access_secret token w.now ≡ some p
      → (verify_email token (calm w)).1.users
        ≡ env.users.update w.users p.sub (λ r. record r { is_active = true })
  unfolding verify_email
  verify_users token p w valid = rw valid

  -- With no failing call: a registration of a new email makes an account that is not active. If the accounts
  -- are as the registration left them, the token of its email sets the account active within a day, and the
  -- rest of its row stays.
  pub verify-register :
      (d : UserData) (w later : World env)
      → env.users.by_email w.users d.email ≡ none
      → later.users ≡ (register d (calm w)).1.users
      → later.now < w.now + verification_life
      → (env.users.by_id later.users (env.uuid (suc w.seed)) ≡ some (new_account d w))
        × (env.users.by_id
              (verify_email (verification_token d w) (calm later)).1.users
              (env.uuid (suc w.seed))
            ≡ some (record (new_account d w) { is_active = true }))
  verify-register d w later free same soon =
      let row = new_account d w in
      let there : env.users.by_id later.users row.id ≡ some row =
        rw (same, register_users d w free, env.users.by_id-insert, eq_refl) in
      let valid =
        env.jwt.verify-sign access_secret
          (record { sub = env.uuid (suc w.seed); email = some d.email }) w.now verification_life
          later.now soon in
      (
        there,
        rw (
          verify_users (verification_token d w) _ later valid,
          env.users.by_id-update,
          eq_refl,
          there,
        ),
      )

  -- Any token that verifies under `JWT_SECRET` resets the password of the account that it names,
  -- whatever Redis holds: the reset token that was stored for the account, if there is one, is not
  -- compared with it. Of the row only the password and the date of the update change.
  reset_with_any_token :
      (token new : String) (p : Payload) (row : UserRow) (w : World env)
      → env.jwt.verify access_secret token w.now ≡ some p
      → env.users.by_id w.users p.sub ≡ some row
      → same_password row.password (env.bcrypt.hash w.seed new) ≡ false
      → ((reset_password token new (calm w)).0 ≡ ok tt)
        × (env.users.by_id (reset_password token new (calm w)).1.users p.sub
            ≡ some (record row {
              password = some (env.bcrypt.hash w.seed new);
              updated_at = some w.now;
            }))
  unfolding reset_password
  reset_with_any_token token new p row w valid there changed = (
    rw (valid, there, changed),
    rw (valid, there, changed, env.users.by_id-update, eq_refl, there),
  )

  -- A token for an account that is not there answers 400 and makes no account, whatever calls fail.
  reset_unknown :
      (token new : String) (p : Payload) (w : World env)
      → env.jwt.verify access_secret token w.now ≡ some p
      → env.users.by_id w.users p.sub ≡ none
      → ((reset_password token new w).0 ≡ err bad_request)
        × ((reset_password token new w).1.users ≡ w.users)
  reset_unknown token new p w valid missing = unfold reset_password in ground arith

  -- `verifyEmail` of a token for an account that is not there makes an active account with no email
  -- and no password.
  verify_unknown :
      (token : String) (p : Payload) (w : World env)
      → env.jwt.verify access_secret token w.now ≡ some p
      → env.users.by_id w.users p.sub ≡ none
      → env.users.by_id (verify_email token (calm w)).1.users p.sub
        ≡ some (record (blank p.sub) { is_active = true })
  verify_unknown token p w valid missing =
      rw (verify_users token p w valid, env.users.by_id-update, eq_refl, missing)

  -- A password is changed only by one who gives the current one: with a wrong one the answer is 400,
  -- and no account changes.
  pub change_password_refused :
      (id current new email hashed : String) (row account : UserRow) (w : World env)
      → env.users.by_id w.users id ≡ some row
      → row.email ≡ some email
      → env.users.by_email w.users email ≡ some account
      → account.password ≡ some hashed
      → env.bcrypt.compare current hashed ≡ false
      → change_password id current new (calm w) ≡ (err bad_request, calm w)
  unfolding change_password
  change_password_refused id current new email hashed row account w there named found kept wrong =
      rw (there, named, found, kept, wrong)

  -- A Google login whose email belongs to an account that is linked to another Google account does
  -- not answer 409: the account is linked to the new Google account instead.
  google_relinks :
      (details : GoogleDetails) (old : String) (row : UserRow) (w : World env)
      → env.users.by_google_id w.users details.google_id ≡ none
      → env.users.by_email w.users details.email ≡ some row
      → row.google_id ≡ some old
      → (env.users.by_id (validate_google_user details (calm w)).1.users row.id
          ≡ some (record row {
            google_id = some details.google_id;
            full_name = some (full_name_of details.first_name details.last_name);
            updated_at = some w.now;
            is_active = true;
          }))
  unfolding validate_google_user
  google_relinks details old row w new found linked =
      let there = (env.users.by_email-by_id w.users details.email row found).0 in
      rw (new, found, new) (simp (env.users.by_id-update, eq_refl, there))
