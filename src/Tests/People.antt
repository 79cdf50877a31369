-- ===== src/Tests/People.antt =====
-- The theorems on modules/auth, over a table of two accounts.
use Prim.Native.String
use dist_link.Base.{ℕ, String, ◌≡◌, ◌≢◌, refl, arith, ◌==◌, true, false, none, some, [], ◌∷◌}
use dist_link.Base.Dict.{get}
use dist_link.Base.Exec.{ok, err, unauthorized}
use dist_link.Auth.World.{Env, World, UserRow, Payload, refresh_secret, calm}
use dist_link.Auth.Users.{UserData, user_of}
use dist_link.Auth.Tokens.{payload_of, refresh_life}
use dist_link.Auth.Service.{login, logout, refresh_token, register, verify_email}
use dist_link.Auth.Sessions.{public_user, tokens_at, refresh_rejects, logout_revokes, refresh-login}
use dist_link.Auth.Accounts.{new_account, verification_token, verify-register}
use dist_link.Tests.Stores.{dict_redis}
use dist_link.Tests.Rows.{accounts}
use dist_link.Tests.Signatures.{
  plain_jwt, plain_bcrypt, sign_plain, verify_plain, verify_plain-sign_plain,
}

abbrev name_of : ℕ → String
name_of n = "id-new"

abbrev pub office : Env
office = record {
  users = accounts;
  redis = dict_redis String;
  jwt = plain_jwt;
  bcrypt = plain_bcrypt;
  uuid = name_of;
  base_url = "https://l.ink";
}

abbrev pub ann : UserRow
ann = record {
  id = "id-ann";
  email = some "ann@example.org";
  password = some "secret";
  full_name = some "Ann";
  google_id = some "g1";
  is_active = true;
  created_at = some 1;
  updated_at = some 1;
}

-- An account that is not activated.
abbrev pub bob : UserRow
bob = record {
  id = "id-bob";
  email = some "bob@example.org";
  password = some "hunter";
  full_name = some "Bob";
  google_id = none;
  is_active = false;
  created_at = some 2;
  updated_at = some 2;
}

abbrev pub morning : World office
morning = record {
  now = 100;
  users = ("id-ann", ann) ∷ ("id-bob", bob) ∷ [];
  redis = [];
  seed = 0;
  jobs = [];
  faults = [];
}

pub ann_found : office.users.by_email morning.users "ann@example.org" ≡ some ann
unfolding get
ann_found = refl

pub carol_free : office.users.by_email morning.users "carol@example.org" ≡ none
unfolding get
carol_free = refl

pub ann_there : get morning.users "id-ann" ≡ some ann
unfolding get
ann_there = refl

real_token :
    (sign_plain refresh_secret (payload_of (public_user ann)) 100 refresh_life == "") ≡ false
unfolding sign_plain
real_token = refl

-- The world some time after a login.
abbrev after_login : World office
after_login = record morning {
  now = 200;
  redis = (login "ann@example.org" "secret" (calm morning)).1.redis;
}

refresh-login_example :
    (refresh_token (tokens_at morning (public_user ann)).refresh_token (calm after_login)).0
    ≡ ok (tokens_at after_login (user_of ann))
refresh-login_example =
    refresh-login "ann@example.org" "secret" "secret" ann morning after_login ann_found refl refl
      refl real_token refl refl (omega arith)

abbrev ann_payload : Payload
ann_payload = record { sub = "id-ann"; email = some "ann@example.org" }

abbrev ann_token : String
ann_token = sign_plain refresh_secret ann_payload 100 refresh_life

-- A token of Ann that verifies, while none is stored for her.
none_stored :
    (p : Payload)
    → verify_plain refresh_secret ann_token 100 ≡ some p
    → get morning.redis (String.◌++◌ "refresh_token:" p.sub) ≢ some ann_token
unfolding get
none_stored p h e = cc

refresh_rejects_example :
    ((refresh_token ann_token morning).0 ≡ err unauthorized)
    × ((refresh_token ann_token morning).1.redis ≡ [])
    × ((refresh_token ann_token morning).1.users ≡ morning.users)
refresh_rejects_example = refresh_rejects ann_token morning none_stored

logout_revokes_example :
    refresh_token ann_token (logout "id-ann" (calm morning)).1
    ≡ (err unauthorized, (logout "id-ann" (calm morning)).1)
logout_revokes_example =
    logout_revokes ann_token ann_payload morning
      (verify_plain-sign_plain refresh_secret ann_payload 100 refresh_life 100 (omega arith))

abbrev pub carol : UserData
carol = record { email = "carol@example.org"; password = "pass"; full_name = "Carol" }

abbrev pub after_register : World office
after_register = record morning { now = 300; users = (register carol (calm morning)).1.users }

verify-register_example :
    (get after_register.users "id-new" ≡ some (new_account carol morning))
    × (get (verify_email (verification_token carol morning) (calm after_register)).1.users "id-new"
        ≡ some (record (new_account carol morning) { is_active = true }))
verify-register_example = verify-register carol morning after_register carol_free refl (omega arith)
