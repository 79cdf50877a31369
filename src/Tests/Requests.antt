-- ===== src/Tests/Requests.antt =====
-- The theorems on requests with a token, over a guard that reads the token itself.
use dist_link.Base.{◌≡◌, refl, false, Option, none, some, arith}
use dist_link.Base.Exec.{Result, ok}
use dist_link.Auth.World.{Env, World, Payload, access_secret, calm}
use dist_link.Auth.Users.{User, user_of}
use dist_link.Auth.Service.{Session, login}
use dist_link.Auth.Accounts.{verification_token}
use dist_link.Auth.Guards.{Passport, Attempt, attempt_of, json_web_token_error, get_profile}
use dist_link.Auth.Admission.{get_profile-login, verification_token_admits}
use dist_link.Tests.Signatures.{verify_plain}
use dist_link.Tests.People.{office, ann, morning, carol, after_register, ann_found, carol_free}

abbrev pass :
    {S : Type 0} → Option Payload → (Payload → S → Result (Option User) × S) → S → Attempt × S
pass none check w = (record { failure = none; user = none; info = some json_web_token_error }, w)
pass (some p) check w = (attempt_of (check p w).0, (check p w).1)

-- A guard that reads the token itself.
abbrev pub passport_of : (env : Env) → Passport env
passport_of env = record {
  authenticate = λ check token w. pass (env.jwt.verify access_secret token w.now) check w;
  authenticate-valid = λ check token p w valid. rw valid;
  authenticate-invalid = λ check token w invalid. rw invalid (refl, refl);
}

abbrev pub passport : Passport office
passport = passport_of office

pub forged_is_invalid : verify_plain access_secret "forged" 100 ≡ none
unfolding verify_plain
forged_is_invalid = refl

abbrev soon_after : World office
soon_after = record morning { now = 500 }

get_profile-login_example :
    (s : Session) × ((login "ann@example.org" "secret" (calm morning)).0 ≡ ok s)
    × (s.user.password ≡ none)
    × ((get_profile passport s.tokens.access_token (calm soon_after)).0 ≡ ok (user_of ann))
    × ((user_of ann).password ≡ some "secret")
get_profile-login_example =
    get_profile-login passport "ann@example.org" "secret" "secret" ann morning soon_after ann_found
      refl refl refl refl (omega arith)

verification_token_admits_example :
    (u : User) × ((get_profile passport (verification_token carol morning) (calm after_register)).0
      ≡ ok u)
    × (u.email ≡ some "carol@example.org")
    × (u.is_active ≡ false)
verification_token_admits_example =
    verification_token_admits passport carol morning after_register carol_free refl (omega arith)
