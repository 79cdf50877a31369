-- ===== src/Tests/Accounts.antt =====
-- The theorems on histories of requests, over a history with a new account, a failing call and a sign-in
-- by Google.
use dist_link.Base.{
  ℕ, ◌≤◌, String, ◌≡◌, ◌≢◌, refl, ap, true, false, Option, none, some, List, [], ◌∷◌, arith, eqb,
  eq_iff, if◌then◌else◌, ◌⊎◌, inl, inr, Bool-cases,
}
use dist_link.Base.Dict.{get, put}
use dist_link.Base.Exec.{Result, ok, err}
use dist_link.Auth.World.{Env, World, UserRow, query, call, add_job}
use dist_link.Auth.Users
use dist_link.Auth.Users.{
  User, find_by_id, find_by_email, find_by_google_id, create_from_google, update_google_profile,
  activate_user,
}
use dist_link.Auth.Writes.{IsSound, IsKept}
use dist_link.Auth.Tokens.{generate_tokens, store_refresh_token}
use dist_link.Auth.Service.{register, validate_google_user, login_with_google}
use dist_link.Auth.Guards.{Attempt, GoogleProfile, validate_google_profile, google_auth_redirect}
use dist_link.Auth.Controller
use dist_link.Auth.Controller.{route, post_register, get_google_callback, google_callback}
use dist_link.Auth.History.{
  Occurrence, request, waits, drop_key, occur, history, IsUndrawn, history-IsSound, history-IsKept,
}
use dist_link.Tests.Rows.{accounts, keys}
use dist_link.Tests.People.{office, ann, ann_there, bob, morning, carol}
use dist_link.Tests.Requests.{passport_of}

-- The fourth draw is another one than those after it.
abbrev draw : ℕ → String
draw n = if eqb n 3 then "id-first" else "id-next"

abbrev agency : Env
agency = record office { uuid = draw }

abbrev monday : World agency
monday = record { now = 100; users = morning.users; redis = []; seed = 0; jobs = []; faults = [] }

-- `handleRequest` of Passport's own guard
abbrev default_guard : Attempt → Result (Option User)
default_guard a = elim a.failure [ none ↦ ok a.user | some e ↦ err e ]

abbrev dave : GoogleProfile
dave = record {
  emails = "dave@example.org" ∷ [];
  given_name = some "Dave";
  family_name = none;
  id = "g2";
}

-- The first registration cannot write its row, the second one can.
abbrev week : List Occurrence
week =
    request (post_register carol) (false ∷ true ∷ [])
    ∷ waits 60
    ∷ request (post_register carol) []
    ∷ drop_key "verification_token:id-first"
    ∷ request (get_google_callback dave) []
    ∷ []

in_table :
    (i : String) (r : UserRow)
    → get morning.users i ≡ some r
    → ((i ≡ "id-ann") × (r ≡ ann)) ⊎ ((i ≡ "id-bob") × (r ≡ bob))
unfolding get
in_table i r h = ground (arith, eq_iff "id-ann" i, eq_iff "id-bob" i)

emails_differ : ann.email ≢ bob.email
emails_differ h = ground (arith, h, eq_iff "ann@example.org" "bob@example.org")

monday-IsSound : IsSound accounts monday.users
monday-IsSound = record {
  keyed = λ i r h. ground (arith, in_table i r h);
  emails = λ i j r q e at_i at_j hi hj. elim (in_table i r at_i) [
    | inl (i', r') ↦ elim (in_table j q at_j) [
      | inl (j', q') ↦ cc
      | inr (j', q') ↦ absurd (
          emails_differ
            (cc (ap (λ (x : UserRow). x.email) r', ap (λ (x : UserRow). x.email) q', hi, hj)))
    ]
    | inr (i', r') ↦ elim (in_table j q at_j) [
      | inl (j', q') ↦ absurd (
          emails_differ
            (cc (ap (λ (x : UserRow). x.email) r', ap (λ (x : UserRow). x.email) q', hi, hj)))
      | inr (j', q') ↦ cc
    ]
  ];
  googles =
      λ i j r q e at_i at_j hi hj. ground (arith, in_table i r at_i, in_table j q at_j, hi, hj);
}

unused_early : (n : ℕ) → get monday.users (draw n) ≡ none
unfolding get
unused_early n = elim (Bool-cases (eqb n 3)) [ inl e ↦ rw e refl | inr e ↦ rw e refl ]

unused_late : (r : UserRow) (n : ℕ) → 4 ≤ n → get (put monday.users "id-first" r) (draw n) ≡ none
unfolding get put
unused_late r n l = let e : eqb n 3 ≡ false = ground arith in rw e refl

undrawn : IsUndrawn (passport_of agency) default_guard "https://l.ink" week monday
unfolding IsUndrawn occur Controller.register route register Users.create query call add_job put get
undrawn = (
  λ n l. unused_early n,
  (
    λ n l. unused_early n,
    (λ n l. unused_early n, (λ n l. unused_late _ n l, (λ n l. unused_late _ n l, tt))),
  ),
)

abbrev after_week : World agency
after_week = history (passport_of agency) default_guard "https://l.ink" week monday

-- The week has made two accounts.
keys_after_week : keys after_week.users ≡ "id-ann" ∷ "id-bob" ∷ "id-first" ∷ "id-next" ∷ []
unfolding history Controller.register route register Users.create query call add_job get put
    google_callback validate_google_profile validate_google_user find_by_google_id find_by_email
    create_from_google google_auth_redirect login_with_google generate_tokens store_refresh_token
keys_after_week = refl

history-IsSound_example : IsSound accounts after_week.users
history-IsSound_example =
    history-IsSound (passport_of agency) default_guard "https://l.ink" week monday monday-IsSound
      undrawn

history-IsKept_example : IsKept accounts ann (get after_week.users "id-ann")
history-IsKept_example =
    history-IsKept (passport_of agency) default_guard "https://l.ink" week monday "id-ann" ann
      monday-IsSound undrawn ann_there
