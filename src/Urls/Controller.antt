-- ===== src/Urls/Controller.antt =====
-- modules/urls/urls.controller.ts: the handlers of `UrlsController`. What the guards establish is in
-- the arguments: the user is the one of the token, and optional where the guard makes it so.
use Prim.Native.Char.{code as char_code}
use Prim.Native.String.{count}
use dist_link.Base.{
  ℕ, String, Bool, true, false, not, ◌&&◌, ◌||◌, Option, none, some, ◌==◌, leb, eqb,
}
use dist_link.Base.Exec.{bad_request, not_found, Exec, pure, gets, guard, ◌>>=◌, ◌>>◌}
use dist_link.Urls.Types.{
  Stamp, date, iso, is_past, UrlResponseDto, CreateUrlDto, UpdateUrlDto, Cached, one, many,
}
use dist_link.Urls.World.{Env, World}
use dist_link.Urls.Records
use dist_link.Urls.Service
use dist_link.Urls.Service.{find_by_short_code}
use dist_link.Urls.Edit

-- `url.user_id`, `url.expires_at`: a list has neither.
abbrev pub owner_of : Cached → Option String
owner_of (one u) = u.user_id
owner_of (many us) = none

abbrev pub expires_of : Cached → Option Stamp
expires_of (one u) = u.expires_at
expires_of (many us) = none

-- The condition `url.user_id && url.user_id !== userId` fails. A URL that comes from the database, its dates
-- are Dates, has a Uuid object as its owner, which differs from every text; one that comes from the cache
-- has the owner as a text.
abbrev pub is_owner : Stamp → String → String → Bool
is_owner (date t) owner user = false
is_owner (iso t) owner user = owner == "" || owner == user

abbrev pub is_allowed : Cached → String → Bool
is_allowed (many us) user = true
is_allowed (one u) user = elim u.user_id [
  | none ↦ true
  | some owner ↦ is_owner u.created_at owner user
]

abbrev pub has_passed : ℕ → Option Stamp → Bool
has_passed now none = false
has_passed now (some t) = is_past now t

-- The class `[a-zA-Z0-9-_]`.
abbrev in_range : ℕ → ℕ → ℕ → Bool
in_range lo hi c = leb lo c && leb c hi

abbrev pub is_code_char : ℕ → Bool
is_code_char c =
    in_range b'a' b'z' c || in_range b'A' b'Z' c || in_range b'0' b'9' c || eqb c b'-' || eqb c b'_'

abbrev pub all_code_chars : String → Bool
all_code_chars String.[] = true
all_code_chars (String.◌∷◌ c s) = is_code_char (char_code c) && all_code_chars s

-- `/^[a-zA-Z0-9-_]{8,16}$/.test(code)`
unfoldable pub is_custom_code : String → Bool
is_custom_code code = leb 8 (count code) && leb (count code) 16 && all_code_chars code

module _ {env : Env} where
  unfoldable pub create : CreateUrlDto → Option String → Exec (World env) UrlResponseDto
  unfolding Edit.create
  create dto user = Edit.create dto user

  unfoldable pub find_all : Exec (World env) Cached
  find_all = Service.find_all

  unfoldable pub find_by_user : String → Exec (World env) Cached
  find_by_user user = Service.find_by_user_id user

  unfoldable pub find_one : String → Exec (World env) Cached
  unfolding find_by_short_code
  find_one code = do
    url ← find_by_short_code code
    now ← gets (λ w. w.now)
    guard (not (has_passed now (expires_of url))) not_found
    pure url

  unfoldable pub remove : String → String → Exec (World env) Unit
  remove user code = do
    url ← find_by_short_code code
    guard (is_allowed url user) bad_request
    Records.remove code

  unfoldable pub update : String → String → UpdateUrlDto → Exec (World env) UrlResponseDto
  unfolding is_custom_code
  update user code dto = do
    guard (is_custom_code code) bad_request
    url ← find_by_short_code code
    guard (is_allowed url user) bad_request
    Edit.update code dto
