-- ===== src/Auth/Tokens.antt =====
-- modules/auth/auth.service.ts: the tokens, the links in the emails, and the names from Google.
use Prim.Native.Char.{code}
use Prim.Native.String
use dist_link.Base.{ℕ, String, Bool, ◌&&◌, ◌||◌, Option, none, some, ◌==◌, leb, eqb, if◌then◌else◌}
use dist_link.Base.Exec.{generic, Exec, pure, gets, ◌>>=◌}
use dist_link.Auth.World.{Secret, access_secret, refresh_secret, Payload, Env, World, call, query}
use dist_link.Auth.Users.{User, or_throw}

pub record Tokens : Type 0 where
  pub access_token : String
  pub refresh_token : String

-- `trim()`: the characters that it removes, and the removal at each end.
abbrev pub is_space : ℕ → Bool
is_space c =
    leb 9 c && leb c 13
    || eqb c 0x20
    || eqb c 0xa0
    || eqb c 0x1680
    || leb 0x2000 c && leb c 0x200a
    || eqb c 0x2028
    || eqb c 0x2029
    || eqb c 0x202f
    || eqb c 0x205f
    || eqb c 0x3000
    || eqb c 0xfeff

unfoldable pub trim_start : String → String
trim_start String.[] = ""
trim_start (String.◌∷◌ c s) =
    let rest = trim_start s in if is_space (code c) then rest else String.◌∷◌ c s

unfoldable pub trim_end : String → String
trim_end String.[] = ""
trim_end (String.◌∷◌ c s) =
    let rest = trim_end s in if is_space (code c) && rest == "" then "" else String.◌∷◌ c rest

abbrev or_empty : Option String → String
or_empty none = ""
or_empty (some s) = s

-- `${details.firstName || ''} ${details.lastName || ''}`.trim()
unfoldable pub full_name_of : Option String → Option String → String
unfolding trim_start trim_end
full_name_of first last =
    trim_end (trim_start (String.◌++◌ (or_empty first) (String.◌++◌ " " (or_empty last))))

-- lives of the tokens, in seconds: 15 minutes, 7 days, 24 hours, 1 hour
abbrev pub access_life : ℕ
access_life = 900

abbrev pub refresh_life : ℕ
refresh_life = 604800

abbrev pub verification_life : ℕ
verification_life = 86400

abbrev pub reset_life : ℕ
reset_life = 3600

abbrev pub refresh_key : String → String
refresh_key id = String.◌++◌ "refresh_token:" id

abbrev pub verification_key : String → String
verification_key id = String.◌++◌ "verification_token:" id

abbrev pub reset_key : String → String
reset_key id = String.◌++◌ "reset_token:" id

abbrev pub payload_of : User → Payload
payload_of user = record { sub = user.id; email = user.email }

module _ {env : Env} where
  abbrev pub sign : Secret → Payload → ℕ → Exec (World env) String
  sign secret payload life = gets (λ w. env.jwt.sign secret payload w.now life)

  unfoldable pub generate_tokens : User → Exec (World env) Tokens
  generate_tokens user = do
    access ← sign access_secret (payload_of user) access_life
    refresh ← sign refresh_secret (payload_of user) refresh_life
    pure (record { access_token = access; refresh_token = refresh })

  abbrev pub redis_set : String → String → ℕ → Exec (World env) Unit
  redis_set key value ttl = call (λ w. record w { redis = env.redis.set w.redis key value ttl })

  abbrev pub redis_get : String → Exec (World env) (Option String)
  redis_get key = query (λ w. env.redis.get w.redis key)

  abbrev pub redis_del : String → Exec (World env) Unit
  redis_del key = call (λ w. record w { redis = env.redis.del w.redis key })

  unfoldable pub store_refresh_token : String → String → Exec (World env) Unit
  unfolding call
  store_refresh_token id token = redis_set (refresh_key id) token refresh_life

  -- `jwtService.verify`, which throws at a token that is no good
  abbrev pub verify : Secret → String → Exec (World env) Payload
  verify secret token = do
    now ← gets (λ w. w.now)
    or_throw generic (env.jwt.verify secret token now)
