-- ===== src/Tests/Variables.antt =====
-- The theorem on the configuration, over an environment that has all variables and one more.
use dist_link.Base.{ℕ, String, ◌≡◌, refl, Option, none, some, [], ◌∷◌, ◌==◌, if◌then◌else◌}
use dist_link.Base.Dict.{Dict, get}
use dist_link.Base.Exec.{ok, err, generic}
use dist_link.Configuration.{
  text, number, validate, validate_sync, plain_to_class, read_as, validate_exact,
}
use mathlib.Core.Option

-- Reads one number.
abbrev read_port : String → Option ℕ
read_port s = if s == "9042" then some 9042 else none

abbrev full_environment : Dict String
full_environment =
    ("HOME", "/root")
    ∷ ("SCYLLA_HOST", "db")
    ∷ ("SCYLLA_PORT", "9042")
    ∷ ("SCYLLA_USERNAME", "user")
    ∷ ("SCYLLA_PASSWORD", "pass")
    ∷ ("SCYLLA_KEYSPACE", "links")
    ∷ ("REDIS_HOST", "redis")
    ∷ ("REDIS_PORT", "9042")
    ∷ ("KAFKA_BROKERS", "kafka")
    ∷ ("CLICKHOUSE_HOST", "house")
    ∷ ("CLICKHOUSE_PORT", "9042")
    ∷ []

-- Without the other variables the start fails.
short_test : validate read_port (("SCYLLA_HOST", "db") ∷ ("SCYLLA_PORT", "9042") ∷ []) ≡ err generic
unfolding validate validate_sync plain_to_class get
short_test = refl

settings_test :
    (get (plain_to_class read_port full_environment) "HOME" ≡ some (text "/root"))
    × (get (plain_to_class read_port full_environment) "REDIS_PORT" ≡ some (number (some 9042)))
unfolding plain_to_class get
settings_test = (refl, refl)

validate_exact_example :
    (validate read_port full_environment ≡ ok (plain_to_class read_port full_environment))
    × ((name : String)
        → get (plain_to_class read_port full_environment) name
          ≡ Option.map (read_as read_port name) (get full_environment name))
unfolding get
validate_exact_example = validate_exact read_port full_environment
