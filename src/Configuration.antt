-- ===== src/Configuration.antt =====
-- configs/validation.ts: `validate`, over the texts of the environment. `Number(text)` of class-transformer is
-- a parameter, which gives nothing where the number is NaN or infinite. A variable that is not declared in
-- `EnvironmentVariables` stays as it is.
use dist_link.Base.{
  String, ◌≡◌, refl, ap, Bool, true, false, ◌&&◌, ◌||◌, Option, none, some, [], ◌∷◌, inl, inr, ◌==◌,
  eq_iff, if◌then◌else◌, Bool-cases, Option-cases, arith,
}
use dist_link.Base.Dict.{Dict, get}
use dist_link.Base.Exec.{generic, Result, ok, err}
use mathlib.Core.Option
use mathlib.Core.Path.{subst}

-- The decorator of a property.
pub data Property : Type 0 where
  is_string is_number : Property

-- A number is `none` where it is NaN or infinite.
pub data Setting (N : Type 0) : Type 0 where
  text : String → Setting N
  number : Option N → Setting N

abbrev pub environment_variables : Dict Property
environment_variables =
    ("SCYLLA_HOST", is_string)
    ∷ ("SCYLLA_PORT", is_number)
    ∷ ("SCYLLA_USERNAME", is_string)
    ∷ ("SCYLLA_PASSWORD", is_string)
    ∷ ("SCYLLA_KEYSPACE", is_string)
    ∷ ("REDIS_HOST", is_string)
    ∷ ("REDIS_PORT", is_number)
    ∷ ("KAFKA_BROKERS", is_string)
    ∷ ("CLICKHOUSE_HOST", is_string)
    ∷ ("CLICKHOUSE_PORT", is_number)
    ∷ []

module _ {N : Type 0} where
  -- The decorator holds of the value; a value that is missing is undefined.
  abbrev pub is_valid : Property → Option (Setting N) → Bool
  is_valid is_string (some (text s)) = true
  is_valid is_number (some (number (some n))) = true
  is_valid _ _ = false

  unfoldable pub validate_sync : Dict Property → Dict (Setting N) → Bool
  unfolding get
  validate_sync [] settings = true
  validate_sync ((name, p) ∷ rest) settings =
      is_valid p (get settings name) && validate_sync rest settings

module _ {N : Type 0} (to_number : String → Option N) where
  -- The implicit conversion of one variable.
  abbrev pub converted : Option Property → String → Setting N
  converted (some is_number) s = number (to_number s)
  converted (some is_string) s = text s
  converted none s = text s

  unfoldable pub plain_to_class : Dict String → Dict (Setting N)
  unfolding get
  plain_to_class [] = []
  plain_to_class ((name, s) ∷ config) =
      (name, converted (get environment_variables name) s) ∷ plain_to_class config

  -- Every property is there and of its type, or the start of the application fails.
  unfoldable pub validate : Dict String → Result (Dict (Setting N))
  unfolding validate_sync plain_to_class
  validate config =
      let settings = plain_to_class config in
      if validate_sync environment_variables settings then ok settings else err generic

  -- The three ports are numbers, all other variables texts.
  abbrev pub is_port : String → Bool
  is_port name = "SCYLLA_PORT" == name || "REDIS_PORT" == name || "CLICKHOUSE_PORT" == name

  abbrev pub read_as : String → String → Setting N
  read_as name s = if is_port name then number (to_number s) else text s

  module _ (s : String) where
    abbrev Agrees : String → Type 0
    Agrees name = converted (get environment_variables name) s ≡ read_as name s

    at_name :
        (given name : String) → Agrees given → ((given == name) ≡ false → Agrees name) → Agrees name
    at_name given name here elsewhere = elim (Bool-cases (given == name)) [
      | inl same ↦ subst Agrees ((eq_iff given name).0 same) here
      | inr other ↦ elsewhere other
    ]

    converted-read_as : (name : String) → Agrees name
    unfolding get
    converted-read_as name = at_name "SCYLLA_HOST" name refl λ a.
        at_name "SCYLLA_PORT" name refl λ b. at_name "SCYLLA_USERNAME" name refl λ c.
          at_name "SCYLLA_PASSWORD" name refl λ d. at_name "SCYLLA_KEYSPACE" name refl λ e.
            at_name "REDIS_HOST" name refl λ f. at_name "REDIS_PORT" name refl λ g.
              at_name "KAFKA_BROKERS" name refl λ h.
                at_name "CLICKHOUSE_HOST" name refl λ i.
                  at_name "CLICKHOUSE_PORT" name refl λ j. rw (a, b, c, d, e, f, g, h, i, j) refl

  get-plain_to_class :
      (config : Dict String) (name : String)
      → get (plain_to_class config) name ≡ Option.map (read_as name) (get config name)
  unfolding get plain_to_class
  get-plain_to_class [] name = refl
  get-plain_to_class ((k, s) ∷ config) name = elim (Bool-cases (k == name)) [
    | inl same ↦ rw same (
        ap some (
          subst (λ v. converted (get environment_variables k) s ≡ read_as v s)
            ((eq_iff k name).0 same) (converted-read_as s k)))
    | inr other ↦ rw other (get-plain_to_class config name)
  ]

  abbrev is_given : Option String → Bool
  is_given none = false
  is_given (some s) = true

  abbrev is_finite : Option N → Bool
  is_finite none = false
  is_finite (some n) = true

  abbrev reads_number : Option String → Bool
  reads_number none = false
  reads_number (some s) = is_finite (to_number s)

  abbrev has_text : Dict String → String → Bool
  has_text config name = is_given (get config name)

  abbrev has_port : Dict String → String → Bool
  has_port config name = reads_number (get config name)

  -- The seven texts are there, and the three ports are numbers.
  abbrev pub is_ready : Dict String → Bool
  is_ready config =
      has_text config "SCYLLA_HOST"
      && has_port config "SCYLLA_PORT"
      && has_text config "SCYLLA_USERNAME"
      && has_text config "SCYLLA_PASSWORD"
      && has_text config "SCYLLA_KEYSPACE"
      && has_text config "REDIS_HOST"
      && has_port config "REDIS_PORT"
      && has_text config "KAFKA_BROKERS"
      && has_text config "CLICKHOUSE_HOST"
      && has_port config "CLICKHOUSE_PORT"

  valid_text :
      (config : Dict String) (name : String)
      → is_port name ≡ false
      → is_valid is_string (get (plain_to_class config) name) ≡ has_text config name
  valid_text config name other = elim (Option-cases (get config name)) [
    | inl missing ↦ rw (get-plain_to_class config name, missing) refl
    | inr (s, given) ↦ rw (get-plain_to_class config name, given, other) refl
  ]

  valid_port :
      (config : Dict String) (name : String)
      → is_port name ≡ true
      → is_valid is_number (get (plain_to_class config) name) ≡ has_port config name
  valid_port config name port = elim (Option-cases (get config name)) [
    | inl missing ↦ rw (get-plain_to_class config name, missing) refl
    | inr (s, given) ↦ elim (Option-cases (to_number s)) [
      | inl not_a_number ↦ rw (get-plain_to_class config name, given, port, not_a_number) refl
      | inr (n, reads) ↦ rw (get-plain_to_class config name, given, port, reads) refl
    ]
  ]

  validate_sync-is_ready :
      (config : Dict String)
      → validate_sync environment_variables (plain_to_class config) ≡ is_ready config
  unfolding validate_sync
  validate_sync-is_ready config =
      rw
        (
          valid_text config "SCYLLA_HOST" refl,
          valid_port config "SCYLLA_PORT" refl,
          valid_text config "SCYLLA_USERNAME" refl,
          valid_text config "SCYLLA_PASSWORD" refl,
          valid_text config "SCYLLA_KEYSPACE" refl,
          valid_text config "REDIS_HOST" refl,
          valid_port config "REDIS_PORT" refl,
          valid_text config "KAFKA_BROKERS" refl,
          valid_text config "CLICKHOUSE_HOST" refl,
          valid_port config "CLICKHOUSE_PORT" refl,
        )
        (ground arith)

  -- The configuration is accepted where the seven texts are there and the three ports are numbers, and
  -- refused otherwise. The settings have the variables that the environment has: each port as its number,
  -- and every other variable, also one that is not declared, as its text.
  pub validate_exact :
      (config : Dict String)
      → (validate config ≡ (if is_ready config then ok (plain_to_class config) else err generic))
        × ((name : String)
            → get (plain_to_class config) name ≡ Option.map (read_as name) (get config name))
  unfolding validate
  validate_exact config = (rw (validate_sync-is_ready config) refl, get-plain_to_class config)
