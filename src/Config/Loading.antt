-- ===== src/Config/Loading.antt =====
-- What `Load` makes of an environment.
use trading_ecosystem_exchan.Common.{
  ◌*◌, ◌≡◌, refl, ap, ◌∙◌, inl, inr, String, true, false, Option, none, some, arith, ◌==◌, eq_iff,
  if◌then◌else◌, Bool-cases, second,
}
use trading_ecosystem_exchan.Common.Int.{ℤ, pos, fits_int64, itoa}
use trading_ecosystem_exchan.Common.Text.{codes}
use trading_ecosystem_exchan.Common.Number.{atoi, atoi-itoa}
use trading_ecosystem_exchan.Common.Duration.{parse_duration}
use trading_ecosystem_exchan.Common.Duration.Print.{nanoseconds, parse_duration-nanoseconds}
use trading_ecosystem_exchan.Config.{Config}
use trading_ecosystem_exchan.Config.Load.{
  Environment, get_env, get_env_as_int, get_env_as_duration, read, with_instance_name, load,
}

-- The variables that give a configuration.
abbrev pub environment_of : Config → Environment
environment_of cfg key =
    if key == "SERVICE_NAME"
    then cfg.service_name
    else if key == "SERVICE_INSTANCE_NAME"
    then cfg.service_instance_name
    else if key == "SERVICE_VERSION"
    then cfg.service_version
    else if key == "ENVIRONMENT"
    then cfg.environment
    else if key == "HTTP_PORT"
    then itoa cfg.http_port
    else if key == "GRPC_PORT"
    then itoa cfg.grpc_port
    else if key == "LOG_LEVEL"
    then cfg.log_level
    else if key == "POSTGRES_URL"
    then cfg.postgres_url
    else if key == "REDIS_URL"
    then cfg.redis_url
    else if key == "CONFIG_SERVICE_URL"
    then cfg.configuration_service_url
    else if key == "REQUEST_TIMEOUT"
    then nanoseconds cfg.request_timeout
    else if key == "CACHE_TTL"
    then nanoseconds cfg.cache_ttl
    else if key == "HEALTH_CHECK_INTERVAL"
    then nanoseconds cfg.health_check_interval
    else ""

-- `godotenv.Load` leaves a variable alone that is set.
abbrev pub KeepsSet : (Environment → Environment) → Type 0
KeepsSet load_dotenv =
    (env : Environment) (key : String) → (env key == "") ≡ false → load_dotenv env key ≡ env key

-- No text but the address of the database is empty, and 64 bits hold every number.
pub record IsSettable (cfg : Config) : Type 0 where
  pub service_name : (cfg.service_name == "") ≡ false
  pub service_instance_name : (cfg.service_instance_name == "") ≡ false
  pub service_version : (cfg.service_version == "") ≡ false
  pub environment : (cfg.environment == "") ≡ false
  pub http_port : fits_int64 cfg.http_port ≡ true
  pub grpc_port : fits_int64 cfg.grpc_port ≡ true
  pub log_level : (cfg.log_level == "") ≡ false
  pub redis_url : (cfg.redis_url == "") ≡ false
  pub configuration_service_url : (cfg.configuration_service_url == "") ≡ false
  pub request_timeout : fits_int64 cfg.request_timeout ≡ true
  pub cache_ttl : fits_int64 cfg.cache_ttl ≡ true
  pub health_check_interval : fits_int64 cfg.health_check_interval ≡ true

atoi-empty : atoi "" ≡ none
unfolding atoi codes
atoi-empty = refl

parse_duration-empty : parse_duration "" ≡ none
unfolding parse_duration codes
parse_duration-empty = refl

-- A text that is read as a number is not empty.
read-set :
    (f : String → Option ℤ) (s : String) (z : ℤ) → f "" ≡ none → f s ≡ some z → (s == "") ≡ false
read-set f s z none_empty h = elim (Bool-cases (s == "")) [
  | inr e ↦ e
  | inl e ↦
      let q : s ≡ "" = ground (arith, eq_iff s "", e) in
      let r : f s ≡ none = ap f q ∙ none_empty in cc
]

-- A variable that is set is read as what it stands for.
module _ (env : Environment) (key : String) where
  get_env-set :
      (d value : String) → env key ≡ value → (value == "") ≡ false → get_env env key d ≡ value
  unfolding get_env
  get_env-set d value e h = ground (arith, e, h)

  get_env_as_int-set :
      (d z : ℤ) → env key ≡ itoa z → fits_int64 z ≡ true → get_env_as_int env key d ≡ z
  unfolding get_env_as_int
  get_env_as_int-set d z e h =
      let set = read-set atoi (itoa z) z atoi-empty (atoi-itoa z h) in rw (e, set, atoi-itoa z h)

  get_env_as_duration-set :
      (d z : ℤ) → env key ≡ nanoseconds z → fits_int64 z ≡ true → get_env_as_duration env key d ≡ z
  unfolding get_env_as_duration
  get_env_as_duration-set d z e h =
      let reads = parse_duration-nanoseconds z h in
      let set = read-set parse_duration (nanoseconds z) z parse_duration-empty reads in
      rw (e, set, reads)

-- A configuration read from variables that are kept.
module _ (load_dotenv : Environment → Environment) (cfg : Config)
    (keeps : KeepsSet load_dotenv) where
  kept_int :
      (key : String) (d z : ℤ)
      → environment_of cfg key ≡ itoa z
      → fits_int64 z ≡ true
      → get_env_as_int (load_dotenv (environment_of cfg)) key d ≡ z
  kept_int key d z e h =
      let set : (environment_of cfg key == "") ≡ false =
        rw e (read-set atoi (itoa z) z atoi-empty (atoi-itoa z h)) in
      get_env_as_int-set _ key d z (keeps _ key set ∙ e) h

  kept_duration :
      (key : String) (d z : ℤ)
      → environment_of cfg key ≡ nanoseconds z
      → fits_int64 z ≡ true
      → get_env_as_duration (load_dotenv (environment_of cfg)) key d ≡ z
  kept_duration key d z e h =
      let reads = parse_duration-nanoseconds z h in
      let set : (environment_of cfg key == "") ≡ false =
        rw e (read-set parse_duration (nanoseconds z) z parse_duration-empty reads) in
      get_env_as_duration-set _ key d z (keeps _ key set ∙ e) h

  kept :
      (key d value : String)
      → environment_of cfg key ≡ value
      → (value == "") ≡ false
      → get_env (load_dotenv (environment_of cfg)) key d ≡ value
  kept key d value e h = get_env-set _ key d value (keeps _ key (rw e h) ∙ e) h

  read-environment_of :
      IsSettable cfg
      → (cfg.postgres_url == "") ≡ false
      → read (load_dotenv (environment_of cfg)) ≡ cfg
  unfolding read
  read-environment_of h url = λ i. record {
    service_name = kept "SERVICE_NAME" "exchange-simulator" _ refl h.service_name i;
    service_instance_name = kept "SERVICE_INSTANCE_NAME" "" _ refl h.service_instance_name i;
    service_version = kept "SERVICE_VERSION" "1.0.0" _ refl h.service_version i;
    environment = kept "ENVIRONMENT" "development" _ refl h.environment i;
    http_port = kept_int "HTTP_PORT" (pos 8080) _ refl h.http_port i;
    grpc_port = kept_int "GRPC_PORT" (pos 50051) _ refl h.grpc_port i;
    log_level = kept "LOG_LEVEL" "info" _ refl h.log_level i;
    postgres_url = kept "POSTGRES_URL" "" _ refl url i;
    redis_url = kept "REDIS_URL" "redis://localhost:6379" _ refl h.redis_url i;
    configuration_service_url =
        kept "CONFIG_SERVICE_URL" "http://localhost:8090" _ refl h.configuration_service_url i;
    request_timeout = kept_duration "REQUEST_TIMEOUT" (pos (5 * second)) _ refl h.request_timeout i;
    cache_ttl = kept_duration "CACHE_TTL" (pos (300 * second)) _ refl h.cache_ttl i;
    health_check_interval =
        kept_duration "HEALTH_CHECK_INTERVAL" (pos (30 * second)) _ refl h.health_check_interval i;
  }

with_instance_name-set :
    (cfg : Config) → (cfg.service_instance_name == "") ≡ false → with_instance_name cfg ≡ cfg
with_instance_name-set cfg h = rw h refl

-- Written to the environment, a configuration without empty texts whose numbers fit in 64 bits is
-- loaded as it was, if the loading of an `.env` file leaves the variables alone that are set:
-- numbers in decimal, and durations in nanoseconds.
pub load-environment_of :
    (load_dotenv : Environment → Environment) (cfg : Config)
    → KeepsSet load_dotenv
    → IsSettable cfg
    → (cfg.postgres_url == "") ≡ false
    → load load_dotenv (environment_of cfg) ≡ cfg
unfolding load
load-environment_of load_dotenv cfg keeps h url =
    ap with_instance_name (read-environment_of load_dotenv cfg keeps h url)
    ∙ with_instance_name-set cfg h.service_instance_name
