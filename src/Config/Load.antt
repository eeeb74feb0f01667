-- ===== src/Config/Load.antt =====
-- internal/config/config.go, `Load` and the readers of the environment.
use trading_ecosystem_exchan.Common.{String, Option, none, some, ◌==◌, if◌then◌else◌, second}
use Prim.Native.Nat.{◌*◌}
use trading_ecosystem_exchan.Common.Int.{ℤ, pos}
use trading_ecosystem_exchan.Common.Number.{atoi}
use trading_ecosystem_exchan.Common.Duration.{parse_duration}
use trading_ecosystem_exchan.Config.{Config}

-- What `os.Getenv` gives for each name: the empty text for one that is not set.
abbrev pub Environment : Type 0
Environment = String → String

-- `getEnv`
unfoldable pub get_env : Environment → String → String → String
get_env env key default_value = let value = env key in if value == "" then default_value else value

abbrev pub or_default : ℤ → Option ℤ → ℤ
or_default default_value none = default_value
or_default default_value (some value) = value

-- `getEnvAsInt`
unfoldable pub get_env_as_int : Environment → String → ℤ → ℤ
get_env_as_int env key default_value =
    let value = env key in
    if value == "" then default_value else or_default default_value (atoi value)

-- `getEnvAsDuration`
unfoldable pub get_env_as_duration : Environment → String → ℤ → ℤ
get_env_as_duration env key default_value =
    let value = env key in
    if value == "" then default_value else or_default default_value (parse_duration value)

-- the settings as they are read
unfoldable pub read : Environment → Config
unfolding get_env get_env_as_int get_env_as_duration
read env = record {
  service_name = get_env env "SERVICE_NAME" "exchange-simulator";
  service_instance_name = get_env env "SERVICE_INSTANCE_NAME" "";
  service_version = get_env env "SERVICE_VERSION" "1.0.0";
  environment = get_env env "ENVIRONMENT" "development";
  http_port = get_env_as_int env "HTTP_PORT" (pos 8080);
  grpc_port = get_env_as_int env "GRPC_PORT" (pos 50051);
  log_level = get_env env "LOG_LEVEL" "info";
  postgres_url = get_env env "POSTGRES_URL" "";
  redis_url = get_env env "REDIS_URL" "redis://localhost:6379";
  configuration_service_url = get_env env "CONFIG_SERVICE_URL" "http://localhost:8090";
  request_timeout = get_env_as_duration env "REQUEST_TIMEOUT" (pos (5 * second));
  cache_ttl = get_env_as_duration env "CACHE_TTL" (pos (300 * second));
  health_check_interval = get_env_as_duration env "HEALTH_CHECK_INTERVAL" (pos (30 * second));
}

abbrev pub with_instance_name : Config → Config
with_instance_name cfg =
    if cfg.service_instance_name == ""
    then record cfg { service_instance_name = cfg.service_name }
    else cfg

-- `Load`, where `godotenv.Load` adds the variables of a file to the environment. The error of
-- `ValidateInstanceName` is dropped.
unfoldable pub load : (Environment → Environment) → Environment → Config
unfolding read
load load_dotenv env = with_instance_name (read (load_dotenv env))
