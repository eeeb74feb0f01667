-- ===== src/Config/Tests.antt =====
-- `ValidateInstanceName` on names, and what `Load` reads of an environment.
use trading_ecosystem_exchan.Common.{
  ◌<◌, ◌≡◌, ◌↔◌, refl, ok, err, length, ◌&&◌, ◌==◌, if◌then◌else◌,
}
use trading_ecosystem_exchan.Common.Int.{pos}
use trading_ecosystem_exchan.Common.Regex.{matches}
use trading_ecosystem_exchan.Common.Text.{codes}
use trading_ecosystem_exchan.Config.InstanceName.{
  empty_name, not_dns_safe, too_long, validate_instance_name,
}
use trading_ecosystem_exchan.Config.DnsLabel.{IsDnsLabel, IsLongLabel, validate-IsDnsLabel}
use trading_ecosystem_exchan.Common.{arith}
use trading_ecosystem_exchan.Common.Number.{atoi, scan, unsigned}
use trading_ecosystem_exchan.Common.Duration.{
  parse_duration, parts, part, leading_int, leading_unit, unit_of,
}
use trading_ecosystem_exchan.Config.{Config}
use trading_ecosystem_exchan.Config.Sample.{cfg}
use trading_ecosystem_exchan.Config.Load.{
  Environment, get_env, get_env_as_int, get_env_as_duration, read, load,
}
use trading_ecosystem_exchan.Config.Loading.{
  environment_of, KeepsSet, IsSettable, load-environment_of,
}
use trading_ecosystem_exchan.Config.InRange.{load-IsSettable}

methods : Unit {0}
unfolding validate_instance_name codes matches
methods = tt

lower_case : validate_instance_name "exchange-okx" ≡ ok tt
unfolding methods
lower_case = refl

upper_case : validate_instance_name "exchange-OKX" ≡ err (not_dns_safe "exchange-OKX")
unfolding methods
upper_case = refl

hyphen_last : validate_instance_name "okx-" ≡ err (not_dns_safe "okx-")
unfolding methods
hyphen_last = refl

no_name : validate_instance_name "" ≡ err empty_name
unfolding methods
no_name = refl

validate-IsDnsLabel_example :
    ((validate_instance_name "exchange-okx" ≡ ok tt) ↔ IsDnsLabel (codes "exchange-okx"))
    × ((validate_instance_name "exchange-okx" ≡ err (too_long 64))
        ↔ (IsLongLabel (codes "exchange-okx") × (64 ≡ length (codes "exchange-okx")) × (63 < 64)))
validate-IsDnsLabel_example = validate-IsDnsLabel "exchange-okx" 64

-- an `.env` file with one line
abbrev debug_file : Environment → Environment
debug_file env key = if key == "LOG_LEVEL" && env key == "" then "debug" else env key

debug_file-KeepsSet : KeepsSet debug_file
debug_file-KeepsSet env key h = ground (arith, h)

abbrev unset : Environment
unset _ = ""

-- settings of which one is out of range and one has no unit
abbrev misspelt : Environment
misspelt key =
    if key == "HTTP_PORT"
    then "9223372036854775808"
    else if key == "CACHE_TTL"
    then "90"
    else if key == "REQUEST_TIMEOUT"
    then "1m30s"
    else ""

readers : Unit {0}
unfolding load read get_env get_env_as_int get_env_as_duration atoi unsigned scan parse_duration
    parts part leading_int leading_unit unit_of codes
readers = tt

file_read : (load debug_file unset).log_level ≡ "debug"
unfolding readers
file_read = refl

named_as_service : (load debug_file unset).service_instance_name ≡ "exchange-simulator"
unfolding readers
named_as_service = refl

port_out_of_range : (load debug_file misspelt).http_port ≡ pos 8080
unfolding readers
port_out_of_range = refl

time_without_unit : (load debug_file misspelt).cache_ttl ≡ pos 300_000_000_000
unfolding readers
time_without_unit = refl

time_with_units : (load debug_file misspelt).request_timeout ≡ pos 90_000_000_000
unfolding readers
time_with_units = refl

-- the sample, with a database
abbrev stored : Config
stored = record cfg { postgres_url = "postgres://localhost/exchange" }

load-environment_of_example : load debug_file (environment_of stored) ≡ stored
load-environment_of_example =
    load-environment_of debug_file stored debug_file-KeepsSet
      (record {
        service_name = refl;
        service_instance_name = refl;
        service_version = refl;
        environment = refl;
        http_port = refl;
        grpc_port = refl;
        log_level = refl;
        redis_url = refl;
        configuration_service_url = refl;
        request_timeout = refl;
        cache_ttl = refl;
        health_check_interval = refl;
      })
      refl

load-IsSettable_example : IsSettable (load debug_file misspelt)
load-IsSettable_example = load-IsSettable debug_file misspelt
