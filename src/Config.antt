-- ===== src/Config.antt =====
-- internal/config/config.go: the settings that `Load` builds and every component reads, and the data
-- adapter and the metrics port that it holds.
pub mod Sample
pub mod InstanceName
pub mod DnsLabel
pub mod Load
pub mod Loading
pub mod InRange
pub mod MetricsHolder
pub mod DataAdapter
pub mod Connecting
pub mod Tests
use trading_ecosystem_exchan.Common.{String}
use trading_ecosystem_exchan.Common.Int.{ℤ}

-- The exported fields of `Config`; a `time.Duration` is a number of nanoseconds.
pub record Config : Type 0 where
  pub service_name : String
  pub service_instance_name : String
  pub service_version : String
  pub environment : String
  pub http_port : ℤ
  pub grpc_port : ℤ
  pub log_level : String
  pub postgres_url : String
  pub redis_url : String
  pub configuration_service_url : String
  pub request_timeout : ℤ
  pub cache_ttl : ℤ
  pub health_check_interval : ℤ
