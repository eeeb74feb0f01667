-- ===== src/Config/Sample.antt =====
-- Settings for runs of the model.
use trading_ecosystem_exchan.Common.Int.{pos}
use trading_ecosystem_exchan.Config.{Config}

abbrev pub cfg : Config
cfg = record {
  service_name = "exchange-simulator";
  service_instance_name = "exchange-OKX";
  service_version = "1.0.0";
  environment = "development";
  http_port = pos 8080;
  grpc_port = pos 50051;
  log_level = "info";
  postgres_url = "";
  redis_url = "redis://localhost:6379";
  configuration_service_url = "http://localhost:8090";
  request_timeout = pos 5;
  cache_ttl = pos 300;
  health_check_interval = pos 30;
}
