-- ===== src/ServiceDiscovery/Types.antt =====
-- The client's data.
use trading_ecosystem_exchan.Common.{
  ℕ, ◌*◌, String, Bool, false, Option, none, [], ◌∷◌, Clock, second,
}
use Prim.Native.String.{◌++◌}
use trading_ecosystem_exchan.Common.Assoc.{Map}
use trading_ecosystem_exchan.Common.Int.{ℤ, itoa, unix}
use trading_ecosystem_exchan.Config.{Config}
use trading_ecosystem_exchan.ServiceDiscovery.Redis.{RedisClient}

pub record ServiceInfo : Type 0 where
  pub service_name : String
  pub host : String
  pub grpc_port : ℤ
  pub http_port : ℤ
  pub version : String
  pub environment : String
  pub status : String
  pub last_seen : ℕ
  pub metadata : Map String

pub record ServiceDiscoveryMetrics : Type 0 where
  pub registered_services : ℕ
  pub healthy_services : ℕ
  pub last_heartbeat_time : ℕ
  pub last_discovery_time : ℕ
  pub heartbeat_count : ℕ
  pub discovery_count : ℕ
  pub is_connected : Bool
  pub service_lookup_count : ℕ
  pub service_lookup_errors : ℕ

-- `*time.Ticker`, once it is there
pub data Ticker : Type 0 where
  ticking stopped : Ticker

-- `cancelled` is the state of the context; `heartbeats` counts the goroutines in `heartbeatLoop`.
pub record ServiceDiscoveryClient : Type 0 where
  pub config : Config
  pub service_info : ServiceInfo
  pub heartbeat_ticker : Option Ticker
  pub cancelled : Bool
  pub metrics : ServiceDiscoveryMetrics
  pub is_running : Bool
  pub heartbeats : ℕ

abbrev pub heartbeat_interval : ℕ
heartbeat_interval = 30 * second

abbrev pub service_timeout : ℕ
service_timeout = 90 * second

abbrev pub discovery_key_pattern : String
discovery_key_pattern = "services:*"

-- `NewServiceDiscoveryClient`, at the two clock readings of its struct literal
unfoldable pub new_service_discovery_client : Config → ℕ → ℕ → ServiceDiscoveryClient
new_service_discovery_client cfg seen created = record {
  config = cfg;
  service_info = record {
    service_name = cfg.service_name;
    host = "localhost";
    grpc_port = cfg.grpc_port;
    http_port = cfg.http_port;
    version = cfg.service_version;
    environment = "development";
    status = "healthy";
    last_seen = seen;
    metadata =
        ("type", "exchange-simulator")
        ∷ ("deployment", "local")
        ∷ ("instance_id", cfg.service_name ++ "-" ++ itoa (unix created))
        ∷ [];
  };
  heartbeat_ticker = none;
  cancelled = false;
  metrics = record {
    registered_services = 0;
    healthy_services = 0;
    last_heartbeat_time = 0;
    last_discovery_time = 0;
    heartbeat_count = 0;
    discovery_count = 0;
    is_connected = false;
    service_lookup_count = 0;
    service_lookup_errors = 0;
  };
  is_running = false;
  heartbeats = 0;
}

pub data Error (Fault : Type 0) : Type 0 where
  already_running : Error Fault
  connect register_in_redis unregister discover : Fault → Error Fault
  register : Error Fault → Error Fault
  no_healthy_instances : String → Error Fault

-- The client with its surroundings: the state of every method.
pub record Session (r : RedisClient) : Type 0 where
  pub client : ServiceDiscoveryClient
  pub open client use *
  pub clock : Clock
  pub redis : r.State

-- A new client in its surroundings.
abbrev pub new_session : {r : RedisClient} → Config → ℕ → ℕ → Clock → r.State → Session r
new_session cfg seen created clock redis = record {
  client = new_service_discovery_client cfg seen created;
  clock = clock;
  redis = redis;
}
