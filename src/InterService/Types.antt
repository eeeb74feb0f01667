-- ===== src/InterService/Types.antt =====
-- The manager's data, and the gRPC library that it calls.
use trading_ecosystem_exchan.Common.{ℕ, ◌≡◌, String, Bool, true, false, [], Result, err}
use trading_ecosystem_exchan.Common.Assoc.{Map}
use trading_ecosystem_exchan.Config.{Config}
use trading_ecosystem_exchan.ServiceDiscovery.Redis.{RedisClient}
use trading_ecosystem_exchan.ServiceDiscovery.Types.{Error as DiscoveryError}
use trading_ecosystem_exchan.ServiceDiscovery.Types

-- `connectivity.State`
pub data Connectivity : Type 0 where
  idle connecting ready transient_failure shutdown : Connectivity

-- `HealthCheckResponse_ServingStatus`
pub data ServingStatus : Type 0 where
  unknown serving down service_unknown : ServingStatus

pub data HealthError (Fault : Type 0) : Type 0 where
  check_failed : Fault → HealthError Fault
  not_serving : String → HealthError Fault

-- What the program uses of gRPC: `conn.GetState`, `conn.Close`, and `grpc.DialContext` with
-- `WithBlock`, which is told whether its context is cancelled, and the health service's `Check`.
pub record Grpc : Type 1 where
  pub State : Type 0
  pub Conn : Type 0
  pub Fault : Type 0
  pub get_state : Conn → State → Connectivity
  pub close : Conn → State → Result Fault (Unit {0}) × State
  pub dial : Bool → String → State → Result Fault Conn × State
  pub check : Conn → String → State → Result Fault ServingStatus × State

-- Dialling with a cancelled context fails.
pub record ObeysContext (g : Grpc) : Type 0 where
  pub dial-cancelled :
      (endpoint : String) (w : g.State) → (x : g.Fault) × ((g.dial true endpoint w).0 ≡ err x)

-- The two implementations of client interfaces, each over its connection. The health client and the
-- logger hold no state of their own.
pub data Client (g : Grpc) : Type 0 where
  audit_correlator custodian_simulator : g.Conn → Client g

pub record InterServiceMetrics : Type 0 where
  pub active_connections : ℕ
  pub total_connections : ℕ
  pub failed_connections : ℕ
  pub last_connection_attempt : ℕ
  pub service_call_count : ℕ
  pub service_call_errors : ℕ
  pub circuit_breaker_trips : ℕ

pub record InterServiceClientManager (g : Grpc) : Type 0 where
  pub config : Config
  pub connections : Map g.Conn
  pub clients : Map (Client g)
  pub metrics : InterServiceMetrics
  pub cancelled : Bool

-- `NewInterServiceClientManager`
unfoldable pub new_inter_service_client_manager : {g : Grpc} → Config → InterServiceClientManager g
new_inter_service_client_manager cfg = record {
  config = cfg;
  connections = [];
  clients = [];
  metrics = record {
    active_connections = 0;
    total_connections = 0;
    failed_connections = 0;
    last_connection_attempt = 0;
    service_call_count = 0;
    service_call_errors = 0;
    circuit_breaker_trips = 0;
  };
  cancelled = false;
}

-- The errors of `getOrCreateConnection`, and `ServiceUnavailableError` around one.
pub data ConnectionError (r : RedisClient) (g : Grpc) : Type 0 where
  discover_service : String → DiscoveryError r.Fault → ConnectionError r g
  connect_to : String → String → g.Fault → ConnectionError r g

pub record ServiceUnavailableError (r : RedisClient) (g : Grpc) : Type 0 where
  pub service_name : String
  pub message : ConnectionError r g

-- The manager with its surroundings. The process has one clock, which the discovery client's state
-- holds.
pub record Session (r : RedisClient) (g : Grpc) : Type 0 where
  pub manager : InterServiceClientManager g
  pub open manager use *
  pub discovery : Types.Session r
  pub grpc : g.State

abbrev pub new_session :
    {r : RedisClient} {g : Grpc} → Config → Types.Session r → g.State → Session r g
new_session cfg discovery grpc = record {
  manager = new_inter_service_client_manager cfg;
  discovery = discovery;
  grpc = grpc;
}

abbrev pub audit_name : String
audit_name = "audit-correlator"

abbrev pub custodian_name : String
custodian_name = "custodian-simulator"
