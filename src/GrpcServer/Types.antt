-- ===== src/GrpcServer/Types.antt =====
-- The server's data, and what it uses of the network and of gRPC.
use trading_ecosystem_exchan.Common.{ℕ, String, Bool, false, Option, none}
use trading_ecosystem_exchan.Config.{Config}

-- The two health statuses that the program sets.
pub data ServingStatus : Type 0 where
  serving not_serving : ServingStatus

-- `health.Server`, by the names that were set
pub record HealthServer : Type 0 where
  pub overall : ServingStatus
  pub exchange : ServingStatus

-- The gRPC server and the health server are those of the last `Start`. `stop_chan_closed` is the
-- state of `stopChan`. Of the goroutines in the wait group, `launched` counts those that have yet to
-- look for the gRPC server that they serve, `serves` those in `Serve` of the last one, and `abandoned`
-- those in `Serve` of one that a later `Start` has replaced.
pub record ExchangeGrpcServer : Type 0 where
  pub config : Config
  pub health_server : Option HealthServer
  pub listener : Option String
  pub start_time : ℕ
  pub connection_count : ℕ
  pub request_count : ℕ
  pub last_request_time : ℕ
  pub is_running : Bool
  pub stop_chan_closed : Bool
  pub launched : ℕ
  pub serves : ℕ
  pub abandoned : ℕ

pub record ExchangeServerMetrics : Type 0 where
  pub start_time : ℕ
  pub uptime_seconds : ℕ
  pub connection_count : ℕ
  pub request_count : ℕ
  pub last_request_time : ℕ
  pub is_running : Bool

-- `NewExchangeGRPCServer`, at its clock reading
unfoldable pub new_exchange_grpc_server : Config → ℕ → ExchangeGrpcServer
new_exchange_grpc_server cfg started = record {
  config = cfg;
  health_server = none;
  listener = none;
  start_time = started;
  connection_count = 0;
  request_count = 0;
  last_request_time = 0;
  is_running = false;
  stop_chan_closed = false;
  launched = 0;
  serves = 0;
  abandoned = 0;
}
