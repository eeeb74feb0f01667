-- ===== src/GrpcServer/Methods.antt =====
-- The methods of `ExchangeGRPCServer`. What the network does with `net.Listen`, what a handler returns,
-- and what can end the `select` of `Stop`, are arguments.
use Prim.Native.Nat.{◌/◌}
use Prim.Native.String.{◌++◌}
use trading_ecosystem_exchan.Common.{
  ◌+◌, ◌-◌, ◌&&◌, ◌||◌, String, Bool, true, false, Option, none, some, Result, ok, err, inc64, eqb,
  Clock, peek, advance, since, second, if◌then◌else◌,
}
use trading_ecosystem_exchan.Common.Int.{itoa}
use trading_ecosystem_exchan.GrpcServer.Types.{
  ServingStatus, serving, not_serving, HealthServer, ExchangeGrpcServer, ExchangeServerMetrics,
}

pub data Error (Fault : Type 0) : Type 0 where
  listen : String → Fault → Error Fault

-- What a call ends in: it returns, or the program panics, or it waits for ever.
pub data Outcome (A : Type 0) : Type 0 where
  returned : A → Outcome A
  close_of_closed_channel : Outcome A
  blocked : Outcome A

unfoldable pub address : ExchangeGrpcServer → String
address s = ":" ++ itoa s.config.grpc_port

abbrev pub both : ServingStatus → HealthServer
both st = record { overall = st; exchange = st }

abbrev bound :
    {Fault : Type 0}
    → ExchangeGrpcServer
    → Result Fault String
    → Result (Error Fault) (Unit {0}) × ExchangeGrpcServer
bound s (err x) = (err (listen (address s) x), s)
bound s (ok a) = (
  ok tt,
  record s {
    listener = some a;
    health_server = some (both serving);
    is_running = true;
    launched = s.launched + 1;
    serves = 0;
    abandoned = s.abandoned + s.serves;
  },
)

-- the health server, if there is one, stops serving
abbrev pub retire : Option HealthServer → Option HealthServer
retire none = none
retire (some h) = some (both not_serving)

-- `Start`, where `net.Listen` on an address gives a bound address or an error
unfoldable pub start :
    {Fault : Type 0}
    → (String → Result Fault String)
    → ExchangeGrpcServer
    → Result (Error Fault) (Unit {0}) × ExchangeGrpcServer
start net_listen s = bound s (net_listen (address s))

-- The goroutine of a `Start` runs: it calls `Serve` of the gRPC server that there is then.
unfoldable pub enter : ExchangeGrpcServer → ExchangeGrpcServer
enter s =
    if eqb s.launched 0 then s else record s { launched = s.launched - 1; serves = s.serves + 1 }

-- What may end the `select` of a `Stop`: whether `GracefulStop`, which waits for the calls that are
-- pending, returns, and whether the context is done at some time.
pub record Ending : Type 0 where
  pub drains : Bool
  pub expires : Bool

abbrev pub ends : Ending → Bool
ends e = e.drains || e.expires

-- `Stop`. Either end of its `select`, the graceful stop or the forced one, makes each `Serve` of the
-- last gRPC server return, those included that are yet to be called, and no other one; `wg.Wait` waits
-- for all. A second close of `stopChan` panics.
unfoldable pub stop : Ending → ExchangeGrpcServer → Outcome ExchangeGrpcServer
stop e s =
    let down = record s {
      is_running = false;
      health_server = retire s.health_server;
      stop_chan_closed = true;
      launched = 0;
      serves = 0;
    } in
    if s.is_running
    then (if s.stop_chan_closed
        then close_of_closed_channel
        else if ends e && eqb s.abandoned 0
        then returned down
        else blocked)
    else returned s

-- A `Serve` of the last gRPC server returns by itself, with an error that is logged.
unfoldable pub serve_error : ExchangeGrpcServer → ExchangeGrpcServer
serve_error s = record s { serves = s.serves - 1 }

-- `GetMetrics`
unfoldable pub get_metrics : Clock → ExchangeGrpcServer → ExchangeServerMetrics × Clock
get_metrics c s = (
  record {
    start_time = s.start_time;
    uptime_seconds = since s.start_time c / second;
    connection_count = s.connection_count;
    request_count = s.request_count;
    last_request_time = s.last_request_time;
    is_running = s.is_running;
  },
  advance c,
)

abbrev status_of : Option HealthServer → Bool → ServingStatus
status_of none running = not_serving
status_of (some h) true = serving
status_of (some h) false = not_serving

-- `GetHealthStatus`
unfoldable pub get_health_status : ExchangeGrpcServer → ServingStatus
get_health_status s = status_of s.health_server s.is_running

-- `unaryInterceptor`: counts the request, and returns what the handler returns. The handler may
-- change the server too, through requests that run while it does.
unfoldable pub unary_interceptor :
    {A : Type 0}
    → (ExchangeGrpcServer × Clock → A × (ExchangeGrpcServer × Clock))
    → ExchangeGrpcServer × Clock
    → A × (ExchangeGrpcServer × Clock)
unary_interceptor handler (s, c) =
    let counted = record s { request_count = inc64 s.request_count; last_request_time = peek c } in
    let (resp, (t, d)) = handler (counted, advance c) in (resp, (t, advance d))

-- `GetAddress`
unfoldable pub get_address : ExchangeGrpcServer → String
unfolding address
get_address s = elim s.listener [ none ↦ address s | some a ↦ a ]
