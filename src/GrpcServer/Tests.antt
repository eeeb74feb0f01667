-- ===== src/GrpcServer/Tests.antt =====
-- A server on a network where every port is free, and the theorems at concrete inputs.
use trading_ecosystem_exchan.Common.{
  ◌≡◌, refl, String, true, false, some, List, [], ◌∷◌, Result, ok, ticking, ◌≤◌, arith, All,
}
use trading_ecosystem_exchan.Common.Int.{itoa}
use trading_ecosystem_exchan.Config.Sample.{cfg}
use trading_ecosystem_exchan.GrpcServer.Types.{
  ServingStatus, ExchangeGrpcServer, new_exchange_grpc_server,
}
use trading_ecosystem_exchan.GrpcServer.Methods.{
  returned, close_of_closed_channel, blocked, Ending, start, stop, enter, get_address, get_metrics,
  get_health_status, unary_interceptor, serve_error, address,
}
use trading_ecosystem_exchan.GrpcServer.Lifecycle.{
  Event, starts, stops, enters, requests, step, run, stop-start-stop, stop-start_again,
}
use trading_ecosystem_exchan.GrpcServer.Termination.{count_binds, AllowsStop, run-new-returns}

abbrev free : String → Result Unit String
free a = ok a

abbrev fresh : ExchangeGrpcServer
fresh = new_exchange_grpc_server cfg 5

abbrev started : ExchangeGrpcServer
started = enter (start free fresh).1

-- A call is pending that never ends, under a context that is done at some time.
abbrev forced : Ending
forced = record { drains = false; expires = true }

abbrev stopped : ExchangeGrpcServer
stopped = record started {
  is_running = false;
  health_server =
      some (record { overall = ServingStatus.not_serving; exchange = ServingStatus.not_serving });
  stop_chan_closed = true;
  launched = 0;
  serves = 0;
}

methods : Unit {0}
unfolding start stop enter serve_error address itoa new_exchange_grpc_server get_address get_metrics
    get_health_status unary_interceptor run step
methods = tt

at_address : get_address started ≡ ":50051"
unfolding methods
at_address = refl

uptime : (get_metrics (ticking 3_000_000_006 0) started).0.uptime_seconds ≡ 3
unfolding methods
uptime = refl

abbrev events : List Event
events = requests (ticking 7 1) ∷ starts free ∷ enters ∷ requests (ticking 9 1) ∷ stops forced ∷ []

abbrev after_events : ExchangeGrpcServer
after_events = record stopped { request_count = 2; last_request_time = 9 }

one_port : count_binds (address fresh) events ≤ 1
unfolding methods
one_port = omega arith

events-All : All AllowsStop events
events-All = (tt, (tt, (tt, (tt, (refl, tt)))))

run-new-returns_example : (t : ExchangeGrpcServer) × (run fresh events ≡ returned t)
run-new-returns_example = run-new-returns cfg 5 events events-All one_port

runs : started.is_running ≡ true
unfolding methods
runs = refl

serves : 1 ≤ started.serves
unfolding methods
serves = omega arith

alive : started.stop_chan_closed ≡ false
unfolding methods
alive = refl

stop_returns : stop forced started ≡ returned stopped
unfolding methods
stop_returns = refl

starts_again : (start free stopped).0 ≡ ok tt
unfolding methods
starts_again = refl

starts_twice : (start free started).0 ≡ ok tt
unfolding methods
starts_twice = refl

stop-start-stop_example : stop forced (start free stopped).1 ≡ close_of_closed_channel
stop-start-stop_example =
    stop-start-stop free forced forced started stopped runs stop_returns starts_again

stop-start_again_example :
    let t = (start free started).1 in (stop forced t ≡ blocked) × (stop forced (enter t) ≡ blocked)
stop-start_again_example = stop-start_again free forced started serves alive starts_twice
