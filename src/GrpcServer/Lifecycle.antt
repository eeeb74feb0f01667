-- ===== src/GrpcServer/Lifecycle.antt =====
-- Starting and stopping, and what the health status says.
use trading_ecosystem_exchan.Common.{
  ℕ, ◌+◌, ◌≤◌, ◌≡◌, ◌⊎◌, String, true, false, none, some, List, [], ◌∷◌, Result, ok, arith, Clock,
}
use trading_ecosystem_exchan.Config.{Config}
use trading_ecosystem_exchan.GrpcServer.Types.{serving, not_serving, ExchangeGrpcServer}
use trading_ecosystem_exchan.GrpcServer.Methods.{
  Outcome, returned, close_of_closed_channel, blocked, Ending, start, stop, enter, serve_error,
  get_health_status, unary_interceptor, both,
}

-- What happens to a server, with the answers of the network, and what can end a `Stop`. A request's
-- handler leaves the server alone.
pub data Event : Type 0 where
  starts : (String → Result Unit String) → Event
  stops : Ending → Event
  enters fails : Event
  requests : Clock → Event

unfoldable pub step : ExchangeGrpcServer → Event → Outcome ExchangeGrpcServer
step s (starts net_listen) = returned (start net_listen s).1
step s (stops e) = stop e s
step s enters = returned (enter s)
step s fails = returned (serve_error s)
step s (requests c) = returned (unary_interceptor (λ t. (tt, t)) (s, c)).1.0

-- The events in turn, up to a panic or a call that does not return.
unfoldable pub run : ExchangeGrpcServer → List Event → Outcome ExchangeGrpcServer
run s [] = returned s
run s (e ∷ es) = elim (step s e) [
  | returned t ↦ run t es
  | close_of_closed_channel ↦ close_of_closed_channel
  | blocked ↦ blocked
]

abbrev pub count_requests : List Event → ℕ
count_requests [] = 0
count_requests (requests _ ∷ es) = count_requests es + 1
count_requests (_ ∷ es) = count_requests es

-- Both names of the health server have the status that `GetHealthStatus` reports, which is that of a
-- running server exactly if it runs.
abbrev pub IsHonest : ExchangeGrpcServer → Type 0
IsHonest s =
    ((s.health_server ≡ none) × (s.is_running ≡ false) × (get_health_status s ≡ not_serving))
    ⊎ ((s.health_server ≡ some (both serving))
        × (s.is_running ≡ true)
        × (get_health_status s ≡ serving))
    ⊎ ((s.health_server ≡ some (both not_serving))
        × (s.is_running ≡ false)
        × (get_health_status s ≡ not_serving))

-- A server that was stopped and started again panics at its second `Stop`: for every running server
-- that has not been stopped and whose `Stop` returns, if the `Start` after it finds a port, then the
-- next `Stop` closes a closed channel.
pub stop-start-stop :
    (net_listen : String → Result Unit String) (d e : Ending) (s t : ExchangeGrpcServer)
    → s.is_running ≡ true
    → stop d s ≡ returned t
    → (start net_listen t).0 ≡ ok tt
    → stop e (start net_listen t).1 ≡ close_of_closed_channel
unfolding stop start
stop-start-stop net_listen d e s t running h k = ground arith

-- A server whose goroutine is in `Serve`, and that has not been stopped, if it is started again and
-- this second `Start` succeeds, never returns from `Stop`, whatever becomes of the pending calls
-- and the context, and whether or not the second goroutine has run: the first gRPC server is
-- forgotten while its goroutine still serves.
pub stop-start_again :
    (net_listen : String → Result Unit String) (e : Ending) (s : ExchangeGrpcServer)
    → 1 ≤ s.serves
    → s.stop_chan_closed ≡ false
    → (start net_listen s).0 ≡ ok tt
    → let t = (start net_listen s).1 in (stop e t ≡ blocked) × (stop e (enter t) ≡ blocked)
unfolding stop start enter
stop-start_again net_listen e s serves alive k = ground arith
