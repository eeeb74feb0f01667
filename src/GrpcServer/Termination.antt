-- ===== src/GrpcServer/Termination.antt =====
-- A server that is started once: no call on it panics or waits for ever, if `Stop` can end its
-- `select`.
use trading_ecosystem_exchan.Common.{
  ℕ, ◌+◌, ◌≤◌, ◌≡◌, ◌⊎◌, inl, inr, refl, String, true, false, List, [], ◌∷◌, Result, ok, err, arith,
  Result-cases, Bool-cases, All,
}
use trading_ecosystem_exchan.Config.{Config}
use trading_ecosystem_exchan.GrpcServer.Types.{ExchangeGrpcServer, new_exchange_grpc_server}
use trading_ecosystem_exchan.GrpcServer.Methods.{
  Outcome, returned, ends, start, stop, enter, serve_error, unary_interceptor, address, retire,
}
use trading_ecosystem_exchan.GrpcServer.Lifecycle.{
  Event, starts, stops, enters, fails, requests, step, run,
}

abbrev bound_once : {Fault A : Type 0} → Result Fault A → ℕ
bound_once (ok _) = 1
bound_once (err _) = 0

-- 1 for a `Start` that finds a port at an address
abbrev pub binds : String → Event → ℕ
binds a (starts net_listen) = bound_once (net_listen a)
binds a (stops _) = 0
binds a enters = 0
binds a fails = 0
binds a (requests _) = 0

-- how many calls of `Start` find a port
abbrev pub count_binds : String → List Event → ℕ
count_binds a [] = 0
count_binds a (e ∷ es) = binds a e + count_binds a es

-- Before a first successful `Start`, between it and a `Stop`, or after that; `left` of them are yet
-- to come.
abbrev IsFirst : ℕ → ExchangeGrpcServer → Type 0
IsFirst left s =
    ((s.is_running ≡ false)
      × (s.stop_chan_closed ≡ false)
      × (s.launched ≡ 0)
      × (s.serves ≡ 0)
      × (s.abandoned ≡ 0)
      × (left ≤ 1))
    ⊎ ((s.is_running ≡ true) × (s.stop_chan_closed ≡ false) × (s.abandoned ≡ 0) × (left ≡ 0))
    ⊎ ((s.is_running ≡ false) × (left ≡ 0))

-- One event returns, and leaves the address alone.
abbrev Returns : ℕ → ExchangeGrpcServer → Outcome ExchangeGrpcServer → Type 0
Returns left s o =
    (t : ExchangeGrpcServer) × (o ≡ returned t) × IsFirst left t × (t.config ≡ s.config)

-- what `Stop` makes of a running server
abbrev halted : ExchangeGrpcServer → ExchangeGrpcServer
halted s = record s {
  is_running = false;
  health_server = retire s.health_server;
  stop_chan_closed = true;
  launched = 0;
  serves = 0;
}

-- Each `Stop` can end its `select`: the pending calls end, or its context does.
abbrev pub AllowsStop : Event → Type 0
AllowsStop (starts _) = Unit
AllowsStop (stops e) = ends e ≡ true
AllowsStop enters = Unit
AllowsStop fails = Unit
AllowsStop (requests _) = Unit

step-Returns :
    (left : ℕ) (s : ExchangeGrpcServer) (e : Event)
    → AllowsStop e
    → IsFirst (binds (address s) e + left) s
    → Returns left s (step s e)
unfolding step start stop enter serve_error unary_interceptor
step-Returns left s (starts net_listen) a h = elim (Result-cases (net_listen (address s))) [
  | inl (b, e) ↦ ((start net_listen s).1, ground arith, ground arith, ground arith)
  | inr (x, e) ↦ (s, ground arith, ground arith, refl)
]
step-Returns left s (stops ending) a h = elim (Bool-cases s.is_running) [
  | inl e ↦ (halted s, ground arith, ground arith, refl)
  | inr e ↦ (s, ground arith, ground arith, refl)
]
step-Returns left s enters a h = (enter s, refl, ground arith, ground arith)
step-Returns left s fails a h = (serve_error s, refl, ground arith, refl)
step-Returns left s (requests c) a h =
    ((unary_interceptor (λ t. (tt, t)) (s, c)).1.0, refl, ground arith, refl)

address-eq : (s t : ExchangeGrpcServer) → t.config ≡ s.config → address t ≡ address s
unfolding address
address-eq s t e = rw e refl

run-Returns :
    (s : ExchangeGrpcServer) (es : List Event)
    → All AllowsStop es
    → IsFirst (count_binds (address s) es) s
    → (t : ExchangeGrpcServer) × (run s es ≡ returned t)
unfolding run
run-Returns s [] a h = (s, refl)
run-Returns s (e ∷ es) a h =
    let (u, returns, first, same) = step-Returns (count_binds (address s) es) s e a.0 h in
    let here = address-eq s u same in
    let (t, rest) = run-Returns u es a.1 (rw here first) in (t, rw (returns, run) rest)

-- If at most one `Start` finds a port, and at each `Stop` the pending calls end at some time or the
-- context does, then no start, stop, goroutine that begins to serve, failure of `Serve` or request
-- panics or waits for ever, in any order and however many they are.
pub run-new-returns :
    (cfg : Config) (started : ℕ) (es : List Event)
    → All AllowsStop es
    → count_binds (address (new_exchange_grpc_server cfg started)) es ≤ 1
    → (t : ExchangeGrpcServer) × (run (new_exchange_grpc_server cfg started) es ≡ returned t)
unfolding new_exchange_grpc_server
run-new-returns cfg started es a h =
    run-Returns (new_exchange_grpc_server cfg started) es a (inl (refl, refl, refl, refl, refl, h))
