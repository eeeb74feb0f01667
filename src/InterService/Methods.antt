-- ===== src/InterService/Methods.antt =====
-- The methods of `InterServiceClientManager`, each as one step.
use trading_ecosystem_exchan.Common.{
  ℕ, String, Bool, true, false, Option, none, some, [], ◌∷◌, Result, ok, err, Exec, pure, fail,
  call, modify, ◌>>=◌, ◌>>◌, wrapping, inc64, peek, advance, length,
}
use trading_ecosystem_exchan.Common.Assoc.{Map, lookup, insert, delete}
use trading_ecosystem_exchan.Common.Json.{TimeFormat}
use trading_ecosystem_exchan.ServiceDiscovery.Redis.{RedisClient}
use trading_ecosystem_exchan.ServiceDiscovery.Methods.{get_service_endpoint}
use trading_ecosystem_exchan.ServiceDiscovery.Types.{Error as DiscoveryError}
use trading_ecosystem_exchan.InterService.Types.{
  ServingStatus, serving, HealthError, check_failed, not_serving, Connectivity, idle, ready, Grpc,
  Client, audit_correlator, custodian_simulator, InterServiceMetrics, InterServiceClientManager,
  ConnectionError, discover_service, connect_to, ServiceUnavailableError, Session, audit_name,
  custodian_name,
}

-- `state == connectivity.Ready || state == connectivity.Idle`
abbrev pub is_usable : Connectivity → Bool
is_usable ready = true
is_usable idle = true
is_usable _ = false

-- the type assertions on a cached client
abbrev pub as_audit : {g : Grpc} → Option (Client g) → Option (Client g)
as_audit (some (audit_correlator c)) = some (audit_correlator c)
as_audit _ = none

abbrev pub as_custodian : {g : Grpc} → Option (Client g) → Option (Client g)
as_custodian (some (custodian_simulator c)) = some (custodian_simulator c)
as_custodian _ = none

-- every connection is closed, and an error of that is only logged
abbrev pub close_all : (g : Grpc) → Map g.Conn → g.State → g.State
close_all g [] w = w
close_all g ((_, conn) ∷ rest) w = close_all g rest (g.close conn w).1

abbrev judge :
    {Fault : Type 0} → String → Result Fault ServingStatus → Result (HealthError Fault) (Unit {0})
judge name (err x) = err (check_failed x)
judge name (ok serving) = ok tt
judge name (ok _) = err (not_serving name)

-- The two `HealthCheck` methods ask for the service that they are named after.
unfoldable pub health_check :
    (g : Grpc) → Client g → g.State → Result (HealthError g.Fault) (Unit {0}) × g.State
health_check g (audit_correlator c) w =
    let (a, w') = g.check c audit_name w in (judge audit_name a, w')
health_check g (custodian_simulator c) w =
    let (a, w') = g.check c custodian_name w in (judge custodian_name a, w')

module _ {r : RedisClient} {g : Grpc} where
  abbrev with_manager :
      (InterServiceClientManager g → InterServiceClientManager g) → Session r g → Session r g
  with_manager f s = record s { manager = f s.manager }

  abbrev with_metrics : (InterServiceMetrics → InterServiceMetrics) → Session r g → Session r g
  with_metrics f = with_manager λ m. record m { metrics = f m.metrics }

  abbrev read_clock : Session r g → Session r g
  read_clock s = record s { discovery = record s.discovery { clock = advance s.discovery.clock } }

  unfoldable pub increment_connection_attempt : Session r g → Session r g
  increment_connection_attempt s =
      read_clock
        (with_metrics (λ m. record m { last_connection_attempt = peek s.discovery.clock }) s)

  unfoldable pub increment_total_connection : Session r g → Session r g
  increment_total_connection =
      with_metrics λ m. record m { total_connections = inc64 m.total_connections }

  unfoldable pub increment_failed_connection : Session r g → Session r g
  increment_failed_connection =
      with_metrics λ m. record m { failed_connections = inc64 m.failed_connections }

  unfoldable pub increment_service_call : Session r g → Session r g
  increment_service_call =
      with_metrics λ m. record m { service_call_count = inc64 m.service_call_count }

  unfoldable pub increment_service_call_error : Session r g → Session r g
  increment_service_call_error =
      with_metrics λ m. record m { service_call_errors = inc64 m.service_call_errors }

  unfoldable pub update_active_connections : ℕ → Session r g → Session r g
  update_active_connections count = with_metrics λ m. record m { active_connections = count }

  unfoldable pub get_client : String → Session r g → Option (Client g)
  get_client name s = lookup name s.clients

  unfoldable pub set_client : String → Client g → Session r g → Session r g
  set_client name c = with_manager λ m. record m { clients = insert name c m.clients }

  -- a bad connection is closed and forgotten
  unfoldable pub discard : String → g.Conn → Session r g → Session r g
  discard name conn s =
      let (_, w) = g.close conn s.grpc in
      record s { manager = record s.manager { connections = delete name s.connections }; grpc = w }

  -- the connection is kept, and counted
  unfoldable pub keep : String → g.Conn → Session r g → Session r g
  unfolding increment_total_connection update_active_connections
  keep name conn s =
      let t = with_manager (λ m. record m { connections = insert name conn m.connections }) s in
      update_active_connections (length t.connections) (increment_total_connection t)

  -- `Close`
  unfoldable pub close : Session r g → Session r g
  unfolding update_active_connections
  close s = update_active_connections 0 (record s {
    manager = record s.manager { cancelled = true; connections = []; clients = [] };
    grpc = close_all g s.connections s.grpc;
  })

  -- the two ends of `unaryInterceptor`, around the call
  abbrev conclude : Result g.Fault (Unit {0}) → Session r g → Session r g
  conclude (ok _) s = read_clock s
  conclude (err _) s = increment_service_call_error (read_clock s)

  -- `unaryInterceptor` returns what the invoker returned
  unfoldable pub unary_interceptor :
      (Session r g → Result g.Fault (Unit {0}) × Session r g)
      → Session r g
      → Result g.Fault (Unit {0}) × Session r g
  unfolding increment_service_call increment_service_call_error
  unary_interceptor invoker s =
      let (e, t) = invoker (increment_service_call (read_clock s)) in (e, conclude e t)

module _ {r : RedisClient} {g : Grpc} (f : TimeFormat) where
  abbrev endpoint_of : String → Session r g → Result (DiscoveryError r.Fault) String × Session r g
  endpoint_of name s =
      let (e, d) = get_service_endpoint f name s.discovery in (e, record s { discovery = d })

  abbrev dialled :
      String → String → Result g.Fault g.Conn → Exec (Session r g) (ConnectionError r g) g.Conn
  dialled name endpoint (err x) = do
    modify increment_failed_connection
    fail (connect_to name endpoint x)
  dialled name endpoint (ok conn) = do modify (keep name conn); pure conn

  abbrev dial :
      String
      → Result (DiscoveryError r.Fault) String
      → Exec (Session r g) (ConnectionError r g) g.Conn
  dial name (err x) = do modify increment_failed_connection; fail (discover_service name x)
  dial name (ok endpoint) = do
    c ← call λ s. let (c, w) = g.dial s.cancelled endpoint s.grpc in (c, record s { grpc = w })
    dialled name endpoint c

  -- `getOrCreateConnection` from the attempt on
  unfoldable pub create_connection : String → Exec (Session r g) (ConnectionError r g) g.Conn
  unfolding increment_connection_attempt increment_failed_connection keep
  create_connection name = do
    modify increment_connection_attempt
    endpoint ← call (endpoint_of name)
    dial name endpoint

  abbrev reuse : String → Option g.Conn → Exec (Session r g) (ConnectionError r g) g.Conn
  reuse name none s = create_connection name s
  reuse name (some conn) s = elim (is_usable (g.get_state conn s.grpc)) [
    | true ↦ (ok conn, s)
    | false ↦ create_connection name (discard name conn s)
  ]

  -- `getOrCreateConnection`
  unfoldable pub get_or_create_connection : String → Exec (Session r g) (ConnectionError r g) g.Conn
  unfolding discard
  get_or_create_connection name s = reuse name (lookup name s.connections) s

  -- the new client over a connection, if there is one
  abbrev unavailable : String → ConnectionError r g → ServiceUnavailableError r g
  unavailable name e = record { service_name = name; message = e }

  abbrev make :
      String
      → (g.Conn → Client g)
      → Option (Client g)
      → Exec (Session r g) (ServiceUnavailableError r g) (Client g)
  make name new (some c) = pure c
  make name new none = do
    conn ← wrapping (unavailable name) (get_or_create_connection name)
    modify (set_client name (new conn))
    pure (new conn)

  -- `GetAuditCorrelatorClient`
  unfoldable pub get_audit_correlator_client :
      Exec (Session r g) (ServiceUnavailableError r g) (Client g)
  unfolding get_client set_client
  get_audit_correlator_client s =
      make audit_name audit_correlator (as_audit (get_client audit_name s)) s

  -- `GetCustodianSimulatorClient`
  unfoldable pub get_custodian_simulator_client :
      Exec (Session r g) (ServiceUnavailableError r g) (Client g)
  unfolding get_client set_client
  get_custodian_simulator_client s =
      make custodian_name custodian_simulator (as_custodian (get_client custodian_name s)) s
