-- ===== src/InterService/Tests.antt =====
-- A gRPC that always connects, and the theorems at concrete inputs.
use trading_ecosystem_exchan.Common.{
  ℕ, ◌+◌, ◌≡◌, refl, String, Bool, true, false, none, some, List, [], ◌∷◌, Result, ok, err, ticking,
  peek, ◌*◌, ◌≤◌, arith,
}
use trading_ecosystem_exchan.Common.Assoc.{lookup, insert, delete, keys}
use trading_ecosystem_exchan.Common.Int.{itoa}
use trading_ecosystem_exchan.Common.Json.{Json, find_member, to_text_map, of_text_map}
use trading_ecosystem_exchan.Common.Json.Marks.{marks, count_marks, print_marks}
use trading_ecosystem_exchan.Config.{Config}
use trading_ecosystem_exchan.Config.Sample.{cfg}
use trading_ecosystem_exchan.ServiceDiscovery.Listed.{listed_redis}
use trading_ecosystem_exchan.ServiceDiscovery.Redis.{RedisClient}
use trading_ecosystem_exchan.ServiceDiscovery.Types.{new_service_discovery_client}
use trading_ecosystem_exchan.ServiceDiscovery.Types
use trading_ecosystem_exchan.ServiceDiscovery.Wire.{
  of_info, to_info, service_key, discovery_pattern, endpoint_of,
}
use trading_ecosystem_exchan.ServiceDiscovery.Methods.{
  start, collect, discover_services, get_service_endpoint, register_service,
}
use trading_ecosystem_exchan.InterService.Types.{
  Connectivity, Grpc, ObeysContext, Client, audit_correlator, ServiceUnavailableError, Session,
  new_session, new_inter_service_client_manager, serving, audit_name,
}
use trading_ecosystem_exchan.InterService.Methods.{
  get_or_create_connection, create_connection, get_audit_correlator_client,
  get_custodian_simulator_client, close, unary_interceptor, health_check, set_client, discard,
}
use trading_ecosystem_exchan.InterService.Consistency.{
  Call, gets_audit, gets_custodian, invokes, run, step, IsConsistent, run-new-IsConsistent,
}
use trading_ecosystem_exchan.InterService.Dialling.{asking, get_audit-dials}
use trading_ecosystem_exchan.ServiceDiscovery.Lookup.{SeenSince, FoundFirst}
use trading_ecosystem_exchan.InterService.Stale.{Replaced, set_client-stale}
use trading_ecosystem_exchan.InterService.Requests.{get_audit-get_audit, get_audit-close}

data Fault : Type 0 where
  cancelled refused : Fault

-- A Redis that never fails, and lists every key whatever the pattern.
abbrev plain_redis : RedisClient
plain_redis = record {
  State = List (String × Json);
  Fault = Fault;
  ping = λ c w. (ok tt, w);
  set = λ c k j ttl w. (ok tt, insert k j w);
  get = λ c k w. (elim (lookup k w) [ none ↦ err refused | some j ↦ ok (some j) ], w);
  del = λ c k w. (ok tt, delete k w);
  keys = λ c p w. (ok (keys w), w);
  close = λ w. w;
}

abbrev dial_state : Bool → ℕ → Result Fault ℕ × ℕ
dial_state true n = (err cancelled, n)
dial_state false n = (ok n, n + 1)

-- Connections are numbered, and fail as soon as they are there.
abbrev counting_grpc : Grpc
counting_grpc = record {
  State = ℕ;
  Conn = ℕ;
  Fault = Fault;
  get_state = λ c w. Connectivity.transient_failure;
  close = λ c w. (ok tt, w);
  dial = λ c endpoint w. dial_state c w;
  check = λ c name w. (ok serving, w);
}

counting_obeys : ObeysContext counting_grpc
counting_obeys = record { dial-cancelled = λ endpoint w. (cancelled, refl) }

-- The audit correlator has registered itself.
abbrev correlator : Config
correlator = record cfg { service_name = "audit-correlator" }

abbrev discovery : Types.Session plain_redis
discovery = (start marks (Types.new_session correlator 3 4 (ticking 5 1) [])).1

abbrev fresh : Session plain_redis counting_grpc
fresh = new_session cfg discovery 7

methods : Unit {0}
unfolding start register_service discover_services collect get_service_endpoint of_info to_info
    service_key discovery_pattern endpoint_of itoa new_service_discovery_client lookup insert delete
    find_member to_text_map of_text_map count_marks print_marks get_or_create_connection
    create_connection get_audit_correlator_client get_custodian_simulator_client close
    unary_interceptor new_inter_service_client_manager run step health_check
methods = tt

connected : (get_audit_correlator_client marks fresh).0 ≡ ok (audit_correlator 7)
unfolding methods
connected = refl

abbrev calls : List (Call Fault)
calls = gets_audit ∷ gets_custodian ∷ invokes (err refused) ∷ gets_audit ∷ []

after_calls :
    ((run marks fresh calls).metrics.active_connections ≡ 2)
    × ((run marks fresh calls).metrics.failed_connections ≡ 0)
    × ((run marks fresh calls).metrics.service_call_errors ≡ 1)
unfolding methods
after_calls = (refl, refl, refl)

healthy : (health_check counting_grpc (audit_correlator 7) 8).0 ≡ ok tt
unfolding methods
healthy = refl

run-new-IsConsistent_example : IsConsistent (run marks fresh calls)
run-new-IsConsistent_example =
    run-new-IsConsistent plain_redis counting_grpc marks cfg discovery 7 calls

-- The connection fails at once, and the client over it is still handed out.
get_audit-get_audit_example :
    let t = record (get_audit_correlator_client marks fresh).1 {
      grpc = 99;
      discovery = discovery;
    } in
    get_audit_correlator_client marks t ≡ (ok (audit_correlator 7), t)
get_audit-get_audit_example =
    get_audit-get_audit plain_redis counting_grpc marks fresh (audit_correlator 7) 99 discovery
      connected

abbrev closed :
    Result (ServiceUnavailableError plain_redis counting_grpc) (Client counting_grpc)
    × Session plain_redis counting_grpc
closed = get_audit_correlator_client marks (close fresh)

get_audit-close_example :
    ((e : ServiceUnavailableError plain_redis counting_grpc) × (closed.0 ≡ err e)
      × (e.service_name ≡ audit_name))
    × (closed.1.connections ≡ [])
    × (closed.1.clients ≡ [])
get_audit-close_example = get_audit-close plain_redis counting_grpc marks fresh counting_obeys

ticking_monotone : (n : ℕ) → 5 + n * 1 ≤ 5 + (n + 1) * 1
ticking_monotone n = omega arith

abbrev seven : Client counting_grpc
seven = audit_correlator 7

get_audit-dials_example :
    (i : Types.ServiceInfo) × (js : List Types.ServiceInfo) × FoundFirst marks audit_name
      (asking fresh)
      i
      js
    × (conn : ℕ) × (seven ≡ audit_correlator conn)
    × ((dial_state fresh.cancelled 7).0 ≡ ok conn)
    × SeenSince (peek discovery.clock) i
unfolding methods
get_audit-dials_example =
    get_audit-dials plain_redis counting_grpc marks fresh (audit_correlator 7) ticking_monotone refl
      refl connected

-- Goroutine A has got connection 7, which fails before it stores its client.
abbrev unstored : Session plain_redis counting_grpc
unstored = (get_or_create_connection marks audit_name fresh).1

set_client-stale_example :
    let t = (get_audit_correlator_client marks unstored).1 in
    let u = set_client audit_name (audit_correlator 7) t in
    (get_or_create_connection marks audit_name unstored
      ≡ create_connection marks audit_name (discard audit_name 7 unstored))
    × Replaced plain_redis counting_grpc marks unstored
    × (get_audit_correlator_client marks u ≡ (ok (audit_correlator 7), u))
    × (u.connections ≡ t.connections)
unfolding methods
set_client-stale_example =
    set_client-stale plain_redis counting_grpc marks unstored 7 refl refl refl

-- The audit correlator in one process, and a manager in another one, whose clock has stopped.
abbrev audit_process : Types.Session listed_redis
audit_process = Types.new_session correlator 3 4 (ticking 5 1) []

abbrev asking_manager : Session listed_redis counting_grpc
asking_manager = record {
  manager = new_inter_service_client_manager cfg;
  discovery = record {
    client = new_service_discovery_client cfg 3 4;
    clock = ticking 50 0;
    redis = (register_service marks audit_process).1.redis;
  };
  grpc = 7;
}
