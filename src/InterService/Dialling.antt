-- ===== src/InterService/Dialling.antt =====
-- Where a new client is connected to.
use trading_ecosystem_exchan.Common.{
  ◌≡◌, inl, inr, none, List, ok, arith, advance, peek, IsMonotone, Result-cases,
}
use trading_ecosystem_exchan.Common.Assoc.{lookup}
use trading_ecosystem_exchan.Common.Json.{TimeFormat}
use trading_ecosystem_exchan.ServiceDiscovery.Redis.{RedisClient}
use trading_ecosystem_exchan.ServiceDiscovery.Types.{ServiceInfo, service_timeout}
use trading_ecosystem_exchan.ServiceDiscovery.Types
use trading_ecosystem_exchan.ServiceDiscovery.Wire.{endpoint_of}
use trading_ecosystem_exchan.ServiceDiscovery.Methods.{get_service_endpoint}
use trading_ecosystem_exchan.ServiceDiscovery.Lookup.{
  SeenSince, FoundFirst, get_service_endpoint-SeenSince,
}
use trading_ecosystem_exchan.InterService.Types.{
  Grpc, Client, audit_correlator, Session, audit_name,
}
use trading_ecosystem_exchan.InterService.Methods.{
  create_connection, get_or_create_connection, get_audit_correlator_client,
}

-- The discovery client as the manager asks it, after its own reading of the clock.
abbrev pub asking : {r : RedisClient} {g : Grpc} → Session r g → Types.Session r
asking s = record s.discovery { clock = advance s.discovery.clock }

-- If the clock never goes back, and the manager holds neither a client nor a connection for the audit
-- correlator, then a client that `GetAuditCorrelatorClient` returns is over a connection that was
-- dialled for it, at the address of the first service that the discovery finds under its name, which
-- was seen less than 90 seconds before the call.
pub get_audit-dials :
    (r : RedisClient) (g : Grpc) (f : TimeFormat) (s : Session r g) (c : Client g)
    → IsMonotone s.discovery.clock
    → lookup audit_name s.clients ≡ none
    → lookup audit_name s.connections ≡ none
    → (get_audit_correlator_client f s).0 ≡ ok c
    → (i : ServiceInfo) × (js : List ServiceInfo) × FoundFirst f audit_name (asking s) i js
      × (conn : g.Conn) × (c ≡ audit_correlator conn)
      × ((g.dial s.cancelled (endpoint_of i) s.grpc).0 ≡ ok conn)
      × SeenSince (peek s.discovery.clock) i
unfolding get_audit_correlator_client get_or_create_connection create_connection
get_audit-dials r g f s c mono no_client no_connection h =
    let d = asking s in
    elim (Result-cases (get_service_endpoint f audit_name d).0) [
      | inr (x, e) ↦ ground (arith, h, no_client, no_connection, e)
      | inl (endpoint, e) ↦ elim (Result-cases (g.dial s.cancelled endpoint s.grpc).0) [
        | inr (x, q) ↦ ground (arith, h, no_client, no_connection, e, q)
        | inl (conn, q) ↦
            let (i, js, found, same, seen) =
              get_service_endpoint-SeenSince r f audit_name endpoint d mono e in
            let later = mono s.discovery.clock.reads in
            (
              i,
              js,
              found,
              conn,
              ground (arith, h, no_client, no_connection, e, q),
              rw (← same) q,
              omega arith,
            )
      ]
    ]
