-- ===== src/InterService/Registered.antt =====
-- Two processes and one Redis: the audit correlator registers itself, and a manager asks for it.
use trading_ecosystem_exchan.Common.{◌≡◌, ◌⊎◌, String, List, Result, ok, err, advance}
use trading_ecosystem_exchan.Common.Json.{TimeFormat}
use trading_ecosystem_exchan.ServiceDiscovery.Redis.{RedisClient}
use trading_ecosystem_exchan.ServiceDiscovery.Types.{ServiceInfo, discover}
use trading_ecosystem_exchan.ServiceDiscovery.Types
use trading_ecosystem_exchan.ServiceDiscovery.Wire.{endpoint_of}
use trading_ecosystem_exchan.ServiceDiscovery.Endpoint.{Finds}
use trading_ecosystem_exchan.InterService.Types.{
  Grpc, Client, audit_correlator, Session, ConnectionError, ServiceUnavailableError,
  discover_service, connect_to, audit_name,
}
use trading_ecosystem_exchan.InterService.Methods.{get_audit_correlator_client}

abbrev unavailable :
    {r : RedisClient} {g : Grpc}
    → ConnectionError r g
    → Result (ServiceUnavailableError r g) (Client g)
unavailable e = err (record { service_name = audit_name; message = e })

module _ {r : RedisClient} {g : Grpc} (m : Session r g) where
  -- What dialling an endpoint makes of the call.
  abbrev pub IsDialled : String → Result (ServiceUnavailableError r g) (Client g) → Type 0
  IsDialled endpoint c =
      let dialled = (g.dial m.cancelled endpoint m.grpc).0 in
      ((conn : g.Conn) × (dialled ≡ ok conn) × (c ≡ ok (audit_correlator conn)))
      ⊎ ((x : g.Fault) × (dialled ≡ err x) × (c ≡ unavailable (connect_to audit_name endpoint x)))

  module _ (f : TimeFormat) where
    -- The discovery client as it is asked.
    abbrev asking : Types.Session r
    asking = record m.discovery { clock = advance m.discovery.clock }

    -- Redis does not list the keys, or the endpoint of the first service found is dialled, with the
    -- given one among them.
    abbrev pub Serves : ServiceInfo → Type 0
    Serves i =
        let c = (get_audit_correlator_client f m).0 in
        ((x : r.Fault) × (c ≡ unavailable (discover_service audit_name (discover x))))
        ⊎ ((j : ServiceInfo) × (js : List ServiceInfo) × Finds f audit_name asking i j js
            × IsDialled (endpoint_of j) c)
