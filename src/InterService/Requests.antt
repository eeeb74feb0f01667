-- ===== src/InterService/Requests.antt =====
-- What the two client methods return.
use trading_ecosystem_exchan.Common.{
  ◌≡◌, inl, inr, refl, some, [], ok, err, arith, advance, Option-cases, Result-cases,
}
use trading_ecosystem_exchan.Common.Assoc.{lookup, lookup-insert_self}
use trading_ecosystem_exchan.Common.Json.{TimeFormat}
use trading_ecosystem_exchan.ServiceDiscovery.Redis.{RedisClient}
use trading_ecosystem_exchan.ServiceDiscovery.Types.{Error as DiscoveryError}
use trading_ecosystem_exchan.ServiceDiscovery.Types
use trading_ecosystem_exchan.ServiceDiscovery.Methods.{get_service_endpoint}
use trading_ecosystem_exchan.InterService.Types.{
  Grpc, ObeysContext, Client, audit_correlator, ConnectionError, discover_service, connect_to,
  ServiceUnavailableError, Session, audit_name,
}
use trading_ecosystem_exchan.InterService.Methods.{
  close_all, as_audit, create_connection, get_or_create_connection, get_audit_correlator_client,
  close,
}

module _ {r : RedisClient} {g : Grpc} (f : TimeFormat) where
  pub get_audit-cached :
      (c : Client g) (t : Session r g)
      → as_audit (lookup audit_name t.clients) ≡ some c
      → get_audit_correlator_client f t ≡ (ok c, t)
  unfolding get_audit_correlator_client
  get_audit-cached c t h = rw (h, get_audit_correlator_client)

  get_audit-caches :
      (c : Client g) (s : Session r g)
      → (get_audit_correlator_client f s).0 ≡ ok c
      → as_audit (lookup audit_name (get_audit_correlator_client f s).1.clients) ≡ some c
  unfolding get_audit_correlator_client
  get_audit-caches c s h = elim (Option-cases (as_audit (lookup audit_name s.clients))) [
    | inr (d, e) ↦ ground arith
    | inl e ↦ elim (Result-cases (get_or_create_connection f audit_name s).0) [
      | inl (conn, p) ↦ ground (
        arith,
        lookup-insert_self audit_name (audit_correlator conn)
            (get_or_create_connection f audit_name s).1.clients,
      )
      | inr (x, p) ↦ ground arith
    ]
  ]

abbrev unavailable_error :
    {r : RedisClient} {g : Grpc} → ConnectionError r g → ServiceUnavailableError r g
unavailable_error e = record { service_name = audit_name; message = e }

module _ (r : RedisClient) (g : Grpc) (f : TimeFormat) (s : Session r g) where
  -- Once `GetAuditCorrelatorClient` has returned a client, the next call returns the same client and
  -- changes nothing, whatever has happened to the connection and to the discovery client since: it
  -- neither looks at the connection's state nor dials again.
  pub get_audit-get_audit :
      (c : Client g) (w : g.State) (d : Types.Session r)
      → (get_audit_correlator_client f s).0 ≡ ok c
      → let t = record (get_audit_correlator_client f s).1 { grpc = w; discovery = d } in
        get_audit_correlator_client f t ≡ (ok c, t)
  get_audit-get_audit c w d h = get_audit-cached f c _ (get_audit-caches f c s h)

  -- If dialling with a cancelled context fails, then after `Close` the method
  -- `GetAuditCorrelatorClient` fails with the error of an unavailable audit correlator, and leaves the
  -- manager without connections and clients.
  pub get_audit-close :
      ObeysContext g
      → let t = get_audit_correlator_client f (close s) in
        ((e : ServiceUnavailableError r g) × (t.0 ≡ err e) × (e.service_name ≡ audit_name))
        × (t.1.connections ≡ [])
        × (t.1.clients ≡ [])
  unfolding get_audit_correlator_client get_or_create_connection close create_connection lookup
  get_audit-close obeys =
      let d : Types.Session r = record s.discovery { clock = advance s.discovery.clock } in
      elim (Result-cases (get_service_endpoint f audit_name d).0) [
        | inr (x, e) ↦ (
          (unavailable_error (discover_service audit_name x), ground arith, refl),
          ground arith,
          ground arith,
        )
        | inl (endpoint, e) ↦
            let (x, p) = obeys.dial-cancelled endpoint (close_all g s.connections s.grpc) in
            (
              (unavailable_error (connect_to audit_name endpoint x), ground arith, refl),
              ground arith,
              ground arith,
            )
      ]
