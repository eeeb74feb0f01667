-- ===== src/InterService/Stale.antt =====
-- Two goroutines that ask for the same client at once: `GetAuditCorrelatorClient` looks for a client,
-- gets a connection and stores the client in three locked sections.
use trading_ecosystem_exchan.Common.{
  ◌≡◌, ◌⊎◌, inl, inr, refl, false, none, some, ok, arith, Result-cases,
}
use trading_ecosystem_exchan.Common.Assoc.{lookup, lookup-insert_self, lookup-delete_self}
use trading_ecosystem_exchan.Common.Json.{TimeFormat}
use trading_ecosystem_exchan.ServiceDiscovery.Redis.{RedisClient}
use trading_ecosystem_exchan.InterService.Types.{Grpc, audit_correlator, Session, audit_name}
use trading_ecosystem_exchan.InterService.Methods.{
  is_usable, discard, create_connection, get_or_create_connection, get_audit_correlator_client,
  set_client,
}
use trading_ecosystem_exchan.InterService.Consistency.{create-ok, create-err}
use trading_ecosystem_exchan.InterService.Requests.{get_audit-cached}

-- What the manager holds for the audit correlator after the other goroutine's call: no connection, or
-- the one under the client that the call returned.
abbrev pub Replaced : (r : RedisClient) (g : Grpc) → TimeFormat → Session r g → Type 0
Replaced r g f s =
    let t = get_audit_correlator_client f s in
    (lookup audit_name t.1.connections ≡ none)
    ⊎ ((b : g.Conn) × (t.0 ≡ ok (audit_correlator b))
        × (lookup audit_name t.1.connections ≡ some b))

module _ (r : RedisClient) (g : Grpc) (f : TimeFormat) (s : Session r g) (a : g.Conn)
    (held : lookup audit_name s.connections ≡ some a)
    (failed : is_usable (g.get_state a s.grpc) ≡ false)
    (no_client : lookup audit_name s.clients ≡ none) where
  connection-Replaced : Replaced r g f s
  unfolding get_audit_correlator_client get_or_create_connection discard
  connection-Replaced =
      let d = discard audit_name a s in
      elim (Result-cases (create_connection f audit_name d).0) [
        | inl (b, p) ↦ inr (
          b,
          ground (arith, p),
          ground (
            arith,
            p,
            create-ok f audit_name d b p,
            lookup-insert_self audit_name b d.connections,
          ),
        )
        | inr (x, p) ↦ inl (
            ground (
              arith,
              p,
              create-err f audit_name d x p,
              lookup-delete_self audit_name s.connections,
            ))
      ]

  connection-discard :
      get_or_create_connection f audit_name s
      ≡ create_connection f audit_name (discard audit_name a s)
  unfolding get_or_create_connection
  connection-discard = ground (arith, held, failed)

  -- If a goroutine has got a connection for the audit correlator and is about to store its client, the
  -- connection has failed since, and another goroutine calls `GetAuditCorrelatorClient` in between,
  -- then that call closes and forgets the connection before it makes one, and the manager ends with no
  -- connection for the name, or with the one of the client that the call returned. The first goroutine
  -- then stores its client over the closed connection, and every later call returns that client and
  -- changes nothing.
  pub set_client-stale :
      let t = (get_audit_correlator_client f s).1 in
      let u = set_client audit_name (audit_correlator a) t in
      (get_or_create_connection f audit_name s
        ≡ create_connection f audit_name (discard audit_name a s))
      × Replaced r g f s
      × (get_audit_correlator_client f u ≡ (ok (audit_correlator a), u))
      × (u.connections ≡ t.connections)
  unfolding set_client
  set_client-stale =
      let t = (get_audit_correlator_client f s).1 in
      let u = set_client audit_name (audit_correlator a) t in
      let stored = lookup-insert_self audit_name (audit_correlator a) t.clients in
      (
        connection-discard,
        connection-Replaced,
        get_audit-cached f (audit_correlator a) u (rw stored refl),
        refl,
      )
