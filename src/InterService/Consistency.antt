-- ===== src/InterService/Consistency.antt =====
-- The connections, the clients and the metric of active connections agree, over any calls.
use trading_ecosystem_exchan.Common.{
  ℕ, ◌≡◌, inl, inr, refl, String, Option, none, some, List, [], ◌∷◌, Result, ok, err, arith, length,
  Option-cases, Result-cases,
}
use trading_ecosystem_exchan.Common.Assoc.{Map, lookup, insert, lookup-insert}
use trading_ecosystem_exchan.Common.Assoc.Size.{IsMap, insert-IsMap}
use trading_ecosystem_exchan.Common.Json.{TimeFormat}
use trading_ecosystem_exchan.Config.{Config}
use trading_ecosystem_exchan.ServiceDiscovery.Redis.{RedisClient}
use trading_ecosystem_exchan.ServiceDiscovery.Types
use trading_ecosystem_exchan.InterService.Types.{
  ConnectionError, Grpc, Client, audit_correlator, custodian_simulator, Session, new_session,
  new_inter_service_client_manager, audit_name, custodian_name,
}
use trading_ecosystem_exchan.InterService.Methods.{
  create_connection, get_or_create_connection, get_audit_correlator_client,
  get_custodian_simulator_client, close, unary_interceptor,
}

pub data Call (Fault : Type 0) : Type 0 where
  gets_audit gets_custodian closes : Call Fault
  -- a call over a connection, with what the invoker returns
  invokes : Result Fault (Unit {0}) → Call Fault

module _ {r : RedisClient} {g : Grpc} (f : TimeFormat) where
  unfoldable pub step : Session r g → Call g.Fault → Session r g
  step s gets_audit = (get_audit_correlator_client f s).1
  step s gets_custodian = (get_custodian_simulator_client f s).1
  step s closes = close s
  step s (invokes e) = (unary_interceptor (λ t. (e, t)) s).1

  unfoldable pub run : Session r g → List (Call g.Fault) → Session r g
  run s [] = s
  run s (c ∷ cs) = run (step s c) cs

-- Under each of the two names there is a client of its kind over the connection of that name, or
-- neither client nor connection.
abbrev Paired : {g : Grpc} → (g.Conn → Client g) → Option (Client g) → Option g.Conn → Type 0
Paired new c none = c ≡ none
Paired new c (some conn) = c ≡ some (new conn)

-- No name stands twice, the metric is the number of connections, and clients go with connections.
pub record Agree {g : Grpc} (cs : Map g.Conn) (ls : Map (Client g)) (active : ℕ) : Type 0 where
  pub distinct : IsMap cs
  pub counted : active ≡ length cs
  pub audit : Paired audit_correlator (lookup audit_name ls) (lookup audit_name cs)
  pub custodian : Paired custodian_simulator (lookup custodian_name ls) (lookup custodian_name cs)

abbrev pub IsConsistent : {r : RedisClient} {g : Grpc} → Session r g → Type 0
IsConsistent s = Agree s.connections s.clients s.metrics.active_connections

module _ {g : Grpc} (conn : g.Conn) (cs : Map g.Conn) (ls : Map (Client g)) {n : ℕ} where
  insert-Agree_audit :
      Agree cs ls n
      → Agree
          (insert audit_name conn cs)
          (insert audit_name (audit_correlator conn) ls)
          (length (insert audit_name conn cs))
  insert-Agree_audit h = record {
    distinct = insert-IsMap audit_name conn cs h.distinct;
    counted = refl;
    audit = simp lookup-insert refl;
    custodian = simp lookup-insert h.custodian;
  }

  insert-Agree_custodian :
      Agree cs ls n
      → Agree
          (insert custodian_name conn cs)
          (insert custodian_name (custodian_simulator conn) ls)
          (length (insert custodian_name conn cs))
  insert-Agree_custodian h = record {
    distinct = insert-IsMap custodian_name conn cs h.distinct;
    counted = refl;
    audit = simp lookup-insert h.audit;
    custodian = simp lookup-insert refl;
  }

-- What `getOrCreateConnection` does where there is no connection of the name.
module _ {r : RedisClient} {g : Grpc} (f : TimeFormat) (name : String) (s : Session r g) where
  pub create-ok :
      (conn : g.Conn)
      → (create_connection f name s).0 ≡ ok conn
      → let t = (create_connection f name s).1 in
        (t.connections ≡ insert name conn s.connections)
        × (t.metrics.active_connections ≡ length t.connections)
        × (t.clients ≡ s.clients)
  unfolding create_connection
  create-ok conn h = ground arith

  pub create-err :
      (x : ConnectionError r g)
      → (create_connection f name s).0 ≡ err x
      → let t = (create_connection f name s).1 in
        (t.connections ≡ s.connections)
        × (t.metrics.active_connections ≡ s.metrics.active_connections)
        × (t.clients ≡ s.clients)
  unfolding create_connection
  create-err x h = ground arith

module _ {r : RedisClient} {g : Grpc} (f : TimeFormat) where
  get_audit-IsConsistent :
      (s : Session r g) → IsConsistent s → IsConsistent (get_audit_correlator_client f s).1
  unfolding get_audit_correlator_client get_or_create_connection
  get_audit-IsConsistent s h = elim (Option-cases (lookup audit_name s.connections)) [
    | inr (conn, e) ↦ ground arith
    | inl e ↦ elim (Result-cases (create_connection f audit_name s).0) [
      | inl (conn, p) ↦ ground (
        arith,
        create-ok f audit_name s conn p,
        insert-Agree_audit conn s.connections s.clients h,
      )
      | inr (x, p) ↦ ground (arith, create-err f audit_name s x p)
    ]
  ]

  get_custodian-IsConsistent :
      (s : Session r g) → IsConsistent s → IsConsistent (get_custodian_simulator_client f s).1
  unfolding get_custodian_simulator_client get_or_create_connection
  get_custodian-IsConsistent s h = elim (Option-cases (lookup custodian_name s.connections)) [
    | inr (conn, e) ↦ ground arith
    | inl e ↦ elim (Result-cases (create_connection f custodian_name s).0) [
      | inl (conn, p) ↦ ground (
        arith,
        create-ok f custodian_name s conn p,
        insert-Agree_custodian conn s.connections s.clients h,
      )
      | inr (x, p) ↦ ground (arith, create-err f custodian_name s x p)
    ]
  ]

  step-IsConsistent :
      (s : Session r g) (c : Call g.Fault) → IsConsistent s → IsConsistent (step f s c)
  unfolding step close unary_interceptor lookup
  step-IsConsistent s gets_audit h = get_audit-IsConsistent s h
  step-IsConsistent s gets_custodian h = get_custodian-IsConsistent s h
  step-IsConsistent s closes h = record {
    distinct = tt;
    counted = refl;
    audit = refl;
    custodian = refl;
  }
  step-IsConsistent s (invokes e) h = ground arith

  run-IsConsistent :
      (s : Session r g) (cs : List (Call g.Fault)) → IsConsistent s → IsConsistent (run f s cs)
  unfolding run
  run-IsConsistent s [] h = h
  run-IsConsistent s (c ∷ cs) h = run-IsConsistent (step f s c) cs (step-IsConsistent s c h)

-- After any calls on a new manager, whatever the other services do: no service has two connections,
-- `ActiveConnections` is the number of connections held, and each of the two services has a client of
-- its own kind over the connection held for it, or neither a client nor a connection.
pub run-new-IsConsistent :
    (r : RedisClient) (g : Grpc) (f : TimeFormat) (cfg : Config) (discovery : Types.Session r)
    (grpc : g.State) (cs : List (Call g.Fault))
    → IsConsistent (run f (new_session {g = g} cfg discovery grpc) cs)
run-new-IsConsistent r g f cfg discovery grpc cs =
    run-IsConsistent f (new_session cfg discovery grpc) cs (
      unfold new_inter_service_client_manager lookup in
      record { distinct = tt; counted = refl; audit = refl; custodian = refl })
