-- ===== src/ServiceDiscovery/Endpoint.antt =====
-- `GetServiceEndpoint` of a service that has registered itself.
use Prim.Native.String.{◌++◌}
use mathlib.Core.Path.{subst}
use trading_ecosystem_exchan.Common.{
  ℕ, ◌≡◌, ◌≢◌, ◌⊎◌, inl, inr, String, true, false, List, [], ◌∷◌, ok, err, arith, Clock,
  Result-cases,
}
use trading_ecosystem_exchan.Common.Int.{fits_int64}
use trading_ecosystem_exchan.Common.Json.{TimeFormat}
use trading_ecosystem_exchan.ServiceDiscovery.Redis.{RedisClient, Server, Among}
use trading_ecosystem_exchan.ServiceDiscovery.Types.{
  ServiceInfo, ServiceDiscoveryClient, Session, Error, discover,
}
use trading_ecosystem_exchan.ServiceDiscovery.Wire.{endpoint_of}
use trading_ecosystem_exchan.ServiceDiscovery.Methods.{
  discover_services, get_service_endpoint, register_service,
}
use trading_ecosystem_exchan.ServiceDiscovery.Lookup.{SeenSince, listing}
use trading_ecosystem_exchan.ServiceDiscovery.Registration.{register-found}

module _ {r : RedisClient} (f : TimeFormat) (name : String) (s : Session r) where
  -- The services that are found, the first one and the rest, with the given one among them.
  abbrev pub Finds : ServiceInfo → ServiceInfo → List ServiceInfo → Type 0
  Finds i j js = ((discover_services f name s).0 ≡ ok (j ∷ js)) × Among i (j ∷ js)

  -- The endpoint of the first service found, with the given one among them, or Redis did not list the
  -- keys: never that there is no instance.
  abbrev pub Answers : ServiceInfo → Type 0
  Answers i =
      let e = (get_service_endpoint f name s).0 in
      ((x : r.Fault) × (e ≡ err (discover x)))
      ⊎ ((j : ServiceInfo) × (js : List ServiceInfo) × Finds i j js × (e ≡ ok (endpoint_of j)))

  discover_services-err :
      (e : Error r.Fault)
      → (discover_services f name s).0 ≡ err e
      → (x : r.Fault) × (e ≡ discover x)
  unfolding discover_services
  discover_services-err e h = elim (Result-cases (listing f name s).0) [
    | inl ([], q) ↦ absurd (ground (arith, h, q))
    | inl (k ∷ ks, q) ↦ absurd (ground (arith, h, q))
    | inr (x, q) ↦ (x, ground (arith, h, q))
  ]

  found-Answers :
      (i : ServiceInfo) (is : List ServiceInfo)
      → (discover_services f name s).0 ≡ ok is
      → Among i is
      → Answers i
  unfolding get_service_endpoint
  found-Answers i [] h m = absurd m
  found-Answers i (j ∷ js) h m = inr (j, js, (h, m), ground (arith, h))

  get_service_endpoint-Answers :
      (i : ServiceInfo)
      → ((is : List ServiceInfo) → (discover_services f name s).0 ≡ ok is → Among i is)
      → Answers i
  unfolding get_service_endpoint
  get_service_endpoint-Answers i found = elim (Result-cases (discover_services f name s).0) [
    | inl (is, q) ↦ found-Answers i is q (found is q)
    | inr (e, q) ↦ let (x, same) = discover_services-err e q in inl (x, ground (arith, q, same))
  ]

-- A service under this name that has registered itself is answered for, as long as it counts as seen.
pub register-endpoint :
    (r : RedisClient) (server : Server r) (f : TimeFormat) (s : Session r)
    (finder : ServiceDiscoveryClient) (clock : Clock) (name : String)
    → s.cancelled ≡ false
    → finder.cancelled ≡ false
    → fits_int64 s.service_info.grpc_port ≡ true
    → fits_int64 s.service_info.http_port ≡ true
    → s.service_info.service_name ≡ name
    → name ≢ ""
    → server.IsPlain ("services:" ++ name ++ ":")
    → (register_service f s).0 ≡ ok tt
    → let t = (register_service f s).1 in
      ((n : ℕ) → SeenSince (clock.reading n) t.service_info)
      → Answers {r = r} f name
          (record { client = finder; clock = clock; redis = t.redis })
          t.service_info
register-endpoint r server f s finder clock name live ready g p same named plain done fresh =
    let t = (register_service f s).1 in
    let d : Session r = record { client = finder; clock = clock; redis = t.redis } in
    get_service_endpoint-Answers f name d t.service_info (
      subst
        (λ n.
          (is : List ServiceInfo) → (discover_services f n d).0 ≡ ok is → Among t.service_info is)
        same
        (λ is found.
          register-found r server f s finder clock is live ready g p (rw same named) (rw same plain)
            done fresh found))
