-- ===== src/ServiceDiscovery/Counters.antt =====
-- What a lookup of an endpoint adds to the metrics.
use trading_ecosystem_exchan.Common.{
  ◌≡◌, refl, String, List, [], ◌∷◌, Result, ok, err, arith, inc64, ◌∙◌, inl, inr, Result-cases,
}
use trading_ecosystem_exchan.Common.Json.{TimeFormat}
use trading_ecosystem_exchan.ServiceDiscovery.Redis.{RedisClient}
use trading_ecosystem_exchan.ServiceDiscovery.Types.{
  ServiceDiscoveryMetrics, Session, Error, no_healthy_instances,
}
use trading_ecosystem_exchan.ServiceDiscovery.Methods.{
  visit, collect, discover_services, get_service_endpoint,
}
use trading_ecosystem_exchan.ServiceDiscovery.Lookup.{listing, asked}

module _ {r : RedisClient} (f : TimeFormat) where
  metrics-visit : (k : String) (s : Session r) → (visit f k s).1.metrics ≡ s.metrics
  unfolding visit
  metrics-visit k s = ground arith

  metrics-collect : (ks : List String) (s : Session r) → (collect f ks s).1.metrics ≡ s.metrics
  unfolding collect
  metrics-collect [] s = refl
  metrics-collect (k ∷ ks) s = metrics-collect ks (visit f k s).1 ∙ metrics-visit k s

-- The successes and errors that an outcome adds to the two lookup counters.
abbrev Counted :
    {Fault : Type 0}
    → Result (Error Fault) String
    → ServiceDiscoveryMetrics
    → ServiceDiscoveryMetrics
    → Type 0
Counted (ok e) m n =
    (n.service_lookup_count ≡ inc64 (inc64 m.service_lookup_count))
    × (n.service_lookup_errors ≡ m.service_lookup_errors)
Counted (err (no_healthy_instances name)) m n =
    (n.service_lookup_count ≡ inc64 m.service_lookup_count)
    × (n.service_lookup_errors ≡ inc64 m.service_lookup_errors)
Counted (err e) m n =
    (n.service_lookup_count ≡ m.service_lookup_count)
    × (n.service_lookup_errors ≡ inc64 (inc64 m.service_lookup_errors))

module _ {r : RedisClient} (f : TimeFormat) (name : String) (s : Session r) where
  abbrev Counts : Type 0
  Counts =
      let t = get_service_endpoint f name s in
      (t.1.metrics.discovery_count ≡ inc64 s.metrics.discovery_count)
      × Counted t.0 s.metrics t.1.metrics

  counts_listed : (ks : List String) → (listing f name s).0 ≡ ok ks → Counts
  unfolding get_service_endpoint discover_services asked
  counts_listed [] e = ground arith
  counts_listed (k ∷ ks) e = ground (arith, metrics-collect f (k ∷ ks) (asked f name s))

-- Each `GetServiceEndpoint` counts one discovery. An endpoint that is found counts as two lookups and
-- no error, no healthy instance as one lookup and one error, and a failing Redis as two errors and no
-- lookup, modulo 2^64.
pub get_service_endpoint-Counted :
    (r : RedisClient) (f : TimeFormat) (name : String) (s : Session r)
    → let t = get_service_endpoint f name s in
      (t.1.metrics.discovery_count ≡ inc64 s.metrics.discovery_count)
      × Counted t.0 s.metrics t.1.metrics
unfolding get_service_endpoint discover_services
get_service_endpoint-Counted r f name s = elim (Result-cases (listing f name s).0) [
  | inl (ks, e) ↦ counts_listed f name s ks e
  | inr (x, e) ↦ ground arith
]
