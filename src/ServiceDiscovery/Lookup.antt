-- ===== src/ServiceDiscovery/Lookup.antt =====
-- What `DiscoverServices` finds.
use trading_ecosystem_exchan.Common.{
  ℕ, ◌+◌, ◌≤◌, ◌<◌, ◌≡◌, inl, inr, refl, String, Option, none, some, List, [], ◌∷◌, Result, ok,
  arith, peek, IsMonotone, All, Result-cases,
}
use trading_ecosystem_exchan.Common.Json.{TimeFormat}
use trading_ecosystem_exchan.ServiceDiscovery.Redis.{RedisClient, Among}
use trading_ecosystem_exchan.ServiceDiscovery.Types.{ServiceInfo, Session, service_timeout}
use trading_ecosystem_exchan.ServiceDiscovery.Wire.{
  of_info, to_info, discovery_pattern, endpoint_of,
}
use trading_ecosystem_exchan.ServiceDiscovery.Methods.{
  increment_discovery_count, visit, collect, discover_services, prepend, first_endpoint,
  get_service_endpoint,
}

-- The service was seen less than the time limit before the time.
abbrev pub SeenSince : ℕ → ServiceInfo → Type 0
SeenSince t i = t < i.last_seen + service_timeout

All-prepend :
    (t : ℕ) (o : Option ServiceInfo) (is : List ServiceInfo)
    → ((i : ServiceInfo) → o ≡ some i → SeenSince t i)
    → All (SeenSince t) is
    → All (SeenSince t) (prepend o is)
All-prepend t none is h hs = hs
All-prepend t (some i) is h hs = (h i refl, hs)

pub Among-prepend :
    (i : ServiceInfo) (o : Option ServiceInfo) (is : List ServiceInfo)
    → Among i is
    → Among i (prepend o is)
Among-prepend i none is h = h
Among-prepend i (some j) is h = inr h

module _ {r : RedisClient} (f : TimeFormat) (k : String) (s : Session r) where
  visit-SeenSince :
      (t : ℕ) (i : ServiceInfo) → t ≤ peek s.clock → (visit f k s).0 ≡ some i → SeenSince t i
  unfolding visit
  visit-SeenSince t i h e = ground arith

  pub reading-visit : (visit f k s).1.clock.reading ≡ s.clock.reading
  unfolding visit
  reading-visit = ground arith

  visit_later :
      (t : ℕ)
      → s.clock.reading s.clock.reads ≤ s.clock.reading (s.clock.reads + 1)
      → t ≤ peek s.clock
      → t ≤ peek (visit f k s).1.clock
  unfolding visit
  visit_later t mono h = ground arith

  pub redis-visit : (visit f k s).1.redis ≡ (r.get s.cancelled k s.redis).1
  unfolding visit
  redis-visit = ground arith

  pub cancelled-visit : (visit f k s).1.cancelled ≡ s.cancelled
  unfolding visit
  cancelled-visit = ground arith

  pub visit-found :
      (i : ServiceInfo)
      → (r.get s.cancelled k s.redis).0 ≡ ok (some (of_info f i))
      → to_info f (of_info f i) ≡ some i
      → SeenSince (peek s.clock) i
      → (visit f k s).0 ≡ some i
  unfolding visit
  visit-found i e back fresh = ground arith

module _ {r : RedisClient} (f : TimeFormat) where
  collect-SeenSince :
      (t : ℕ) (ks : List String) (s : Session r)
      → IsMonotone s.clock
      → t ≤ peek s.clock
      → All (SeenSince t) (collect f ks s).0
  unfolding collect
  collect-SeenSince t [] s mono h = tt
  collect-SeenSince t (k ∷ ks) s mono h =
      All-prepend t (visit f k s).0 (collect f ks (visit f k s).1).0
        (λ i. visit-SeenSince f k s t i h)
        (collect-SeenSince t ks (visit f k s).1 (rw (reading-visit f k s) mono)
          (visit_later f k s t (mono s.clock.reads) h))

module _ {r : RedisClient} (f : TimeFormat) (name : String) (s : Session r) where
  abbrev pub listing : Result r.Fault (List String) × r.State
  listing = r.keys s.cancelled (discovery_pattern name) s.redis

  -- The state in which the loop begins.
  unfoldable pub asked : Session r
  unfolding increment_discovery_count
  asked = record (increment_discovery_count s) { redis = listing.1 }

  found-collect :
      (is : List ServiceInfo) (ks : List String)
      → listing.0 ≡ ok ks
      → (discover_services f name s).0 ≡ ok is
      → is ≡ (collect f ks asked).0
  unfolding discover_services collect asked
  found-collect is [] e h = ground arith
  found-collect is (k ∷ ks) e h = ground arith

  -- The lookup succeeds if the keys are listed, whatever the entries under them are.
  pub listing-found :
      (ks : List String)
      → listing.0 ≡ ok ks
      → (discover_services f name s).0 ≡ ok (collect f ks asked).0
  unfolding discover_services collect asked
  listing-found [] e = ground arith
  listing-found (k ∷ ks) e = ground arith

  pub discover_services-collect :
      (is : List ServiceInfo)
      → (discover_services f name s).0 ≡ ok is
      → (ks : List String) × (listing.0 ≡ ok ks) × (is ≡ (collect f ks asked).0)
  discover_services-collect is h = elim (Result-cases listing.0) [
    | inl (ks, e) ↦ (ks, e, found-collect is ks e h)
    | inr (x, e) ↦ absurd (unfold discover_services in ground arith)
  ]

-- If the clock never goes back, then each service that `DiscoverServices` returns was seen less than
-- 90 seconds before the call began.
pub discover_services-SeenSince :
    (r : RedisClient) (f : TimeFormat) (name : String) (s : Session r) (is : List ServiceInfo)
    → IsMonotone s.clock
    → (discover_services {r = r} f name s).0 ≡ ok is
    → All (SeenSince (peek s.clock)) is
discover_services-SeenSince r f name s is mono h =
    let (ks, _, e) = discover_services-collect f name s is h in
    rw e (
      collect-SeenSince f (peek s.clock) ks (asked f name s) (unfold asked in mono)
        (unfold asked in mono s.clock.reads))

-- The first service found, and the rest.
abbrev pub FoundFirst :
    {r : RedisClient} → TimeFormat → String → Session r → ServiceInfo → List ServiceInfo → Type 0
FoundFirst f name s i js = (discover_services f name s).0 ≡ ok (i ∷ js)

first_endpoint-head :
    {r : RedisClient} (f : TimeFormat) (name endpoint : String) (is : List ServiceInfo)
    (s : Session r)
    → (first_endpoint f name (ok is) s).0 ≡ ok endpoint
    → (i : ServiceInfo) × (js : List ServiceInfo) × (is ≡ i ∷ js) × (endpoint ≡ endpoint_of i)
first_endpoint-head f name endpoint [] s h = cc
first_endpoint-head f name endpoint (i ∷ js) s h = (i, js, refl, ground (arith, h))

-- The endpoint that `GetServiceEndpoint` returns is that of the first service that `DiscoverServices`
-- finds, which was seen less than 90 seconds before the call.
pub get_service_endpoint-SeenSince :
    (r : RedisClient) (f : TimeFormat) (name endpoint : String) (s : Session r)
    → IsMonotone s.clock
    → (get_service_endpoint {r = r} f name s).0 ≡ ok endpoint
    → (i : ServiceInfo) × (js : List ServiceInfo) × FoundFirst f name s i js
      × (endpoint ≡ endpoint_of i)
      × SeenSince (peek s.clock) i
unfolding get_service_endpoint
get_service_endpoint-SeenSince r f name endpoint s mono h =
    elim (Result-cases (discover_services f name s).0) [
      | inr (x, e) ↦ ground (arith, h, e)
      | inl (is, e) ↦
          let first : (first_endpoint f name (ok is) (discover_services f name s).1).0
              ≡ ok endpoint =
            ground (arith, h, e) in
          let (i, js, listed, same) = first_endpoint-head f name endpoint is _ first in
          let seen = discover_services-SeenSince r f name s is mono e in
          let all : All (SeenSince (peek s.clock)) (i ∷ js) = rw listed at seen in
          (i, js, rw listed at e, same, all.0)
    ]
