-- ===== src/ServiceDiscovery/Registration.antt =====
-- A registered service is found: from `registerService` through Redis and JSON to
-- `DiscoverServices`.
use Prim.Native.String.{◌++◌}
use mathlib.Core.Path.{subst}
use trading_ecosystem_exchan.Common.{
  ℕ, ◌≡◌, ◌≢◌, inl, inr, refl, sym, ap, ◌∙◌, String, Bool, true, false, Option, some, List, [], ◌∷◌,
  ok, arith, Clock,
}
use trading_ecosystem_exchan.Common.Int.{fits_int64}
use trading_ecosystem_exchan.Common.Json.{Json, TimeFormat}
use trading_ecosystem_exchan.ServiceDiscovery.Redis.{RedisClient, Server, Among}
use trading_ecosystem_exchan.ServiceDiscovery.Types.{ServiceInfo, ServiceDiscoveryClient, Session}
use trading_ecosystem_exchan.ServiceDiscovery.Wire.{
  of_info, to_info, to_info-of_info, service_key, service_key-under_pattern, discovery_pattern,
  discovery_pattern-star,
}
use trading_ecosystem_exchan.ServiceDiscovery.Methods.{
  visit, collect, discover_services, register_service,
}
use trading_ecosystem_exchan.ServiceDiscovery.Lookup.{
  SeenSince, Among-prepend, visit-found, reading-visit, redis-visit, cancelled-visit, asked,
  discover_services-collect, listing-found,
}

module _ {r : RedisClient} (f : TimeFormat) (server : Server r) where
  open server use {stored, stored-get, get-stored}

  get_live :
      (c : Bool) (k : String) (v : Option Json) (w : r.State)
      → c ≡ false
      → stored w k ≡ some v
      → (r.get c k w).0 ≡ ok v
  get_live c k v w live held = rw live (get-stored k v w held)

  pub stored-visit :
      (k : String) (s : Session r)
      → s.cancelled ≡ false
      → stored (visit f k s).1.redis ≡ stored s.redis
  stored-visit k s live =
      ap stored (redis-visit f k s)
      ∙ ap (λ c. stored (r.get c k s.redis).1) live
      ∙ stored-get k s.redis

  -- Each key that holds a readable and fresh entry contributes it.
  collect-Among :
      (i : ServiceInfo) (k : String) (ks : List String) (s : Session r)
      → s.cancelled ≡ false
      → to_info f (of_info f i) ≡ some i
      → ((n : ℕ) → SeenSince (s.clock.reading n) i)
      → stored s.redis k ≡ some (some (of_info f i))
      → Among k ks
      → Among i (collect f ks s).0
  unfolding collect
  collect-Among i k [] s live back fresh held m = absurd m
  collect-Among i k (j ∷ ks) s live back fresh held (inl e) =
      let found =
        visit-found f j s i
          (get_live s.cancelled j (some (of_info f i)) s.redis live
            (subst (λ x. stored s.redis x ≡ some (some (of_info f i))) e held))
          back (fresh s.clock.reads) in
      rw found (inl refl)
  collect-Among i k (j ∷ ks) s live back fresh held (inr m) =
      Among-prepend i (visit f j s).0 (collect f ks (visit f j s).1).0 (
        collect-Among i k ks (visit f j s).1 (cancelled-visit f j s ∙ live) back
          (rw (reading-visit f j s) fresh)
          (ap (λ (g : String → Option (Option Json)). g k) (stored-visit j s live) ∙ held) m)

module _ {r : RedisClient} (server : Server r) where
  open server use {stored, set-stored, stored-keys, keys-lists, IsPlain}

  set_live :
      (c : Bool) (k : String) (j : Json) (ttl : ℕ) (w : r.State)
      → c ≡ false
      → (r.set c k j ttl w).0 ≡ ok tt
      → stored (r.set c k j ttl w).1 k ≡ some (some j)
  set_live c k j ttl w live =
      subst (λ c. (r.set c k j ttl w).0 ≡ ok tt → stored (r.set c k j ttl w).1 k ≡ some (some j))
        (sym live) (set-stored k j ttl w)

  pub register_service-stored :
      (f : TimeFormat) (s : Session r)
      → s.cancelled ≡ false
      → (register_service f s).0 ≡ ok tt
      → let t = (register_service f s).1 in
        stored t.redis (service_key t.service_info) ≡ some (some (of_info f t.service_info))
  unfolding register_service
  register_service-stored f s live done = set_live s.cancelled _ _ _ _ live (ground arith)

  pub stored-keys_live :
      (c : Bool) (p : String) (w : r.State) → c ≡ false → stored (r.keys c p w).1 ≡ stored w
  stored-keys_live c p w live = rw live (stored-keys p w)

  keys-list_key :
      (c : Bool) (i : ServiceInfo) (v : Option Json) (ks : List String) (w : r.State)
      → c ≡ false
      → i.service_name ≢ ""
      → IsPlain ("services:" ++ i.service_name ++ ":")
      → stored w (service_key i) ≡ some v
      → (r.keys c (discovery_pattern i.service_name) w).0 ≡ ok ks
      → Among (service_key i) ks
  keys-list_key c i v ks w live named plain held =
      rw (live, discovery_pattern-star i.service_name named, service_key-under_pattern i)
        (keys-lists _ _ v ks w plain (rw service_key-under_pattern at held))

-- A registered service is among those that a successful lookup returns.
pub register-found :
    (r : RedisClient) (server : Server r) (f : TimeFormat) (s : Session r)
    (finder : ServiceDiscoveryClient) (clock : Clock) (is : List ServiceInfo)
    → s.cancelled ≡ false
    → finder.cancelled ≡ false
    → fits_int64 s.service_info.grpc_port ≡ true
    → fits_int64 s.service_info.http_port ≡ true
    → s.service_info.service_name ≢ ""
    → server.IsPlain ("services:" ++ s.service_info.service_name ++ ":")
    → (register_service f s).0 ≡ ok tt
    → let t = (register_service f s).1 in
      ((n : ℕ) → SeenSince (clock.reading n) t.service_info)
      → (discover_services {r = r} f s.service_info.service_name
          (record { client = finder; clock = clock; redis = t.redis })).0
        ≡ ok is
      → Among t.service_info is
unfolding register_service asked
register-found r server f s finder clock is live ready g p named plain done fresh found =
    let t = (register_service f s).1 in
    let d : Session r = record { client = finder; clock = clock; redis = t.redis } in
    let (ks, listed, e) = discover_services-collect f t.service_info.service_name d is found in
    let held = register_service-stored server f s live done in
    let kept =
      stored-keys_live server finder.cancelled (discovery_pattern t.service_info.service_name)
        t.redis ready in
    rw e (
      collect-Among f server t.service_info (service_key t.service_info) ks
        (asked f t.service_info.service_name d) ready (to_info-of_info f t.service_info g p) fresh
        (ap (λ (h : String → Option (Option Json)). h (service_key t.service_info)) kept ∙ held)
        (keys-list_key server finder.cancelled t.service_info (some (of_info f t.service_info)) ks
          t.redis ready named plain held listed))

-- A service that registers itself is found by every client of the same Redis that looks for its name
-- before 90 seconds have passed by that client's clock: if both contexts are live, Redis takes the
-- registration and lists the keys, the server loses nothing, the name is not empty and without pattern
-- characters, and both ports are 64-bit integers, then the lookup succeeds, whatever else is stored
-- under the keys, and the service is among those it returns.
pub register-discover :
    (r : RedisClient) (server : Server r) (f : TimeFormat) (s : Session r)
    (finder : ServiceDiscoveryClient) (clock : Clock) (ks : List String)
    → s.cancelled ≡ false
    → finder.cancelled ≡ false
    → fits_int64 s.service_info.grpc_port ≡ true
    → fits_int64 s.service_info.http_port ≡ true
    → s.service_info.service_name ≢ ""
    → server.IsPlain ("services:" ++ s.service_info.service_name ++ ":")
    → (register_service f s).0 ≡ ok tt
    → let t = (register_service f s).1 in
      let d : Session r = record { client = finder; clock = clock; redis = t.redis } in
      ((n : ℕ) → SeenSince (clock.reading n) t.service_info)
      → (r.keys finder.cancelled (discovery_pattern s.service_info.service_name) t.redis).0 ≡ ok ks
      → (is : List ServiceInfo) × ((discover_services f s.service_info.service_name d).0 ≡ ok is)
        × Among t.service_info is
register-discover r server f s finder clock ks live ready g p named plain done fresh listed =
    let t = (register_service f s).1 in
    let d : Session r = record { client = finder; clock = clock; redis = t.redis } in
    let found = listing-found f s.service_info.service_name d ks listed in
    (
      _,
      found,
      register-found r server f s finder clock _ live ready g p named plain done fresh found,
    )
