-- ===== src/ServiceDiscovery/Exact.antt =====
-- What `DiscoverServices` returns, against a filter over the entries that Redis holds.
use mathlib.Core.List.{filter_map, Sublistᴰ}
use mathlib.Core.List.Sublistᴰ.{slnil, cons, cons-cons}
use mathlib.Core.Option.{Option-elim}
use trading_ecosystem_exchan.Common.{
  ℕ, ◌+◌, ◌≤◌, ◌≡◌, ◌⊎◌, inl, inr, refl, sym, ◌∙◌, String, false, Option, none, some, List, [], ◌∷◌,
  ok, arith, peek, ltb, if◌then◌else◌, IsMonotone, Bool-cases, Option-cases,
}
use trading_ecosystem_exchan.Common.Json.{Json, TimeFormat}
use trading_ecosystem_exchan.ServiceDiscovery.Redis.{RedisClient, Server}
use trading_ecosystem_exchan.ServiceDiscovery.Types.{ServiceInfo, Session, service_timeout}
use trading_ecosystem_exchan.ServiceDiscovery.Wire.{to_info, discovery_pattern}
use trading_ecosystem_exchan.ServiceDiscovery.Methods.{
  increment_discovery_count, visit, collect, discover_services, prepend, read_entry,
}
use trading_ecosystem_exchan.ServiceDiscovery.Lookup.{
  reading-visit, cancelled-visit, asked, listing, listing-found,
}
use trading_ecosystem_exchan.ServiceDiscovery.Registration.{stored-visit, stored-keys_live}

-- A service that was seen within the time limit before a time.
abbrev pub seen_at : ℕ → Option ServiceInfo → Option ServiceInfo
seen_at t none = none
seen_at t (some i) = if ltb t (i.last_seen + service_timeout) then some i else none

-- What stands under a key, if it can be read.
abbrev pub entry_of : TimeFormat → Option (Option Json) → Option ServiceInfo
entry_of f (some (some j)) = to_info f j
entry_of f _ = none

-- The reference: the services under these keys that were seen in time, in the order of the keys.
unfoldable pub seen_services :
    TimeFormat → (String → Option (Option Json)) → ℕ → List String → List ServiceInfo
seen_services f stored t = filter_map λ k. seen_at t (entry_of f (stored k))

Option-elim-prepend :
    (o : Option ServiceInfo) (is : List ServiceInfo) → Option-elim o is (λ i. i ∷ is) ≡ prepend o is
unfolding Option-elim
Option-elim-prepend none is = refl
Option-elim-prepend (some i) is = refl

filter_map-prepend :
    (h : String → Option ServiceInfo) (k : String) (ks : List String)
    → filter_map h (k ∷ ks) ≡ prepend (h k) (filter_map h ks)
unfolding filter_map
filter_map-prepend h k ks = Option-elim-prepend (h k) (filter_map h ks)

abbrev Narrows : Option ServiceInfo → Option ServiceInfo → Type 0
Narrows o p = (o ≡ none) ⊎ (o ≡ p)

prepend-Sublist :
    (o p : Option ServiceInfo) (is js : List ServiceInfo)
    → Narrows o p
    → Sublistᴰ is js
    → Sublistᴰ (prepend o is) (prepend p js)
prepend-Sublist none none is js n h = h
prepend-Sublist none (some j) is js n h = cons h
prepend-Sublist (some i) none is js n h = absurd (ground arith)
prepend-Sublist (some i) (some j) is js n h = cons-cons (ground arith) h

seen_at-later : (t u : ℕ) (o : Option ServiceInfo) → t ≤ u → Narrows (seen_at u o) (seen_at t o)
seen_at-later t u none h = inl refl
seen_at-later t u (some i) h = elim (Bool-cases (ltb u (i.last_seen + service_timeout))) [
  | inl e ↦ inr (ground (arith, e))
  | inr e ↦ inl (ground (arith, e))
]

module _ {r : RedisClient} (f : TimeFormat) (k : String) (s : Session r) where
  abbrev visited : Option ServiceInfo
  visited = read_entry f (r.get s.cancelled k s.redis).0

  visit-seen_at : (visit f k s).0 ≡ seen_at (peek s.clock) visited
  unfolding visit
  visit-seen_at = ground arith

  peek-visit : IsMonotone s.clock → peek s.clock ≤ peek (visit f k s).1.clock
  unfolding visit
  peek-visit mono = let m = mono s.clock.reads in ground arith

  visited-entry_of :
      (server : Server r) → s.cancelled ≡ false → visited ≡ entry_of f (server.stored s.redis k)
  visited-entry_of server live = elim (Option-cases (server.stored s.redis k)) [
    | inl e ↦ let (x, m) = server.get-missing k s.redis e in rw (live, e) (rw m refl)
    | inr (v, e) ↦
        rw (live, e) (rw (server.get-stored k v s.redis e) (elim v [ none ↦ refl | some j ↦ refl ]))
  ]

module _ {r : RedisClient} (f : TimeFormat) (server : Server r) where
  -- What the reference makes of the entries in a state.
  abbrev seen_in : Session r → ℕ → List String → List ServiceInfo
  seen_in s = seen_services f (server.stored s.redis)

  seen_in-prepend :
      (k : String) (ks : List String) (s : Session r) (t : ℕ)
      → s.cancelled ≡ false
      → seen_in s t (k ∷ ks) ≡ prepend (seen_at t (visited f k s)) (seen_in (visit f k s).1 t ks)
  unfolding seen_services
  seen_in-prepend k ks s t live =
      rw (stored-visit f server k s live, visited-entry_of f k s server live)
        (filter_map-prepend (λ k. seen_at t (entry_of f (server.stored s.redis k))) k ks)

  peek-collect :
      (ks : List String) (s : Session r)
      → IsMonotone s.clock
      → peek s.clock ≤ peek (collect f ks s).1.clock
  unfolding collect
  peek-collect [] s mono = omega arith
  peek-collect (k ∷ ks) s mono =
      let first = peek-visit f k s mono in
      let rest = peek-collect ks (visit f k s).1 (rw (reading-visit f k s) mono) in omega arith

  seen-collect :
      (t : ℕ) (ks : List String) (s : Session r)
      → s.cancelled ≡ false
      → IsMonotone s.clock
      → peek (collect f ks s).1.clock ≤ t
      → Sublistᴰ (seen_in s t ks) (collect f ks s).0
  unfolding collect
  seen-collect t [] s live mono h = unfold seen_services filter_map in slnil
  seen-collect t (k ∷ ks) s live mono h =
      let u = (visit f k s).1 in
      let mono' : IsMonotone u.clock = rw (reading-visit f k s) mono in
      let later = peek-collect ks u mono' in
      let first = peek-visit f k s mono in
      rw (seen_in-prepend k ks s t live, visit-seen_at f k s)
        (prepend-Sublist _ _ _ _ (seen_at-later (peek s.clock) t (visited f k s) (omega arith))
          (seen-collect t ks u (cancelled-visit f k s ∙ live) mono' h))

  collect-seen :
      (t : ℕ) (ks : List String) (s : Session r)
      → s.cancelled ≡ false
      → IsMonotone s.clock
      → t ≤ peek s.clock
      → Sublistᴰ (collect f ks s).0 (seen_in s t ks)
  unfolding collect
  collect-seen t [] s live mono h = unfold seen_services filter_map in slnil
  collect-seen t (k ∷ ks) s live mono h =
      let u = (visit f k s).1 in
      let mono' : IsMonotone u.clock = rw (reading-visit f k s) mono in
      let first = peek-visit f k s mono in
      rw (seen_in-prepend k ks s t live, visit-seen_at f k s)
        (prepend-Sublist _ _ _ _ (seen_at-later t (peek s.clock) (visited f k s) h)
          (collect-seen t ks u (cancelled-visit f k s ∙ live) mono' (omega arith)))

module _ {r : RedisClient} (f : TimeFormat) (name : String) (s : Session r) where
  collect-clock :
      (ks : List String)
      → (listing f name s).0 ≡ ok ks
      → peek (discover_services f name s).1.clock ≡ peek (collect f ks (asked f name s)).1.clock
  unfolding discover_services collect asked
  collect-clock [] e = ground arith
  collect-clock (k ∷ ks) e = ground arith

-- If the server loses nothing and the clock never goes back, and Redis lists the keys, then
-- `DiscoverServices` with a live context succeeds, also where it cannot read an entry, and returns the
-- services whose entries it can read under the keys that Redis lists, in that order, and
-- that were seen less than 90 seconds ago: all that are so still when it returns, and none that was not
-- so when it was called.
pub discover_services-seen :
    (r : RedisClient) (server : Server r) (f : TimeFormat) (name : String) (s : Session r)
    (ks : List String)
    → s.cancelled ≡ false
    → IsMonotone s.clock
    → (r.keys s.cancelled (discovery_pattern name) s.redis).0 ≡ ok ks
    → let seen = seen_services f (server.stored s.redis) in
      (is : List ServiceInfo) × ((discover_services f name s).0 ≡ ok is)
      × Sublistᴰ (seen (peek (discover_services f name s).1.clock) ks) is
      × Sublistᴰ is (seen (peek s.clock) ks)
unfolding asked increment_discovery_count
discover_services-seen r server f name s ks live mono listed =
    let t = asked f name s in
    let found = listing-found f name s ks listed in
    let late = collect-clock f name s ks listed in
    let same : server.stored t.redis ≡ server.stored s.redis =
      stored-keys_live server s.cancelled (discovery_pattern name) s.redis live in
    let next = mono s.clock.reads in
    (
      (collect f ks t).0,
      found,
      rw (sym same, late) (seen-collect f server _ ks t live mono (omega arith)),
      rw (sym same) (collect-seen f server (peek s.clock) ks t live mono next),
    )
