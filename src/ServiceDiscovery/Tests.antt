-- ===== src/ServiceDiscovery/Tests.antt =====
-- Runs against a Redis that holds its entries in a list, and the theorems at concrete inputs.
use mathlib.Core.List.{List, Sublistᴰ}
use trading_ecosystem_exchan.Common.{
  ℕ, ◌+◌, ◌*◌, ◌≤◌, ◌≡◌, ◌≢◌, refl, true, false, none, some, [], ◌∷◌, ok, err, arith, Clock,
  ticking as clock_at, All, eq_iff,
}
use trading_ecosystem_exchan.Common.Assoc.{lookup, insert, delete, keys}
use trading_ecosystem_exchan.Common.Int.{itoa}
use trading_ecosystem_exchan.Common.Json.{find_member, to_text_map, of_text_map}
use trading_ecosystem_exchan.Common.Json.Marks.{marks, count_marks, print_marks}
use trading_ecosystem_exchan.Config.Sample.{cfg}
use trading_ecosystem_exchan.ServiceDiscovery.Listed.{
  Fault, listed_redis, listed_server, listed_obeys,
}
use trading_ecosystem_exchan.ServiceDiscovery.Redis.{Among}
use trading_ecosystem_exchan.ServiceDiscovery.Types.{
  ServiceInfo, Session, connect, new_service_discovery_client, new_session,
}
use trading_ecosystem_exchan.ServiceDiscovery.Wire.{
  of_info, to_info, service_key, discovery_pattern, endpoint_of,
}
use trading_ecosystem_exchan.ServiceDiscovery.Methods.{
  start, stop, heartbeat, heartbeat_done, register_service, discover_services, collect,
  get_service_endpoint, unregister_service, withdraw, shut,
}
use trading_ecosystem_exchan.ServiceDiscovery.Stopping.{stop-unstored, withdraw-heartbeat-shut}
use trading_ecosystem_exchan.ServiceDiscovery.Lifecycle.{
  starts, stops, beats, here, later, new-Reach-IsSound, start-stop, IsSound,
}
use trading_ecosystem_exchan.ServiceDiscovery.Lookup.{SeenSince, discover_services-SeenSince}
use trading_ecosystem_exchan.ServiceDiscovery.Exact.{seen_services, discover_services-seen}
use trading_ecosystem_exchan.ServiceDiscovery.Registration.{register-discover}
use trading_ecosystem_exchan.ServiceDiscovery.Counters.{get_service_endpoint-Counted}

abbrev fresh : Session listed_redis
fresh = new_session cfg 3 4 (clock_at 5 1) []

methods : Unit {0}
unfolding start stop heartbeat heartbeat_done register_service discover_services collect
    get_service_endpoint of_info to_info service_key discovery_pattern endpoint_of itoa
    new_service_discovery_client lookup insert delete find_member to_text_map of_text_map
    count_marks print_marks
methods = tt

abbrev running : Session listed_redis
running = (start marks fresh).1

running_key : keys running.redis ≡ "services:exchange-simulator:localhost:50051" ∷ []
unfolding methods
running_key = refl

endpoint : (get_service_endpoint marks "exchange-simulator" running).0 ≡ ok "localhost:50051"
unfolding methods
endpoint = refl

removed : keys (stop running).redis ≡ []
unfolding methods
removed = refl

-- A second client of the same Redis.
abbrev finder : Session listed_redis
finder = record { client = fresh.client; clock = clock_at 8 1; redis = running.redis }

abbrev exchange : ServiceInfo
exchange = running.service_info

discovered : (discover_services marks "exchange-simulator" finder).0 ≡ ok (exchange ∷ [])
unfolding methods
discovered = refl

new-Reach-IsSound_example : IsSound (stop (heartbeat marks running))
unfolding methods
new-Reach-IsSound_example =
    new-Reach-IsSound marks listed_obeys cfg 3 4 (clock_at 5 1) []
      (later (later (later here starts) (beats (omega arith))) stops)

start-stop_example :
    let t = start marks (stop running) in
    ((x : Fault) × (t.0 ≡ err (connect x)))
    × (t.1.is_running ≡ false)
    × (t.1.metrics.is_connected ≡ false)
unfolding methods
start-stop_example = start-stop marks listed_obeys running refl

ticking_monotone : (n : ℕ) → 8 + n * 1 ≤ 8 + (n + 1) * 1
ticking_monotone n = omega arith

discover_services-SeenSince_example : All (SeenSince 8) (exchange ∷ [])
unfolding methods
discover_services-SeenSince_example =
    discover_services-SeenSince listed_redis marks "exchange-simulator" finder (exchange ∷ [])
      ticking_monotone discovered

-- A clock that has stopped.
abbrev stopped_clock : Clock
stopped_clock = clock_at 50 0

named : fresh.service_info.service_name ≢ ""
unfolding methods
named = ground (arith, eq_iff "exchange-simulator" "")

-- An entry that is no JSON text stands beside the one of the service.
abbrev garbled : Session listed_redis
garbled = record fresh { redis = insert "services:exchange-simulator:x" none [] }

register-discover_example :
    let t = (register_service marks garbled).1 in
    let d : Session listed_redis = record {
      client = fresh.client;
      clock = stopped_clock;
      redis = t.redis;
    } in
    (is : List ServiceInfo) × ((discover_services marks "exchange-simulator" d).0 ≡ ok is)
    × Among t.service_info is
unfolding methods listed_server
register-discover_example =
    register-discover listed_redis listed_server marks garbled fresh.client stopped_clock
      ("services:exchange-simulator:x" ∷ "services:exchange-simulator:localhost:50051" ∷ []) refl
      refl refl refl named tt refl (λ n. omega arith) refl

-- The same lookup of an unknown service.
get_service_endpoint-Counted_example :
    (get_service_endpoint marks "audit-correlator" fresh).1.metrics.service_lookup_errors ≡ 1
unfolding methods
get_service_endpoint-Counted_example =
    (get_service_endpoint-Counted listed_redis marks "audit-correlator" fresh).1.1

stop-unstored_example : lookup (service_key exchange) (stop running).redis ≡ none
unfolding methods listed_server unregister_service
stop-unstored_example = stop-unstored listed_server running refl refl refl

abbrev interrupted : Session listed_redis
interrupted = shut (heartbeat marks (withdraw running))

withdraw-heartbeat-shut_example :
    (interrupted.is_running ≡ false)
    × (interrupted.cancelled ≡ true)
    × (lookup (service_key interrupted.service_info) interrupted.redis
        ≡ some (some (of_info marks interrupted.service_info)))
    × (stop running ≡ shut (withdraw running))
unfolding methods listed_server withdraw shut
withdraw-heartbeat-shut_example = withdraw-heartbeat-shut listed_server marks running refl refl refl

-- Two entries, of which the first one expires while `DiscoverServices` runs.
abbrev twin : ServiceInfo
twin = record exchange { host = "twin"; last_seen = 9 }

abbrev late_finder : Session listed_redis
late_finder = record {
  client = fresh.client;
  clock = clock_at 90_000_000_004 1;
  redis = insert (service_key twin) (some (of_info marks twin)) running.redis;
}

discover_services-seen_example :
    let seen = seen_services marks (λ k. lookup k late_finder.redis) in
    let ks = service_key exchange ∷ service_key twin ∷ [] in
    (is : List ServiceInfo) × ((discover_services marks "exchange-simulator" late_finder).0 ≡ ok is)
    × Sublistᴰ (seen 90_000_000_007 ks) is
    × Sublistᴰ is (seen 90_000_000_004 ks)
unfolding methods listed_server
discover_services-seen_example =
    discover_services-seen listed_redis listed_server marks "exchange-simulator" late_finder
      (service_key exchange ∷ service_key twin ∷ []) refl (λ n. omega arith) refl
