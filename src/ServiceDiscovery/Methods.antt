-- ===== src/ServiceDiscovery/Methods.antt =====
-- The methods of `ServiceDiscoveryClient`. A method runs as one step: its locks are not modelled,
-- and a heartbeat comes between two methods, or between the two halves of `Stop`.
use trading_ecosystem_exchan.Common.{
  ◌+◌, ◌-◌, String, Bool, true, false, Option, none, some, List, [], ◌∷◌, Result, ok, err, Exec,
  pure, fail, call, modify, ◌>>=◌, ◌>>◌, wrapping, ltb, inc64, peek, advance, since, if◌then◌else◌,
}
use trading_ecosystem_exchan.Common.Json.{Json, TimeFormat}
use trading_ecosystem_exchan.ServiceDiscovery.Redis.{RedisClient}
use trading_ecosystem_exchan.ServiceDiscovery.Wire.{
  of_info, to_info, service_key, discovery_pattern, endpoint_of,
}
use trading_ecosystem_exchan.ServiceDiscovery.Types.{
  ServiceInfo, ServiceDiscoveryMetrics, ServiceDiscoveryClient, Ticker, ticking, stopped,
  service_timeout, Error, already_running, connect, register, register_in_redis, unregister,
  discover, no_healthy_instances, Session,
}

abbrev pub prepend : Option ServiceInfo → List ServiceInfo → List ServiceInfo
prepend none is = is
prepend (some i) is = i ∷ is

abbrev stop_ticker : Option Ticker → Option Ticker
stop_ticker none = none
stop_ticker (some _) = some stopped

-- the data under a key: a read error, no JSON text, or an entry
abbrev pub read_entry :
    {Fault : Type 0} → TimeFormat → Result Fault (Option Json) → Option ServiceInfo
read_entry f (err _) = none
read_entry f (ok none) = none
read_entry f (ok (some j)) = to_info f j

module _ {r : RedisClient} where
  abbrev with_client : (ServiceDiscoveryClient → ServiceDiscoveryClient) → Session r → Session r
  with_client f s = record s { client = f s.client }

  abbrev with_metrics : (ServiceDiscoveryMetrics → ServiceDiscoveryMetrics) → Session r → Session r
  with_metrics f = with_client λ c. record c { metrics = f c.metrics }

  abbrev read_clock : Session r → Session r
  read_clock s = record s { clock = advance s.clock }

  -- a command to Redis
  abbrev command : {A : Type 0} → (r.State → A × r.State) → Session r → A × Session r
  command m s = let (a, w) = m s.redis in (a, record s { redis = w })

  unfoldable pub update_connection_status : Bool → Session r → Session r
  update_connection_status connected = with_metrics λ m. record m { is_connected = connected }

  unfoldable pub increment_heartbeat_count : Session r → Session r
  increment_heartbeat_count s = read_clock (
      with_metrics
        (λ m. record m {
          heartbeat_count = inc64 m.heartbeat_count;
          last_heartbeat_time = peek s.clock;
        })
        s)

  unfoldable pub increment_discovery_count : Session r → Session r
  increment_discovery_count s = read_clock (
      with_metrics
        (λ m. record m {
          discovery_count = inc64 m.discovery_count;
          last_discovery_time = peek s.clock;
        })
        s)

  unfoldable pub increment_lookup_count : Session r → Session r
  increment_lookup_count =
      with_metrics λ m. record m { service_lookup_count = inc64 m.service_lookup_count }

  unfoldable pub increment_lookup_error : Session r → Session r
  increment_lookup_error =
      with_metrics λ m. record m { service_lookup_errors = inc64 m.service_lookup_errors }

  -- `s.serviceInfo.LastSeen = time.Now()`
  abbrev touch : Session r → Session r
  touch s = read_clock (
      with_client
        (λ c. record c { service_info = record c.service_info { last_seen = peek s.clock } }) s)

  -- `s.redisClient.Ping(s.ctx).Err()`, and the other commands
  abbrev ping : Session r → Result r.Fault (Unit {0}) × Session r
  ping s = command (r.ping s.cancelled) s

  unfoldable pub unregister_service : Exec (Session r) (Error r.Fault) (Unit {0})
  unregister_service =
      wrapping unregister λ s. command (r.del s.cancelled (service_key s.service_info)) s

  abbrev close_redis : Session r → Session r
  close_redis s = record s { redis = r.close s.redis }

  -- an entry counts if it can be read, and if it was seen within the time limit
  abbrev keep_fresh : Option ServiceInfo → Session r → Option ServiceInfo × Session r
  keep_fresh none s = (none, s)
  keep_fresh (some i) s =
      (if ltb (since i.last_seen s.clock) service_timeout then some i else none, read_clock s)

  -- `Stop` of a running client, up to the call of `unregisterService`, whose error is logged only
  unfoldable pub withdraw : Session r → Session r
  unfolding unregister_service
  withdraw s =
      let halted =
        with_client (λ c. record c { heartbeat_ticker = stop_ticker c.heartbeat_ticker }) s in
      (unregister_service halted).1

  -- the rest of it
  unfoldable pub shut : Session r → Session r
  shut s =
      let closed = close_redis (with_client (λ c. record c { cancelled = true }) s) in
      with_client (λ c. record c { is_running = false }) closed

  -- `Stop`
  unfoldable pub stop : Session r → Session r
  unfolding withdraw shut
  stop s = if s.is_running then shut (withdraw s) else s

  -- a round of `heartbeatLoop` on `s.ctx.Done()`: one goroutine returns
  unfoldable pub heartbeat_done : Session r → Session r
  heartbeat_done = with_client λ c. record c { heartbeats = c.heartbeats - 1 }

module _ {r : RedisClient} (f : TimeFormat) where
  unfoldable pub register_service : Exec (Session r) (Error r.Fault) (Unit {0})
  register_service s =
      let t = touch s in
      wrapping register_in_redis
        (λ s.
          command
            (r.set s.cancelled (service_key s.service_info) (of_info f s.service_info)
              service_timeout)
            s)
        t

  -- `s.heartbeatTicker = time.NewTicker(heartbeatInterval); go s.heartbeatLoop(); s.isRunning = true`
  abbrev begin : Session r → Session r
  begin = with_client λ c. record c {
    heartbeat_ticker = some ticking;
    heartbeats = c.heartbeats + 1;
    is_running = true;
  }

  abbrev connected : Result r.Fault (Unit {0}) → Exec (Session r) (Error r.Fault) (Unit {0})
  connected (err x) = do modify (update_connection_status false); fail (connect x)
  connected (ok _) = do
    modify (update_connection_status true)
    wrapping register register_service
    modify begin

  -- `Start`
  unfoldable pub start : Exec (Session r) (Error r.Fault) (Unit {0})
  unfolding update_connection_status register_service
  start s = if s.is_running then fail already_running s else (call ping >>= connected) s

  abbrev beat : Result (Error r.Fault) (Unit {0}) → Session r → Session r
  beat (err _) s = update_connection_status false s
  beat (ok _) s = increment_heartbeat_count (update_connection_status true s)

  -- a round of `heartbeatLoop` on a tick
  unfoldable pub heartbeat : Session r → Session r
  unfolding register_service update_connection_status increment_heartbeat_count
  heartbeat s = let (e, t) = register_service s in beat e t

  -- a round of the loop of `DiscoverServices`
  unfoldable pub visit : String → Session r → Option ServiceInfo × Session r
  visit k s = let (v, t) = command (r.get s.cancelled k) s in keep_fresh (read_entry f v) t

  -- the loop
  unfoldable pub collect : List String → Session r → List ServiceInfo × Session r
  unfolding visit
  collect [] s = ([], s)
  collect (k ∷ ks) s =
      let (kept, t) = visit k s in let (rest, u) = collect ks t in (prepend kept rest, u)

  abbrev discovered :
      Result r.Fault (List String) → Exec (Session r) (Error r.Fault) (List ServiceInfo)
  discovered (err x) = do modify increment_lookup_error; fail (discover x)
  discovered (ok []) = do modify increment_lookup_count; pure []
  discovered (ok (k ∷ ks)) = do
    services ← call (collect (k ∷ ks))
    modify increment_lookup_count
    pure services

  -- `DiscoverServices`
  unfoldable pub discover_services : String → Exec (Session r) (Error r.Fault) (List ServiceInfo)
  unfolding increment_discovery_count increment_lookup_count increment_lookup_error
  discover_services name = do
    modify increment_discovery_count
    ks ← call (λ s. command (r.keys s.cancelled (discovery_pattern name)) s)
    discovered ks

  abbrev pub first_endpoint :
      String → Result (Error r.Fault) (List ServiceInfo) → Exec (Session r) (Error r.Fault) String
  first_endpoint name (err x) = do modify increment_lookup_error; fail x
  first_endpoint name (ok []) = do modify increment_lookup_error; fail (no_healthy_instances name)
  first_endpoint name (ok (i ∷ _)) = do modify increment_lookup_count; pure (endpoint_of i)

  -- `GetServiceEndpoint`
  unfoldable pub get_service_endpoint : String → Exec (Session r) (Error r.Fault) String
  unfolding increment_lookup_count increment_lookup_error
  get_service_endpoint name s =
      let (found, t) = discover_services name s in first_endpoint name found t
