-- ===== src/ConfigurationClient/Methods.antt =====
-- The methods of `ConfigurationClient`. Its locks are not modelled: a method's access to the cache
-- or the metrics is one step, but for the two locked sections of `getCachedValue`, and the methods
-- below run one at a time.
use Prim.Native.Nat.{◌/◌}
use trading_ecosystem_exchan.Common.{
  ℕ, ◌+◌, String, Bool, true, false, not, ◌&&◌, Option, none, some, List, [], ◌∷◌, Result, ok, err,
  Exec, pure, fail, call, lift, modify, ◌>>=◌, ◌>>◌, deferring, ltb, eqb, inc64, peek, advance,
  since, millisecond, if◌then◌else◌,
}
use trading_ecosystem_exchan.Common.Assoc.{lookup, insert, delete}
use trading_ecosystem_exchan.Common.Json.Interface.{to_interface, last_member}
use trading_ecosystem_exchan.Common.Json.{
  Json, str, obj, null, arr, member, end, find_member, to_string, to_bool, to_time, to_list,
  TimeFormat,
}
use trading_ecosystem_exchan.ConfigurationClient.Types.{
  ConfigurationValue, ConfigurationResponse, ConfigurationClientMetrics, CacheEntry, Body,
  unreadable, garbage, json, Response, get, post, Request, Error, create_request,
  fetch_configuration, read_body, parse_response, marshal, set_configuration_failed,
  returned_status, service_error, key_not_found, Session, value_url, set_url,
}

abbrev with_metrics : (ConfigurationClientMetrics → ConfigurationClientMetrics) → Session → Session
with_metrics f s = record s { client = record s.client { metrics = f s.metrics } }

abbrev read_clock : Session → Session
read_clock s = record s { clock = advance s.clock }

unfoldable pub increment_cache_hit : Session → Session
increment_cache_hit = with_metrics λ m. record m { cache_hits = inc64 m.cache_hits }

unfoldable pub increment_cache_miss : Session → Session
increment_cache_miss = with_metrics λ m. record m { cache_misses = inc64 m.cache_misses }

unfoldable pub set_connection_status : Bool → Session → Session
set_connection_status connected = with_metrics λ m. record m { is_connected = connected }

-- `updateMetrics(duration)`
unfoldable pub update_metrics : ℕ → Session → Session
update_metrics duration s = read_clock (
    with_metrics
      (λ m. record m {
        request_count = inc64 m.request_count;
        last_request_time = peek s.clock;
        response_time_ms = duration / millisecond;
      })
      s)

-- `updateMetrics(time.Since(start))`, which both public methods defer
unfoldable pub update_metrics_since : ℕ → Session → Session
unfolding update_metrics
update_metrics_since start s = update_metrics (since start s.clock) (read_clock s)

-- What the cache says of a key under its read lock.
pub data Cached : Type 0 where
  absent expired : Cached
  valid : ConfigurationValue → Cached

abbrev check_expiry : Option CacheEntry → Session → Cached × Session
check_expiry none s = (absent, s)
check_expiry (some entry) s =
    (if ltb entry.expires_at (peek s.clock) then expired else valid entry.value, read_clock s)

unfoldable pub read_cache : String → Session → Cached × Session
read_cache key s = check_expiry (lookup key s.cache) s

-- an expired entry is removed under the write lock
unfoldable pub settle : String → Cached → Session → Option ConfigurationValue × Session
settle key absent s = (none, s)
settle key expired s = (none, record s { client = record s.client { cache = delete key s.cache } })
settle key (valid value) s = (some value, s)

-- `getCachedValue`
unfoldable pub get_cached_value : String → Session → Option ConfigurationValue × Session
unfolding read_cache settle
get_cached_value key s = let (cached, t) = read_cache key s in settle key cached t

unfoldable pub cache_value : String → ConfigurationValue → Session → Session
cache_value key value s = record s {
  client = record s.client {
    cache = insert key (record { value = value; expires_at = peek s.clock + s.cache_ttl }) s.cache;
    metrics = record s.metrics { last_cache_update = peek (advance s.clock) };
  };
  clock = advance (advance s.clock);
}

unfoldable pub invalidate_cache : String → Session → Session
invalidate_cache key s = record s { client = record s.client { cache = delete key s.cache } }

-- `httpClient.Do`
unfoldable pub do_request : Request → Session → Option Response × Session
do_request r s =
    let sent = r ∷ s.network.sent in
    (s.network.answer sent, record s { network = record s.network { sent = sent } })

-- `json.Unmarshal` into the two structs
infixl 5 ◌>>=?◌
abbrev ◌>>=?◌ {ℓ κ} : {A : Type ℓ} {B : Type κ} → Option A → (A → Option B) → Option B
none >>=? f = none
some a >>=? f = f a

unfoldable pub to_value : TimeFormat → Json → Option ConfigurationValue
unfolding to_interface
to_value f null =
    some (record { key = ""; value = null; environment = ""; service = ""; updated_at = 0 })
to_value f (obj ms) = to_string (find_member "key" ms) >>=? λ k.
    to_string (find_member "environment" ms) >>=? λ e.
    to_string (find_member "service" ms) >>=? λ v. to_time f (find_member "updated_at" ms) >>=? λ t.
    to_interface (last_member "value" ms) >>=? λ x.
    some (record { key = k; value = x; environment = e; service = v; updated_at = t })
to_value f _ = none

abbrev to_values : TimeFormat → Json → Option (List ConfigurationValue)
to_values f null = some []
to_values f (arr vs) = to_list (to_value f) vs
to_values f _ = none

unfoldable pub to_response : TimeFormat → Json → Option ConfigurationResponse
unfolding to_value
to_response f null = some (record { success = false; values = []; error = "" })
to_response f (obj ms) = to_bool (find_member "success" ms) >>=? λ b.
    to_values f (find_member "data" ms) >>=? λ vs. to_string (find_member "error" ms) >>=? λ e.
    some (record { success = b; values = vs; error = e })
to_response f _ = none

-- `json.Marshal` of a value
unfoldable pub of_value : TimeFormat → ConfigurationValue → Json
of_value f v = obj (
    member "key" (str v.key) (
      member "value" v.value (
        member "environment" (str v.environment) (
          member "service" (str v.service)
            (member "updated_at" (str (f.print v.updated_at)) end)))))

abbrev first_value : String → List ConfigurationValue → Result Error ConfigurationValue
first_value key [] = err (key_not_found key)
first_value key (v ∷ vs) = ok v

abbrev check_response : String → Option ConfigurationResponse → Result Error ConfigurationValue
check_response key none = err parse_response
check_response key (some r) =
    if r.success then first_value key r.values else err (service_error r.error)

abbrev check_body : TimeFormat → String → Body → Result Error ConfigurationValue
check_body f key unreadable = err read_body
check_body f key garbage = err parse_response
check_body f key (json j) = check_response key (to_response f j)

-- what `GetConfiguration` makes of an answer, from the status to the first value
unfoldable pub read_response : TimeFormat → String → Response → Result Error ConfigurationValue
read_response f key r =
    if eqb r.status 200 then check_body f key r.body else err (returned_status r.status)

module _ (f : TimeFormat) where
  unfoldable pub receive : String → Option Response → Exec Session Error ConfigurationValue
  unfolding set_connection_status cache_value
  receive key none = do modify (set_connection_status false); fail fetch_configuration
  receive key (some r) = do
    modify (set_connection_status true)
    value ← lift (read_response f key r)
    modify (cache_value key value)
    pure value

  unfoldable pub fetch : String → Exec Session Error ConfigurationValue
  unfolding do_request receive
  fetch key s =
      let url = value_url s.base_url key in
      if s.network.accepts_url url
      then ((call (
              do_request
                (record { method = get; url = url; x_service_name = s.config.service_name }))
            >>= receive key)
          s)
      else fail create_request s

  abbrev serve : String → Option ConfigurationValue → Exec Session Error ConfigurationValue
  serve key (some value) = do modify increment_cache_hit; pure value
  serve key none = do modify increment_cache_miss; fetch key

  -- `GetConfiguration`
  unfoldable pub get_configuration : String → Exec Session Error ConfigurationValue
  unfolding update_metrics_since get_cached_value increment_cache_hit increment_cache_miss fetch
  get_configuration key s =
      let start = peek s.clock in
      deferring (update_metrics_since start) (call (get_cached_value key) >>= serve key)
        (read_clock s)

  abbrev is_stored : ℕ → Bool
  is_stored status = not (not (eqb status 200) && not (eqb status 201))

  unfoldable pub acknowledge : String → Option Response → Exec Session Error (Unit {0})
  unfolding set_connection_status invalidate_cache
  acknowledge key none = do modify (set_connection_status false); fail set_configuration_failed
  acknowledge key (some r) = do
    modify (set_connection_status true)
    if is_stored r.status then modify (invalidate_cache key) else fail (returned_status r.status)

  -- the body of `SetConfiguration`; `value` has no JSON form where `json.Marshal` refuses it
  unfoldable pub store : String → Option Json → String → Exec Session Error (Unit {0})
  unfolding of_value do_request acknowledge
  store key none environment s = fail marshal (read_clock s)
  store key (some value) environment s =
      let payload = of_value f (record {
        key = key;
        value = value;
        environment = environment;
        service = s.config.service_name;
        updated_at = peek s.clock;
      }) in
      let url = set_url s.base_url in
      if s.network.accepts_url url
      then ((call (
              do_request (record {
                method = post payload;
                url = url;
                x_service_name = s.config.service_name;
              }))
            >>= acknowledge key)
          (read_clock s))
      else fail create_request (read_clock s)

  -- `SetConfiguration`
  unfoldable pub set_configuration : String → Option Json → String → Exec Session Error (Unit {0})
  unfolding update_metrics_since store
  set_configuration key value environment s =
      let start = peek s.clock in
      deferring (update_metrics_since start) (store key value environment) (read_clock s)

-- `GetMetrics`, `IsHealthy`
unfoldable pub get_metrics : Session → ConfigurationClientMetrics
get_metrics s = s.metrics

unfoldable pub is_healthy : Session → Bool
is_healthy s = s.metrics.is_connected
