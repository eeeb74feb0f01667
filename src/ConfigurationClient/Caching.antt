-- ===== src/ConfigurationClient/Caching.antt =====
-- What the cache does to reads and writes of one key.
use trading_ecosystem_exchan.Common.{
  ℕ, ◌+◌, ◌≤◌, ◌<◌, ◌≡◌, ◌⊎◌, String, true, none, some, ◌∷◌, ok, err, arith, Option, peek, advance,
  eq_iff,
}
use trading_ecosystem_exchan.Common.Assoc.{
  lookup, insert, delete, lookup-delete, lookup-insert_self, lookup-delete_self,
}
use trading_ecosystem_exchan.Common.Json.{Json, TimeFormat}
use trading_ecosystem_exchan.ConfigurationClient.Types.{
  ConfigurationValue, CacheEntry, get, Request, Error, Session, value_url,
}
use trading_ecosystem_exchan.ConfigurationClient.Methods.{
  expired, settle, get_configuration, set_configuration,
}

-- The clock reading at which the cache is checked by a call that starts in this state: the second.
abbrev pub check_time : Session → ℕ
check_time s = peek (advance s.clock)

-- The request that a read of the key sends.
abbrev pub read_request : Session → String → Request
read_request s key = record {
  method = get;
  url = value_url s.base_url key;
  x_service_name = s.config.service_name;
}

-- What an accepted answer puts into the cache, where the clock shows `t`.
abbrev pub stored : Session → ConfigurationValue → ℕ → CacheEntry
stored s v t = record { value = v; expires_at = t + s.cache_ttl }

module _ (f : TimeFormat) (key : String) (s : Session) where
  -- If the cache holds an entry for the key that has not expired when it is checked, then
  -- `GetConfiguration` returns its value, sends no request and leaves the cache as it was.
  pub get_configuration-hit :
      (e : CacheEntry)
      → lookup key s.cache ≡ some e
      → check_time s ≤ e.expires_at
      → ((get_configuration f key s).0 ≡ ok e.value)
        × ((get_configuration f key s).1.network ≡ s.network)
        × ((get_configuration f key s).1.cache ≡ s.cache)
  unfolding get_configuration
  get_configuration-hit e found fresh = ground arith

  lookup-stored :
      (v : ConfigurationValue)
      → lookup key (insert key (stored s v (check_time s)) s.cache)
        ≡ some (stored s v (check_time s))
  lookup-stored v = lookup-insert_self key _ s.cache

  get_configuration-stored :
      (v : ConfigurationValue)
      → lookup key s.cache ≡ none
      → (get_configuration f key s).0 ≡ ok v
      → lookup key (get_configuration f key s).1.cache ≡ some (stored s v (check_time s))
  unfolding get_configuration
  get_configuration-stored v missing h = ground (arith, lookup-stored v)

  -- An error of `GetConfiguration` puts nothing into the cache: each key is found as before, except
  -- that the entry of the key itself may be gone.
  pub get_configuration-err :
      (x : Error)
      → (get_configuration f key s).0 ≡ err x
      → (j : String)
      → let found = lookup j (get_configuration f key s).1.cache in
        (found ≡ lookup j s.cache) ⊎ ((j ≡ key) × (found ≡ none))
  unfolding get_configuration
  get_configuration-err x h j =
      ground (arith, eq_iff key j, eq_iff j key, lookup-delete key j s.cache)

-- After a successful `SetConfiguration` the key is not in the cache.
pub set_configuration-uncached :
    (f : TimeFormat) (key env : String) (value : Option Json) (s : Session)
    → (set_configuration f key value env s).0 ≡ ok tt
    → lookup key (set_configuration f key value env s).1.cache ≡ none
unfolding set_configuration
set_configuration-uncached f key env value s h = ground (arith, lookup-delete_self key s.cache)

get_configuration-miss :
    (f : TimeFormat) (key : String) (s : Session)
    → lookup key s.cache ≡ none
    → s.network.accepts_url (value_url s.base_url key) ≡ true
    → (get_configuration f key s).1.network.sent ≡ read_request s key ∷ s.network.sent
unfolding get_configuration
get_configuration-miss f key s e h = ground arith

-- If the key is not in the cache and `GetConfiguration` returns a value, then a second call whose
-- check of the cache comes within the time to live from the reading at which the first one stored it
-- gives the same value and sends no request.
pub get-get :
    (f : TimeFormat) (key : String) (s : Session) (v : ConfigurationValue)
    → lookup key s.cache ≡ none
    → (get_configuration f key s).0 ≡ ok v
    → check_time (get_configuration f key s).1 ≤ check_time s + s.cache_ttl
    → let t = (get_configuration f key s).1 in
      ((get_configuration f key t).0 ≡ ok v) × ((get_configuration f key t).1.network ≡ t.network)
get-get f key s v missing h fresh =
    let hit =
      get_configuration-hit f key (get_configuration f key s).1 (stored s v (check_time s))
        (get_configuration-stored f key s v missing h) fresh in
    (hit.0, hit.1)

-- After a successful `SetConfiguration` of a key the next `GetConfiguration` of it asks the service,
-- if the key makes an acceptable URL.
pub set-get :
    (f : TimeFormat) (key env : String) (value : Option Json) (s : Session)
    → (set_configuration f key value env s).0 ≡ ok tt
    → let t = (set_configuration f key value env s).1 in
      t.network.accepts_url (value_url t.base_url key) ≡ true
      → (get_configuration f key t).1.network.sent ≡ read_request t key ∷ t.network.sent
set-get f key env value s h accepted =
    get_configuration-miss f key (set_configuration f key value env s).1
      (set_configuration-uncached f key env value s h) accepted

-- The reading at which an answer is stored by a call that starts in this state and finds an expired
-- entry: the third.
abbrev pub refresh_time : Session → ℕ
refresh_time s = peek (advance (advance s.clock))

get_configuration-refreshed :
    (f : TimeFormat) (key : String) (s : Session) (e : CacheEntry) (v : ConfigurationValue)
    → lookup key s.cache ≡ some e
    → e.expires_at < check_time s
    → (get_configuration f key s).0 ≡ ok v
    → lookup key (get_configuration f key s).1.cache ≡ some (stored s v (refresh_time s))
unfolding get_configuration
get_configuration-refreshed f key s e v found old h =
    let kept = lookup-insert_self key (stored s v (refresh_time s)) (delete key s.cache) in
    ground (arith, kept)

-- `getCachedValue` deletes an entry that it has found expired without looking again. If another
-- goroutine's `GetConfiguration` finds it expired too and stores a new one before that, the new entry
-- is deleted, and the next `GetConfiguration` of the key asks the service again, if the key makes an
-- acceptable URL.
pub refresh-lost :
    (f : TimeFormat) (key : String) (s : Session) (e : CacheEntry) (v : ConfigurationValue)
    → lookup key s.cache ≡ some e
    → e.expires_at < check_time s
    → (get_configuration f key s).0 ≡ ok v
    → let t = (get_configuration f key s).1 in
      let u = (settle key expired t).1 in
      t.network.accepts_url (value_url t.base_url key) ≡ true
      → (lookup key t.cache ≡ some (stored s v (refresh_time s)))
        × (lookup key u.cache ≡ none)
        × ((get_configuration f key u).1.network.sent ≡ read_request t key ∷ t.network.sent)
unfolding settle
refresh-lost f key s e v found old h accepted =
    let t = (get_configuration f key s).1 in
    let gone = lookup-delete_self key t.cache in
    (
      get_configuration-refreshed f key s e v found old h,
      gone,
      get_configuration-miss f key (settle key expired t).1 gone accepted,
    )
