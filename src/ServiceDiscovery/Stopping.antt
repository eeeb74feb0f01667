-- ===== src/ServiceDiscovery/Stopping.antt =====
-- What `Stop` leaves in Redis, alone and with a heartbeat in its midst.
use mathlib.Core.Path.{subst}
use trading_ecosystem_exchan.Common.{
  ◌≡◌, refl, sym, ap, ◌∙◌, String, Bool, true, false, Option, none, some, ok, arith,
}
use trading_ecosystem_exchan.Common.Json.{Json, TimeFormat}
use trading_ecosystem_exchan.ServiceDiscovery.Redis.{RedisClient, Server}
use trading_ecosystem_exchan.ServiceDiscovery.Types.{Session}
use trading_ecosystem_exchan.ServiceDiscovery.Wire.{of_info, service_key}
use trading_ecosystem_exchan.ServiceDiscovery.Methods.{
  unregister_service, register_service, heartbeat, withdraw, shut, stop,
}
use trading_ecosystem_exchan.ServiceDiscovery.Registration.{register_service-stored}

module _ {r : RedisClient} (server : Server r) where
  open server use {stored, del-stored, stored-close}

  del_live :
      (c : Bool) (k : String) (w : r.State)
      → c ≡ false
      → (r.del c k w).0 ≡ ok tt
      → stored (r.del c k w).1 k ≡ none
  del_live c k w live =
      subst (λ c. (r.del c k w).0 ≡ ok tt → stored (r.del c k w).1 k ≡ none) (sym live)
        (del-stored k w)

  redis-shut : (s : Session r) → stored (shut s).redis ≡ stored s.redis
  unfolding shut
  redis-shut s = stored-close s.redis

  -- If Redis takes the command that deletes its entry, then `Stop` of a running client with a live
  -- context leaves no entry under the client's key.
  pub stop-unstored :
      (s : Session r)
      → s.is_running ≡ true
      → s.cancelled ≡ false
      → (unregister_service s).0 ≡ ok tt
      → stored (stop s).redis (service_key s.service_info) ≡ none
  unfolding stop unregister_service
  stop-unstored s runs live done =
      let key = service_key s.service_info in
      let gone = (r.del s.cancelled key s.redis).1 in
      rw runs (
        ap (λ (held : String → Option (Option Json)). held key) (stored-close gone)
        ∙ del_live s.cancelled key s.redis live (ground (arith, done)))

  -- The registration of a heartbeat, as the client is afterwards.
  heartbeat-stored :
      (f : TimeFormat) (s : Session r)
      → s.cancelled ≡ false
      → (register_service f s).0 ≡ ok tt
      → let t = heartbeat f s in
        stored t.redis (service_key t.service_info) ≡ some (some (of_info f t.service_info))
  unfolding heartbeat register_service
  heartbeat-stored f s live done = ground (arith, register_service-stored server f s live done)

  -- A heartbeat that comes between the deletion of the entry and the cancelling of the context, and
  -- that Redis takes, puts the entry back: `Stop` ends with the client stopped, its context cancelled
  -- and its entry in Redis. Without the heartbeat these two halves are `Stop`.
  pub withdraw-heartbeat-shut :
      (f : TimeFormat) (s : Session r)
      → s.is_running ≡ true
      → s.cancelled ≡ false
      → (register_service f (withdraw s)).0 ≡ ok tt
      → let t = shut (heartbeat f (withdraw s)) in
        (t.is_running ≡ false)
        × (t.cancelled ≡ true)
        × (stored t.redis (service_key t.service_info) ≡ some (some (of_info f t.service_info)))
        × (stop s ≡ shut (withdraw s))
  unfolding shut stop
  withdraw-heartbeat-shut f s runs live done =
      let t = heartbeat f (withdraw s) in
      (
        refl,
        refl,
        ap (λ (held : String → Option (Option Json)). held (service_key t.service_info))
              (stored-close t.redis)
            ∙ heartbeat-stored f (withdraw s) (unfold withdraw in live) done,
        rw runs refl,
      )
