-- ===== src/ServiceDiscovery/Lifecycle.antt =====
-- Starting, stopping and the heartbeat: which states the client can reach.
use trading_ecosystem_exchan.Common.{
  ℕ, ◌+◌, ◌≤◌, ◌<◌, ◌≡◌, ◌⊎◌, inl, inr, refl, true, false, some, Result, ok, err, arith, Clock,
  peek,
}
use trading_ecosystem_exchan.Common.Json.{TimeFormat}
use trading_ecosystem_exchan.Config.{Config}
use trading_ecosystem_exchan.ServiceDiscovery.Redis.{RedisClient, ObeysContext}
use trading_ecosystem_exchan.ServiceDiscovery.Types.{
  new_service_discovery_client, new_session, ticking, Session, register, register_in_redis,
  service_timeout, Error, connect, already_running,
}
use trading_ecosystem_exchan.ServiceDiscovery.Wire.{service_key, of_info}
use trading_ecosystem_exchan.ServiceDiscovery.Methods.{start, stop, heartbeat, heartbeat_done}

-- The owner calls `Start` and `Stop`; a goroutine in `heartbeatLoop` takes a tick, or sees that the
-- context is done.
pub data Step (r : RedisClient) (f : TimeFormat) (s : Session r) : Session r → Type 0 where
  starts : Step r f s (start f s).1
  stops : Step r f s (stop s)
  beats : 0 < s.heartbeats → Step r f s (heartbeat f s)
  ends : 0 < s.heartbeats → s.cancelled ≡ true → Step r f s (heartbeat_done s)

pub data Reach (r : RedisClient) (f : TimeFormat) (s : Session r) : Session r → Type 0 where
  here : Reach r f s s
  later : {t u : Session r} → Reach r f s t → Step r f t u → Reach r f s u

-- A running client has a live context, a ticker and one heartbeat goroutine. A client that does not
-- run was never started, or is stopped for good while its goroutine may still be ending.
abbrev pub IsSound : {r : RedisClient} → Session r → Type 0
IsSound s =
    ((s.is_running ≡ true)
      × (s.cancelled ≡ false)
      × (s.heartbeats ≡ 1)
      × (s.heartbeat_ticker ≡ some ticking))
    ⊎ ((s.is_running ≡ false) × (s.cancelled ≡ false) × (s.heartbeats ≡ 0))
    ⊎ ((s.is_running ≡ false) × (s.cancelled ≡ true) × (s.heartbeats ≤ 1))

module _ {r : RedisClient} (f : TimeFormat) (obeys : ObeysContext r) where
  Step-IsSound : {s t : Session r} → Step r f s t → IsSound s → IsSound t
  unfolding start stop heartbeat heartbeat_done
  Step-IsSound {s} starts h = ground (arith, (obeys.ping-cancelled s.redis).1)
  Step-IsSound {s} stops h = ground arith
  Step-IsSound {s} (beats n) h = ground arith
  Step-IsSound {s} (ends n c) h = ground arith

  Reach-IsSound : {s t : Session r} → IsSound s → Reach r f s t → IsSound t
  Reach-IsSound h here = h
  Reach-IsSound h (later p st) = Step-IsSound st (Reach-IsSound h p)

  -- If Redis refuses commands whose context is cancelled, then in every state that a new client
  -- reaches by calls of `Start` and `Stop` and by heartbeats, in any order, it runs with a live
  -- context, a ticker and exactly one heartbeat goroutine, or it does not run: never started and
  -- without goroutines, or stopped with a cancelled context and at most one goroutine left.
  pub new-Reach-IsSound :
      (cfg : Config) (seen created : ℕ) (clock : Clock) (redis : r.State) {t : Session r}
      → Reach r f (new_session cfg seen created clock redis) t
      → IsSound t
  new-Reach-IsSound cfg seen created clock redis =
      Reach-IsSound (unfold new_service_discovery_client in inr (inl (refl, refl, refl)))

  -- If Redis refuses commands whose context is cancelled, then `Start` after the `Stop` of a running
  -- client fails to connect, and leaves the client not running and not connected.
  pub start-stop :
      (s : Session r)
      → s.is_running ≡ true
      → let t = start f (stop s) in
        ((x : r.Fault) × (t.0 ≡ err (connect x)))
        × (t.1.is_running ≡ false)
        × (t.1.metrics.is_connected ≡ false)
  unfolding start stop
  start-stop s running =
      let w = (stop s).redis in
      (
        ((obeys.ping-cancelled w).0, ground (arith, (obeys.ping-cancelled w).1)),
        ground (arith, (obeys.ping-cancelled w).1),
        ground (arith, (obeys.ping-cancelled w).1),
      )

-- What `Start` has done when it returns.
abbrev pub Started :
    {r : RedisClient} → Session r → Result (Error r.Fault) (Unit {0}) × Session r → Type 0
Started {r} s (e, t) =
    ((e ≡ err already_running) × (s.is_running ≡ true) × (t ≡ s))
    ⊎ ((e ≡ ok tt)
        × (s.is_running ≡ false)
        × (t.is_running ≡ true)
        × (t.metrics.is_connected ≡ true)
        × (t.service_info.last_seen ≡ peek s.clock)
        × (t.heartbeats ≡ s.heartbeats + 1))
    ⊎ ((x : r.Fault) × (e ≡ err (connect x))
        × (t.is_running ≡ false)
        × (t.metrics.is_connected ≡ false)
        × (t.heartbeats ≡ s.heartbeats))
    ⊎ ((x : r.Fault) × (e ≡ err (register (register_in_redis x)))
        × (t.is_running ≡ false)
        × (t.metrics.is_connected ≡ true)
        × (t.heartbeats ≡ s.heartbeats))

-- What Redis says to the entry that `Start` writes.
abbrev entry_set : (r : RedisClient) → TimeFormat → Session r → Result r.Fault (Unit {0})
entry_set r f s =
    let info = record s.service_info { last_seen = peek s.clock } in
    (r.set s.cancelled (service_key info) (of_info f info) service_timeout
      (r.ping s.cancelled s.redis).1).0
