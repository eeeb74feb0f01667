-- ===== src/ConfigurationClient/Counting.antt =====
-- The counters and the connection flag, over any history of calls.
use trading_ecosystem_exchan.Common.{
  ℕ, ◌+◌, ◌%◌, ◌^◌, ◌≡◌, refl, String, Bool, true, false, Option, none, some, List, [], ◌∷◌, arith,
  length, Clock,
}
use trading_ecosystem_exchan.Common.Json.{Json, TimeFormat}
use trading_ecosystem_exchan.Config.{Config}
use trading_ecosystem_exchan.ConfigurationClient.Types.{
  ConfigurationClientMetrics, new_configuration_client, new_session, Network, Request, Response,
  Session,
}
use trading_ecosystem_exchan.ConfigurationClient.Methods.{
  get_configuration, set_configuration, is_healthy,
}

pub data Call : Type 0 where
  gets : String → Call
  sets : String → Option Json → String → Call

abbrev pub lookups : List Call → ℕ
lookups [] = 0
lookups (gets _ ∷ cs) = lookups cs + 1
lookups (sets _ _ _ ∷ cs) = lookups cs

module _ (f : TimeFormat) where
  -- A call's effect on the client, whatever it returns.
  unfoldable pub step : Session → Call → Session
  step s (gets key) = (get_configuration f key s).1
  step s (sets key value environment) = (set_configuration f key value environment s).1

  unfoldable pub run : Session → List Call → Session
  run s [] = s
  run s (c ∷ cs) = run (step s c) cs

-- `n` calls were made, `g` of them reads; the counters wrap like the program's.
pub record Counted (g n : ℕ) (m : ConfigurationClientMetrics) : Type 0 where
  pub requests : m.request_count ≡ n % 2 ^ 64
  pub outcomes : (m.cache_hits + m.cache_misses) % 2 ^ 64 ≡ g % 2 ^ 64

module _ (f : TimeFormat) (P : Session → Type 0) where
  pub run_induction :
      ((s : Session) (c : Call) → P s → P (step f s c))
      → (s : Session) (cs : List Call) → P s
      → P (run f s cs)
  unfolding run
  run_induction keep s [] h = h
  run_induction keep s (c ∷ cs) h = run_induction keep (step f s c) cs (keep s c h)

module _ (f : TimeFormat) where
  step-Counted :
      (g n : ℕ) (s : Session) (c : Call)
      → Counted g n s.metrics
      → Counted (lookups (c ∷ []) + g) (n + 1) (step f s c).metrics
  unfolding step get_configuration set_configuration
  step-Counted g n s (gets key) h = ground arith
  step-Counted g n s (sets key value environment) h = ground arith

  run-Counted :
      (g n : ℕ) (s : Session) (cs : List Call)
      → Counted g n s.metrics
      → Counted (lookups cs + g) (length cs + n) (run f s cs).metrics
  unfolding run
  run-Counted g n s [] h = omega (arith, h)
  run-Counted g n s (c ∷ cs) h =
      recount c
        (run-Counted (lookups (c ∷ []) + g) (n + 1) (step f s c) cs (step-Counted g n s c h))
    where
      recount :
          (c : Call) {m : ConfigurationClientMetrics}
          → Counted (lookups cs + (lookups (c ∷ []) + g)) (length cs + (n + 1)) m
          → Counted (lookups (c ∷ cs) + g) (length (c ∷ cs) + n) m
      recount (gets key) k = omega (arith, k)
      recount (sets key value environment) k = omega (arith, k)

  -- After any calls on a new client the request counter is their number, and cache hits and misses
  -- together are the number of reads, all modulo 2^64.
  pub run-counters :
      (cfg : Config) (clock : Clock) (network : Network) (cs : List Call)
      → let m = (run f (new_session cfg clock network) cs).metrics in
        (m.request_count ≡ length cs % 2 ^ 64)
        × ((m.cache_hits + m.cache_misses) % 2 ^ 64 ≡ lookups cs % 2 ^ 64)
  unfolding new_configuration_client
  run-counters cfg clock network cs =
      let counted = run-Counted 0 0 (new_session cfg clock network) cs (omega arith) in
      (omega (arith, counted), omega (arith, counted))

-- Whether the newest request got an answer; with no request yet, false.
abbrev pub newest_answered : List Request → Option Response → Bool
newest_answered [] r = false
newest_answered (q ∷ qs) none = false
newest_answered (q ∷ qs) (some r) = true

abbrev pub IsCurrent : Session → Type 0
IsCurrent s = is_healthy s ≡ newest_answered s.network.sent (s.network.answer s.network.sent)

module _ (f : TimeFormat) where
  step-IsCurrent : (s : Session) (c : Call) → IsCurrent s → IsCurrent (step f s c)
  unfolding step get_configuration set_configuration is_healthy
  step-IsCurrent s (gets key) h = ground arith
  step-IsCurrent s (sets key value environment) h = ground arith

  -- After any calls on a new client that has sent nothing, `IsHealthy` is true exactly if the newest
  -- request got an answer from the service, of whatever status.
  pub run-is_healthy :
      (cfg : Config) (clock : Clock) (network : Network) (cs : List Call)
      → network.sent ≡ []
      → let s = run f (new_session cfg clock network) cs in
        is_healthy s ≡ newest_answered s.network.sent (s.network.answer s.network.sent)
  run-is_healthy cfg clock network cs quiet =
      run_induction f IsCurrent step-IsCurrent _ cs
        (unfold new_configuration_client is_healthy in rw quiet refl)
