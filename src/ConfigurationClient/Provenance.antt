-- ===== src/ConfigurationClient/Provenance.antt =====
-- Where the values come from that `GetConfiguration` returns.
use mathlib.Core.Path.{subst}
use trading_ecosystem_exchan.Common.{
  ◌≡◌, ◌⊎◌, inl, inr, String, Option, none, some, List, [], ◌∷◌, Result, ok, err, arith,
  Option-cases, Result-cases, eq_iff, peek, advance, Clock,
}
use trading_ecosystem_exchan.Common.Assoc.{
  lookup, delete, lookup-insert, lookup-delete, lookup-insert_self,
}
use trading_ecosystem_exchan.Common.Json.{Json, TimeFormat}
use trading_ecosystem_exchan.Config.{Config}
use trading_ecosystem_exchan.ConfigurationClient.Types.{
  ConfigurationValue, CacheEntry, Response, Request, Error, fetch_configuration, Network, Session,
  new_configuration_client, new_session,
}
use trading_ecosystem_exchan.ConfigurationClient.Methods.{
  get_configuration, set_configuration, read_response,
}
use trading_ecosystem_exchan.ConfigurationClient.Caching.{read_request, check_time, stored}
use trading_ecosystem_exchan.ConfigurationClient.Counting.{
  Call, gets, sets, step, run, run_induction,
}

module _ (f : TimeFormat) where
  -- What an exchange says of the key.
  abbrev reading : String → Option Response → Result Error ConfigurationValue
  reading key none = err fetch_configuration
  reading key (some r) = read_response f key r

  -- One of the requests sent was a read of the key, and its answer gave the value.
  abbrev pub Gave :
      Request
      → String
      → ConfigurationValue
      → (List Request → Option Response)
      → List Request
      → Type 0
  Gave ask key v answer [] = ⊥
  Gave ask key v answer (q ∷ qs) =
      ((q ≡ ask) × (reading key (answer (q ∷ qs)) ≡ ok v)) ⊎ Gave ask key v answer qs

  abbrev pub GaveIn : Session → String → ConfigurationValue → Type 0
  GaveIn s key v = Gave (read_request s key) key v s.network.answer s.network.sent

  abbrev pub IsBacked : Session → Type 0
  IsBacked s = (key : String) (e : CacheEntry) → lookup key s.cache ≡ some e → GaveIn s key e.value

  get-IsBacked : (key : String) (s : Session) → IsBacked s → IsBacked (get_configuration f key s).1
  unfolding get_configuration
  get-IsBacked key s h j e found = elim (Result-cases (get_configuration f key s).0) [
    | inl (v, p) ↦ ground (
      arith,
      h j e,
      eq_iff key j,
      lookup-delete key j s.cache,
      lookup-insert key j (stored s v (check_time s)) s.cache,
      lookup-insert key j (stored s v (peek (advance (advance s.clock)))) (delete key s.cache),
    )
    | inr (x, p) ↦ ground (arith, h j e, eq_iff key j, lookup-delete key j s.cache)
  ]

  set-IsBacked :
      (key environment : String) (value : Option Json) (s : Session)
      → IsBacked s
      → IsBacked (set_configuration f key value environment s).1
  unfolding set_configuration
  set-IsBacked key environment value s h j e found =
      ground (arith, h j e, lookup-delete key j s.cache, eq_iff key j)

  step-IsBacked : (s : Session) (c : Call) → IsBacked s → IsBacked (step f s c)
  unfolding step
  step-IsBacked s (gets key) h = get-IsBacked key s h
  step-IsBacked s (sets key value environment) h = set-IsBacked key environment value s h

  get_configuration-cached :
      (key : String) (s : Session) (v : ConfigurationValue)
      → (get_configuration f key s).0 ≡ ok v
      → (e : CacheEntry) × (lookup key (get_configuration f key s).1.cache ≡ some e) × (e.value ≡ v)
  unfolding get_configuration
  get_configuration-cached key s v h =
      let restored =
        lookup-insert_self key (stored s v (peek (advance (advance s.clock))))
          (delete key s.cache) in
      elim (Option-cases (lookup key (get_configuration f key s).1.cache)) [
        | inr (e, p) ↦ (
          e,
          p,
          ground (arith, lookup-insert_self key (stored s v (check_time s)) s.cache, restored),
        )
        | inl p ↦
            absurd
              (ground (arith, lookup-insert_self key (stored s v (check_time s)) s.cache, restored))
      ]

  -- Whatever calls were made on a new client, a value that `GetConfiguration` returns for a key is
  -- one that the service gave: some request sent so far was a read of that key, and the answer to
  -- it was a success whose first value this is.
  pub run-get-GaveIn :
      (cfg : Config) (clock : Clock) (network : Network) (cs : List Call) (key : String)
      (v : ConfigurationValue)
      → let s = run f (new_session cfg clock network) cs in
        (get_configuration f key s).0 ≡ ok v → GaveIn (get_configuration f key s).1 key v
  run-get-GaveIn cfg clock network cs key v h =
      let s = run f (new_session cfg clock network) cs in
      let backed =
        run_induction f IsBacked step-IsBacked (new_session cfg clock network) cs
          (λ k e found. unfold new_configuration_client lookup in absurd (cc found)) in
      let (e, found, same) = get_configuration-cached key s v h in
      subst (GaveIn (get_configuration f key s).1 key) same (get-IsBacked key s backed key e found)
