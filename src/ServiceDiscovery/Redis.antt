-- ===== src/ServiceDiscovery/Redis.antt =====
-- `RedisClient`, the interface through which the program uses Redis, and what is documented of a
-- server that loses nothing while it is asked.
use Prim.Native.String.{◌++◌}
use trading_ecosystem_exchan.Common.{
  ℕ, ◌≡◌, ◌⊎◌, String, Bool, true, false, Option, none, some, List, [], ◌∷◌, Result, ok, err,
}
use trading_ecosystem_exchan.Common.Json.{Json}

-- Each command is told whether its context is cancelled. A stored text is kept as its JSON value,
-- none where it is no JSON text.
pub record RedisClient : Type 1 where
  pub State : Type 0
  pub Fault : Type 0
  pub ping : Bool → State → Result Fault (Unit {0}) × State
  pub set : Bool → String → Json → ℕ → State → Result Fault (Unit {0}) × State
  pub get : Bool → String → State → Result Fault (Option Json) × State
  pub del : Bool → String → State → Result Fault (Unit {0}) × State
  pub keys : Bool → String → State → Result Fault (List String) × State
  pub close : State → State

abbrev pub Among : {A : Type 0} → A → List A → Type 0
Among a [] = ⊥
Among a (x ∷ xs) = (a ≡ x) ⊎ Among a xs

-- No character of the text means something else in a pattern of `KEYS`.
pub record Server (r : RedisClient) : Type 1 where
  pub IsPlain : String → Type 0
  pub stored : r.State → String → Option (Option Json)
  pub set-stored :
      (k : String) (j : Json) (ttl : ℕ) (w : r.State)
      → (r.set false k j ttl w).0 ≡ ok tt
      → stored (r.set false k j ttl w).1 k ≡ some (some j)
  pub get-stored :
      (k : String) (v : Option Json) (w : r.State)
      → stored w k ≡ some v
      → (r.get false k w).0 ≡ ok v
  pub get-missing :
      (k : String) (w : r.State) → stored w k ≡ none → (x : r.Fault) × ((r.get false k w).0 ≡ err x)
  pub stored-get : (k : String) (w : r.State) → stored (r.get false k w).1 ≡ stored w
  pub stored-keys : (p : String) (w : r.State) → stored (r.keys false p w).1 ≡ stored w
  pub del-stored :
      (k : String) (w : r.State) → (r.del false k w).0 ≡ ok tt → stored (r.del false k w).1 k ≡ none
  pub stored-close : (w : r.State) → stored (r.close w) ≡ stored w
  -- A pattern that ends in `*` lists each key that begins with the plain text before it.
  pub keys-lists :
      (p rest : String) (v : Option Json) (ks : List String) (w : r.State)
      → IsPlain p
      → stored w (p ++ rest) ≡ some v
      → (r.keys false (p ++ "*") w).0 ≡ ok ks
      → Among (p ++ rest) ks

-- With a cancelled context go-redis sends nothing and returns the context's error.
pub record ObeysContext (r : RedisClient) : Type 0 where
  pub ping-cancelled : (w : r.State) → (x : r.Fault) × ((r.ping true w).0 ≡ err x)
