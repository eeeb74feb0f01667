-- ===== src/ServiceDiscovery/Listed.antt =====
-- A Redis that holds its entries in a list: concrete data for the tests.
use Prim.Native.String.{◌++◌}
use mathlib.Core.Path.{subst}
use trading_ecosystem_exchan.Common.{
  ◌≡◌, refl, String, Bool, true, false, Option, none, some, List, [], ◌∷◌, Result, ok, err, arith,
  eq_iff,
}
use trading_ecosystem_exchan.Common.Assoc.{
  Map, lookup, insert, delete, keys, lookup-insert_self, lookup-delete_self,
}
use trading_ecosystem_exchan.Common.Json.{Json}
use trading_ecosystem_exchan.ServiceDiscovery.Redis.{RedisClient, Server, ObeysContext, Among}

pub data Fault : Type 0 where
  context_cancelled missing : Fault

abbrev answer : {A S : Type 0} → Bool → Result Fault A × S → S → Result Fault A × S
answer true r w = (err context_cancelled, w)
answer false r w = r

abbrev found : Option (Option Json) → Result Fault (Option Json)
found none = err missing
found (some v) = ok v

-- `KEYS` lists every key, whatever the pattern: more than the pattern asks for.
abbrev pub listed_redis : RedisClient
listed_redis = record {
  State = Map (Option Json);
  Fault = Fault;
  ping = λ c w. answer c (ok tt, w) w;
  set = λ c k j ttl w. answer c (ok tt, insert k (some j) w) w;
  get = λ c k w. answer c (found (lookup k w), w) w;
  del = λ c k w. answer c (ok tt, delete k w) w;
  keys = λ c p w. answer c (ok (keys w), w) w;
  close = λ w. w;
}

pub found-some : (o : Option (Option Json)) (v : Option Json) → o ≡ some v → found o ≡ ok v
found-some o v e = ground arith

pub found-none : (o : Option (Option Json)) → o ≡ none → (x : Fault) × (found o ≡ err x)
found-none o e = (missing, ground arith)

pub keys-Among :
    (k : String) (v : Option Json) (w : Map (Option Json)) → lookup k w ≡ some v → Among k (keys w)
unfolding lookup
keys-Among k v [] h = cc
keys-Among k v ((j, u) ∷ w) h = ground (arith, eq_iff j k, keys-Among k v w)

abbrev listed_ok : List String → Result Fault (List String)
listed_ok ks = ok ks

pub same_keys :
    (k : String) (ks js : List String) → Among k js → listed_ok js ≡ listed_ok ks → Among k ks
same_keys k ks js m e = subst (Among k) (ground arith) m

unfoldable pub listed_server : Server listed_redis
listed_server = record {
  IsPlain = λ _. Unit {0};
  stored = λ w k. lookup k w;
  set-stored = λ k j ttl w _. lookup-insert_self k (some j) w;
  get-stored = λ k v w h. found-some (lookup k w) v h;
  get-missing = λ k w h. found-none (lookup k w) h;
  stored-get = λ k w. refl;
  stored-keys = λ p w. refl;
  del-stored = λ k w _. lookup-delete_self k w;
  stored-close = λ w. refl;
  keys-lists =
      λ p rest v ks w _ h e. same_keys (p ++ rest) ks (keys w) (keys-Among (p ++ rest) v w h) e;
}

pub listed_obeys : ObeysContext listed_redis
listed_obeys = record { ping-cancelled = λ w. (context_cancelled, refl) }
