-- ===== src/Common/Http.antt =====
-- What an HTTP server answers to a request.
use Prim.Native.Nat.{ℕ}
use Prim.Native.String.{String}
use trading_ecosystem_exchan.Common.Json.{Json}

pub data Body : Type 0 where
  json : Json → Body
  text : String → Body

pub record Answer : Type 0 where
  pub status : ℕ
  pub body : Body
