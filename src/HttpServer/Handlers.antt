-- ===== src/HttpServer/Handlers.antt =====
-- internal/handlers/health.go and internal/handlers/metrics.go.
use trading_ecosystem_exchan.Common.{ℕ, String, Option, none, some, [], ◌∷◌, Clock, peek, advance}
use trading_ecosystem_exchan.Common.Assoc.{Map, insert}
use trading_ecosystem_exchan.Common.Json.{Json, str, obj, Members, end, member}
use trading_ecosystem_exchan.Common.Http.{Answer, json}
use trading_ecosystem_exchan.Config.{Config}

-- `gin.H` as the object that `encoding/json` makes of it
unfoldable pub of_map : Map Json → Members
of_map [] = end
of_map ((name, value) ∷ m) = member name value (of_map m)

-- `c.JSON`
abbrev pub json_answer : ℕ → Map Json → Answer
json_answer status m = record { status = status; body = json (obj (of_map m)) }

pub record HealthHandler : Type 0 where
  pub config : Option Config

-- `NewHealthHandler`
unfoldable pub new_health_handler : HealthHandler
new_health_handler = record { config = none }

-- `NewHealthHandlerWithConfig`
unfoldable pub new_health_handler_with_config : Config → HealthHandler
new_health_handler_with_config cfg = record { config = some cfg }

-- the part of the answer that tells which instance gives it
abbrev pub with_identity : Option Config → Map Json → Map Json
with_identity (some cfg) m = insert "environment" (str cfg.environment) (
    insert "version" (str cfg.service_version) (
      insert "instance" (str cfg.service_instance_name)
        (insert "service" (str cfg.service_name) m)))
with_identity none m =
    insert "version" (str "1.0.0") (insert "service" (str "exchange-simulator") m)

-- `Health`, where `rfc3339` is `t.UTC().Format(time.RFC3339)`
unfoldable pub health : (ℕ → String) → HealthHandler → Clock → Answer × Clock
unfolding of_map
health rfc3339 h c =
    let response : Map Json =
      ("status", str "healthy") ∷ ("timestamp", str (rfc3339 (peek c))) ∷ [] in
    (json_answer 200 (with_identity h.config response), advance c)

-- `Ready`
unfoldable pub ready : Clock → Answer × Clock
unfolding of_map
ready c = (
  json_answer 200 (
      ("status", str "ready")
      ∷ ("checks", obj (of_map (("database", str "ok") ∷ ("redis", str "ok") ∷ [])))
      ∷ []),
  c,
)

-- `Metrics`: what the handler that the port gives answers, where `serve_http` is that handler. On a nil
-- port the call of `GetHTTPHandler` panics.
unfoldable pub metrics : {S : Type 0} → Option (S → Answer) → S → Option Answer
metrics none m = none
metrics (some serve_http) m = some (serve_http m)
