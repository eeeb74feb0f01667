-- ===== src/HttpServer/Setup.antt =====
-- cmd/server/main.go, `setupHTTPServer`, and how the server it returns answers a request.
use Prim.Native.String.{◌++◌}
use trading_ecosystem_exchan.Common.{ℕ, String, Option, none, some, List, [], ◌∷◌, Clock}
use trading_ecosystem_exchan.Common.Int.{itoa}
use trading_ecosystem_exchan.Common.Http.{Answer}
use trading_ecosystem_exchan.Config.{Config}
use trading_ecosystem_exchan.Metrics.Port.{MetricsPort}
use trading_ecosystem_exchan.Metrics.Middleware.{Request, Next, instrumented}
use trading_ecosystem_exchan.HttpServer.Gin.{Route, Routed, found, redirected, missed, Gin}
use trading_ecosystem_exchan.HttpServer.Handlers.{
  HealthHandler, new_health_handler_with_config, health, ready, metrics,
}

-- The handlers that the server's routes name.
pub data Endpoint : Type 0 where
  health_endpoint ready_endpoint metrics_endpoint : Endpoint

-- the group `/api/v1` and the metrics at the root
unfoldable pub routes : Gin → List (Route Endpoint)
routes g =
    let v1 = g.join_paths "/" "/api/v1" in
    record { method = "GET"; pattern = g.join_paths v1 "/health"; handler = health_endpoint }
    ∷ record { method = "GET"; pattern = g.join_paths v1 "/ready"; handler = ready_endpoint }
    ∷ record { method = "GET"; pattern = g.join_paths "/" "/metrics"; handler = metrics_endpoint }
    ∷ []

-- `serve_http` is the handler that `GetHTTPHandler` of the configuration's metrics port returns; none
-- stands for a nil port.
pub record HttpServer (p : MetricsPort) : Type 0 where
  pub addr : String
  pub health_handler : HealthHandler
  pub serve_http : Option (p.State → Answer)

unfoldable pub setup_http_server :
    {p : MetricsPort} → Config → Option (p.State → Answer) → HttpServer p
setup_http_server cfg serve_http = record {
  addr = ":" ++ itoa cfg.http_port;
  health_handler = new_health_handler_with_config cfg;
  serve_http = serve_http;
}

abbrev pub or_recovered : Gin → Option Answer → Answer
or_recovered g none = g.recovered
or_recovered g (some answer) = answer

-- the middleware is there if the port is
abbrev chain : (p : MetricsPort) → Option (p.State → Answer) → Request → Next p → Next p
chain p none r next = next
chain p (some _) r next = instrumented p r next

-- a handler that leaves the metrics alone
abbrev aside : (p : MetricsPort) → (Clock → Answer × Clock) → Next p
aside p handler (m, c) = let (answer, d) = handler c in (answer, (m, d))

module _ (g : Gin) (rfc3339 : ℕ → String) {p : MetricsPort} where
  -- the handler of a route
  abbrev pub handle : HttpServer p → Endpoint → Next p
  handle s health_endpoint = aside p (health rfc3339 s.health_handler)
  handle s ready_endpoint = aside p ready
  handle s metrics_endpoint = λ (m, c). (or_recovered g (metrics s.serve_http m), (m, c))

  -- the middleware runs around a route's handler, and around the answer that there is none; a redirect
  -- is gin's own answer, before any of the chain
  abbrev pub dispatch : HttpServer p → String → String → Routed Endpoint → Next p
  dispatch s m path (found pattern e) =
      chain p s.serve_http (record { method = m; path = path; full_path = pattern }) (handle s e)
  dispatch s m path (redirected answer) = λ x. (answer, x)
  dispatch s m path missed =
      chain p s.serve_http (record { method = m; path = path; full_path = "" })
        (λ x. (g.not_found, x))

  -- a request with a method and a path, at the metrics and the clock
  unfoldable pub request : HttpServer p → String × String → Next p
  unfolding routes health ready metrics
  request s (m, path) = dispatch s m path (g.route (routes g) m path)

  -- requests in turn, with the answers to them
  unfoldable pub request_all :
      HttpServer p → List (String × String) → p.State × Clock → List Answer × (p.State × Clock)
  unfolding request
  request_all s [] x = ([], x)
  request_all s (r ∷ rs) x =
      let (answer, y) = request s r x in
      let (answers, z) = request_all s rs y in (answer ∷ answers, z)
