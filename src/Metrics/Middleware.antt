-- ===== src/Metrics/Middleware.antt =====
-- internal/infrastructure/observability/middleware.go.
use trading_ecosystem_exchan.Common.{
  ℕ, String, [], ◌∷◌, Clock, peek, advance, since, leb, eqb, ◌==◌, if◌then◌else◌,
}
use trading_ecosystem_exchan.Common.Http.{Answer}
use trading_ecosystem_exchan.Common.Int.{itoa, pos}
use trading_ecosystem_exchan.Metrics.Port.{Labels, MetricsPort}

-- What the middleware reads of a request: its method, its path, and the pattern of the route that it
-- matched, empty if none.
pub record Request : Type 0 where
  pub method : String
  pub path : String
  pub full_path : String

-- `c.Next`: the rest of the chain, which ends in an answer. The metrics and the clock are its state.
abbrev pub Next : MetricsPort → Type 0
Next p = p.State × Clock → Answer × (p.State × Clock)

-- the labels of a request that was answered with a status
unfoldable pub red_labels : Request → ℕ → Labels
red_labels r status =
    let route = if r.full_path == "" then "unknown" else r.full_path in
    ("method", r.method) ∷ ("route", route) ∷ ("code", itoa (pos status)) ∷ []

-- `REDMetricsMiddleware`
unfoldable pub red_metrics_middleware : (p : MetricsPort) → Request → Next p → Next p
unfolding red_labels
red_metrics_middleware p r next (m, c) =
    let start = peek c in
    let (answer, (m', c')) = next (m, advance c) in
    let duration = since start c' in
    let labels = red_labels r answer.status in
    let counted = p.inc_counter "http_requests_total" labels m' in
    let observed = p.observe_histogram "http_request_duration_seconds" duration labels counted in
    let failed =
      if leb 400 answer.status
      then p.inc_counter "http_request_errors_total" labels observed
      else observed in
    (answer, (failed, advance c'))

-- `HealthMetricsMiddleware`
unfoldable pub health_metrics_middleware : (p : MetricsPort) → String → Request → Next p → Next p
health_metrics_middleware p dependency_name r next x =
    let (answer, (m, c)) = next x in
    let ready = if eqb answer.status 200 then 1 else 0 in
    let labels : Labels = ("dependency", dependency_name) ∷ [] in
    let set = p.set_gauge "service_dependency_ready" ready labels m in
    (answer, (if r.path == "/api/v1/ready" then set else m, c))

-- The chain that cmd/server/main.go builds for every route.
unfoldable pub instrumented : (p : MetricsPort) → Request → Next p → Next p
unfolding red_metrics_middleware health_metrics_middleware
instrumented p r next =
    red_metrics_middleware p r (health_metrics_middleware p "exchange-simulator" r next)
