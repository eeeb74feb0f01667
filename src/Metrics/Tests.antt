-- ===== src/Metrics/Tests.antt =====
-- Two requests through the middleware, and the theorems at concrete inputs.
use trading_ecosystem_exchan.Common.{
  ℕ, ◌≡◌, refl, true, inl, inr, ap, none, ok, arith, ◌==◌, eq_iff, Bool-cases, List, [], ◌∷◌,
  ticking,
}
use trading_ecosystem_exchan.Common.Assoc.{lookup}
use trading_ecosystem_exchan.Common.Http.{Answer, text}
use trading_ecosystem_exchan.Common.Int.{itoa}
use trading_ecosystem_exchan.Metrics.Port.{
  Labels, MetricsLabels, to_map, constant_labels, add_label,
}
use trading_ecosystem_exchan.Metrics.Middleware.{
  Request, red_labels, red_metrics_middleware, health_metrics_middleware, instrumented,
}
use trading_ecosystem_exchan.Metrics.Recording.{incremented, observed, gauge_set, recording}
use trading_ecosystem_exchan.Metrics.Adapter.{
  PrometheusMetricsAdapter, prometheus_port, new_prometheus_metrics_adapter,
}
use trading_ecosystem_exchan.Metrics.Adapter.Simple.{simple, simple_documented}
use trading_ecosystem_exchan.Metrics.Adapter.Runs.{IsFree}
use trading_ecosystem_exchan.Metrics.Exposed.{red_schema, Shows, serve_all-Shows}
use trading_ecosystem_exchan.Metrics.Red.{
  Handler, Served, ready_labels, Recorded, serve, serve_all, unserved, serve_all-unserved,
}

abbrev ready_request : Request
ready_request = record { method = "GET"; path = "/api/v1/ready"; full_path = "/api/v1/ready" }

abbrev lost_request : Request
lost_request = record { method = "GET"; path = "/nowhere"; full_path = "" }

abbrev plain : ℕ → Answer
plain status = record { status = status; body = text "" }

abbrev requests : List (Request × Handler)
requests = (ready_request, (λ c. (plain 200, c))) ∷ (lost_request, (λ c. (plain 404, c))) ∷ []

methods : Unit {0}
unfolding red_labels red_metrics_middleware health_metrics_middleware instrumented serve serve_all
    itoa to_map constant_labels add_label lookup
methods = tt

abbrev answer_labels : Labels
answer_labels = ("method", "GET") ∷ ("route", "/api/v1/ready") ∷ ("code", "200") ∷ []

abbrev lost_labels : Labels
lost_labels = ("method", "GET") ∷ ("route", "unknown") ∷ ("code", "404") ∷ []

recorded :
    (serve_all (unserved {p = recording} [] (ticking 5 2)) requests).metrics
    ≡ incremented "http_request_errors_total" lost_labels
      ∷ observed "http_request_duration_seconds" 2 lost_labels
      ∷ incremented "http_requests_total" lost_labels
      ∷ observed "http_request_duration_seconds" 2 answer_labels
      ∷ incremented "http_requests_total" answer_labels
      ∷ gauge_set "service_dependency_ready" 1 (("dependency", "exchange-simulator") ∷ [])
      ∷ []
unfolding methods
recorded = refl

serve_all-unserved_example :
    Recorded (λ l. true) (serve_all (unserved {p = recording} [] (ticking 5 2)) requests)
serve_all-unserved_example = serve_all-unserved (λ l. true) (ticking 5 2) requests

abbrev partial_labels : MetricsLabels
partial_labels = record {
  service = "exchange-simulator";
  instance_name = "";
  version = "1.0.0";
  method = "GET";
  route = "";
  code = "";
}

constants :
    constant_labels partial_labels
    ≡ ("service", "exchange-simulator") ∷ ("instance", "") ∷ ("version", "1.0.0") ∷ []
unfolding methods
constants = refl

red_free : IsFree simple_documented red_schema ready_labels
red_free n k ns e = elim (Bool-cases (n == "go_goroutines")) [
  | inl h ↦
      let q : n ≡ "go_goroutines" = ground (arith, eq_iff n "go_goroutines", h) in
      let absent : red_schema n ≡ none = ap red_schema q in cc
  | inr h ↦ h
]

abbrev scraped : Served (prometheus_port simple)
scraped =
    serve_all (unserved (ok (new_prometheus_metrics_adapter simple ready_labels)) (ticking 5 2))
      requests

serve_all-Shows_example :
    (a : PrometheusMetricsAdapter simple) × (scraped.metrics ≡ ok a)
    × Shows lost_labels scraped.answers a.registry.samples
serve_all-Shows_example =
    serve_all-Shows simple_documented ready_labels lost_labels (ticking 5 2) requests
      (λ n k ns e. refl) red_free
