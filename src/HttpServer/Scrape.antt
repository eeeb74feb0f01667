-- ===== src/HttpServer/Scrape.antt =====
-- The server that `main` sets up over the Prometheus adapter, and what a scrape of it shows.
use trading_ecosystem_exchan.Common.{
  ℕ, ◌≡◌, ◌⊎◌, inl, inr, refl, ap, ◌∙◌, String, none, some, List, [], ◌∷◌, Clock, ok, err, Result,
}
use trading_ecosystem_exchan.Common.Http.{Answer}
use trading_ecosystem_exchan.Config.{Config}
use trading_ecosystem_exchan.Config.MetricsHolder.{no_port, set_metrics_port, get_metrics_port}
use trading_ecosystem_exchan.Metrics.Port.{Labels, MetricsPort, constant_labels}
use trading_ecosystem_exchan.Metrics.Middleware.{Request, instrumented}
use trading_ecosystem_exchan.Metrics.Red.{
  Served, Handler, respond, serve, serve_all, unserved, ready_labels,
}
use trading_ecosystem_exchan.Metrics.Prometheus.{Prometheus, Documented}
use trading_ecosystem_exchan.Metrics.Adapter.{
  PrometheusMetricsAdapter, Panic, prometheus_port, new_prometheus_metrics_adapter,
  get_http_handler,
}
use trading_ecosystem_exchan.Metrics.Adapter.Sound.{IsLegal}
use trading_ecosystem_exchan.Metrics.Adapter.Runs.{IsFree}
use trading_ecosystem_exchan.Metrics.Exposed.{red_schema, Shows, serve_all-Shows}
use trading_ecosystem_exchan.HttpServer.Gin
use trading_ecosystem_exchan.HttpServer.Gin.{Gin, Routed, found, redirected, missed}
use trading_ecosystem_exchan.HttpServer.Setup.{
  Endpoint, health_endpoint, ready_endpoint, metrics_endpoint, HttpServer, or_recovered,
  setup_http_server, routes, request, request_all, dispatch,
}
use trading_ecosystem_exchan.HttpServer.Routing.{route-metrics}
use trading_ecosystem_exchan.HttpServer.Handlers.{health, ready, metrics}
use trading_ecosystem_exchan.HttpServer.Answers.{
  counted, counted_all, last_probe, last_ready-request_all,
}

-- the constant labels that `main` takes from the configuration
unfoldable pub identity_labels : Config → Labels
unfolding constant_labels
identity_labels cfg = constant_labels (record {
  service = cfg.service_name;
  instance_name = cfg.service_instance_name;
  version = cfg.service_version;
  method = "";
  route = "";
  code = "";
})

-- The answer of the adapter's handler. After a panic of the adapter, which the theorems rule out, it
-- stands for no answer of the code.
abbrev pub scraped :
    {p : Prometheus}
    → Gin
    → (p.Registry → Answer)
    → Result Panic (PrometheusMetricsAdapter p)
    → Answer
scraped g handler_for (err _) = g.recovered
scraped g handler_for (ok a) = get_http_handler handler_for a

-- The HTTP server of `main`, and its metrics before the first request. Of the port that the
-- configuration holds, `scraped` is what its handler answers.
module _ (g : Gin) (p : Prometheus) (cfg : Config) where
  unfoldable pub main_server : (p.Registry → Answer) → HttpServer (prometheus_port p)
  unfolding setup_http_server get_http_handler set_metrics_port get_metrics_port
  main_server handler_for =
      setup_http_server cfg (get_metrics_port (set_metrics_port (scraped g handler_for) no_port))

  unfoldable pub main_metrics : (prometheus_port p).State
  unfolding identity_labels
  main_metrics = ok (new_prometheus_metrics_adapter p (identity_labels cfg))

-- The metrics and the clock of a run of the middleware.
abbrev state_of : {p : MetricsPort} → Served p → p.State × Clock
state_of t = (t.metrics, t.clock)

module _ (g : Gin) (rfc3339 : ℕ → String) (p : MetricsPort) (cfg : Config)
    (serve_http : p.State → Answer) where
  abbrev server : HttpServer p
  server = setup_http_server cfg (some serve_http)

  -- An answer that is to be counted is one that the middleware runs around, with a handler that leaves
  -- the metrics alone; another one changes nothing.
  dispatch-served :
      (m path : String) (r : Routed Endpoint) (t : Served p)
      → let (a, y) = dispatch g rfc3339 server m path r (state_of t) in
        ((y ≡ state_of t) × (counted m path r a t.answers ≡ t.answers))
        ⊎ ((e : Request × Handler) × (y ≡ state_of (serve t e))
            × (counted m path r a t.answers ≡ (serve t e).answers))
  unfolding setup_http_server serve respond instrumented metrics
  dispatch-served m path (found pattern health_endpoint) t =
      inr ((_, health rfc3339 server.health_handler), refl, refl)
  dispatch-served m path (found pattern ready_endpoint) t = inr ((_, ready), refl, refl)
  dispatch-served m path (found pattern metrics_endpoint) t =
      inr ((_, λ c. (or_recovered g (metrics server.serve_http t.metrics), c)), refl, refl)
  dispatch-served m path (redirected a) t = inl (refl, refl)
  dispatch-served m path missed t = inr ((_, λ c. (g.not_found, c)), refl, refl)

  -- The state and the counted answers after some requests are those of a run of the middleware.
  abbrev Follows : List (String × String) → p.State × Clock → List (Request × ℕ) → Served p → Type 0
  Follows rs x earlier t =
      let (answers, y) = request_all g rfc3339 server rs x in
      (es : List (Request × Handler)) × (y ≡ state_of (serve_all t es))
      × (counted_all g rs answers earlier ≡ (serve_all t es).answers)

  resume :
      (rs : List (String × String)) (x : p.State × Clock) (earlier : List (Request × ℕ))
      (t : Served p)
      → x ≡ state_of t
      → earlier ≡ t.answers
      → Follows rs (state_of t) t.answers t
      → Follows rs x earlier t
  resume rs x earlier t same counts h = rw (same, counts) h

  request_all-served :
      (rs : List (String × String)) (t : Served p) → Follows rs (state_of t) t.answers t
  unfolding request_all request serve_all
  request_all-served [] t = ([], refl, refl)
  request_all-served ((m, path) ∷ rs) t =
      let (a, x) = request g rfc3339 server (m, path) (state_of t) in
      let earlier = counted m path (g.route (routes g) m path) a t.answers in
      elim (dispatch-served m path (g.route (routes g) m path) t) [
        | inl (same, counts) ↦ resume rs x earlier t same counts (request_all-served rs t)
        | inr (e, same, counts) ↦
            let (es, final, all) =
              resume rs x earlier (serve t e) same counts (request_all-served rs (serve t e)) in
            (e ∷ es, final, all)
      ]

-- The HTTP server of `main` over any configuration, if gin routes as it documents, and Prometheus
-- may register the four metrics under the labels of the configuration and has none of their names.
-- After any requests no call of the adapter has panicked; the next scrape answers what the
-- Prometheus handler makes of a registry that shows each answer the server gave to them, under its
-- method, route and status, but for the redirects that gin makes itself; and the readiness gauge is
-- 1 if the last request at `/api/v1/ready` was a GET, 0 if it had another method, and is not there
-- if there was none.
pub request_all-scrape :
    {g : Gin} {p : Prometheus} (routing : Gin.Documented g) (d : Documented p)
    (rfc3339 : ℕ → String) (cfg : Config) (handler_for : p.Registry → Answer) (k : Labels)
    (c : Clock) (rs : List (String × String))
    → IsLegal d red_schema (identity_labels cfg)
    → IsFree d red_schema (identity_labels cfg)
    → let s = main_server g p cfg handler_for in
      let (answers, x) = request_all g rfc3339 s rs (main_metrics g p cfg, c) in
      (a : PrometheusMetricsAdapter p) × (x.0 ≡ ok a)
      × ((request g rfc3339 s ("GET", "/metrics") x).0 ≡ handler_for a.registry)
      × Shows k (counted_all g rs answers []) (d.samples a.registry)
      × ((d.samples a.registry).gauges "service_dependency_ready" ready_labels ≡ last_probe none rs)
unfolding main_server main_metrics request instrumented
request_all-scrape {g} {p} routing d rfc3339 cfg handler_for k c rs legal free =
    let t : Served (prometheus_port p) = unserved (main_metrics g p cfg) c in
    let page = scraped g handler_for in
    let (es, same, counts) = request_all-served g rfc3339 (prometheus_port p) cfg page rs t in
    let (a, done, shows) = serve_all-Shows d (identity_labels cfg) k c es legal free in
    let probes =
      last_ready-request_all routing rfc3339 (prometheus_port p) cfg page (state_of t) rs [] in
    let well = ap (λ (y : (prometheus_port p).State × Clock). y.0) same ∙ done in
    let seen : Shows k _ (d.samples a.registry) = rw counts shows in
    (a, well, rw (route-metrics routing) (ap page well), seen, seen.ready ∙ probes)
