-- ===== src/HttpServer/Answers.antt =====
-- What the server answers, and what its metrics show then.
use trading_ecosystem_exchan.Common.{
  ℕ, ◌+◌, ◌≡◌, inl, inr, refl, ap, ◌∙◌, String, false, Option, none, some, List, [], ◌∷◌, arith,
  Clock, peek, advance, ◌==◌, eq_iff, Bool-cases, if◌then◌else◌,
}
use trading_ecosystem_exchan.Common.Assoc.{insert}
use trading_ecosystem_exchan.Common.Json.{Json, null, str, obj, Members, end, member, find_member}
use trading_ecosystem_exchan.Common.Http.{Answer, json}
use trading_ecosystem_exchan.Config.{Config}
use trading_ecosystem_exchan.Metrics.Port.{MetricsPort}
use trading_ecosystem_exchan.Metrics.Middleware.{Request, instrumented}
use trading_ecosystem_exchan.Metrics.Red.{last_ready}
use trading_ecosystem_exchan.HttpServer.Gin.{Gin, Documented, Routed, found, redirected, missed}
use trading_ecosystem_exchan.HttpServer.Handlers.{health, of_map, new_health_handler_with_config}
use trading_ecosystem_exchan.HttpServer.Setup.{
  Endpoint, health_endpoint, ready_endpoint, metrics_endpoint, setup_http_server, routes, request,
  request_all, dispatch,
}
use trading_ecosystem_exchan.HttpServer.Routing.{
  route-health, route-ready, route-metrics, route-not_get,
}

-- The answer to a request as the middleware is to count it, after those before it: under the route that
-- was found, or none. A redirect comes before the middleware.
abbrev pub counted :
    String → String → Routed Endpoint → Answer → List (Request × ℕ) → List (Request × ℕ)
counted m path (found pattern e) a earlier =
    (record { method = m; path = path; full_path = pattern }, a.status) ∷ earlier
counted m path (redirected _) a earlier = earlier
counted m path missed a earlier =
    (record { method = m; path = path; full_path = "" }, a.status) ∷ earlier

-- The answers to requests, newest first.
abbrev pub counted_all :
    Gin → List (String × String) → List Answer → List (Request × ℕ) → List (Request × ℕ)
counted_all g [] answers earlier = earlier
counted_all g (r ∷ rs) [] earlier = earlier
counted_all g ((m, path) ∷ rs) (a ∷ answers) earlier =
    counted_all g rs answers (counted m path (g.route (routes g) m path) a earlier)

abbrev pub count_members : Members → ℕ
count_members end = 0
count_members (member _ _ ms) = count_members ms + 1

-- What the health answer says under each name.
abbrev pub health_value : Config → String → String → Json
health_value cfg time name =
    if "environment" == name
    then str cfg.environment
    else if "version" == name
    then str cfg.service_version
    else if "instance" == name
    then str cfg.service_instance_name
    else if "service" == name
    then str cfg.service_name
    else if "timestamp" == name
    then str time
    else if "status" == name
    then str "healthy"
    else null

health-value :
    (rfc3339 : ℕ → String) (cfg : Config) (c : Clock)
    → let a = (health rfc3339 (new_health_handler_with_config cfg) c).0 in
      (a.status ≡ 200)
      × (o : Members) × (a.body ≡ json (obj o))
      × (count_members o ≡ 6)
      × ((name : String) → find_member name o ≡ health_value cfg (rfc3339 (peek c)) name)
unfolding health new_health_handler_with_config insert of_map find_member
health-value rfc3339 cfg c = (refl, _, refl, refl, λ name. ground arith)

-- what a request makes of the readiness that was seen last
abbrev pub probe : Option ℕ → String × String → Option ℕ
probe seen (m, path) = if path == "/api/v1/ready" then some (if "GET" == m then 1 else 0) else seen

abbrev pub last_probe : Option ℕ → List (String × String) → Option ℕ
last_probe seen [] = seen
last_probe seen (r ∷ rs) = last_probe (probe seen r) rs

last_ready-counted :
    (m path : String) (r : Routed Endpoint) (a : Answer) (earlier : List (Request × ℕ))
    → (path == "/api/v1/ready") ≡ false
    → last_ready (counted m path r a earlier) ≡ last_ready earlier
last_ready-counted m path (found pattern e) a earlier h = rw h refl
last_ready-counted m path (redirected _) a earlier h = refl
last_ready-counted m path missed a earlier h = rw h refl

-- The server with a metrics port.
module _ {g : Gin} (d : Documented g) (rfc3339 : ℕ → String) (p : MetricsPort) (cfg : Config)
    (serve_http : p.State → Answer) where
  -- A GET of `/api/v1/health` is answered with 200 and an object of six members, "status",
  -- "timestamp", "service", "instance", "version" and "environment": the text "healthy", the
  -- clock's reading after the one that the middleware takes, and the four texts of the
  -- configuration.
  pub request-health :
      (x : p.State × Clock)
      → let a =
          (request g rfc3339
            (setup_http_server {p = p} cfg (some serve_http))
            ("GET", "/api/v1/health")
            x).0 in
        (a.status ≡ 200)
        × (o : Members) × (a.body ≡ json (obj o))
        × (count_members o ≡ 6)
        × ((name : String)
            → find_member name o ≡ health_value cfg (rfc3339 (peek (advance x.1))) name)
  unfolding request setup_http_server instrumented
  request-health x = rw (route-health d) (health-value rfc3339 cfg (advance x.1))

  last_ready-request :
      (x : p.State × Clock) (m path : String) (earlier : List (Request × ℕ))
      → let a =
          (request g rfc3339 (setup_http_server {p = p} cfg (some serve_http)) (m, path) x).0 in
        last_ready (counted m path (g.route (routes g) m path) a earlier)
        ≡ probe (last_ready earlier) (m, path)
  unfolding request setup_http_server instrumented
  last_ready-request x m path earlier =
      let s = setup_http_server {p = p} cfg (some serve_http) in
      let seen = λ (r : Routed Endpoint).
        last_ready (counted m path r (dispatch g rfc3339 s m path r x).0 earlier) in
      elim (Bool-cases (path == "/api/v1/ready")) [
        | inr other ↦
            last_ready-counted m path (g.route (routes g) m path) _ earlier other ∙ rw other refl
        | inl same ↦ elim (Bool-cases ("GET" == m)) [
          | inl get ↦
              let to_get : m ≡ "GET" = ground (arith, eq_iff "GET" m, get) in
              let to_ready : path ≡ "/api/v1/ready" =
                ground (arith, eq_iff path "/api/v1/ready", same) in
              let routed : g.route (routes g) m path ≡ found "/api/v1/ready" ready_endpoint =
                (λ i. g.route (routes g) (to_get i) (to_ready i)) ∙ route-ready d in
              ap seen routed ∙ rw (same, get) refl
          | inr not_get ↦
              let lost : g.route (routes g) m path ≡ missed = route-not_get d m path not_get in
              ap seen lost ∙ rw (same, not_get, d.not_found-status) refl
        ]
      ]

  pub last_ready-request_all :
      (x : p.State × Clock) (rs : List (String × String)) (earlier : List (Request × ℕ))
      → let answers =
          (request_all g rfc3339 (setup_http_server {p = p} cfg (some serve_http)) rs x).0 in
        last_ready (counted_all g rs answers earlier) ≡ last_probe (last_ready earlier) rs
  unfolding request_all
  last_ready-request_all x [] earlier = refl
  last_ready-request_all x ((m, path) ∷ rs) earlier =
      let s = setup_http_server {p = p} cfg (some serve_http) in
      let (a, y) = request g rfc3339 s (m, path) x in
      last_ready-request_all y rs (counted m path (g.route (routes g) m path) a earlier)
      ∙ ap (λ seen. last_probe seen rs) (last_ready-request x m path earlier)

-- Without a metrics port a request leaves the metrics alone, whatever it asks for, and a GET of
-- `/metrics` is answered with 500.
pub request-no_port :
    {g : Gin} (d : Documented g) (rfc3339 : ℕ → String) (p : MetricsPort) (cfg : Config)
    (m path : String) (x : p.State × Clock)
    → let s = setup_http_server {p = p} cfg none in
      ((request g rfc3339 s (m, path) x).1.0 ≡ x.0)
      × ((request g rfc3339 s ("GET", "/metrics") x).0.status ≡ 500)
unfolding request setup_http_server
request-no_port {g} d rfc3339 p cfg m path x =
    (untouched (g.route (routes g) m path), rw (route-metrics d) d.recovered-status)
  where
    untouched :
        (r : Routed Endpoint)
        → (dispatch g rfc3339 (setup_http_server {p = p} cfg none) m path r x).1.0 ≡ x.0
    untouched (found pattern health_endpoint) = refl
    untouched (found pattern ready_endpoint) = refl
    untouched (found pattern metrics_endpoint) = refl
    untouched (redirected a) = refl
    untouched missed = refl
