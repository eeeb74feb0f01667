-- ===== src/HttpServer/Tests.antt =====
-- A router that knows a path only as it is listed, and the theorems at concrete inputs.
use Prim.Native.String.{◌++◌}
use trading_ecosystem_exchan.Common.{
  ℕ, ◌≡◌, inl, inr, refl, ap, String, true, false, none, some, List, [], ◌∷◌, Clock, map, ok, arith,
  ticking, ◌==◌, eq_iff, Bool-cases, if◌then◌else◌,
}
use trading_ecosystem_exchan.Common.Assoc.{insert}
use trading_ecosystem_exchan.Common.Int.{itoa, pos}
use trading_ecosystem_exchan.Common.Text.{codes}
use trading_ecosystem_exchan.Common.Http.{Answer, json, text}
use trading_ecosystem_exchan.Common.Json.{obj, Members, find_member}
use trading_ecosystem_exchan.Config.Sample.{cfg}
use trading_ecosystem_exchan.Metrics.Port.{Labels}
use trading_ecosystem_exchan.Metrics.Red.{ready_labels}
use trading_ecosystem_exchan.Metrics.Middleware.{instrumented}
use trading_ecosystem_exchan.Metrics.Recording.{recording}
use trading_ecosystem_exchan.Metrics.Adapter.{PrometheusMetricsAdapter, prometheus_port}
use trading_ecosystem_exchan.Metrics.Adapter.Simple.{Registry, simple, simple_documented}
use trading_ecosystem_exchan.Metrics.Adapter.Runs.{IsFree}
use trading_ecosystem_exchan.Metrics.Exposed.{red_schema, Shows}
use trading_ecosystem_exchan.HttpServer.Gin.{
  Route, Routed, found, missed, Gin, Documented, is_plain, listed, has_method,
}
use trading_ecosystem_exchan.HttpServer.Handlers.{health, ready, metrics, of_map}
use trading_ecosystem_exchan.HttpServer.Setup.{setup_http_server, request, request_all}
use trading_ecosystem_exchan.HttpServer.Answers.{
  health_value, count_members, counted_all, last_probe, request-health,
}
use trading_ecosystem_exchan.HttpServer.Scrape.{
  identity_labels, main_server, main_metrics, request_all-scrape,
}

abbrev plain : ℕ → Answer
plain status = record { status = status; body = text "" }

abbrev join : String → String → String
join a b = if a == "/" then b else a ++ b

abbrev find : {H : Type 0} → List (Route H) → String → String → Routed H
find rs m path = elim (listed m path rs) [ none ↦ missed | some h ↦ found path h ]

abbrev exact_gin : Gin
exact_gin = record {
  join_paths = join;
  route = λ {H}. find {H = H};
  not_found = plain 404;
  recovered = plain 500;
}

join-plain :
    (a b : String) → is_plain (codes a) ≡ true → is_plain (codes b) ≡ true → join a b ≡ a ++ b
unfolding codes
join-plain a b h k = elim (Bool-cases (a == "/")) [
  | inr e ↦ rw e refl
  | inl e ↦
      let root : a ≡ "/" = ground (arith, eq_iff a "/", e) in
      let empty : is_plain (codes a) ≡ false = ap (λ s. is_plain (codes s)) root in cc
]

listed-no_method :
    {H : Type 0} (rs : List (Route H)) (m path : String)
    → has_method m rs ≡ false
    → listed m path rs ≡ none
listed-no_method [] m path h = refl
listed-no_method (r ∷ rs) m path h = ground (arith, listed-no_method rs m path)

find-listed :
    {H : Type 0} (rs : List (Route H)) (m path : String) (h : H)
    → listed m path rs ≡ some h
    → find rs m path ≡ found path h
find-listed rs m path h e = ground (arith, e)

find-missed :
    {H : Type 0} (rs : List (Route H)) (m path : String)
    → has_method m rs ≡ false
    → find rs m path ≡ missed
find-missed rs m path h = ground (arith, listed-no_method rs m path h)

exact_documented : Documented exact_gin
exact_documented = record {
  join_paths-plain = join-plain;
  join_paths-root = λ b h. refl;
  route-listed = λ rs m path h plain e. find-listed rs m path h e;
  route-missed = λ rs m path h. find-missed rs m path h;
  not_found-status = refl;
  recovered-status = refl;
}

abbrev stamp : ℕ → String
stamp t = "2024-01-01T00:00:00Z"

abbrev ready_posted : List (String × String)
ready_posted =
    ("GET", "/metrics")
    ∷ ("GET", "/api/v1/health")
    ∷ ("GET", "/api/v1/ready")
    ∷ ("POST", "/api/v1/ready")
    ∷ []

abbrev health_labels : Labels
health_labels = ("method", "GET") ∷ ("route", "/api/v1/health") ∷ ("code", "200") ∷ []

-- a page with the number of requests at the health endpoint
abbrev page : Registry → Answer
page g = record {
  status = 200;
  body = text (itoa (pos (g.samples.counters "http_requests_total" health_labels)));
}

methods : Unit {0}
unfolding request request_all setup_http_server main_server main_metrics health ready metrics
    instrumented insert itoa find_member of_map identity_labels
methods = tt

abbrev after_requests : List Answer × ((prometheus_port simple).State × Clock)
after_requests =
    request_all exact_gin stamp (main_server exact_gin simple cfg page) ready_posted
      (main_metrics exact_gin simple cfg, ticking 5 2)

statuses : map (λ a. a.status) after_requests.0 ≡ 200 ∷ 200 ∷ 200 ∷ 404 ∷ []
unfolding methods
statuses = refl

request-health_example :
    let a =
      (request exact_gin stamp
        (setup_http_server {p = recording} cfg (some (λ m. plain 200)))
        ("GET", "/api/v1/health")
        ([], ticking 5 2)).0 in
    (a.status ≡ 200)
    × (o : Members) × (a.body ≡ json (obj o))
    × (count_members o ≡ 6)
    × ((name : String) → find_member name o ≡ health_value cfg "2024-01-01T00:00:00Z" name)
request-health_example =
    request-health exact_documented stamp recording cfg (λ m. plain 200) ([], ticking 5 2)

free : IsFree simple_documented red_schema (identity_labels cfg)
free n k ns e = elim (Bool-cases (n == "go_goroutines")) [
  | inl h ↦
      let q : n ≡ "go_goroutines" = ground (arith, eq_iff n "go_goroutines", h) in
      let absent : red_schema n ≡ none = ap red_schema q in cc
  | inr h ↦ h
]

request_all-scrape_example :
    let s = main_server exact_gin simple cfg page in
    (a : PrometheusMetricsAdapter simple) × (after_requests.1.0 ≡ ok a)
    × ((request exact_gin stamp s ("GET", "/metrics") after_requests.1).0 ≡ page a.registry)
    × Shows health_labels
        (counted_all exact_gin ready_posted after_requests.0 [])
        a.registry.samples
    × (a.registry.samples.gauges "service_dependency_ready" ready_labels
        ≡ last_probe none ready_posted)
request_all-scrape_example =
    request_all-scrape exact_documented simple_documented stamp cfg page health_labels (ticking 5 2)
      ready_posted (λ n k ns e. refl) free
