-- ===== src/Metrics/Exposed.antt =====
-- The middleware over the Prometheus adapter: what a scrape sees after any requests.
use trading_ecosystem_exchan.Common.{
  ℕ, ◌≡◌, inl, inr, refl, ap, ◌∙◌, String, Bool, true, false, ◌&&◌, none, some, List, [], ◌∷◌, ok,
  arith, All, Clock, advance, ◌==◌, leb, Bool-cases, if◌then◌else◌,
}
use trading_ecosystem_exchan.Common.Assoc.{keys}
use trading_ecosystem_exchan.Metrics.Port.{Labels, MetricsPort, same_labels}
use trading_ecosystem_exchan.Metrics.Recording.{
  Operation, incremented, observed, gauge_set, recording, replay,
}
use trading_ecosystem_exchan.Metrics.Middleware.{Request, red_labels, instrumented}
use trading_ecosystem_exchan.Metrics.Red.{
  Served, Handler, serve, serve_all, unserved, count, is_increment, is_observation, is_failure,
  labels_of, serve_all-unserved, readiness, last_ready, ready_labels, Recorded,
}
use trading_ecosystem_exchan.Metrics.Prometheus.{
  counter, histogram, gauge, Prometheus, Documented, Samples, no_samples, exact,
}
use trading_ecosystem_exchan.Metrics.Adapter.{
  PrometheusMetricsAdapter, prometheus_port, extract_label_names, new_prometheus_metrics_adapter,
}
use trading_ecosystem_exchan.Metrics.Adapter.Sound.{Schema, IsLegal}
use trading_ecosystem_exchan.Metrics.Adapter.Runs.{OpFits, IsFree, replay_lem}

-- The run on a port that a run on the recording one stands for.
abbrev replayed : (p : MetricsPort) → p.State → Served recording → Served p
replayed p x t = record { answers = t.answers; metrics = replay p t.metrics x; clock = t.clock }

serve-replayed :
    (p : MetricsPort) (x : p.State) (t : Served recording) (r : Request) (handler : Handler)
    → serve (replayed p x t) (r, handler) ≡ replayed p x (serve t (r, handler))
unfolding serve instrumented replay
serve-replayed p x t r handler = elim (Bool-cases (leb 400 (handler (advance t.clock)).0.status)) [
  | inl a ↦ elim (Bool-cases (r.path == "/api/v1/ready")) [ inl b ↦ rw (a, b) | inr b ↦ rw (a, b) ]
  | inr a ↦ elim (Bool-cases (r.path == "/api/v1/ready")) [ inl b ↦ rw (a, b) | inr b ↦ rw (a, b) ]
]

serve_all-replayed :
    (p : MetricsPort) (x : p.State) (t : Served recording) (es : List (Request × Handler))
    → serve_all (replayed p x t) es ≡ replayed p x (serve_all t es)
unfolding serve_all
serve_all-replayed p x t [] = refl
serve_all-replayed p x t ((r, handler) ∷ es) =
    ap (λ s. serve_all s es) (serve-replayed p x t r handler)
    ∙ serve_all-replayed p x (serve t (r, handler)) es

-- The metrics of the middleware.
abbrev pub red_schema : Schema
red_schema name =
    let red : List String = "method" ∷ "route" ∷ "code" ∷ [] in
    if name == "http_requests_total"
    then some (counter, red)
    else if name == "http_request_duration_seconds"
    then some (histogram, red)
    else if name == "http_request_errors_total"
    then some (counter, red)
    else if name == "service_dependency_ready"
    then some (gauge, "dependency" ∷ [])
    else none

All-if :
    {A : Type 0} (P : A → Type 0) (b : Bool) (xs ys : List A)
    → All P xs
    → All P ys
    → All P (if b then xs else ys)
All-if P true xs ys h k = h
All-if P false xs ys h k = k

serve-OpFits :
    (s : Served recording) (r : Request) (handler : Handler)
    → All (OpFits red_schema) s.metrics
    → All (OpFits red_schema) (serve s (r, handler)).metrics
unfolding serve instrumented extract_label_names
serve-OpFits s r handler h =
    let red : (extract_label_names (red_labels r (handler (advance s.clock)).0.status)
        ≡ keys (red_labels r (handler (advance s.clock)).0.status)) =
      refl in
    let ready =
      All-if (OpFits red_schema) (r.path == "/api/v1/ready") _ s.metrics ((refl, refl), h) h in
    All-if (OpFits red_schema) (leb 400 (handler (advance s.clock)).0.status) _ _
      ((refl, red), ((refl, red), ((refl, red), ready))) ((refl, red), ((refl, red), ready))

serve_all-OpFits :
    (s : Served recording) (es : List (Request × Handler))
    → All (OpFits red_schema) s.metrics
    → All (OpFits red_schema) (serve_all s es).metrics
unfolding serve_all
serve_all-OpFits s [] h = h
serve_all-OpFits s ((r, handler) ∷ es) h =
    serve_all-OpFits (serve s (r, handler)) es (serve-OpFits s r handler h)

-- A counter's exact value is the number of its increments at the same labels, and so on.
replay-counters :
    (ops : List Operation) (n : String) (k : Labels)
    → (replay exact ops no_samples).counters n k ≡ count (is_increment n (same_labels k)) ops
unfolding replay
replay-counters [] n k = refl
replay-counters (incremented m l ∷ ops) n k = ground (arith, replay-counters ops n k)
replay-counters (observed m v l ∷ ops) n k = ground (arith, replay-counters ops n k)
replay-counters (gauge_set m v l ∷ ops) n k = ground (arith, replay-counters ops n k)

replay-observations :
    (ops : List Operation) (n : String) (k : Labels)
    → (replay exact ops no_samples).observations n k ≡ count (is_observation n (same_labels k)) ops
unfolding replay
replay-observations [] n k = refl
replay-observations (incremented m l ∷ ops) n k = ground (arith, replay-observations ops n k)
replay-observations (observed m v l ∷ ops) n k = ground (arith, replay-observations ops n k)
replay-observations (gauge_set m v l ∷ ops) n k = ground (arith, replay-observations ops n k)

replay-gauges :
    (ops : List Operation)
    → (replay exact ops no_samples).gauges "service_dependency_ready" ready_labels ≡ readiness ops
unfolding replay
replay-gauges [] = refl
replay-gauges (incremented m l ∷ ops) = ground (arith, replay-gauges ops)
replay-gauges (observed m v l ∷ ops) = ground (arith, replay-gauges ops)
replay-gauges (gauge_set m v l ∷ ops) = ground (arith, replay-gauges ops)

-- The values that the answers stand for, at labels `k`.
pub record Shows (k : Labels) (answers : List (Request × ℕ)) (x : Samples) : Type 0 where
  pub total : x.counters "http_requests_total" k ≡ count (λ a. same_labels k (labels_of a)) answers
  pub durations :
      x.observations "http_request_duration_seconds" k
      ≡ count (λ a. same_labels k (labels_of a)) answers
  pub errors :
      x.counters "http_request_errors_total" k
      ≡ count (λ a. is_failure a && same_labels k (labels_of a)) answers
  pub ready : x.gauges "service_dependency_ready" ready_labels ≡ last_ready answers

Recorded-Shows :
    (k : Labels) (t : Served recording)
    → Recorded (same_labels k) t
    → Shows k t.answers (replay exact t.metrics no_samples)
Recorded-Shows k t h = record {
  total = replay-counters t.metrics "http_requests_total" k ∙ h.total;
  durations = replay-observations t.metrics "http_request_duration_seconds" k ∙ h.durations;
  errors = replay-counters t.metrics "http_request_errors_total" k ∙ h.errors;
  ready = replay-gauges t.metrics ∙ h.ready;
}

-- The HTTP server with its middleware and the Prometheus adapter, if Prometheus may register the four
-- metrics under the constant labels and has none of their names: after any requests, whatever their
-- handlers answer without touching the metrics, no call of the adapter has panicked, and Prometheus
-- shows at any labels as many requests and durations as there were answers with these labels, as many
-- errors as there were such answers with a status of at least 400, and as readiness whether the last
-- answer at the readiness path was 200.
pub serve_all-Shows :
    {p : Prometheus} (d : Documented p) (consts k : Labels) (c : Clock)
    (es : List (Request × Handler))
    → IsLegal d red_schema consts
    → IsFree d red_schema consts
    → let s =
        serve_all {p = prometheus_port p}
          (unserved (ok (new_prometheus_metrics_adapter p consts)) c)
          es in
      (a : PrometheusMetricsAdapter p) × (s.metrics ≡ ok a)
      × Shows k s.answers (d.samples a.registry)
unfolding replay
serve_all-Shows {p} d consts k c es legal free =
    let t = serve_all (unserved {p = recording} [] c) es in
    let x : (prometheus_port p).State = ok (new_prometheus_metrics_adapter p consts) in
    let same = serve_all-replayed (prometheus_port p) x (unserved [] c) es in
    let (a, done, values) =
      replay_lem d red_schema consts t.metrics legal free
        (serve_all-OpFits (unserved [] c) es tt) in
    let shows = Recorded-Shows k t (serve_all-unserved (same_labels k) c es) in
    let answers = ap (λ (s : Served (prometheus_port p)). s.answers) same in
    (a, ap (λ (s : Served (prometheus_port p)). s.metrics) same ∙ done, rw (answers, values) shows)
