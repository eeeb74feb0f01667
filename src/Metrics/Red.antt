-- ===== src/Metrics/Red.antt =====
-- What the middleware records, over any requests.
use trading_ecosystem_exchan.Common.{
  ℕ, ◌+◌, ◌≡◌, refl, String, Bool, false, ◌&&◌, Option, none, some, List, [], ◌∷◌, arith, Clock,
  leb, eqb, ◌==◌, if◌then◌else◌,
}
use trading_ecosystem_exchan.Common.Http.{Answer}
use trading_ecosystem_exchan.Common.Assoc.{lookup}
use trading_ecosystem_exchan.Metrics.Port.{Labels, MetricsPort, same_labels}
use trading_ecosystem_exchan.Metrics.Recording.{
  Operation, incremented, observed, gauge_set, recording,
}
use trading_ecosystem_exchan.Metrics.Middleware.{Request, Next, red_labels, instrumented}

-- The requests that were answered, with their statuses, newest first; the metrics; the clock.
pub record Served (p : MetricsPort) : Type 0 where
  pub answers : List (Request × ℕ)
  pub metrics : p.State
  pub clock : Clock

-- A handler reads the clock and leaves the metrics alone.
abbrev pub Handler : Type 0
Handler = Clock → Answer × Clock

module _ {p : MetricsPort} where
  -- what is answered, and what is served then
  unfoldable pub respond : Served p → Request × Handler → Answer × Served p
  respond s (r, handler) =
      let next : Next p = λ (m, c). let (answer, d) = handler c in (answer, (m, d)) in
      let (answer, (m, c)) = instrumented p r next (s.metrics, s.clock) in
      (answer, record { answers = (r, answer.status) ∷ s.answers; metrics = m; clock = c })

  unfoldable pub serve : Served p → Request × Handler → Served p
  unfolding respond
  serve s e = (respond s e).1

  unfoldable pub serve_all : Served p → List (Request × Handler) → Served p
  serve_all s [] = s
  serve_all s (e ∷ es) = serve_all (serve s e) es

abbrev pub unserved : {p : MetricsPort} → p.State → Clock → Served p
unserved m c = record { answers = []; metrics = m; clock = c }

abbrev pub count {ℓ} : {A : Type ℓ} → (A → Bool) → List A → ℕ
count f [] = 0
count f (x ∷ xs) = let n = count f xs in if f x then n + 1 else n

-- the increments of a counter, and the observations of a histogram, at labels of a kind
abbrev pub is_increment : String → (Labels → Bool) → Operation → Bool
is_increment name f (incremented n l) = (n == name) && f l
is_increment name f _ = false

abbrev pub is_observation : String → (Labels → Bool) → Operation → Bool
is_observation name f (observed n v l) = (n == name) && f l
is_observation name f _ = false

abbrev pub is_failure : Request × ℕ → Bool
is_failure (r, status) = leb 400 status

abbrev pub ready_labels : Labels
ready_labels = ("dependency", "exchange-simulator") ∷ []

-- the last value of the gauge of readiness
abbrev pub readiness : List Operation → Option ℕ
readiness [] = none
readiness (gauge_set n v l ∷ ops) =
    let rest = readiness ops in
    if (n == "service_dependency_ready") && same_labels ready_labels l then some v else rest
readiness (incremented n l ∷ ops) = readiness ops
readiness (observed n v l ∷ ops) = readiness ops

-- whether the last readiness request was answered with 200, as a number
abbrev pub last_ready : List (Request × ℕ) → Option ℕ
last_ready [] = none
last_ready ((r, status) ∷ earlier) =
    let rest = last_ready earlier in
    if r.path == "/api/v1/ready" then some (if eqb status 200 then 1 else 0) else rest

abbrev pub labels_of : Request × ℕ → Labels
labels_of (r, status) = red_labels r status

-- The three metrics and the gauge are what the answers say.
pub record Recorded (f : Labels → Bool) (s : Served recording) : Type 0 where
  pub total :
      count (is_increment "http_requests_total" f) s.metrics
      ≡ count (λ a. f (labels_of a)) s.answers
  pub durations :
      count (is_observation "http_request_duration_seconds" f) s.metrics
      ≡ count (λ a. f (labels_of a)) s.answers
  pub errors :
      count (is_increment "http_request_errors_total" f) s.metrics
      ≡ count (λ a. is_failure a && f (labels_of a)) s.answers
  pub ready : readiness s.metrics ≡ last_ready s.answers

serve-Recorded :
    (f : Labels → Bool) (s : Served recording) (r : Request) (handler : Handler)
    → Recorded f s
    → Recorded f (serve s (r, handler))
unfolding serve instrumented lookup
serve-Recorded f s r handler h = ground arith

serve_all-Recorded :
    (f : Labels → Bool) (s : Served recording) (es : List (Request × Handler))
    → Recorded f s
    → Recorded f (serve_all s es)
unfolding serve_all
serve_all-Recorded f s [] h = h
serve_all-Recorded f s ((r, handler) ∷ es) h =
    serve_all-Recorded f (serve s (r, handler)) es (serve-Recorded f s r handler h)

-- For every set of label values and any requests, whatever their handlers answer without touching the
-- metrics themselves: the increments of the total and the observations of the duration at labels in
-- the set are as many as the answers with these labels, the increments of the error counter as many
-- as those among them with a status of at least 400, and the readiness gauge says whether the last
-- answer at the readiness path was 200.
pub serve_all-unserved :
    (f : Labels → Bool) (c : Clock) (es : List (Request × Handler))
    → Recorded f (serve_all (unserved [] c) es)
serve_all-unserved f c es =
    serve_all-Recorded f (unserved [] c) es
      (record { total = refl; durations = refl; errors = refl; ready = refl })
