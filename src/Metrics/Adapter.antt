-- ===== src/Metrics/Adapter.antt =====
-- internal/infrastructure/observability/prometheus_adapter.go.
pub mod Tables
pub mod Sound
pub mod Panics
pub mod Threads
pub mod Refinement
pub mod Runs
pub mod Simple
pub mod Tests
use trading_ecosystem_exchan.Common.{
  ℕ, String, Bool, true, false, ◌||◌, Option, none, some, List, [], ◌∷◌, Result, ok, err, Exec,
  pure, fail, call, modify, ◌>>=◌, ◌>>◌, ◌==◌, if◌then◌else◌,
}
use trading_ecosystem_exchan.Common.Http.{Answer}
use trading_ecosystem_exchan.Common.Assoc.{Map, lookup, insert}
use trading_ecosystem_exchan.Metrics.Port.{Labels, MetricsPort}
use trading_ecosystem_exchan.Metrics.Prometheus.{Kind, counter, histogram, gauge, Opts, Prometheus}

-- The mutex has no field; its two sections are the two steps of `get_or_create`.
pub record PrometheusMetricsAdapter (p : Prometheus) : Type 0 where
  pub registry : p.Registry
  pub counters : Map p.Vec
  pub histograms : Map p.Vec
  pub gauges : Map p.Vec
  pub constant_labels : Labels

-- The two panics that a call can end in, of `MustRegister` and of `With`.
pub data Panic : Type 0 where
  not_registered wrong_labels : Panic

-- `NewPrometheusMetricsAdapter`
unfoldable pub new_prometheus_metrics_adapter :
    (p : Prometheus) → Labels → PrometheusMetricsAdapter p
new_prometheus_metrics_adapter p constant_labels = record {
  registry = p.new_registry;
  counters = [];
  histograms = [];
  gauges = [];
  constant_labels = constant_labels;
}

abbrev pub is_constant : String → Bool
is_constant key = key == "service" || key == "instance" || key == "version"

-- `extractLabelNames`. Go ranges over the map in any order; what Prometheus checks of these names, in
-- `accepts`, does not depend on it.
unfoldable pub extract_label_names : Labels → List String
extract_label_names [] = []
extract_label_names ((key, value) ∷ labels) =
    let others = extract_label_names labels in if is_constant key then others else key ∷ others

-- 5ms to 10s, as `getOrCreateHistogram` lists them
abbrev duration_buckets : List ℕ
duration_buckets =
    5_000_000 ∷ 10_000_000 ∷ 25_000_000 ∷ 50_000_000 ∷ 100_000_000 ∷ 250_000_000 ∷ 500_000_000
    ∷ 1_000_000_000 ∷ 2_500_000_000 ∷ 5_000_000_000 ∷ 10_000_000_000 ∷ []

abbrev buckets_of : Kind → List ℕ
buckets_of histogram = duration_buckets
buckets_of _ = []

module _ {p : Prometheus} where
  -- the map for one kind of metric
  abbrev pub table : Kind → PrometheusMetricsAdapter p → Map p.Vec
  table counter a = a.counters
  table histogram a = a.histograms
  table gauge a = a.gauges

  abbrev pub store : Kind → String → p.Vec → PrometheusMetricsAdapter p → PrometheusMetricsAdapter p
  store counter name v a = record a { counters = insert name v a.counters }
  store histogram name v a = record a { histograms = insert name v a.histograms }
  store gauge name v a = record a { gauges = insert name v a.gauges }

  -- the read under the read lock
  unfoldable pub fast_path : Kind → String → PrometheusMetricsAdapter p → Option p.Vec
  fast_path k name a = lookup name (table k a)

  abbrev pub registered :
      Kind
      → String
      → p.Vec
      → PrometheusMetricsAdapter p
      → Option p.Registry
      → Result Panic p.Vec × PrometheusMetricsAdapter p
  registered k name v a none = (err not_registered, a)
  registered k name v a (some g) = (ok v, store k name v (record a { registry = g }))

  abbrev pub opts_of : Kind → String → PrometheusMetricsAdapter p → Opts
  opts_of k name a = record {
    kind = k;
    name = name;
    help = name;
    const_labels = a.constant_labels;
    buckets = buckets_of k;
  }

  -- a new vector is made, registered and kept
  unfoldable pub create : Kind → String → Labels → Exec (PrometheusMetricsAdapter p) Panic p.Vec
  unfolding extract_label_names
  create k name labels a =
      let (v, g) = p.new_vec (opts_of k name a) (extract_label_names labels) a.registry in
      registered k name v (record a { registry = g }) (p.must_register v g)

  abbrev pub found_or :
      Option p.Vec
      → Exec (PrometheusMetricsAdapter p) Panic p.Vec
      → Exec (PrometheusMetricsAdapter p) Panic p.Vec
  found_or (some v) other a = (ok v, a)
  found_or none other a = other a

  -- what is done under the write lock: the name is looked up again before a vector is made
  unfoldable pub slow_path : Kind → String → Labels → Exec (PrometheusMetricsAdapter p) Panic p.Vec
  slow_path k name labels a = found_or (lookup name (table k a)) (create k name labels) a

  abbrev pub get_or_create : Kind → String → Labels → Exec (PrometheusMetricsAdapter p) Panic p.Vec
  get_or_create k name labels a = found_or (fast_path k name a) (slow_path k name labels) a

  -- `getOrCreateCounter`, `getOrCreateHistogram` and `getOrCreateGauge`, which differ in the map that
  -- they use and in the vector that they make
  unfoldable pub get_or_create_counter :
      String → Labels → Exec (PrometheusMetricsAdapter p) Panic p.Vec
  unfolding fast_path slow_path
  get_or_create_counter = get_or_create counter

  unfoldable pub get_or_create_histogram :
      String → Labels → Exec (PrometheusMetricsAdapter p) Panic p.Vec
  unfolding fast_path slow_path
  get_or_create_histogram = get_or_create histogram

  unfoldable pub get_or_create_gauge :
      String → Labels → Exec (PrometheusMetricsAdapter p) Panic p.Vec
  unfolding fast_path slow_path
  get_or_create_gauge = get_or_create gauge

  abbrev pub recorded :
      (p.Series → p.Registry → p.Registry)
      → PrometheusMetricsAdapter p
      → Option (p.Series × p.Registry)
      → Result Panic (Unit {0}) × PrometheusMetricsAdapter p
  recorded f a none = (err wrong_labels, a)
  recorded f a (some (s, g)) = (ok tt, record a { registry = f s g })

  -- `vec.With(labels)` and the recording in its series
  abbrev pub record_in :
      (p.Series → p.Registry → p.Registry)
      → Labels
      → p.Vec
      → Exec (PrometheusMetricsAdapter p) Panic (Unit {0})
  record_in f labels v a = recorded f a (p.with_labels v labels a.registry)

  unfoldable pub inc_counter : String → Labels → Exec (PrometheusMetricsAdapter p) Panic (Unit {0})
  unfolding get_or_create_counter
  inc_counter name labels = do v ← get_or_create_counter name labels; record_in p.inc labels v

  unfoldable pub observe_histogram :
      String → ℕ → Labels → Exec (PrometheusMetricsAdapter p) Panic (Unit {0})
  unfolding get_or_create_histogram
  observe_histogram name value labels = do
    v ← get_or_create_histogram name labels
    record_in (λ s. p.observe s value) labels v

  unfoldable pub set_gauge :
      String → ℕ → Labels → Exec (PrometheusMetricsAdapter p) Panic (Unit {0})
  unfolding get_or_create_gauge
  set_gauge name value labels = do
    v ← get_or_create_gauge name labels
    record_in (λ s. p.set s value) labels v

  -- `GetHTTPHandler`, where `handler_for` is `promhttp.HandlerFor`, with OpenMetrics
  unfoldable pub get_http_handler : (p.Registry → Answer) → PrometheusMetricsAdapter p → Answer
  get_http_handler handler_for a = handler_for a.registry

  -- A call on an adapter, where a panic before it stops all that follows.
  abbrev pub after_call :
      Exec (PrometheusMetricsAdapter p) Panic (Unit {0})
      → Result Panic (PrometheusMetricsAdapter p)
      → Result Panic (PrometheusMetricsAdapter p)
  after_call m (err x) = err x
  after_call m (ok a) = let (r, b) = m a in elim r [ ok _ ↦ ok b | err x ↦ err x ]

-- The adapter as a `MetricsPort`.
abbrev pub prometheus_port : Prometheus → MetricsPort
prometheus_port p = record {
  State = Result Panic (PrometheusMetricsAdapter p);
  inc_counter = λ name labels. after_call (inc_counter name labels);
  observe_histogram = λ name value labels. after_call (observe_histogram name value labels);
  set_gauge = λ name value labels. after_call (set_gauge name value labels);
}
