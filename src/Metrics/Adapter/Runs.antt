-- ===== src/Metrics/Adapter/Runs.antt =====
-- Whole runs of the adapter: any operations, each of which fits a table of metrics.
use trading_ecosystem_exchan.Common.{
  ◌≡◌, inl, refl, ap, ◌∙◌, String, false, some, List, [], ◌∷◌, Result, ok, arith, All,
}
use trading_ecosystem_exchan.Common.Assoc.{lookup}
use trading_ecosystem_exchan.Metrics.Port.{Labels}
use trading_ecosystem_exchan.Metrics.Recording.{
  Operation, incremented, observed, gauge_set, apply, replay,
}
use trading_ecosystem_exchan.Metrics.Prometheus.{
  Kind, counter, histogram, gauge, Prometheus, Documented, Samples, no_samples, exact,
}
use trading_ecosystem_exchan.Metrics.Adapter.{
  PrometheusMetricsAdapter, Panic, after_call, inc_counter, observe_histogram, set_gauge,
  prometheus_port, new_prometheus_metrics_adapter,
}
use trading_ecosystem_exchan.Metrics.Adapter.Sound.{Schema, Fits, Entry, IsSound, IsLegal}
use trading_ecosystem_exchan.Metrics.Adapter.Refinement.{
  Does, inc_counter-Does, observe_histogram-Does, set_gauge-Does,
}

abbrev pub OpFits : Schema → Operation → Type 0
OpFits σ (incremented name l) = Fits σ counter name l
OpFits σ (observed name x l) = Fits σ histogram name l
OpFits σ (gauge_set name x l) = Fits σ gauge name l

module _ {p : Prometheus} (d : Documented p) (σ : Schema) (consts : Labels) where
  -- A state of the port that no panic has ended, and that holds these values.
  abbrev pub Holds : Samples → Result Panic (PrometheusMetricsAdapter p) → Type 0
  Holds x r =
      (a : PrometheusMetricsAdapter p) × (r ≡ ok a)
      × (d.samples a.registry ≡ x)
      × IsSound d σ consts a

  after_call-Holds :
      (m : PrometheusMetricsAdapter p → Result Panic (Unit {0}) × PrometheusMetricsAdapter p)
      (f : Samples → Samples) (x : Samples) (r : Result Panic (PrometheusMetricsAdapter p))
      → ((a : PrometheusMetricsAdapter p) → IsSound d σ consts a → Does d σ consts f a (m a))
      → Holds x r
      → Holds (f x) (after_call m r)
  after_call-Holds m f x r does (a, e, same, sound) =
      let (done, changed, kept) = does a sound in
      ((m a).1, ground (arith, e, done), changed ∙ ap f same, kept)

  apply-Holds :
      (op : Operation) (x : Samples) (r : Result Panic (PrometheusMetricsAdapter p))
      → IsLegal d σ consts
      → OpFits σ op
      → Holds x r
      → Holds (apply exact op x) (apply (prometheus_port p) op r)
  apply-Holds (incremented name l) x r legal fits =
      after_call-Holds (inc_counter name l) (exact.inc_counter name l) x r
        (λ a sound. inc_counter-Does d σ consts name l a legal sound fits)
  apply-Holds (observed name v l) x r legal fits =
      after_call-Holds (observe_histogram name v l) (exact.observe_histogram name v l) x r
        (λ a sound. observe_histogram-Does d σ consts name v l a legal sound fits)
  apply-Holds (gauge_set name v l) x r legal fits =
      after_call-Holds (set_gauge name v l) (exact.set_gauge name v l) x r
        (λ a sound. set_gauge-Does d σ consts name v l a legal sound fits)

  replay-Holds :
      (ops : List Operation) (x : Samples) (r : Result Panic (PrometheusMetricsAdapter p))
      → IsLegal d σ consts
      → All (OpFits σ) ops
      → Holds x r
      → Holds (replay exact ops x) (replay (prometheus_port p) ops r)
  unfolding replay
  replay-Holds [] x r legal fits h = h
  replay-Holds (op ∷ ops) x r legal (fit, fits) h =
      apply-Holds op (replay exact ops x) (replay (prometheus_port p) ops r) legal fit
        (replay-Holds ops x r legal fits h)

  -- No metric of the table has a name that the registry has taken from the start.
  abbrev pub IsFree : Type 0
  IsFree =
      (name : String) (k : Kind) (ns : List String)
      → σ name ≡ some (k, ns)
      → d.taken p.new_registry name ≡ false

  new-Holds : IsFree → Holds no_samples (ok (new_prometheus_metrics_adapter p consts))
  unfolding new_prometheus_metrics_adapter lookup
  new-Holds free =
      let a = new_prometheus_metrics_adapter p consts in
      (a, refl, d.samples-new_registry, (refl, empty))
    where
      empty :
          (n : String) (k : Kind) (ns : List String)
          → σ n ≡ some (k, ns)
          → Entry d (new_prometheus_metrics_adapter p consts) n k ns
      empty n counter ns e = inl (refl, free n counter ns e)
      empty n histogram ns e = inl (refl, free n histogram ns e)
      empty n gauge ns e = inl (refl, free n gauge ns e)

  pub replay_lem :
      (ops : List Operation)
      → IsLegal d σ consts
      → IsFree
      → All (OpFits σ) ops
      → (a : PrometheusMetricsAdapter p) × (replay
            (prometheus_port p)
            ops
            (ok (new_prometheus_metrics_adapter p consts))
          ≡ ok a)
        × (d.samples a.registry ≡ replay exact ops no_samples)
  replay_lem ops legal free fits =
      let (a, e, same, _) =
        replay-Holds ops no_samples (ok (new_prometheus_metrics_adapter p consts)) legal fits
          (new-Holds free) in
      (a, e, same)
