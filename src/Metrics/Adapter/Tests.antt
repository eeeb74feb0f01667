-- ===== src/Metrics/Adapter/Tests.antt =====
-- Calls of the adapter over a simple Prometheus, and the theorems at concrete inputs.
use trading_ecosystem_exchan.Common.{
  ◌≡◌, refl, true, false, none, some, List, [], ◌∷◌, ok, err, ◌==◌,
}
use trading_ecosystem_exchan.Common.Assoc.{lookup, insert}
use trading_ecosystem_exchan.Metrics.Port.{Labels, to_map, add_label}
use trading_ecosystem_exchan.Metrics.Recording.{Operation, incremented, replay}
use trading_ecosystem_exchan.Metrics.Prometheus.{counter, accepts}
use trading_ecosystem_exchan.Metrics.Adapter.{
  PrometheusMetricsAdapter, not_registered, wrong_labels, new_prometheus_metrics_adapter,
  extract_label_names, create, fast_path, slow_path, inc_counter, observe_histogram, set_gauge,
  table,
}
use trading_ecosystem_exchan.Metrics.Adapter.Simple.{simple, simple_documented, Vec}
use trading_ecosystem_exchan.Metrics.Adapter.Sound.{Schema}
use trading_ecosystem_exchan.Metrics.Adapter.Panics.{inc_counter-constant}
use trading_ecosystem_exchan.Metrics.Adapter.Threads.{
  System, holds, missed, at_start, looks, locks, records, Reach, here, later, look, lock,
  Reach-same_vec,
}

abbrev consts : Labels
consts = ("service", "exchange-simulator") ∷ []

abbrev fresh : PrometheusMetricsAdapter simple
fresh = new_prometheus_metrics_adapter simple consts

abbrev code_200 : Labels
code_200 = ("code", "200") ∷ []

methods : Unit {0}
unfolding new_prometheus_metrics_adapter extract_label_names create fast_path slow_path inc_counter
    observe_histogram set_gauge accepts lookup insert to_map add_label looks locks records replay
methods = tt

counted_twice :
    let (r, a) = inc_counter "requests" code_200 fresh in
    let (r', b) = inc_counter "requests" code_200 a in
    (r' ≡ ok tt) × (b.registry.samples.counters "requests" code_200 ≡ 2)
unfolding methods
counted_twice = (refl, refl)

-- A gauge cannot have a counter's name.
gauge_of_counter :
    let (r, a) = inc_counter "requests" code_200 fresh in
    (set_gauge "requests" 1 code_200 a).0 ≡ err not_registered
unfolding methods
gauge_of_counter = refl

-- Both goroutines look before either makes the counter.
abbrev both_missed : System simple
both_missed =
    looks 1 counter "requests" code_200
      (looks 0 counter "requests" code_200 (at_start simple consts))

abbrev first_made : System simple
first_made = locks 0 counter "requests" code_200 both_missed

abbrev second_made : System simple
second_made = locks 1 counter "requests" code_200 first_made

first_may : both_missed.pc 0 ≡ missed counter "requests" code_200
unfolding methods
first_may = refl

second_may : first_made.pc 1 ≡ missed counter "requests" code_200
unfolding methods
second_may = refl

to_first : Reach simple (at_start simple consts) first_made
to_first =
    later
      (later (later here (look 0 counter "requests" code_200)) (look 1 counter "requests" code_200))
      (lock 0 counter "requests" code_200 first_may)

to_second : Reach simple first_made second_made
to_second = later here (lock 1 counter "requests" code_200 second_may)

abbrev requests_vec : Vec
requests_vec = record {
  opts = record {
    kind = counter;
    name = "requests";
    help = "requests";
    const_labels = consts;
    buckets = [];
  };
  names = "code" ∷ [];
}

first_holds : first_made.pc 0 ≡ holds counter "requests" requests_vec
unfolding methods
first_holds = refl

second_holds : second_made.pc 1 ≡ holds counter "requests" requests_vec
unfolding methods
second_holds = refl

Reach-same_vec_example :
    (requests_vec ≡ requests_vec)
    × (lookup "requests" (table counter second_made.adapter) ≡ some requests_vec)
Reach-same_vec_example =
    Reach-same_vec simple consts 0 1 counter "requests" requests_vec requests_vec to_first to_second
      first_holds second_holds

abbrev one_counter : Schema
one_counter name = elim (name == "requests") [ true ↦ some (counter, "code" ∷ []) | false ↦ none ]

abbrev two_increments : List Operation
two_increments = incremented "requests" code_200 ∷ incremented "requests" code_200 ∷ []

abbrev tagged : Labels
tagged = ("service", "exchange-simulator") ∷ ("code", "200") ∷ []

tagged_code : extract_label_names tagged ≡ "code" ∷ []
unfolding methods
tagged_code = refl

absent : lookup "requests" fresh.counters ≡ none
unfolding methods
absent = refl

free : fresh.registry.taken "requests" ≡ false
unfolding methods
free = refl

inc_counter-constant_example :
    let (r, b) = inc_counter "requests" tagged fresh in
    (r ≡ err wrong_labels) × (inc_counter "requests" tagged b ≡ (err wrong_labels, b))
inc_counter-constant_example =
    inc_counter-constant simple_documented "requests" tagged fresh absent free refl refl

abbrev after_gauge : PrometheusMetricsAdapter simple
after_gauge = (set_gauge "requests" 1 code_200 fresh).1

-- A name that a gauge has taken cannot be registered for a counter.
name_taken : (inc_counter "requests" code_200 after_gauge).0 ≡ err not_registered
unfolding methods
name_taken = refl
