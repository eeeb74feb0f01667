-- ===== src/Metrics/Adapter/Simple.antt =====
-- A Prometheus that keeps the values of its series as functions, and is as the library documents.
use trading_ecosystem_exchan.Common.{
  ◌≡◌, refl, String, Bool, true, false, ◌||◌, Option, none, some, List, arith, ◌==◌, if◌then◌else◌,
}
use trading_ecosystem_exchan.Metrics.Port.{Labels}
use trading_ecosystem_exchan.Metrics.Prometheus.{
  Opts, Prometheus, Documented, Samples, no_samples, exact, accepts,
}

pub record Registry : Type 0 where
  pub taken : String → Bool
  pub samples : Samples

pub record Vec : Type 0 where
  pub opts : Opts
  pub names : List String

abbrev pub Series : Type 0
Series = Vec × Labels

abbrev changed : (Samples → Samples) → Registry → Registry
changed f g = record g { samples = f g.samples }

abbrev pub register : Vec → Registry → Option Registry
register v g =
    let name = v.opts.name in
    if g.taken name then none else some (record g { taken = λ n. (name == n) || g.taken n })

abbrev pub with_labels : Vec → Labels → Registry → Option (Series × Registry)
with_labels v l g = if accepts v.names l then some ((v, l), g) else none

-- The names of the collectors that `NewPrometheusMetricsAdapter` registers; one stands for all.
abbrev pub simple : Prometheus
simple = record {
  Registry = Registry;
  Vec = Vec;
  Series = Series;
  new_registry = record { taken = λ n. n == "go_goroutines"; samples = no_samples };
  new_vec = λ o ns g. (record { opts = o; names = ns }, g);
  must_register = register;
  with_labels = with_labels;
  inc = λ (v, l). changed (exact.inc_counter v.opts.name l);
  observe = λ (v, l) x. changed (exact.observe_histogram v.opts.name x l);
  set = λ (v, l) x. changed (exact.set_gauge v.opts.name x l);
}

pub register-taken : (v : Vec) (g : Registry) → g.taken v.opts.name ≡ true → register v g ≡ none
register-taken v g h = ground (arith, h)

pub register-free :
    (v : Vec) (g : Registry)
    → g.taken v.opts.name ≡ false
    → true ≡ true
    → (g' : Registry) × (register v g ≡ some g')
      × (g'.taken ≡ (λ n. (v.opts.name == n) || g.taken n))
      × (g'.samples ≡ g.samples)
register-free v g h _ =
    (record g { taken = λ n. (v.opts.name == n) || g.taken n }, ground (arith, h), refl, refl)

pub with_labels-refused :
    (v : Vec) (l : Labels) (g : Registry) → accepts v.names l ≡ false → with_labels v l g ≡ none
with_labels-refused v l g h = ground (arith, h)

pub with_labels-accepted :
    (v : Vec) (l : Labels) (g : Registry)
    → accepts v.names l ≡ true
    → (s : Series) × (g' : Registry) × (with_labels v l g ≡ some (s, g'))
      × (s.0 ≡ v)
      × (s.1 ≡ l)
      × (g'.taken ≡ g.taken)
      × (g'.samples ≡ g.samples)
with_labels-accepted v l g h = ((v, l), g, ground (arith, h), refl, refl, refl, refl)

abbrev pub simple_documented : Documented simple
simple_documented = record {
  opts = λ v. v.opts;
  names = λ v. v.names;
  legal = λ n cs ns. true;
  taken = λ g. g.taken;
  samples = λ g. g.samples;
  vec_of = λ s. s.0;
  labels_of = λ s. s.1;
  samples-new_registry = refl;
  opts-new_vec = λ o ns g. refl;
  names-new_vec = λ o ns g. refl;
  taken-new_vec = λ o ns g. refl;
  samples-new_vec = λ o ns g. refl;
  must_register-taken = register-taken;
  must_register-free = register-free;
  with_labels-refused = with_labels-refused;
  with_labels-accepted = with_labels-accepted;
  taken-inc = λ s g. refl;
  taken-observe = λ s x g. refl;
  taken-set = λ s x g. refl;
  samples-inc = λ s g. refl;
  samples-observe = λ s x g. refl;
  samples-set = λ s x g. refl;
}
