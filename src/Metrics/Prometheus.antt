-- ===== src/Metrics/Prometheus.antt =====
-- What the adapter uses of github.com/prometheus/client_golang, and what that library documents of it.
use trading_ecosystem_exchan.Common.{
  ℕ, ◌+◌, ◌≡◌, String, Bool, true, false, ◌&&◌, ◌||◌, Option, none, some, List, [], ◌∷◌, length,
  eqb, ◌==◌, if◌then◌else◌,
}
use trading_ecosystem_exchan.Common.Assoc.{lookup, keys}
use trading_ecosystem_exchan.Metrics.Port.{Labels, MetricsPort, same_labels}

pub data Kind : Type 0 where
  counter histogram gauge : Kind

-- `CounterOpts`, `HistogramOpts` and `GaugeOpts`; the buckets are in nanoseconds, and only a
-- histogram has any.
pub record Opts : Type 0 where
  pub kind : Kind
  pub name : String
  pub help : String
  pub const_labels : Labels
  pub buckets : List ℕ

-- The registry's state stands for the registry and for the values of all vectors. `must_register`
-- and `with_labels` give nothing where they panic.
pub record Prometheus : Type 1 where
  pub Registry : Type 0
  pub Vec : Type 0
  pub Series : Type 0
  -- `NewRegistry` with the Go and the process collector
  pub new_registry : Registry
  pub new_vec : Opts → List String → Registry → Vec × Registry
  pub must_register : Vec → Registry → Option Registry
  pub with_labels : Vec → Labels → Registry → Option (Series × Registry)
  pub inc : Series → Registry → Registry
  pub observe : Series → ℕ → Registry → Registry
  pub set : Series → ℕ → Registry → Registry

-- A set of labels has exactly these names.
abbrev pub all_given : List String → Labels → Bool
all_given [] l = true
all_given (name ∷ names) l =
    let rest = all_given names l in elim (lookup name l) [ none ↦ false | some value ↦ rest ]

unfoldable pub accepts : List String → Labels → Bool
accepts names l = eqb (length names) (length l) && all_given names l

-- The values of all series: a counter's, how many observations a histogram has, and a gauge's.
pub record Samples : Type 0 where
  pub counters : String → Labels → ℕ
  pub observations : String → Labels → ℕ
  pub gauges : String → Labels → Option ℕ

abbrev pub hits : String → Labels → String → Labels → Bool
hits name labels n l = (name == n) && same_labels l labels

-- The port that keeps these values and nothing else.
abbrev pub exact : MetricsPort
exact = record {
  State = Samples;
  inc_counter = λ name labels s. record s {
    counters = λ n l. if hits name labels n l then s.counters n l + 1 else s.counters n l;
  };
  observe_histogram = λ name value labels s. record s {
    observations =
        λ n l. if hits name labels n l then s.observations n l + 1 else s.observations n l;
  };
  set_gauge = λ name value labels s. record s {
    gauges = λ n l. if hits name labels n l then some value else s.gauges n l;
  };
}

abbrev pub no_samples : Samples
no_samples = record { counters = λ n l. 0; observations = λ n l. 0; gauges = λ n l. none }

-- What the library documents: `Register` refuses a name that is taken, and takes another one if it and
-- the names of its constant and variable labels are legal together; `With` panics unless the labels
-- are those that the vector was made for; and a series holds what was recorded in it.
pub record Documented (p : Prometheus) : Type 0 where
  pub opts : p.Vec → Opts
  pub names : p.Vec → List String
  pub legal : String → List String → List String → Bool
  pub taken : p.Registry → String → Bool
  pub samples : p.Registry → Samples
  pub vec_of : p.Series → p.Vec
  pub labels_of : p.Series → Labels
  pub samples-new_registry : samples p.new_registry ≡ no_samples
  pub opts-new_vec : (o : Opts) (ns : List String) (g : p.Registry) → opts (p.new_vec o ns g).0 ≡ o
  pub names-new_vec :
      (o : Opts) (ns : List String) (g : p.Registry) → names (p.new_vec o ns g).0 ≡ ns
  pub taken-new_vec :
      (o : Opts) (ns : List String) (g : p.Registry) → taken (p.new_vec o ns g).1 ≡ taken g
  pub samples-new_vec :
      (o : Opts) (ns : List String) (g : p.Registry) → samples (p.new_vec o ns g).1 ≡ samples g
  pub must_register-taken :
      (v : p.Vec) (g : p.Registry) → taken g (opts v).name ≡ true → p.must_register v g ≡ none
  pub must_register-free :
      (v : p.Vec) (g : p.Registry)
      → taken g (opts v).name ≡ false
      → legal (opts v).name (keys (opts v).const_labels) (names v) ≡ true
      → (g' : p.Registry) × (p.must_register v g ≡ some g')
        × (taken g' ≡ (λ n. ((opts v).name == n) || taken g n))
        × (samples g' ≡ samples g)
  pub with_labels-refused :
      (v : p.Vec) (l : Labels) (g : p.Registry)
      → accepts (names v) l ≡ false
      → p.with_labels v l g ≡ none
  pub with_labels-accepted :
      (v : p.Vec) (l : Labels) (g : p.Registry)
      → accepts (names v) l ≡ true
      → (s : p.Series) × (g' : p.Registry) × (p.with_labels v l g ≡ some (s, g'))
        × (vec_of s ≡ v)
        × (labels_of s ≡ l)
        × (taken g' ≡ taken g)
        × (samples g' ≡ samples g)
  pub taken-inc : (s : p.Series) (g : p.Registry) → taken (p.inc s g) ≡ taken g
  pub taken-observe : (s : p.Series) (x : ℕ) (g : p.Registry) → taken (p.observe s x g) ≡ taken g
  pub taken-set : (s : p.Series) (x : ℕ) (g : p.Registry) → taken (p.set s x g) ≡ taken g
  pub samples-inc :
      (s : p.Series) (g : p.Registry)
      → samples (p.inc s g) ≡ exact.inc_counter (opts (vec_of s)).name (labels_of s) (samples g)
  pub samples-observe :
      (s : p.Series) (x : ℕ) (g : p.Registry)
      → samples (p.observe s x g)
        ≡ exact.observe_histogram (opts (vec_of s)).name x (labels_of s) (samples g)
  pub samples-set :
      (s : p.Series) (x : ℕ) (g : p.Registry)
      → samples (p.set s x g) ≡ exact.set_gauge (opts (vec_of s)).name x (labels_of s) (samples g)
