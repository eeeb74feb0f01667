-- ===== src/Metrics/Recording.antt =====
-- A port that only records what it is asked to do, and the replay of a record on another port.
use trading_ecosystem_exchan.Common.{ℕ, String, List, [], ◌∷◌}
use trading_ecosystem_exchan.Metrics.Port.{Labels, MetricsPort}

-- The operations of a port.
pub data Operation : Type 0 where
  incremented : String → Labels → Operation
  observed : String → ℕ → Labels → Operation
  gauge_set : String → ℕ → Labels → Operation

-- The newest comes first.
abbrev pub recording : MetricsPort
recording = record {
  State = List Operation;
  inc_counter = λ n l s. incremented n l ∷ s;
  observe_histogram = λ n v l s. observed n v l ∷ s;
  set_gauge = λ n v l s. gauge_set n v l ∷ s;
}

module _ (p : MetricsPort) where
  abbrev pub apply : Operation → p.State → p.State
  apply (incremented name labels) = p.inc_counter name labels
  apply (observed name value labels) = p.observe_histogram name value labels
  apply (gauge_set name value labels) = p.set_gauge name value labels

  unfoldable pub replay : List Operation → p.State → p.State
  replay [] s = s
  replay (op ∷ ops) s = apply op (replay ops s)
