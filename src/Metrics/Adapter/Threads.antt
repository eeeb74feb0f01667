-- ===== src/Metrics/Adapter/Threads.antt =====
-- Requests are served by goroutines that share one adapter: the two locked sections of
-- `getOrCreateCounter` and its like, in any order.
use trading_ecosystem_exchan.Common.{
  ℕ, ◌≡◌, inl, inr, String, Option, none, some, Result, ok, err, arith, eqb, if◌then◌else◌,
  Bool-cases,
}
use trading_ecosystem_exchan.Common.Assoc.{lookup}
use trading_ecosystem_exchan.Metrics.Port.{Labels}
use trading_ecosystem_exchan.Metrics.Prometheus.{Kind, counter, histogram, gauge, Prometheus}
use trading_ecosystem_exchan.Metrics.Adapter.{
  PrometheusMetricsAdapter, Panic, new_prometheus_metrics_adapter, table, fast_path, slow_path,
  record_in,
}
use trading_ecosystem_exchan.Metrics.Adapter.Tables.{slow_path_keeps, slow_path_returns}

-- Where a goroutine stands: outside, between the two locks, or with the vector that it was given.
pub data Pc (p : Prometheus) : Type 0 where
  outside panicked : Pc p
  missed : Kind → String → Labels → Pc p
  holds : Kind → String → p.Vec → Pc p

pub record System (p : Prometheus) : Type 0 where
  pub adapter : PrometheusMetricsAdapter p
  pub pc : ℕ → Pc p

abbrev pub at_start : (p : Prometheus) → Labels → System p
at_start p constant_labels = record {
  adapter = new_prometheus_metrics_adapter p constant_labels;
  pc = λ i. outside;
}

module _ {p : Prometheus} where
  abbrev pub move : ℕ → Pc p → (ℕ → Pc p) → ℕ → Pc p
  move i to pc j = if eqb i j then to else pc j

  abbrev looked_up : Kind → String → Labels → Option p.Vec → Pc p
  looked_up k name labels none = missed k name labels
  looked_up k name labels (some v) = holds k name v

  abbrev given : Kind → String → Result Panic p.Vec → Pc p
  given k name (ok v) = holds k name v
  given k name (err x) = panicked

  -- A goroutine reads a map under the read lock.
  unfoldable pub looks : ℕ → Kind → String → Labels → System p → System p
  unfolding fast_path
  looks i k name labels s = record s {
    pc = move i (looked_up k name labels (fast_path k name s.adapter)) s.pc;
  }

  -- One that missed runs the section of the write lock.
  unfoldable pub locks : ℕ → Kind → String → Labels → System p → System p
  locks i k name labels s =
      let (r, a) = slow_path k name labels s.adapter in
      record { adapter = a; pc = move i (given k name r) s.pc }

  -- One that holds a vector records in it.
  unfoldable pub records :
      ℕ → Labels → (p.Series → p.Registry → p.Registry) → p.Vec → System p → System p
  records i labels f v s = record {
    adapter = (record_in f labels v s.adapter).1;
    pc = move i outside s.pc;
  }

pub data Step (p : Prometheus) (s : System p) : System p → Type 0 where
  look : (i : ℕ) (k : Kind) (name : String) (labels : Labels) → Step p s (looks i k name labels s)
  lock :
      (i : ℕ) (k : Kind) (name : String) (labels : Labels)
      → s.pc i ≡ missed k name labels
      → Step p s (locks i k name labels s)
  use_vec :
      (i : ℕ) (k : Kind) (name : String) (v : p.Vec) (labels : Labels)
      (f : p.Series → p.Registry → p.Registry)
      → s.pc i ≡ holds k name v
      → Step p s (records i labels f v s)

pub data Reach (p : Prometheus) (s : System p) : System p → Type 0 where
  here : Reach p s s
  later : {t u : System p} → Reach p s t → Step p t u → Reach p s u

module _ {p : Prometheus} where
  -- Every vector that a goroutine holds is the one in the map.
  abbrev pub HoldsKept : System p → Type 0
  HoldsKept s =
      (i : ℕ) (k : Kind) (name : String) (v : p.Vec)
      → s.pc i ≡ holds k name v
      → lookup name (table k s.adapter) ≡ some v

  table-record_in :
      (j : Kind) (f : p.Series → p.Registry → p.Registry) (labels : Labels) (v : p.Vec)
      (a : PrometheusMetricsAdapter p)
      → table j (record_in f labels v a).1 ≡ table j a
  table-record_in counter f labels v a = ground arith
  table-record_in histogram f labels v a = ground arith
  table-record_in gauge f labels v a = ground arith

  Step-table :
      {s t : System p} (k : Kind) (name : String) (v : p.Vec)
      → Step p s t
      → lookup name (table k s.adapter) ≡ some v
      → lookup name (table k t.adapter) ≡ some v
  unfolding looks locks records
  Step-table k name v (look i j other labels) h = h
  Step-table {s} k name v (lock i j other labels e) h =
      slow_path_keeps j k other name labels s.adapter v h
  Step-table {s} k name v (use_vec i j other w labels f e) h =
      rw (table-record_in k f labels w s.adapter) h

  Reach-table :
      {s t : System p} (k : Kind) (name : String) (v : p.Vec)
      → Reach p s t
      → lookup name (table k s.adapter) ≡ some v
      → lookup name (table k t.adapter) ≡ some v
  Reach-table k name v here h = h
  Reach-table k name v (later r st) h = Step-table k name v st (Reach-table k name v r h)

  looked_up_kept :
      (k j : Kind) (name other : String) (labels : Labels) (v : p.Vec) (o : Option p.Vec)
      → looked_up {p = p} j other labels o ≡ holds k name v
      → (j ≡ k) × (other ≡ name) × (o ≡ some v)
  looked_up_kept k j name other labels v none h = cc
  looked_up_kept k j name other labels v (some w) h = (cc, cc, cc)

  given_kept :
      (k j : Kind) (name other : String) (v : p.Vec) (r : Result Panic p.Vec)
      → given {p = p} j other r ≡ holds k name v
      → (j ≡ k) × (other ≡ name) × (r ≡ ok v)
  given_kept k j name other v (err x) h = cc
  given_kept k j name other v (ok w) h = (cc, cc, cc)

  Step-HoldsKept : {s t : System p} → Step p s t → HoldsKept s → HoldsKept t
  unfolding looks locks records
  Step-HoldsKept {s} (look i j other labels) h m k name v e = elim (Bool-cases (eqb i m)) [
    | inl same ↦
        let (a, b, c) =
          looked_up_kept k j name other labels v (lookup other (table j s.adapter))
            (ground (arith, e, same)) in
        rw (← a, ← b) c
    | inr apart ↦ h m k name v (ground (arith, e, apart))
  ]
  Step-HoldsKept {s} (lock i j other labels q) h m k name v e = elim (Bool-cases (eqb i m)) [
    | inl same ↦
        let (a, b, c) =
          given_kept k j name other v (slow_path j other labels s.adapter).0
            (ground (arith, e, same)) in
        rw (← a, ← b) (slow_path_returns j other labels s.adapter v c)
    | inr apart ↦
        slow_path_keeps j k other name labels s.adapter v (h m k name v (ground (arith, e, apart)))
  ]
  Step-HoldsKept {s} (use_vec i j other w labels f q) h m k name v e = elim (Bool-cases (eqb i m)) [
    | inl same ↦ ground (arith, e, same)
    | inr apart ↦
        rw (table-record_in k f labels w s.adapter) (h m k name v (ground (arith, e, apart)))
  ]

  Reach-HoldsKept : {s t : System p} → Reach p s t → HoldsKept s → HoldsKept t
  Reach-HoldsKept here h = h
  Reach-HoldsKept (later r st) h = Step-HoldsKept st (Reach-HoldsKept r h)

-- Whatever the order in which goroutines look for metrics, make them and record in them: two that are
-- given a vector of the same kind and name, be it at different times, are given the same one, and it
-- is the one that the adapter keeps from then on.
pub Reach-same_vec :
    (p : Prometheus) (constant_labels : Labels) {s t : System p} (i j : ℕ) (k : Kind)
    (name : String) (v w : p.Vec)
    → Reach p (at_start p constant_labels) s
    → Reach p s t
    → s.pc i ≡ holds k name v
    → t.pc j ≡ holds k name w
    → (v ≡ w) × (lookup name (table k t.adapter) ≡ some v)
Reach-same_vec p constant_labels {s} {t} i j k name v w early late e f =
    let start : HoldsKept (at_start p constant_labels) = λ i k name v e. cc in
    let kept = Reach-HoldsKept early start in
    let old = Reach-table k name v late (kept i k name v e) in
    let new = Reach-HoldsKept late kept j k name w f in (ground (arith, old, new), old)
