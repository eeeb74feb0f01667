-- ===== src/Metrics/Adapter/Tables.antt =====
-- What each step of the adapter does to its maps.
use trading_ecosystem_exchan.Common.{
  ◌≡◌, ◌⊎◌, inl, inr, refl, String, Bool, true, false, ◌&&◌, Option, none, some, Result, ok, err,
  arith, ◌==◌, eq_iff, if◌then◌else◌, Option-cases, ◌∙◌,
}
use trading_ecosystem_exchan.Common.Assoc.{lookup, lookup-insert}
use trading_ecosystem_exchan.Metrics.Port.{Labels}
use trading_ecosystem_exchan.Metrics.Prometheus.{Kind, counter, histogram, gauge, Prometheus}
use trading_ecosystem_exchan.Metrics.Adapter.{
  PrometheusMetricsAdapter, Panic, not_registered, table, store, registered, create, found_or,
  slow_path,
}

abbrev pub same_kind : Kind → Kind → Bool
same_kind counter counter = true
same_kind histogram histogram = true
same_kind gauge gauge = true
same_kind _ _ = false

pub same_kind-eq : (k j : Kind) → same_kind k j ≡ true → k ≡ j
same_kind-eq counter counter h = refl
same_kind-eq histogram histogram h = refl
same_kind-eq gauge gauge h = refl
same_kind-eq counter histogram h = cc
same_kind-eq counter gauge h = cc
same_kind-eq histogram counter h = cc
same_kind-eq histogram gauge h = cc
same_kind-eq gauge counter h = cc
same_kind-eq gauge histogram h = cc

pub same_kind_refl : (k : Kind) → same_kind k k ≡ true
same_kind_refl counter = refl
same_kind_refl histogram = refl
same_kind_refl gauge = refl

module _ {p : Prometheus} where
  pub table-store :
      (k j : Kind) (name other : String) (v : p.Vec) (a : PrometheusMetricsAdapter p)
      → lookup other (table j (store k name v a))
        ≡ (if same_kind k j && (name == other) then some v else lookup other (table j a))
  table-store counter counter name other v a = lookup-insert name other v a.counters
  table-store counter histogram name other v a = refl
  table-store counter gauge name other v a = refl
  table-store histogram counter name other v a = refl
  table-store histogram histogram name other v a = lookup-insert name other v a.histograms
  table-store histogram gauge name other v a = refl
  table-store gauge counter name other v a = refl
  table-store gauge histogram name other v a = refl
  table-store gauge gauge name other v a = lookup-insert name other v a.gauges

  -- What a change of the registry leaves alone.
  pub table-registry :
      (j : Kind) (g : p.Registry) (a : PrometheusMetricsAdapter p)
      → table j (record a { registry = g }) ≡ table j a
  table-registry counter g a = refl
  table-registry histogram g a = refl
  table-registry gauge g a = refl

  pub constant_labels-store :
      (k : Kind) (name : String) (v : p.Vec) (a : PrometheusMetricsAdapter p)
      → (store k name v a).constant_labels ≡ a.constant_labels
  constant_labels-store counter name v a = refl
  constant_labels-store histogram name v a = refl
  constant_labels-store gauge name v a = refl

  pub registry-store :
      (k : Kind) (name : String) (v : p.Vec) (a : PrometheusMetricsAdapter p)
      → (store k name v a).registry ≡ a.registry
  registry-store counter name v a = refl
  registry-store histogram name v a = refl
  registry-store gauge name v a = refl

  -- A vector is stored under its name, or its registration panics and the maps are left alone.
  abbrev pub Stored :
      Kind
      → String
      → PrometheusMetricsAdapter p
      → Result Panic p.Vec × PrometheusMetricsAdapter p
      → Kind
      → String
      → Type 0
  Stored k name a (r, b) j other =
      ((r ≡ err not_registered) × (lookup other (table j b) ≡ lookup other (table j a)))
      ⊎ ((v : p.Vec) × (r ≡ ok v)
          × (lookup other (table j b)
              ≡ (if same_kind k j && (name == other) then some v else lookup other (table j a))))

  registered-Stored :
      (k j : Kind) (name other : String) (v : p.Vec) (a : PrometheusMetricsAdapter p)
      (o : Option p.Registry)
      → Stored k name a (registered k name v a o) j other
  registered-Stored k j name other v a none = inl (refl, refl)
  registered-Stored k counter name other v a (some g) =
      inr (v, refl, table-store k counter name other v _)
  registered-Stored k histogram name other v a (some g) =
      inr (v, refl, table-store k histogram name other v _)
  registered-Stored k gauge name other v a (some g) =
      inr (v, refl, table-store k gauge name other v _)

  pub create-Stored :
      (k j : Kind) (name other : String) (labels : Labels) (a : PrometheusMetricsAdapter p)
      → Stored k name a (create k name labels a) j other
  unfolding create
  create-Stored k counter name other labels a = registered-Stored k counter name other _ _ _
  create-Stored k histogram name other labels a = registered-Stored k histogram name other _ _ _
  create-Stored k gauge name other labels a = registered-Stored k gauge name other _ _ _

  -- No step replaces a vector that is kept.
  pub slow_path_keeps :
      (k j : Kind) (name other : String) (labels : Labels) (a : PrometheusMetricsAdapter p)
      (v : p.Vec)
      → lookup other (table j a) ≡ some v
      → lookup other (table j (slow_path k name labels a).1) ≡ some v
  unfolding slow_path
  slow_path_keeps k j name other labels a v h = elim (Option-cases (lookup name (table k a))) [
    | inr (w, e) ↦ rw (e, found_or) h
    | inl e ↦
        rw (e, found_or)
          (elim (create-Stored k j name other labels a) [
            | inl (r, q) ↦ q ∙ h
            | inr (w, r, q) ↦ ground (arith, q, h, e, eq_iff name other, same_kind-eq k j)
          ])
  ]

  -- What the slow path returns is kept under the name.
  pub slow_path_returns :
      (k : Kind) (name : String) (labels : Labels) (a : PrometheusMetricsAdapter p) (v : p.Vec)
      → (slow_path k name labels a).0 ≡ ok v
      → lookup name (table k (slow_path k name labels a).1) ≡ some v
  unfolding slow_path
  slow_path_returns k name labels a v h = elim (Option-cases (lookup name (table k a))) [
    | inr (w, e) ↦ ground (arith, e)
    | inl e ↦ elim (create-Stored k k name name labels a) [
      | inl (r, q) ↦ ground (arith, q, r, e)
      | inr (w, r, q) ↦ ground (arith, q, r, e, eq_iff name name, same_kind_refl k)
    ]
  ]
