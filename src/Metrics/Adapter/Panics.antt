-- ===== src/Metrics/Adapter/Panics.antt =====
-- The calls of the adapter that panic.
use trading_ecosystem_exchan.Common.{
  ◌≤◌, ◌<◌, ◌≡◌, refl, ap, ◌∙◌, String, Bool, true, false, ◌||◌, none, some, [], ◌∷◌, ok, err,
  >>=-returned, arith, length,
}
use trading_ecosystem_exchan.Common.Assoc.{lookup, keys, lookup-insert_self}
use trading_ecosystem_exchan.Metrics.Port.{Labels}
use trading_ecosystem_exchan.Metrics.Prometheus.{Kind, counter, Prometheus, Documented, accepts}
use trading_ecosystem_exchan.Metrics.Adapter.{
  PrometheusMetricsAdapter, wrong_labels, is_constant, extract_label_names, table, create, store,
  found_or, fast_path, slow_path, get_or_create, recorded, record_in, inc_counter,
}
use trading_ecosystem_exchan.Metrics.Adapter.Sound.{create-Made}

-- One of the labels has the name of a constant label.
abbrev pub has_constant : Labels → Bool
has_constant [] = false
has_constant ((name, value) ∷ l) = is_constant name || has_constant l

length-extract_label_names : (l : Labels) → length (extract_label_names l) ≤ length l
unfolding extract_label_names
length-extract_label_names [] = omega arith
length-extract_label_names ((name, value) ∷ l) = ground (arith, length-extract_label_names l)

extract_label_names_drops :
    (l : Labels) → has_constant l ≡ true → length (extract_label_names l) < length l
unfolding extract_label_names
extract_label_names_drops [] h = cc
extract_label_names_drops ((name, value) ∷ l) h =
    ground (arith, length-extract_label_names l, extract_label_names_drops l)

accepts-extract_label_names :
    (l : Labels) → has_constant l ≡ true → accepts (extract_label_names l) l ≡ false
unfolding accepts
accepts-extract_label_names l h = ground (arith, extract_label_names_drops l h)

module _ {p : Prometheus} (d : Documented p) where
  record_in-refused :
      (f : p.Series → p.Registry → p.Registry) (l : Labels) (v : p.Vec)
      (a : PrometheusMetricsAdapter p)
      → accepts (d.names v) l ≡ false
      → record_in f l v a ≡ (err wrong_labels, a)
  record_in-refused f l v a h = ap (recorded f a) (d.with_labels-refused v l a.registry h)

  get_or_create-absent :
      (k : Kind) (name : String) (l : Labels) (a : PrometheusMetricsAdapter p)
      → lookup name (table k a) ≡ none
      → get_or_create k name l a ≡ create k name l a
  unfolding fast_path slow_path
  get_or_create-absent k name l a h = rw (h, found_or) (rw (h, found_or))

  get_or_create-present :
      (k : Kind) (name : String) (l : Labels) (v : p.Vec) (a : PrometheusMetricsAdapter p)
      → lookup name (table k a) ≡ some v
      → get_or_create k name l a ≡ (ok v, a)
  unfolding fast_path
  get_or_create-present k name l v a h = rw (h, found_or)

  -- `IncCounter` of a new name that may be registered, with a label called service, instance or
  -- version, makes the counter without that label and panics in `With`; the counter stays, so that
  -- the same call panics again.
  pub inc_counter-constant :
      (name : String) (l : Labels) (a : PrometheusMetricsAdapter p)
      → lookup name a.counters ≡ none
      → d.taken a.registry name ≡ false
      → d.legal name (keys a.constant_labels) (extract_label_names l) ≡ true
      → has_constant l ≡ true
      → let (r, b) = inc_counter name l a in
        (r ≡ err wrong_labels) × (inc_counter name l b ≡ (err wrong_labels, b))
  unfolding inc_counter
  inc_counter-constant name l a absent free legal constant =
      let (v, g, made, named, shaped, _, _) = create-Made d counter name l a free legal in
      let b = store counter name v (record a { registry = g }) in
      let refused : accepts (d.names v) l ≡ false =
        rw shaped (accepts-extract_label_names l constant) in
      let stored : lookup name b.counters ≡ some v = lookup-insert_self name v a.counters in
      let first : inc_counter name l a ≡ (err wrong_labels, b) =
        >>=-returned (get_or_create counter name l) (record_in p.inc l) a b v
          (get_or_create-absent counter name l a absent ∙ made)
        ∙ record_in-refused p.inc l v b refused in
      let second : inc_counter name l b ≡ (err wrong_labels, b) =
        >>=-returned (get_or_create counter name l) (record_in p.inc l) b b v
          (get_or_create-present counter name l v b stored)
        ∙ record_in-refused p.inc l v b refused in
      rw first (refl, second)
