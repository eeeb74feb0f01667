-- ===== src/Metrics/Adapter/Refinement.antt =====
-- The adapter does what a port that keeps exact values does, while each metric is used as one kind
-- with one set of labels.
use trading_ecosystem_exchan.Common.{
  ℕ, ◌≡◌, inl, inr, refl, ap, ◌∙◌, String, some, List, Result, ok, ◌>>=◌, >>=-ok,
}
use trading_ecosystem_exchan.Common.Assoc.{lookup, keys}
use trading_ecosystem_exchan.Metrics.Port.{Labels}
use trading_ecosystem_exchan.Metrics.Prometheus.{
  Kind, counter, histogram, gauge, Prometheus, Documented, Samples, exact,
}
use trading_ecosystem_exchan.Metrics.Adapter.{
  PrometheusMetricsAdapter, Panic, found_or, fast_path, slow_path, get_or_create, recorded,
  record_in, inc_counter, observe_histogram, set_gauge,
}
use trading_ecosystem_exchan.Metrics.Adapter.Tables.{table-registry}
use trading_ecosystem_exchan.Metrics.Adapter.Sound.{
  Schema, Fits, Entry, IsSound, IsLegal, Got, accepts-keys, create-Got,
}

module _ {p : Prometheus} (d : Documented p) (σ : Schema) (consts : Labels) where
  get_or_create-Got :
      (k : Kind) (name : String) (l : Labels) (a : PrometheusMetricsAdapter p)
      → IsLegal d σ consts
      → IsSound d σ consts a
      → Fits σ k name l
      → Got d σ consts name l a (get_or_create k name l a)
  unfolding fast_path slow_path
  get_or_create-Got k name l a legal sound fits = elim (sound.1 name k (keys l) fits.0) [
    | inl (absent, free) ↦
        rw (absent, found_or)
          (rw (absent, found_or) (create-Got d σ consts k name l a legal sound fits free))
    | inr (v, there, named, shaped) ↦ rw (there, found_or) (v, refl, named, shaped, refl, sound)
  ]

  -- A change of the registry that takes no name.
  registry-IsSound :
      (a : PrometheusMetricsAdapter p) (g : p.Registry)
      → d.taken g ≡ d.taken a.registry
      → IsSound d σ consts a
      → IsSound d σ consts (record a { registry = g })
  registry-IsSound a g same sound = (sound.0, entry)
    where
      entry :
          (n : String) (k : Kind) (ns : List String)
          → σ n ≡ some (k, ns)
          → Entry d (record a { registry = g }) n k ns
      entry n k ns e =
          let unmoved = ap (lookup n) (table-registry k g a) in
          elim (sound.1 n k ns e) [
            | inl (absent, free) ↦ inl (unmoved ∙ absent, (λ i. same i n) ∙ free)
            | inr (v, there, named, shaped) ↦ inr (v, unmoved ∙ there, named, shaped)
          ]

  -- What a call on the adapter does: it returns, and changes the values as a given function says.
  abbrev pub Does :
      (Samples → Samples)
      → PrometheusMetricsAdapter p
      → Result Panic (Unit {0}) × PrometheusMetricsAdapter p
      → Type 0
  Does f a (r, b) =
      (r ≡ ok tt) × (d.samples b.registry ≡ f (d.samples a.registry)) × IsSound d σ consts b

  record_in-Does :
      (f : p.Series → p.Registry → p.Registry) (F : String → Labels → Samples → Samples)
      (name : String) (l : Labels) (v : p.Vec) (a : PrometheusMetricsAdapter p)
      → ((s : p.Series) (g : p.Registry) → d.taken (f s g) ≡ d.taken g)
      → ((s : p.Series) (g : p.Registry)
          → d.samples (f s g) ≡ F (d.opts (d.vec_of s)).name (d.labels_of s) (d.samples g))
      → (d.opts v).name ≡ name
      → d.names v ≡ keys l
      → IsSound d σ consts a
      → Does (F name l) a (record_in f l v a)
  record_in-Does f F name l v a keeps adds named shaped sound =
      let (s, g, done, of_v, of_l, taken_g, samples_g) =
        d.with_labels-accepted v l a.registry (rw shaped (accepts-keys l)) in
      let named_s : (d.opts (d.vec_of s)).name ≡ name = rw of_v named in
      let recorded_s : d.samples (f s g) ≡ F name l (d.samples a.registry) =
        adds s g ∙ (λ i. F (named_s i) (of_l i) (samples_g i)) in
      rw (done, recorded) (refl, recorded_s, registry-IsSound a (f s g) (keeps s g ∙ taken_g) sound)

  call-Does :
      (k : Kind) (f : p.Series → p.Registry → p.Registry) (F : String → Labels → Samples → Samples)
      (name : String) (l : Labels) (a : PrometheusMetricsAdapter p)
      → ((s : p.Series) (g : p.Registry) → d.taken (f s g) ≡ d.taken g)
      → ((s : p.Series) (g : p.Registry)
          → d.samples (f s g) ≡ F (d.opts (d.vec_of s)).name (d.labels_of s) (d.samples g))
      → IsLegal d σ consts
      → IsSound d σ consts a
      → Fits σ k name l
      → Does (F name l) a ((get_or_create k name l >>= record_in f l) a)
  call-Does k f F name l a keeps adds legal sound fits =
      let (v, found, named, shaped, same, sound_b) =
        get_or_create-Got k name l a legal sound fits in
      let b = (get_or_create k name l a).1 in
      let (done, samples_c, sound_c) =
        record_in-Does f F name l v b keeps adds named shaped sound_b in
      rw (>>=-ok (get_or_create k name l) (record_in f l) a v found)
        (done, samples_c ∙ ap (F name l) same, sound_c)

  -- The three operations of the port.
  pub inc_counter-Does :
      (name : String) (l : Labels) (a : PrometheusMetricsAdapter p)
      → IsLegal d σ consts
      → IsSound d σ consts a
      → Fits σ counter name l
      → Does (exact.inc_counter name l) a (inc_counter name l a)
  unfolding inc_counter
  inc_counter-Does name l a =
      call-Does counter p.inc exact.inc_counter name l a d.taken-inc d.samples-inc

  pub observe_histogram-Does :
      (name : String) (x : ℕ) (l : Labels) (a : PrometheusMetricsAdapter p)
      → IsLegal d σ consts
      → IsSound d σ consts a
      → Fits σ histogram name l
      → Does (exact.observe_histogram name x l) a (observe_histogram name x l a)
  unfolding observe_histogram
  observe_histogram-Does name x l a =
      call-Does histogram (λ s. p.observe s x) (λ n. exact.observe_histogram n x) name l a
        (λ s. d.taken-observe s x) (λ s. d.samples-observe s x)

  pub set_gauge-Does :
      (name : String) (x : ℕ) (l : Labels) (a : PrometheusMetricsAdapter p)
      → IsLegal d σ consts
      → IsSound d σ consts a
      → Fits σ gauge name l
      → Does (exact.set_gauge name x l) a (set_gauge name x l a)
  unfolding set_gauge
  set_gauge-Does name x l a =
      call-Does gauge (λ s. p.set s x) (λ n. exact.set_gauge n x) name l a (λ s. d.taken-set s x)
        (λ s. d.samples-set s x)
