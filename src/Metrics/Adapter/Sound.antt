-- ===== src/Metrics/Adapter/Sound.antt =====
-- A table of metrics, and the states of the adapter that agree with it.
use trading_ecosystem_exchan.Common.{
  ◌≡◌, ◌⊎◌, inl, inr, refl, ap, ◌∙◌, String, Bool, true, false, ◌||◌, Option, none, some, List, [],
  ◌∷◌, Result, ok, arith, ◌==◌, eq_iff, length, Option-cases, Bool-cases,
}
use trading_ecosystem_exchan.Common.Assoc.{lookup, keys}
use trading_ecosystem_exchan.Metrics.Port.{Labels}
use trading_ecosystem_exchan.Metrics.Prometheus.{
  Kind, Opts, Prometheus, Documented, accepts, all_given,
}
use trading_ecosystem_exchan.Metrics.Adapter.{
  PrometheusMetricsAdapter, Panic, table, store, extract_label_names, opts_of, create, registered,
}
use trading_ecosystem_exchan.Metrics.Adapter.Tables.{
  same_kind_refl, table-store, constant_labels-store, registry-store, table-registry,
}

-- The metrics that a program uses: the kind of each, and the names of its labels.
abbrev pub Schema : Type 0
Schema = String → Option (Kind × List String)

-- The labels name those of the metric, and none of the three constant ones.
abbrev pub Fits : Schema → Kind → String → Labels → Type 0
Fits σ k name l = (σ name ≡ some (k, keys l)) × (extract_label_names l ≡ keys l)

all_given-cons :
    (names : List String) (name value : String) (l : Labels)
    → all_given names l ≡ true
    → all_given names ((name, value) ∷ l) ≡ true
unfolding lookup
all_given-cons [] name value l h = refl
all_given-cons (n ∷ names) name value l h = elim (Option-cases (lookup n l)) [
  | inl e ↦ ground (arith, h, e)
  | inr (v, e) ↦ ground (arith, h, e, all_given-cons names name value l)
]

all_given-keys : (l : Labels) → all_given (keys l) l ≡ true
unfolding lookup
all_given-keys [] = refl
all_given-keys ((name, value) ∷ l) =
    ground (arith, eq_iff name name, all_given-cons (keys l) name value l (all_given-keys l))

length-keys : (l : Labels) → length (keys l) ≡ length l
length-keys [] = refl
length-keys (entry ∷ l) = ap (λ n. n) (omega (arith, length-keys l))

-- A set of labels is accepted where its own names are asked for.
pub accepts-keys : (l : Labels) → accepts (keys l) l ≡ true
unfolding accepts
accepts-keys l = ground (arith, length-keys l, all_given-keys l)

module _ {p : Prometheus} (d : Documented p) where
  -- The metric of this name is not there and its name is free, or it is there as the table has it.
  abbrev pub Entry : PrometheusMetricsAdapter p → String → Kind → List String → Type 0
  Entry a name k ns =
      ((lookup name (table k a) ≡ none) × (d.taken a.registry name ≡ false))
      ⊎ ((v : p.Vec) × (lookup name (table k a) ≡ some v)
          × ((d.opts v).name ≡ name)
          × (d.names v ≡ ns))

  abbrev pub IsSound : Schema → Labels → PrometheusMetricsAdapter p → Type 0
  IsSound σ consts a =
      (a.constant_labels ≡ consts)
      × ((name : String) (k : Kind) (ns : List String) → σ name ≡ some (k, ns) → Entry a name k ns)

  -- Every metric of the table may be registered with these constant labels.
  abbrev pub IsLegal : Schema → Labels → Type 0
  IsLegal σ consts =
      (name : String) (k : Kind) (ns : List String)
      → σ name ≡ some (k, ns)
      → d.legal name (keys consts) ns ≡ true

  -- What a successful look for a vector gives.
  abbrev pub Got :
      Schema
      → Labels
      → String
      → Labels
      → PrometheusMetricsAdapter p
      → Result Panic p.Vec × PrometheusMetricsAdapter p
      → Type 0
  Got σ consts name l a (r, b) =
      (v : p.Vec) × (r ≡ ok v)
      × ((d.opts v).name ≡ name)
      × (d.names v ≡ keys l)
      × (d.samples b.registry ≡ d.samples a.registry)
      × IsSound σ consts b

-- A new vector, once the registry takes it.
create_lem :
    {p : Prometheus} (k : Kind) (name : String) (l : Labels) (a : PrometheusMetricsAdapter p)
    (g : p.Registry)
    → let (v, g0) = p.new_vec (opts_of k name a) (extract_label_names l) a.registry in
      p.must_register v g0 ≡ some g
      → create k name l a ≡ (ok v, store k name v (record a { registry = g }))
unfolding create
create_lem {p} k name l a g h =
    let (v, g0) = p.new_vec (opts_of k name a) (extract_label_names l) a.registry in
    ap (registered k name v (record a { registry = g0 })) h

module _ {p : Prometheus} (d : Documented p) where
  -- A free name that may be registered is registered, with the labels that are not constant.
  abbrev pub Made : Kind → String → Labels → PrometheusMetricsAdapter p → Type 0
  Made k name l a =
      (v : p.Vec) × (g : p.Registry) × (create k name l a
        ≡ (ok v, store k name v (record a { registry = g })))
      × ((d.opts v).name ≡ name)
      × (d.names v ≡ extract_label_names l)
      × (d.taken g ≡ (λ n. (name == n) || d.taken a.registry n))
      × (d.samples g ≡ d.samples a.registry)

  pub create-Made :
      (k : Kind) (name : String) (l : Labels) (a : PrometheusMetricsAdapter p)
      → d.taken a.registry name ≡ false
      → d.legal name (keys a.constant_labels) (extract_label_names l) ≡ true
      → Made k name l a
  create-Made k name l a free legal =
      let o = opts_of k name a in
      let ns = extract_label_names l in
      let v = (p.new_vec o ns a.registry).0 in
      let g = (p.new_vec o ns a.registry).1 in
      let opts_v : d.opts v ≡ o = d.opts-new_vec o ns a.registry in
      let names_v : d.names v ≡ ns = d.names-new_vec o ns a.registry in
      let taken_g = d.taken-new_vec o ns a.registry in
      let free_g : d.taken g (d.opts v).name ≡ false = rw (opts_v, taken_g) free in
      let legal_v : d.legal (d.opts v).name (keys (d.opts v).const_labels) (d.names v) ≡ true =
        rw (opts_v, names_v) legal in
      let (g', done, taken', samples') = d.must_register-free v g free_g legal_v in
      let named_v : (d.opts v).name ≡ name = ap (λ (x : Opts). x.name) opts_v in
      (
        v,
        g',
        create_lem k name l a g' done,
        named_v,
        names_v,
        taken' ∙ (λ i n. (named_v i == n) || taken_g i n),
        samples' ∙ d.samples-new_vec o ns a.registry,
      )

module _ {p : Prometheus} (d : Documented p) (σ : Schema) (consts : Labels) where
  -- The state after a vector was registered and stored.
  store-IsSound :
      (k : Kind) (name : String) (ns : List String) (v : p.Vec) (a b : PrometheusMetricsAdapter p)
      → IsSound d σ consts a
      → σ name ≡ some (k, ns)
      → (d.opts v).name ≡ name
      → d.names v ≡ ns
      → b.constant_labels ≡ consts
      → ((j : Kind) → table j b ≡ table j a)
      → d.taken b.registry ≡ (λ n. (name == n) || d.taken a.registry n)
      → IsSound d σ consts (store k name v b)
  store-IsSound k name ns v a b (_, h) fits named shaped consts_b tables names =
      (constant_labels-store k name v b ∙ consts_b, entry)
    where
      entry :
          (n : String) (j : Kind) (ms : List String)
          → σ n ≡ some (j, ms)
          → Entry d (store k name v b) n j ms
      entry n j ms e = elim (Bool-cases (name == n)) [
        | inl same ↦
            let q : name ≡ n = ground (arith, eq_iff name n, same) in
            let kj : k ≡ j = cc in
            let found : lookup n (table j (store k name v b)) ≡ some v =
              ground (arith, table-store k j name n v b, same, kj, same_kind_refl j) in
            inr (v, found, named ∙ q, cc)
        | inr apart ↦
            let unmoved : lookup n (table j (store k name v b)) ≡ lookup n (table j a) =
              ground (arith, table-store k j name n v b, apart, tables j) in
            let taken_n : d.taken (store k name v b).registry n ≡ d.taken a.registry n =
              ground
                (arith, registry-store k name v b, ap (λ (t : String → Bool). t n) names, apart) in
            elim (h n j ms e) [
              | inl (absent, free) ↦ inl (unmoved ∙ absent, taken_n ∙ free)
              | inr (w, there, named_w, shaped_w) ↦ inr (w, unmoved ∙ there, named_w, shaped_w)
            ]
      ]

  pub create-Got :
      (k : Kind) (name : String) (l : Labels) (a : PrometheusMetricsAdapter p)
      → IsLegal d σ consts
      → IsSound d σ consts a
      → Fits σ k name l
      → d.taken a.registry name ≡ false
      → Got d σ consts name l a (create k name l a)
  create-Got k name l a legal sound (fits, bare) free =
      let legal_l : d.legal name (keys a.constant_labels) (extract_label_names l) ≡ true =
        rw (bare, sound.0) (legal name k (keys l) fits) in
      let (v, g, made, named, shaped, taken_g, same) = create-Made d k name l a free legal_l in
      let b : PrometheusMetricsAdapter p = record a { registry = g } in
      rw made (
        v,
        refl,
        named,
        shaped ∙ bare,
        ap d.samples (registry-store k name v b) ∙ same,
        store-IsSound k name (keys l) v a b sound fits named (shaped ∙ bare) sound.0
            (λ j. table-registry j g a) taken_g,
      )
