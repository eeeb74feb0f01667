-- ===== src/Metrics/Port.antt =====
-- internal/domain/ports/metrics.go.
use trading_ecosystem_exchan.Common.{
  ℕ, ◌≡◌, String, Bool, true, false, ◌&&◌, Option, none, some, inl, inr, refl, Bool-cases, ap, sym,
  ◌∙◌, [], ◌∷◌, arith, ◌==◌, eq_iff, if◌then◌else◌,
}
use trading_ecosystem_exchan.Common.Assoc.{Map, lookup, insert, lookup-insert}

abbrev pub Labels : Type 0
Labels = Map String

-- Two sets of labels that give each of their names the same value.
abbrev pub agrees : Labels → Labels → Bool
agrees [] l = true
agrees ((name, value) ∷ others) l =
    let rest = agrees others l in
    elim (lookup name l) [ none ↦ false | some other ↦ (other == value) && rest ]

abbrev pub same_labels : Labels → Labels → Bool
same_labels k l = agrees k l && agrees l k

-- `MetricsPort` without its HTTP handler. A duration is given in nanoseconds where the code converts
-- it to seconds.
pub record MetricsPort : Type 1 where
  pub State : Type 0
  pub inc_counter : String → Labels → State → State
  pub observe_histogram : String → ℕ → Labels → State → State
  pub set_gauge : String → ℕ → Labels → State → State

pub record MetricsLabels : Type 0 where
  pub service : String
  pub instance_name : String
  pub version : String
  pub method : String
  pub route : String
  pub code : String

-- one `if` of `ToMap`
unfoldable pub add_label : String → String → Labels → Labels
add_label name value labels = if value == "" then labels else insert name value labels

-- `ToMap`
unfoldable pub to_map : MetricsLabels → Labels
to_map l = add_label "code" l.code (
    add_label "route" l.route (
      add_label "method" l.method (
        add_label "version" l.version
          (add_label "instance" l.instance_name (add_label "service" l.service [])))))

-- `ConstantLabels`
unfoldable pub constant_labels : MetricsLabels → Labels
constant_labels l =
    ("service", l.service) ∷ ("instance", l.instance_name) ∷ ("version", l.version) ∷ []

abbrev pub nonempty : String → Option String
nonempty value = if value == "" then none else some value

-- What a label's name stands for: its value, if there is one that is not empty.
abbrev pub label_value : String → MetricsLabels → Option String
label_value name l =
    if "code" == name
    then nonempty l.code
    else if "route" == name
    then nonempty l.route
    else if "method" == name
    then nonempty l.method
    else if "version" == name
    then nonempty l.version
    else if "instance" == name
    then nonempty l.instance_name
    else if "service" == name
    then nonempty l.service
    else none

-- One more label, where the map has none of that name.
lookup-add_label :
    (name value : String) (labels : Labels) (rest : String → Option String)
    → ((o : String) → lookup o labels ≡ rest o)
    → rest name ≡ none
    → (o : String)
    → lookup o (add_label name value labels) ≡ (if name == o then nonempty value else rest o)
unfolding add_label
lookup-add_label name value labels rest h fresh o = elim (Bool-cases (name == o)) [
  | inl e ↦
      let p : name ≡ o = ground (arith, eq_iff name o) in
      let q : rest o ≡ none = ap rest (sym p) ∙ fresh in
      ground (arith, lookup-insert name o value labels, q, h o)
  | inr e ↦ ground (arith, lookup-insert name o value labels, h o)
]

-- In the map that `ToMap` makes, a name has the value of the label of that name where this value is
-- not empty, and no value otherwise.
pub lookup-to_map :
    (name : String) (l : MetricsLabels) → lookup name (to_map l) ≡ label_value name l
unfolding to_map lookup
lookup-to_map name l =
    let p1 = lookup-add_label "service" l.service [] (λ o. none) (λ o. refl) refl in
    let p2 = lookup-add_label "instance" l.instance_name _ _ p1 refl in
    let p3 = lookup-add_label "version" l.version _ _ p2 refl in
    let p4 = lookup-add_label "method" l.method _ _ p3 refl in
    let p5 = lookup-add_label "route" l.route _ _ p4 refl in
    let p6 = lookup-add_label "code" l.code _ _ p5 refl in p6 name
