-- ===== src/Common/Assoc.antt =====
-- Go's `map[string]V` as an association list. The program ranges over a map, in Go's unspecified
-- order, to close connections and to list the names of labels, which Prometheus takes as a set; here
-- the order is that of insertion.
pub mod Size
use Prim.Native.String.{String}
use mathlib.Core.Path.{◌≡◌, refl}
use mathlib.Core.Bool.{Bool}
use mathlib.Core.Option.{Option, none, some}
use mathlib.Core.List.{List, [], ◌∷◌, map}
use native.Mathlib.Omega.{arith}
use text.Mathlib.Text.{◌==◌}
use text.Mathlib.TextEquality.{eq_iff}
use text.Mathlib.TextPositions.{eq_refl}
use trading_ecosystem_exchan.Common.Tests.{if◌then◌else◌}

abbrev pub Map {ℓ} : Type ℓ → Type ℓ
Map V = List (String × V)

module _ {ℓ} {V : Type ℓ} where
  -- `v, exists := m[k]`
  unfoldable pub lookup : String → Map V → Option V
  lookup name [] = none
  lookup name (entry ∷ others) = if entry.0 == name then some entry.1 else lookup name others

  -- `m[k] = v`
  unfoldable pub insert : String → V → Map V → Map V
  insert name new [] = (name, new) ∷ []
  insert name new (entry ∷ others) =
      let rest = insert name new others in
      if entry.0 == name then (name, new) ∷ others else entry ∷ rest

  -- `delete(m, k)`
  unfoldable pub delete : String → Map V → Map V
  delete name [] = []
  delete name (entry ∷ others) =
      let rest = delete name others in if entry.0 == name then rest else entry ∷ rest

  abbrev pub keys : Map V → List String
  keys = map (λ e. e.0)

  pub lookup-insert :
      (name other : String) (new : V) (m : Map V)
      → lookup other (insert name new m) ≡ (if name == other then some new else lookup other m)
  unfolding lookup insert
  lookup-insert name other new [] = refl
  lookup-insert name other new (entry ∷ others) =
      let same = eq_iff name other in
      ground (
        arith,
        same,
        eq_iff entry.0 other,
        eq_iff entry.0 name,
        lookup-insert name other new others,
      )

  pub lookup-delete :
      (name other : String) (m : Map V)
      → lookup other (delete name m) ≡ (if name == other then none else lookup other m)
  unfolding lookup delete
  lookup-delete name other [] = ground arith
  lookup-delete name other (entry ∷ others) =
      let same = eq_iff name other in
      ground
        (arith, same, eq_iff entry.0 other, eq_iff entry.0 name, lookup-delete name other others)

module _ {ℓ} {V : Type ℓ} where
  pub lookup-insert_self : (k : String) (v : V) (m : Map V) → lookup k (insert k v m) ≡ some v
  lookup-insert_self k v m = simp (lookup-insert, eq_refl)

  pub lookup-delete_self : (k : String) (m : Map V) → lookup k (delete k m) ≡ none
  lookup-delete_self k m = simp (lookup-delete, eq_refl)

pub ruleset map_laws = (lookup-insert, lookup-delete)
