-- ===== src/Common/Duration/Fuel.antt =====
-- The loop of `ParseDuration` ends: each part takes a character at least.
use trading_ecosystem_exchan.Common.Tests.{eqb, length, Bool-cases, Option-cases}
use Prim.Native.Nat.{ℕ, zero, suc, ◌+◌, ◌-◌, ◌*◌, ◌≤◌, ◌<◌}
use mathlib.Core.Path.{◌≡◌, refl}
use mathlib.Core.Logic.{inl, inr}
use mathlib.Core.Bool.{Bool, false, ◌||◌}
use mathlib.Core.Option.{some}
use mathlib.Core.List.{List, [], ◌∷◌}
use native.Mathlib.Omega.{arith}
use trading_ecosystem_exchan.Common.Number.{is_digit}
use trading_ecosystem_exchan.Common.Duration.{
  leading_int, Fraction, leading_fraction, leading_unit, point, with_unit, with_point, part, parts,
}

leading_int-le :
    (n m : ℕ) (cs rest : List ℕ) → leading_int n cs ≡ some (m, rest) → length rest ≤ length cs
unfolding leading_int
leading_int-le n m [] rest h = ground arith
leading_int-le n m (c ∷ cs) rest h = ground (arith, leading_int-le (n * 10 + (c - b'0')) m cs rest)

le_step : {m n : ℕ} → m ≤ n → m ≤ suc n
le_step h = omega arith

leading_fraction-le :
    (cs : List ℕ) (f scale : ℕ) (over : Bool)
    → length (leading_fraction f scale over cs).rest ≤ length cs
unfolding leading_fraction
leading_fraction-le [] f scale over = omega arith
leading_fraction-le (c ∷ cs) f scale over = elim (Bool-cases (is_digit c)) [
  | inl e ↦ rw e (le_step (leading_fraction-le cs _ _ _))
  | inr e ↦ rw e (omega arith)
]

leading_unit-length :
    (cs : List ℕ) → length (leading_unit cs).0 + length (leading_unit cs).1 ≡ length cs
unfolding leading_unit
leading_unit-length [] = omega arith
leading_unit-length (c ∷ cs) = ground (arith, leading_unit-length cs)

point-le : (cs : List ℕ) → length (point cs).1.rest ≤ length cs
point-le [] = omega arith
point-le (c ∷ cs) = ground (arith, leading_fraction-le cs 0 1 false)

with_unit-lt :
    (n v : ℕ) (f : Fraction) (u : List ℕ × List ℕ) (rest : List ℕ)
    → with_unit n f u ≡ some (v, rest)
    → length rest < length u.0 + length u.1
with_unit-lt n v f ([], r) rest h = cc
with_unit-lt n v f (c ∷ cs, r) rest h = ground arith

part-lt : (cs rest : List ℕ) (v : ℕ) → part cs ≡ some (v, rest) → length rest < length cs
unfolding part
part-lt [] rest v h = cc
part-lt (c ∷ cs) rest v h = elim (Bool-cases (eqb c b'.' || is_digit c)) [
  | inr e ↦ ground (arith, h, e)
  | inl e ↦ elim (Option-cases (leading_int 0 (c ∷ cs))) [
    | inl q ↦ ground (arith, h, e, q)
    | inr ((n, r), q) ↦
        let u = leading_unit (point r).1.rest in
        let found : with_point (c ∷ cs) (n, r) ≡ some (v, rest) = ground (arith, h, e, q) in
        let named : with_unit n (point r).1 u ≡ some (v, rest) = ground (arith, found) in
        omega (
          arith,
          with_unit-lt n v (point r).1 u rest named,
          leading_unit-length (point r).1.rest,
          point-le r,
          leading_int-le 0 n (c ∷ cs) r q,
        )
  ]
]

-- A round of fuel more than there are characters changes nothing.
pub parts-fuel :
    (fuel d : ℕ) (cs : List ℕ) → length cs ≤ fuel → parts (suc fuel) d cs ≡ parts fuel d cs
unfolding parts
parts-fuel fuel d [] h = refl
parts-fuel zero d (c ∷ cs) h = absurd (omega arith)
parts-fuel (suc fuel) d (c ∷ cs) h = elim (Option-cases (part (c ∷ cs))) [
  | inl e ↦ rw (e, parts)
  | inr ((v, rest), e) ↦
      let shorter : length rest ≤ fuel = omega (arith, part-lt (c ∷ cs) rest v e) in
      ground (arith, e, parts-fuel fuel (d + v) rest shorter)
]
