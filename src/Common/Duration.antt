-- ===== src/Common/Duration.antt =====
-- `time.ParseDuration`. The fraction of a part is cut to whole nanoseconds exactly, where Go computes
-- it with floats.
pub mod Fuel
pub mod Print
use Prim.Native.Nat.{ℕ, zero, suc, ◌+◌, ◌-◌, ◌*◌, ◌/◌, ◌^◌}
use Prim.Native.String.{String, ◌++◌ as ◌++ˢ◌}
use mathlib.Core.Path.{◌≡◌, refl, sym, ap, ◌∙◌}
use mathlib.Core.Logic.{inl, inr}
use mathlib.Core.Bool.{Bool, true, false, not, ◌&&◌, ◌||◌}
use mathlib.Core.Option.{Option, none, some}
use mathlib.Core.List.{List, [], ◌∷◌, ◌++◌}
use native.Mathlib.Omega.{arith}
use trading_ecosystem_exchan.Common.Tests.{
  leb, ltb, eqb, if◌then◌else◌, length, Bool-cases, Option-cases,
}
use trading_ecosystem_exchan.Common.Int.{ℤ, pos, negsuc}
use trading_ecosystem_exchan.Common.Number.{is_digit}
use trading_ecosystem_exchan.Common.Text.{codes}

-- digits to a number below 2^63 + 1, and what is left of the text
unfoldable pub leading_int : ℕ → List ℕ → Option (ℕ × List ℕ)
leading_int n [] = some (n, [])
leading_int n (c ∷ cs) =
    let next = n * 10 + (c - b'0') in
    let rest = leading_int next cs in
    if is_digit c
    then (if ltb (2 ^ 63 / 10) n || ltb (2 ^ 63) next then none else rest)
    else some (n, c ∷ cs)

pub record Fraction : Type 0 where
  pub value : ℕ
  pub scale : ℕ
  pub rest : List ℕ

-- digits after the point, of which those that 63 bits do not hold are skipped
unfoldable pub leading_fraction : ℕ → ℕ → Bool → List ℕ → Fraction
leading_fraction f scale over [] = record { value = f; scale = scale; rest = [] }
leading_fraction f scale over (c ∷ cs) =
    let next = f * 10 + (c - b'0') in
    let full = over || ltb ((2 ^ 63 - 1) / 10) f || ltb (2 ^ 63) next in
    let rest =
      leading_fraction (if full then f else next) (if full then scale else scale * 10) full cs in
    if is_digit c then rest else record { value = f; scale = scale; rest = c ∷ cs }

-- the name of a unit ends at a point or a digit
unfoldable pub leading_unit : List ℕ → List ℕ × List ℕ
leading_unit [] = ([], [])
leading_unit (c ∷ cs) =
    let (name, rest) = leading_unit cs in
    if eqb c b'.' || is_digit c then ([], c ∷ cs) else (c ∷ name, rest)

abbrev pub same_codes : List ℕ → List ℕ → Bool
same_codes [] [] = true
same_codes (a ∷ as') (b ∷ bs) = eqb a b && same_codes as' bs
same_codes _ _ = false

-- `unitMap`, with both ways to write a micro sign
unfoldable pub unit_of : List ℕ → Option ℕ
unit_of name =
    if same_codes name (b'n' ∷ b's' ∷ [])
    then some 1
    else if same_codes name (b'u' ∷ b's' ∷ [])
        || same_codes name (0xb5 ∷ b's' ∷ [])
        || same_codes name (0x3bc ∷ b's' ∷ [])
    then some 1_000
    else if same_codes name (b'm' ∷ b's' ∷ [])
    then some 1_000_000
    else if same_codes name (b's' ∷ [])
    then some 1_000_000_000
    else if same_codes name (b'm' ∷ [])
    then some 60_000_000_000
    else if same_codes name (b'h' ∷ [])
    then some 3_600_000_000_000
    else none

-- the fraction after a point, and whether it has digits
abbrev pub point : List ℕ → Bool × Fraction
point [] = (false, record { value = 0; scale = 1; rest = [] })
point (c ∷ cs) =
    if eqb c b'.'
    then (let f = leading_fraction 0 1 false cs in (not (eqb (length f.rest) (length cs)), f))
    else (false, record { value = 0; scale = 1; rest = c ∷ cs })

-- a number and its unit, below 2^63 + 1 nanoseconds
abbrev pub amount : ℕ → Fraction → ℕ → Option ℕ
amount n f unit =
    let whole = n * unit in
    let sum = whole + f.value * unit / f.scale in
    if ltb (2 ^ 63 / unit) n
    then none
    else if ltb 0 f.value
    then (if ltb (2 ^ 63) sum then none else some sum)
    else some whole

abbrev pub with_unit : ℕ → Fraction → List ℕ × List ℕ → Option (ℕ × List ℕ)
with_unit n f ([], rest) = none
with_unit n f (name, rest) = elim (unit_of name) [
  | none ↦ none
  | some unit ↦ elim (amount n f unit) [ none ↦ none | some d ↦ some (d, rest) ]
]

abbrev pub with_point : List ℕ → ℕ × List ℕ → Option (ℕ × List ℕ)
with_point before (n, cs) =
    let (post, f) = point cs in
    let pre = not (eqb (length cs) (length before)) in
    if pre || post then with_unit n f (leading_unit f.rest) else none

-- one part of a duration, such as `1.5h`
unfoldable pub part : List ℕ → Option (ℕ × List ℕ)
part [] = none
part (c ∷ cs) =
    if eqb c b'.' || is_digit c
    then elim (leading_int 0 (c ∷ cs)) [ none ↦ none | some x ↦ with_point (c ∷ cs) x ]
    else none

-- The parts of a text, added up. Each has a character at least, so that the length of the text is
-- fuel enough.
unfoldable pub parts : ℕ → ℕ → List ℕ → Option ℕ
parts fuel d [] = some d
parts zero d (c ∷ cs) = none
parts (suc fuel) d (c ∷ cs) = elim (part (c ∷ cs)) [
  | none ↦ none
  | some (v, rest) ↦ elim (ltb (2 ^ 63) (d + v)) [ true ↦ none | false ↦ parts fuel (d + v) rest ]
]

abbrev pub to_duration : Bool → Option ℕ → Option ℤ
to_duration neg none = none
to_duration true (some zero) = some (pos 0)
to_duration true (some (suc d)) = some (negsuc d)
to_duration false (some d) = if ltb (2 ^ 63 - 1) d then none else some (pos d)

abbrev pub unsigned_duration : Bool → List ℕ → Option ℤ
unsigned_duration neg [] = none
unsigned_duration neg (c ∷ cs) =
    if same_codes (c ∷ cs) (b'0' ∷ [])
    then some (pos 0)
    else to_duration neg (parts (length (c ∷ cs)) 0 (c ∷ cs))

abbrev pub signed_duration : List ℕ → Option ℤ
signed_duration [] = none
signed_duration (c ∷ cs) =
    if eqb c b'-'
    then unsigned_duration true cs
    else if eqb c b'+'
    then unsigned_duration false cs
    else unsigned_duration false (c ∷ cs)

unfoldable pub parse_duration : String → Option ℤ
parse_duration s = signed_duration (codes s)

methods : Unit {0}
unfolding parse_duration parts part leading_int leading_fraction leading_unit unit_of codes
methods = tt

five_seconds : parse_duration "5s" ≡ some (pos 5_000_000_000)
unfolding methods
five_seconds = refl

several_parts : parse_duration "-1h2.5m3us" ≡ some (negsuc 3_750_000_002_999)
unfolding methods
several_parts = refl

no_unit : parse_duration "90" ≡ none
unfolding methods
no_unit = refl

only_zero : parse_duration "0" ≡ some (pos 0)
unfolding methods
only_zero = refl

too_long : parse_duration "2562048h" ≡ none
unfolding methods
too_long = refl
