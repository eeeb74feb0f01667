-- ===== src/Common/Json/Interface.antt =====
-- What `encoding/json` makes of a value in an `interface{}`: a number becomes a float64, which an
-- integer above 2^53 may not fit, and a number above the greatest float64 makes `Unmarshal` fail.
-- An object becomes a map, kept here as its members; of a repeated name the last one counts, also a
-- null.
use trading_ecosystem_exchan.Common.Tests.{ltb, eqb, if◌then◌else◌}
use Prim.Native.Nat.{ℕ, zero, suc, ◌+◌, ◌*◌, ◌/◌, ◌%◌, ◌^◌}
use Prim.Native.String.{String}
use mathlib.Core.Bool.{true, false, ◌||◌, ◌&&◌}
use mathlib.Core.Option.{Option, none, some}
use text.Mathlib.Text.{◌==◌}
use trading_ecosystem_exchan.Common.Int.{ℤ, pos, negsuc}
use trading_ecosystem_exchan.Common.Json.{
  Json, null, bool, num, frac, str, arr, obj, Items, nil, cons, Members, end, member,
}

-- how many of the low bits are rounded off, so that 53 are left
unfoldable pub excess_bits : ℕ → ℕ → ℕ → ℕ
excess_bits zero e n = e
excess_bits (suc fuel) e n = elim (ltb n (2 ^ (53 + e))) [
  | true ↦ e
  | false ↦ excess_bits fuel (e + 1) n
]

-- the nearest multiple of `2 ^ e`, of two the even one
abbrev pub round_bits : ℕ → ℕ → ℕ
round_bits e n =
    let q = n / 2 ^ e in
    let twice = 2 * (n % 2 ^ e) in
    if ltb (2 ^ e) twice || (eqb (2 ^ e) twice && eqb (q % 2) 1) then (q + 1) * 2 ^ e else q * 2 ^ e

-- The nearest float64, if there is one. The greatest has 971 bits after its first 53.
unfoldable pub to_float_nat : ℕ → Option ℕ
unfolding excess_bits
to_float_nat n =
    let r = round_bits (excess_bits 971 0 n) n in if ltb r (2 ^ 1024) then some r else none

abbrev negated : ℕ → ℤ
negated zero = pos 0
negated (suc n) = negsuc n

abbrev pub to_float : ℤ → Option ℤ
to_float (pos n) = elim (to_float_nat n) [ none ↦ none | some r ↦ some (pos r) ]
to_float (negsuc n) = elim (to_float_nat (n + 1)) [ none ↦ none | some r ↦ some (negated r) ]

abbrev as_num : Option ℤ → Option Json
as_num none = none
as_num (some n) = some (num n)

abbrev as_arr : Option Items → Option Json
as_arr none = none
as_arr (some vs) = some (arr vs)

abbrev as_obj : Option Members → Option Json
as_obj none = none
as_obj (some ms) = some (obj ms)

abbrev cons_both : Option Json → Option Items → Option Items
cons_both (some v) (some vs) = some (cons v vs)
cons_both _ _ = none

abbrev member_both : String → Option Json → Option Members → Option Members
member_both k (some v) (some ms) = some (member k v ms)
member_both k _ _ = none

unfoldable mutual
  unfolding to_float_nat

  pub to_interface : Json → Option Json
  to_interface null = some null
  to_interface (bool b) = some (bool b)
  to_interface (num n) = as_num (to_float n)
  to_interface frac = some frac
  to_interface (str s) = some (str s)
  to_interface (arr vs) = as_arr (to_interface_items vs)
  to_interface (obj ms) = as_obj (to_interface_members ms)

  pub to_interface_items : Items → Option Items
  to_interface_items nil = some nil
  to_interface_items (cons v vs) = cons_both (to_interface v) (to_interface_items vs)

  pub to_interface_members : Members → Option Members
  to_interface_members end = some end
  to_interface_members (member k v ms) = member_both k (to_interface v) (to_interface_members ms)

-- The last member of a name, also if it is a null; null if there is none.
abbrev pub last_or : Json → String → Members → Json
last_or found k end = found
last_or found k (member j v rest) = last_or (if j == k then v else found) k rest

abbrev pub last_member : String → Members → Json
last_member = last_or null
