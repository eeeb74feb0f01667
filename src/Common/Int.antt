-- ===== src/Common/Int.antt =====
-- Go's `int` over the native numbers, and `%d`.
use Prim.Native.Nat.{ℕ, zero, suc, ◌+◌, ◌-◌, ◌/◌, ◌%◌, ◌^◌}
use Prim.Native.String.{String, ◌++◌}
use mathlib.Core.Bool.{Bool, true, false}
use trading_ecosystem_exchan.Common.Tests.{ltb, leb, eqb, if◌then◌else◌}

-- `negsuc n` is -(n + 1).
pub data ℤ : Type 0 where
  pos : ℕ → ℤ
  negsuc : ℕ → ℤ

-- The range of a 64-bit `int`.
abbrev pub fits_int64 : ℤ → Bool
fits_int64 (pos n) = ltb n (2 ^ 63)
fits_int64 (negsuc n) = ltb n (2 ^ 63)

abbrev pub digit : ℕ → String
digit zero = "0"
digit (suc zero) = "1"
digit (suc (suc zero)) = "2"
digit (suc (suc (suc zero))) = "3"
digit (suc (suc (suc (suc zero)))) = "4"
digit (suc (suc (suc (suc (suc zero))))) = "5"
digit (suc (suc (suc (suc (suc (suc zero)))))) = "6"
digit (suc (suc (suc (suc (suc (suc (suc zero))))))) = "7"
digit (suc (suc (suc (suc (suc (suc (suc (suc zero)))))))) = "8"
digit _ = "9"

-- The last digit comes first; `n + 1` rounds are enough, since each divides by ten.
unfoldable pub decimal : ℕ → ℕ → String → String
decimal zero n out = out
decimal (suc fuel) n out = elim (eqb (n / 10) 0) [
  | true ↦ digit (n % 10) ++ out
  | false ↦ decimal fuel (n / 10) (digit (n % 10) ++ out)
]

-- `%d`, and `strconv.Itoa`
unfoldable pub itoa : ℤ → String
unfolding decimal
itoa (pos n) = decimal (n + 1) n ""
itoa (negsuc n) = "-" ++ decimal (n + 2) (n + 1) ""

-- a - b, as an integer
abbrev pub sub_ℕ : ℕ → ℕ → ℤ
sub_ℕ a b = if leb b a then pos (a - b) else negsuc (b - a - 1)

-- `t.Unix()`: Go's zero time is 62135596800 seconds before 1970.
abbrev pub unix : ℕ → ℤ
unix t = sub_ℕ (t / 1_000_000_000) 62_135_596_800
