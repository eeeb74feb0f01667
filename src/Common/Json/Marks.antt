-- ===== src/Common/Json/Marks.antt =====
-- A time layout for runs of the model: a time is written as a row of marks, one a nanosecond.
use Prim.Native.Nat.{ℕ, zero, suc}
use Prim.Native.Char.{nul}
use Prim.Native.String.{String}
use mathlib.Core.Path.{◌≡◌, refl, ap}
use mathlib.Core.Option.{some}
use trading_ecosystem_exchan.Common.Json.{TimeFormat}

unfoldable pub print_marks : ℕ → String
print_marks zero = String.[]
print_marks (suc n) = String.◌∷◌ nul (print_marks n)

unfoldable pub count_marks : String → ℕ
count_marks String.[] = zero
count_marks (String.◌∷◌ c s) = suc (count_marks s)

count-print : (n : ℕ) → count_marks (print_marks n) ≡ n
unfolding count_marks print_marks
count-print zero = refl
count-print (suc n) = ap suc (count-print n)

pub parse-print_marks : (n : ℕ) → some (count_marks (print_marks n)) ≡ some n
parse-print_marks n = ap some (count-print n)

abbrev pub marks : TimeFormat
marks = record {
  print = print_marks;
  parse = λ s. some (count_marks s);
  parse-print = parse-print_marks;
}
