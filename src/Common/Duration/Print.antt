-- ===== src/Common/Duration/Print.antt =====
-- `ParseDuration` reads a number of nanoseconds.
use Prim.Native.Nat.{ℕ, zero, suc, ◌+◌, ◌/◌, ◌%◌, ◌^◌, ◌≤◌, ◌<◌}
use Prim.Native.String.{String, ◌++◌ as ◌++ˢ◌}
use mathlib.Core.Path.{◌≡◌, refl, sym, ap, ◌∙◌}
use mathlib.Core.Logic.{inl, inr}
use mathlib.Core.Bool.{Bool, true, false}
use mathlib.Core.Option.{some}
use mathlib.Core.List.{List, [], ◌∷◌}
use native.Mathlib.Omega.{arith}
use text.Mathlib.TextLemmas.{append_assoc}
use trading_ecosystem_exchan.Common.Tests.{eqb, length, Bool-cases}
use trading_ecosystem_exchan.Common.Int.{ℤ, pos, negsuc, fits_int64, digit, decimal, itoa}
use trading_ecosystem_exchan.Common.Number.{
  decimal-last, decimal-more, codes-digit_append, codes-decimal,
}
use trading_ecosystem_exchan.Common.Text.{codes, codes-append}
use trading_ecosystem_exchan.Common.Duration.{
  same_codes, unsigned_duration, signed_duration, leading_int, leading_unit, unit_of, part, parts,
  parse_duration, to_duration,
}

-- A number of nanoseconds, as a duration.
unfoldable pub nanoseconds : ℤ → String
nanoseconds z = itoa z ++ˢ "ns"

leading_int-digit :
    (n : ℕ) (out : String)
    → n ≤ 2 ^ 63
    → leading_int (n / 10) (codes (digit (n % 10) ++ˢ out)) ≡ leading_int n (codes out)
unfolding leading_int
leading_int-digit n out h = rw (codes-digit_append (n % 10) out (omega arith)) (ground arith)

leading_int-decimal :
    (fuel n : ℕ) (out : String)
    → n < fuel
    → n ≤ 2 ^ 63
    → leading_int 0 (codes (decimal fuel n out)) ≡ leading_int n (codes out)
leading_int-decimal zero n out h k = absurd (omega arith)
leading_int-decimal (suc fuel) n out h k = elim (Bool-cases (eqb (n / 10) 0)) [
  | inl last ↦
      let small : n / 10 ≡ 0 = ground arith in
      rw (decimal-last fuel n out last) (
        ap (λ m. leading_int m (codes (digit (n % 10) ++ˢ out))) (sym small)
        ∙ leading_int-digit n out k)
  | inr more ↦ rw (decimal-more fuel n out more) (
      leading_int-decimal fuel (n / 10) (digit (n % 10) ++ˢ out) (ground arith) (omega arith)
      ∙ leading_int-digit n out k)
]

length-decimal :
    (fuel n : ℕ) (out : String)
    → n < fuel
    → length (codes out) < length (codes (decimal fuel n out))
length-decimal zero n out h = absurd (omega arith)
length-decimal (suc fuel) n out h = elim (Bool-cases (eqb (n / 10) 0)) [
  | inl last ↦
      rw (decimal-last fuel n out last, codes-digit_append (n % 10) out (omega arith)) (omega arith)
  | inr more ↦ rw (decimal-more fuel n out more) (
      omega (
        arith,
        length-decimal fuel (n / 10) (digit (n % 10) ++ˢ out) (ground arith),
        ap length (codes-digit_append (n % 10) out (omega arith)),
      ))
]

decimal-append :
    (fuel n : ℕ) (out rest : String)
    → n < fuel
    → decimal fuel n out ++ˢ rest ≡ decimal fuel n (out ++ˢ rest)
decimal-append zero n out rest h = absurd (omega arith)
decimal-append (suc fuel) n out rest h = elim (Bool-cases (eqb (n / 10) 0)) [
  | inl last ↦
      rw (decimal-last fuel n out last, decimal-last fuel n (out ++ˢ rest) last)
        (append_assoc (digit (n % 10)) out rest)
  | inr more ↦
      rw (decimal-more fuel n out more, decimal-more fuel n (out ++ˢ rest) more)
        (decimal-append fuel (n / 10) (digit (n % 10) ++ˢ out) rest (ground arith)
          ∙ ap (decimal fuel (n / 10)) (append_assoc (digit (n % 10)) out rest))
]

leading_int-ns : (n : ℕ) → leading_int n (codes "ns") ≡ some (n, b'n' ∷ b's' ∷ [])
unfolding leading_int codes
leading_int-ns n = refl

length-ns : length (codes "ns") ≡ 2
unfolding codes
length-ns = refl

-- The one part of a printed duration.
part-decimal :
    (fuel n : ℕ) → n < fuel → n ≤ 2 ^ 63 → part (codes (decimal fuel n "ns")) ≡ some (n, [])
unfolding part leading_unit unit_of
part-decimal fuel n h k =
    let (c, cs, e, lo, hi) = codes-decimal fuel n "ns" h in
    let read : leading_int 0 (c ∷ cs) ≡ some (n, b'n' ∷ b's' ∷ []) =
      ap (leading_int 0) (sym e) ∙ leading_int-decimal fuel n "ns" h k ∙ leading_int-ns n in
    let longer : 2 < length (c ∷ cs) =
      omega (arith, length-decimal fuel n "ns" h, length-ns, ap length e) in
    rw e (ground (arith, read, longer, lo, hi))

same_codes-longer :
    (c : ℕ) (cs : List ℕ) → 2 < length (c ∷ cs) → same_codes (c ∷ cs) (b'0' ∷ []) ≡ false
same_codes-longer c [] h = absurd (omega arith)
same_codes-longer c (d ∷ cs) h = ground arith

unsigned_duration-decimal :
    (neg : Bool) (fuel n : ℕ)
    → n < fuel
    → n ≤ 2 ^ 63
    → unsigned_duration neg (codes (decimal fuel n "ns")) ≡ to_duration neg (some n)
unfolding parts
unsigned_duration-decimal neg fuel n h k =
    let (c, cs, e, lo, hi) = codes-decimal fuel n "ns" h in
    let read : part (c ∷ cs) ≡ some (n, []) = ap part (sym e) ∙ part-decimal fuel n h k in
    let longer : 2 < length (c ∷ cs) =
      omega (arith, length-decimal fuel n "ns" h, length-ns, ap length e) in
    let total : parts (length (c ∷ cs)) 0 (c ∷ cs) ≡ some n = ground (arith, read, k) in
    rw (e, same_codes-longer c cs longer) (ap (to_duration neg) total)

signed-digit :
    (c : ℕ) (cs : List ℕ) → b'0' ≤ c → signed_duration (c ∷ cs) ≡ unsigned_duration false (c ∷ cs)
signed-digit c cs h = ground arith

-- Every duration is read back from its number of nanoseconds.
pub parse_duration-nanoseconds :
    (z : ℤ) → fits_int64 z ≡ true → parse_duration (nanoseconds z) ≡ some z
unfolding parse_duration nanoseconds itoa codes
parse_duration-nanoseconds (pos n) h =
    let (c, cs, e, lo, hi) = codes-decimal (n + 1) n "ns" (omega arith) in
    let read = unsigned_duration-decimal false (n + 1) n (omega arith) (ground arith) in
    rw (decimal-append (n + 1) n "" "ns" (omega arith), e)
      (signed-digit c cs lo ∙ ap (unsigned_duration false) (sym e) ∙ read ∙ ground (arith, h))
parse_duration-nanoseconds (negsuc n) h =
    let read = unsigned_duration-decimal true (n + 2) (n + 1) (omega arith) (ground arith) in
    let minus : codes (nanoseconds (negsuc n)) ≡ b'-' ∷ codes (decimal (n + 2) (n + 1) "ns") = rw (
      append_assoc "-" (decimal (n + 2) (n + 1) "") "ns",
      decimal-append (n + 2) (n + 1) "" "ns" (omega arith),
      codes-append "-" (decimal (n + 2) (n + 1) "ns"),
    ) in
    rw minus (read ∙ ground arith)
