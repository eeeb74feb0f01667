-- ===== src/Common/Number.antt =====
-- `strconv.Atoi`, and that it reads what `strconv.Itoa` prints.
use Prim.Native.Nat.{ℕ, zero, suc, ◌+◌, ◌-◌, ◌*◌, ◌/◌, ◌%◌, ◌≤◌, ◌<◌}
use Prim.Native.String.{String, ◌++◌ as ◌++ˢ◌}
use mathlib.Core.Path.{◌≡◌, refl, sym, ap, ◌∙◌}
use mathlib.Core.Logic.{inl, inr}
use mathlib.Core.Bool.{Bool, true, false, ◌&&◌}
use mathlib.Core.Option.{Option, none, some}
use mathlib.Core.List.{List, [], ◌∷◌}
use native.Mathlib.Omega.{arith}
use trading_ecosystem_exchan.Common.Tests.{leb, eqb, if◌then◌else◌, Bool-cases}
use trading_ecosystem_exchan.Common.Int.{ℤ, pos, negsuc, fits_int64, digit, decimal, itoa}
use trading_ecosystem_exchan.Common.Text.{codes, codes-append}

abbrev pub is_digit : ℕ → Bool
is_digit c = leb b'0' c && leb c b'9'

-- the number that digits spell behind `n`; no other character may stand among them
unfoldable pub scan : ℕ → List ℕ → Option ℕ
scan n [] = some n
scan n (c ∷ cs) = let rest = scan (n * 10 + (c - b'0')) cs in if is_digit c then rest else none

unfoldable pub unsigned : List ℕ → Option ℕ
unfolding scan
unsigned [] = none
unsigned (c ∷ cs) = scan 0 (c ∷ cs)

abbrev pub in_range : ℤ → Option ℤ
in_range z = if fits_int64 z then some z else none

abbrev pub positive : Option ℕ → Option ℤ
positive none = none
positive (some n) = in_range (pos n)

abbrev pub negative : Option ℕ → Option ℤ
negative none = none
negative (some zero) = some (pos 0)
negative (some (suc n)) = in_range (negsuc n)

abbrev pub signed : List ℕ → Option ℤ
signed [] = none
signed (c ∷ cs) =
    if eqb c b'-'
    then negative (unsigned cs)
    else if eqb c b'+'
    then positive (unsigned cs)
    else positive (unsigned (c ∷ cs))

-- A text that is no decimal number, or one that 64 bits do not hold, is an error.
unfoldable pub atoi : String → Option ℤ
atoi s = signed (codes s)

codes-digit : (d : ℕ) → d < 10 → codes (digit d) ≡ (b'0' + d) ∷ []
unfolding codes
codes-digit zero h = refl
codes-digit (suc zero) h = refl
codes-digit (suc (suc zero)) h = refl
codes-digit (suc (suc (suc zero))) h = refl
codes-digit (suc (suc (suc (suc zero)))) h = refl
codes-digit (suc (suc (suc (suc (suc zero))))) h = refl
codes-digit (suc (suc (suc (suc (suc (suc zero)))))) h = refl
codes-digit (suc (suc (suc (suc (suc (suc (suc zero))))))) h = refl
codes-digit (suc (suc (suc (suc (suc (suc (suc (suc zero)))))))) h = refl
codes-digit (suc (suc (suc (suc (suc (suc (suc (suc (suc zero))))))))) h = refl
codes-digit (suc (suc (suc (suc (suc (suc (suc (suc (suc (suc n)))))))))) h = absurd (omega arith)

pub codes-digit_append :
    (d : ℕ) (s : String) → d < 10 → codes (digit d ++ˢ s) ≡ (b'0' + d) ∷ codes s
codes-digit_append d s h = rw (codes-append (digit d) s, codes-digit d h)

pub decimal-last :
    (fuel n : ℕ) (out : String)
    → eqb (n / 10) 0 ≡ true
    → decimal (suc fuel) n out ≡ digit (n % 10) ++ˢ out
unfolding decimal
decimal-last fuel n out h = rw (h, decimal)

pub decimal-more :
    (fuel n : ℕ) (out : String)
    → eqb (n / 10) 0 ≡ false
    → decimal (suc fuel) n out ≡ decimal fuel (n / 10) (digit (n % 10) ++ˢ out)
unfolding decimal
decimal-more fuel n out h = rw (h, decimal)

-- Scanning the last digit of a number behind the digits before it.
scan-digit :
    (n : ℕ) (out : String) → scan (n / 10) (codes (digit (n % 10) ++ˢ out)) ≡ scan n (codes out)
unfolding scan
scan-digit n out = rw (codes-digit_append (n % 10) out (omega arith)) (ground arith)

-- Printing a number before a text, and scanning it, gives the number and goes on with the text.
pub scan-decimal :
    (fuel n : ℕ) (out : String)
    → n < fuel
    → scan 0 (codes (decimal fuel n out)) ≡ scan n (codes out)
scan-decimal zero n out h = absurd (omega arith)
scan-decimal (suc fuel) n out h = elim (Bool-cases (eqb (n / 10) 0)) [
  | inl last ↦
      let small : n / 10 ≡ 0 = ground arith in
      rw (decimal-last fuel n out last)
        (ap (λ m. scan m (codes (digit (n % 10) ++ˢ out))) (sym small) ∙ scan-digit n out)
  | inr more ↦
      rw (decimal-more fuel n out more)
        (scan-decimal fuel (n / 10) (digit (n % 10) ++ˢ out) (ground arith) ∙ scan-digit n out)
]

-- The text of a number starts with a digit.
pub codes-decimal :
    (fuel n : ℕ) (out : String)
    → n < fuel
    → (c : ℕ) × (cs : List ℕ) × (codes (decimal fuel n out) ≡ c ∷ cs) × (b'0' ≤ c) × (c ≤ b'9')
codes-decimal zero n out h = absurd (omega arith)
codes-decimal (suc fuel) n out h = elim (Bool-cases (eqb (n / 10) 0)) [
  | inl last ↦ (
    b'0' + n % 10,
    codes out,
    rw (decimal-last fuel n out last) (codes-digit_append (n % 10) out (omega arith)),
    omega arith,
    omega arith,
  )
  | inr more ↦
      rw (decimal-more fuel n out more)
        (codes-decimal fuel (n / 10) (digit (n % 10) ++ˢ out) (ground arith))
]

-- A printed number before a text is scanned to its end.
pub unsigned-decimal : (fuel n : ℕ) → n < fuel → unsigned (codes (decimal fuel n "")) ≡ some n
unfolding unsigned scan codes
unsigned-decimal fuel n h =
    let (c, cs, e, _, _) = codes-decimal fuel n "" h in
    rw e (ap (scan 0) (sym e) ∙ scan-decimal fuel n "" h)

-- Every 64-bit integer is read back from its print.
pub atoi-itoa : (z : ℤ) → fits_int64 z ≡ true → atoi (itoa z) ≡ some z
unfolding atoi itoa codes
atoi-itoa (pos n) h =
    let (c, cs, e, lo, hi) = codes-decimal (n + 1) n "" (omega arith) in
    let read = unsigned-decimal (n + 1) n (omega arith) in
    let read_c : unsigned (c ∷ cs) ≡ some n = ap unsigned (sym e) ∙ read in
    rw e (ground (arith, read_c, h))
atoi-itoa (negsuc n) h =
    let read = unsigned-decimal (n + 2) (n + 1) (omega arith) in
    rw (codes-append "-" (decimal (n + 2) (n + 1) "")) (ground (arith, read, h))
