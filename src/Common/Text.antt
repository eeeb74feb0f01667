-- ===== src/Common/Text.antt =====
-- Texts as lists of characters, each by its code.
use Prim.Native.Nat.{ℕ, ◌+◌}
use Prim.Native.Char.{code}
use Prim.Native.String.{String, [] as []ˢ, ◌∷◌ as ◌∷ˢ◌, ◌++◌ as ◌++ˢ◌}
use mathlib.Core.Path.{◌≡◌, ap}
use mathlib.Core.List.{List, [], ◌∷◌, ◌++◌}
use text.Mathlib.TextLemmas.{nil-append, cons-append}
use trading_ecosystem_exchan.Common.Tests.{ltb, if◌then◌else◌}

unfoldable pub codes : String → List ℕ
codes []ˢ = []
codes (c ∷ˢ s) = code c ∷ codes s

pub codes-append : (s t : String) → codes (s ++ˢ t) ≡ codes s ++ codes t
unfolding codes
codes-append []ˢ t = rw (nil-append t)
codes-append (c ∷ˢ s) t =
    rw (cons-append c s t) (ap (λ (l : List ℕ). code c ∷ l) (codes-append s t))

abbrev utf8_size : ℕ → ℕ
utf8_size c = if ltb c 128 then 1 else if ltb c 2048 then 2 else if ltb c 65_536 then 3 else 4

-- `len` of a text counts the bytes of its UTF-8
abbrev pub byte_length : List ℕ → ℕ
byte_length [] = 0
byte_length (c ∷ cs) = utf8_size c + byte_length cs
