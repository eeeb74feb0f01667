-- ===== src/Config/DnsLabel.antt =====
-- What `ValidateInstanceName` accepts.
use Prim.Native.Char.{code}
use Prim.Native.String.{[] as []ˢ, ◌∷◌ as ◌∷ˢ◌}
use trading_ecosystem_exchan.Common.{
  ℕ, ◌≤◌, ◌<◌, ◌≡◌, ◌⊎◌, ◌↔◌, inl, inr, refl, String, Bool, true, false, ◌&&◌, ◌||◌, List, [], ◌∷◌,
  Result, ok, err, arith, length, leb, All, if◌then◌else◌, ◌==◌, Bool-cases, ne→==, ap,
}
use trading_ecosystem_exchan.Common.Regex.{
  empty, optional, matches, matches-or, matches-if, matches-if_then, is_empty,
  matches-star_then_one,
}
use trading_ecosystem_exchan.Common.Text.{codes, byte_length}
use trading_ecosystem_exchan.Config.InstanceName.{
  alphanumeric, inner, tail_pattern, valid_pattern, NameError, too_long, validate_instance_name,
}

-- A lower-case letter or a digit, by its code.
abbrev pub IsAlphanumeric : ℕ → Type 0
IsAlphanumeric c = ((97 ≤ c) × (c ≤ 122)) ⊎ ((48 ≤ c) × (c ≤ 57))

abbrev pub IsLabelChar : ℕ → Type 0
IsLabelChar c = IsAlphanumeric c ⊎ (c ≡ 45)

abbrev pub EndsWell : List ℕ → Type 0
EndsWell [] = Unit
EndsWell (c ∷ []) = IsAlphanumeric c
EndsWell (c ∷ d ∷ cs) = EndsWell (d ∷ cs)

abbrev pub StartsWell : List ℕ → Type 0
StartsWell [] = ⊥
StartsWell (c ∷ cs) = IsAlphanumeric c

-- Lower-case letters, digits and hyphens, which neither start nor end with a hyphen.
abbrev pub IsLongLabel : List ℕ → Type 0
IsLongLabel cs = All IsLabelChar cs × StartsWell cs × EndsWell cs

-- A label of the domain name system, in lower case.
abbrev pub IsDnsLabel : List ℕ → Type 0
IsDnsLabel cs = IsLongLabel cs × (length cs ≤ 63)

abbrev tail_match : List ℕ → Bool
tail_match [] = false
tail_match (c ∷ []) = alphanumeric c
tail_match (c ∷ d ∷ cs) = let rest = tail_match (d ∷ cs) in inner c && rest

matches-tail : (cs : List ℕ) → matches tail_pattern cs ≡ tail_match cs
unfolding matches
matches-tail [] = refl
matches-tail (c ∷ []) = ground (arith, matches-star_then_one inner alphanumeric c [])
matches-tail (c ∷ d ∷ cs) =
    ground (arith, matches-star_then_one inner alphanumeric c (d ∷ cs), matches-tail (d ∷ cs))

-- The pattern without its machine: a letter or digit, and then nothing or a tail.
abbrev name_match : List ℕ → Bool
name_match [] = false
name_match (c ∷ cs) = alphanumeric c && (is_empty cs || tail_match cs)

matches-valid : (cs : List ℕ) → matches valid_pattern cs ≡ name_match cs
unfolding matches
matches-valid [] = refl
matches-valid (c ∷ cs) = ground (
  arith,
  matches-if_then (alphanumeric c) (optional tail_pattern) cs,
  matches-or empty tail_pattern cs,
  matches-if true cs,
  matches-tail cs,
)

tail_match→ :
    (c : ℕ) (cs : List ℕ)
    → tail_match (c ∷ cs) ≡ true
    → All IsLabelChar (c ∷ cs) × EndsWell (c ∷ cs)
tail_match→ c [] h = ground arith
tail_match→ c (d ∷ cs) h =
    let (chars, ends) = tail_match→ d cs (ground arith) in ((ground arith, chars), ends)

tail_match← :
    (c : ℕ) (cs : List ℕ)
    → All IsLabelChar (c ∷ cs)
    → EndsWell (c ∷ cs)
    → tail_match (c ∷ cs) ≡ true
tail_match← c [] h e = ground arith
tail_match← c (d ∷ cs) (h, hs) e = ground (arith, tail_match← d cs hs e)

-- A text of these characters has as many bytes as characters.
byte_length-label : (cs : List ℕ) → All IsLabelChar cs → byte_length cs ≡ length cs
byte_length-label [] h = refl
byte_length-label (c ∷ cs) (h, hs) = ground (arith, byte_length-label cs hs)

name_match→ : (cs : List ℕ) → name_match cs ≡ true → IsLongLabel cs
name_match→ [] h = ground arith
name_match→ (c ∷ []) h = ground arith
name_match→ (c ∷ d ∷ cs) h =
    let (chars, ends) = tail_match→ d cs (ground arith) in
    ((ground arith, chars), ground arith, ends)

name_match← : (cs : List ℕ) → IsLongLabel cs → name_match cs ≡ true
name_match← [] (_, h, _) = absurd h
name_match← (c ∷ []) h = ground arith
name_match← (c ∷ d ∷ cs) ((h, hs), s, e) = ground (arith, tail_match← d cs hs e)

-- A matched name is not empty.
name_match-named : (name : String) → name_match (codes name) ≡ true → (name == "") ≡ false
unfolding codes
name_match-named []ˢ h = ground arith
name_match-named (c ∷ˢ s) h =
    ne→== (c ∷ˢ s) "" (λ p. let q : (code c ∷ codes s) ≡ [] = ap codes p in ground arith)

-- What the code does with a name, by the tests that it passes.
abbrev verdict : String → Bool → Result NameError (Unit {0})
verdict name false = err (if name == "" then NameError.empty_name else NameError.not_dns_safe name)
verdict name true =
    if leb (length (codes name)) 63 then ok tt else err (too_long (length (codes name)))

validate-verdict :
    (name : String) → validate_instance_name name ≡ verdict name (name_match (codes name))
unfolding validate_instance_name
validate-verdict name = elim (Bool-cases (name_match (codes name))) [
  | inl h ↦ ground (
    arith,
    matches-valid (codes name),
    name_match-named name h,
    byte_length-label (codes name) (name_match→ (codes name) h).0,
  )
  | inr h ↦ ground (arith, matches-valid (codes name))
]

-- `ValidateInstanceName` accepts a name exactly if it is a label of the domain name system in lower
-- case: 1 to 63 letters, digits and hyphens that neither starts nor ends with a hyphen. It reports a
-- name as too long, with a number of characters, exactly if the name is such a label but for its
-- length, which is that number and more than 63.
pub validate-IsDnsLabel :
    (name : String) (n : ℕ)
    → ((validate_instance_name name ≡ ok tt) ↔ IsDnsLabel (codes name))
      × ((validate_instance_name name ≡ err (too_long n))
          ↔ (IsLongLabel (codes name) × (n ≡ length (codes name)) × (63 < n)))
validate-IsDnsLabel name n = elim (Bool-cases (name_match (codes name))) [
  | inl h ↦
      let label = name_match→ (codes name) h in
      (
        (
          (λ e. (label, ground (arith, validate-verdict name))),
          (λ l. ground (arith, validate-verdict name)),
        ),
        (
          (λ e. (
            label,
            ground (arith, validate-verdict name),
            ground (arith, validate-verdict name),
          )),
          (λ l. ground (arith, validate-verdict name)),
        ),
      )
  | inr h ↦ (
    (
      (λ e. ground (arith, validate-verdict name)),
      (λ l. ground (arith, name_match← (codes name) l.0)),
    ),
    (
      (λ e. ground (arith, validate-verdict name)),
      (λ l. ground (arith, name_match← (codes name) l.0)),
    ),
  )
]
