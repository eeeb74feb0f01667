-- ===== src/Common/Regex.antt =====
-- Regular expressions over character codes, as far as `regexp` is used: a whole text matches or not.
use trading_ecosystem_exchan.Common.Tests.{if◌then◌else◌}
use Prim.Native.Nat.{ℕ}
use mathlib.Core.Path.{◌≡◌, refl, sym, ◌∙◌}
use mathlib.Core.Bool.{Bool, true, false, ◌&&◌, ◌||◌}
use mathlib.Core.List.{List, [], ◌∷◌}
use native.Mathlib.Omega.{arith}

-- A class of characters is a test on their codes.
pub data Regex : Type 0 where
  nothing empty : Regex
  one : (ℕ → Bool) → Regex
  then_ or : Regex → Regex → Regex
  star : Regex → Regex

abbrev pub optional : Regex → Regex
optional r = or empty r

abbrev pub accepts_empty : Regex → Bool
accepts_empty nothing = false
accepts_empty empty = true
accepts_empty (one p) = false
accepts_empty (then_ a b) = accepts_empty a && accepts_empty b
accepts_empty (or a b) = accepts_empty a || accepts_empty b
accepts_empty (star a) = true

-- What is left to match after one character.
abbrev pub after : ℕ → Regex → Regex
after c nothing = nothing
after c empty = nothing
after c (one p) = if p c then empty else nothing
after c (then_ a b) =
    let first = then_ (after c a) b in
    let second = after c b in if accepts_empty a then or first second else first
after c (or a b) = or (after c a) (after c b)
after c (star a) = then_ (after c a) (star a)

unfoldable pub matches : Regex → List ℕ → Bool
matches r [] = accepts_empty r
matches r (c ∷ cs) = matches (after c r) cs

pub matches-nothing : (cs : List ℕ) → matches nothing cs ≡ false
unfolding matches
matches-nothing [] = refl
matches-nothing (c ∷ cs) = matches-nothing cs

pub matches-or : (a b : Regex) (cs : List ℕ) → matches (or a b) cs ≡ (matches a cs || matches b cs)
unfolding matches
matches-or a b [] = refl
matches-or a b (c ∷ cs) = matches-or (after c a) (after c b) cs

pub matches-nothing_then : (b : Regex) (cs : List ℕ) → matches (then_ nothing b) cs ≡ false
unfolding matches
matches-nothing_then b [] = refl
matches-nothing_then b (c ∷ cs) = matches-nothing_then b cs

-- A part that matches only the empty text can be left out.
pub matches-empty_then : (b : Regex) (cs : List ℕ) → matches (then_ empty b) cs ≡ matches b cs
unfolding matches
matches-empty_then b [] = refl
matches-empty_then b (c ∷ cs) =
    ground (arith, matches-or (then_ nothing b) (after c b) cs, matches-nothing_then b cs)

-- Expressions that match the same texts can replace each other before another one.
pub matches-then_cong :
    (a b x : Regex)
    → ((cs : List ℕ) → matches a cs ≡ matches b cs)
    → (cs : List ℕ) → matches (then_ a x) cs ≡ matches (then_ b x) cs
unfolding matches
matches-then_cong a b x h [] = ground (arith, h [])
matches-then_cong a b x h (c ∷ cs) = ground (
  arith,
  h [],
  matches-or (then_ (after c a) x) (after c x) cs,
  matches-or (then_ (after c b) x) (after c x) cs,
  matches-then_cong (after c a) (after c b) x (λ ds. h (c ∷ ds)) cs,
)

abbrev pub is_empty : List ℕ → Bool
is_empty [] = true
is_empty (c ∷ cs) = false

-- After a character of a class, or of none, nothing is left, or nothing matches.
pub matches-if :
    (b : Bool) (cs : List ℕ) → matches (if b then empty else nothing) cs ≡ (b && is_empty cs)
unfolding matches
matches-if true [] = refl
matches-if true (c ∷ cs) = matches-nothing cs
matches-if false cs = matches-nothing cs

-- The same, with something to match after it.
pub matches-if_then :
    (b : Bool) (r : Regex) (cs : List ℕ)
    → matches (then_ (if b then empty else nothing) r) cs ≡ (b && matches r cs)
matches-if_then true r cs = matches-empty_then r cs
matches-if_then false r cs = matches-nothing_then r cs

-- The same, with two things to match after it.
pub matches-if_then_then :
    (b : Bool) (r x : Regex) (cs : List ℕ)
    → matches (then_ (then_ (if b then empty else nothing) r) x) cs ≡ (b && matches (then_ r x) cs)
matches-if_then_then true r x cs = matches-then_cong (then_ empty r) r x (matches-empty_then r) cs
matches-if_then_then false r x cs =
    matches-then_cong (then_ nothing r) nothing x
      (λ ds. matches-nothing_then r ds ∙ sym (matches-nothing ds)) cs
    ∙ matches-nothing_then x cs

-- Any characters of one class and then one of another class, which matches from the front or at the
-- end.
module _ (p q : ℕ → Bool) where
  pub matches-star_then_one :
      (c : ℕ) (cs : List ℕ)
      → matches (then_ (star (one p)) (one q)) (c ∷ cs)
        ≡ ((p c && matches (then_ (star (one p)) (one q)) cs) || (q c && is_empty cs))
  unfolding matches
  matches-star_then_one c cs =
      let front = then_ (then_ (if p c then empty else nothing) (star (one p))) (one q) in
      let end = if q c then empty else nothing in
      rw (
        matches-or front end cs,
        matches-if_then_then (p c) (star (one p)) (one q) cs,
        matches-if (q c) cs,
      )
