-- ===== src/Common/Json.antt =====
-- What `encoding/json` makes of the program's structs: a JSON text is kept as the value that it
-- denotes. A number that is no integer literal is `frac`. Times travel as texts, whose format is an
-- argument. A member of the wrong type makes `Unmarshal` fail; a missing or `null` member leaves
-- the field at its zero value. Member names are compared exactly, where Go, if no member matches
-- exactly, takes one that differs in case.
pub mod Marks
pub mod Interface
use Prim.Native.Nat.{ℕ}
use Prim.Native.String.{String}
use mathlib.Core.Path.{◌≡◌}
use mathlib.Core.Bool.{Bool, false}
use mathlib.Core.Option.{Option, none, some}
use mathlib.Core.List.{List, [], ◌∷◌}
use text.Mathlib.Text.{◌==◌}
use trading_ecosystem_exchan.Common.Tests.{if◌then◌else◌}
use trading_ecosystem_exchan.Common.Assoc.{Map}
use trading_ecosystem_exchan.Common.Int.{ℤ, pos, fits_int64}

mutual
  pub data Json : Type 0 where
    null : Json
    bool : Bool → Json
    num : ℤ → Json
    frac : Json
    str : String → Json
    arr : Items → Json
    obj : Members → Json

  pub data Items : Type 0 where
    nil : Items
    cons : Json → Items → Items

  pub data Members : Type 0 where
    end : Members
    member : String → Json → Members → Members

-- The layout in which `time.Time` is written and read.
pub record TimeFormat : Type 0 where
  pub print : ℕ → String
  pub parse : String → Option ℕ
  pub parse-print : (t : ℕ) → parse (print t) ≡ some t

-- The member of a name; of several the last one counts.
unfoldable pub find_member : String → Members → Json
find_member k end = null
find_member k (member j v rest) = elim (find_member k rest) [
  | null ↦ if j == k then v else null
  | later ↦ later
]

-- Each decoder takes a member's value and gives the field, or none for an error.
abbrev pub to_string : Json → Option String
to_string null = some ""
to_string (str s) = some s
to_string _ = none

abbrev pub to_int : Json → Option ℤ
to_int null = some (pos 0)
to_int (num n) = if fits_int64 n then some n else none
to_int _ = none

abbrev pub to_bool : Json → Option Bool
to_bool null = some false
to_bool (bool b) = some b
to_bool _ = none

abbrev pub to_time : TimeFormat → Json → Option ℕ
to_time f null = some 0
to_time f (str s) = f.parse s
to_time f _ = none

infixl 5 ◌>>=◌
abbrev ◌>>=◌ {ℓ κ} : {A : Type ℓ} {B : Type κ} → Option A → (A → Option B) → Option B
none >>= f = none
some a >>= f = f a

-- `map[string]string`; a repeated name keeps its last value through the list's order of reading.
unfoldable pub to_text_map : Members → Option (Map String)
to_text_map end = some []
to_text_map (member k v rest) = do s ← to_string v; m ← to_text_map rest; some ((k, s) ∷ m)

-- a slice of structs
unfoldable pub to_list {ℓ} : {A : Type ℓ} → (Json → Option A) → Items → Option (List A)
to_list f nil = some []
to_list f (cons v rest) = do a ← f v; as_list ← to_list f rest; some (a ∷ as_list)

unfoldable pub of_text_map : Map String → Members
of_text_map [] = end
of_text_map ((k, v) ∷ m) = member k (str v) (of_text_map m)
