-- ===== src/Config/InstanceName.antt =====
-- internal/config/config.go, `ValidateInstanceName`.
use trading_ecosystem_exchan.Common.{
  ℕ, String, Bool, not, ◌&&◌, ◌||◌, Result, ok, err, leb, ltb, eqb, if◌then◌else◌, ◌==◌,
}
use trading_ecosystem_exchan.Common.Text.{codes, byte_length}
use trading_ecosystem_exchan.Common.Regex.{Regex, one, then_, star, optional, matches}

pub data NameError : Type 0 where
  empty_name : NameError
  not_dns_safe : String → NameError
  too_long : ℕ → NameError

-- `[a-z0-9]` and `[a-z0-9-]`
abbrev pub alphanumeric : ℕ → Bool
alphanumeric c = (leb 97 c && leb c 122) || (leb 48 c && leb c 57)

abbrev pub inner : ℕ → Bool
inner c = alphanumeric c || eqb c 45

abbrev pub tail_pattern : Regex
tail_pattern = then_ (star (one inner)) (one alphanumeric)

-- `^[a-z0-9]([a-z0-9-]*[a-z0-9])?$`
abbrev pub valid_pattern : Regex
valid_pattern = then_ (one alphanumeric) (optional tail_pattern)

-- `ValidateInstanceName`
unfoldable pub validate_instance_name : String → Result NameError (Unit {0})
validate_instance_name name =
    if name == ""
    then err empty_name
    else if not (matches valid_pattern (codes name))
    then err (not_dns_safe name)
    else if ltb 63 (byte_length (codes name))
    then err (too_long (byte_length (codes name)))
    else ok tt
