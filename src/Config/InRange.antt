-- ===== src/Config/InRange.antt =====
-- The numbers and texts that `Load` can give.
use trading_ecosystem_exchan.Common.{
  ℕ, zero, suc, ◌+◌, ◌-◌, ◌^◌, ◌≤◌, ◌≡◌, refl, inl, inr, String, Bool, true, false, Option, none,
  some, List, [], ◌∷◌, arith, ltb, eqb, ◌==◌, if◌then◌else◌, Bool-cases, Option-cases, length,
}
use trading_ecosystem_exchan.Common.Int.{ℤ, pos, negsuc, fits_int64}
use trading_ecosystem_exchan.Common.Text.{codes}
use trading_ecosystem_exchan.Common.Number.{atoi, unsigned, in_range, positive, negative, signed}
use trading_ecosystem_exchan.Common.Duration.{
  parse_duration, parts, part, same_codes, to_duration, unsigned_duration, signed_duration,
}
use trading_ecosystem_exchan.Config.{Config}
use trading_ecosystem_exchan.Config.Load.{
  Environment, get_env, get_env_as_int, get_env_as_duration, or_default, read, with_instance_name,
  load,
}
use trading_ecosystem_exchan.Config.Loading.{IsSettable}

-- The number that is read, if any, fits in 64 bits.
abbrev Fits : Option ℤ → Type 0
Fits none = Unit
Fits (some z) = fits_int64 z ≡ true

in_range-Fits : (z : ℤ) → Fits (in_range z)
in_range-Fits z = elim (Bool-cases (fits_int64 z)) [ inl h ↦ rw h h | inr h ↦ rw h tt ]

positive-Fits : (n : Option ℕ) → Fits (positive n)
positive-Fits none = tt
positive-Fits (some n) = in_range-Fits (pos n)

negative-Fits : (n : Option ℕ) → Fits (negative n)
negative-Fits none = tt
negative-Fits (some zero) = refl
negative-Fits (some (suc n)) = in_range-Fits (negsuc n)

if-Fits : (b : Bool) (x y : Option ℤ) → Fits x → Fits y → Fits (if b then x else y)
if-Fits true x y h k = h
if-Fits false x y h k = k

signed-Fits : (cs : List ℕ) → Fits (signed cs)
signed-Fits [] = tt
signed-Fits (c ∷ cs) =
    if-Fits (eqb c b'-') _ _ (negative-Fits (unsigned cs))
      (if-Fits (eqb c b'+') _ _ (positive-Fits (unsigned cs)) (positive-Fits (unsigned (c ∷ cs))))

atoi-Fits : (s : String) → Fits (atoi s)
unfolding atoi
atoi-Fits s = signed-Fits (codes s)

-- A sum of parts is 2^63 at most.
abbrev IsSum : Option ℕ → Type 0
IsSum none = Unit
IsSum (some d) = d ≤ 2 ^ 63

parts-IsSum : (fuel d : ℕ) (cs : List ℕ) → d ≤ 2 ^ 63 → IsSum (parts fuel d cs)
unfolding parts
parts-IsSum fuel d [] h = h
parts-IsSum zero d (c ∷ cs) h = tt
parts-IsSum (suc fuel) d (c ∷ cs) h = elim (Option-cases (part (c ∷ cs))) [
  | inl e ↦ rw (parts, e) tt
  | inr ((v, rest), e) ↦ elim (Bool-cases (ltb (2 ^ 63) (d + v))) [
    | inl over ↦ rw (parts, e, over) tt
    | inr small ↦ rw (parts, e, small) (parts-IsSum fuel (d + v) rest (ground arith))
  ]
]

to_duration-Fits : (neg : Bool) (d : Option ℕ) → IsSum d → Fits (to_duration neg d)
to_duration-Fits neg none h = tt
to_duration-Fits true (some zero) h = refl
to_duration-Fits true (some (suc d)) h = ground arith
to_duration-Fits false (some d) h = elim (Bool-cases (ltb (2 ^ 63 - 1) d)) [
  | inl over ↦ rw over tt
  | inr small ↦ rw small (ground arith)
]

unsigned_duration-Fits : (neg : Bool) (cs : List ℕ) → Fits (unsigned_duration neg cs)
unsigned_duration-Fits neg [] = tt
unsigned_duration-Fits neg (c ∷ cs) =
    let total = parts-IsSum (length (c ∷ cs)) 0 (c ∷ cs) (omega arith) in
    if-Fits (same_codes (c ∷ cs) (b'0' ∷ [])) _ _ refl (to_duration-Fits neg _ total)

signed_duration-Fits : (cs : List ℕ) → Fits (signed_duration cs)
signed_duration-Fits [] = tt
signed_duration-Fits (c ∷ cs) = if-Fits (eqb c b'-') _ _ (unsigned_duration-Fits true cs) (
    if-Fits (eqb c b'+') _ _ (unsigned_duration-Fits false cs)
      (unsigned_duration-Fits false (c ∷ cs)))

parse_duration-Fits : (s : String) → Fits (parse_duration s)
unfolding parse_duration
parse_duration-Fits s = signed_duration-Fits (codes s)

fits_int64-or_default :
    (d : ℤ) (z : Option ℤ) → fits_int64 d ≡ true → Fits z → fits_int64 (or_default d z) ≡ true
fits_int64-or_default d none h k = h
fits_int64-or_default d (some z) h k = k

-- What is read of a variable, whatever it is set to.
module _ (env : Environment) (key : String) where
  get_env-nonempty : (d : String) → (d == "") ≡ false → (get_env env key d == "") ≡ false
  unfolding get_env
  get_env-nonempty d h = elim (Bool-cases (env key == "")) [ inl e ↦ rw e h | inr e ↦ rw e e ]

  fits_int64-get_env_as_int :
      (d : ℤ) → fits_int64 d ≡ true → fits_int64 (get_env_as_int env key d) ≡ true
  unfolding get_env_as_int
  fits_int64-get_env_as_int d h = elim (Bool-cases (env key == "")) [
    | inl e ↦ rw e h
    | inr e ↦ rw e (fits_int64-or_default d _ h (atoi-Fits (env key)))
  ]

  fits_int64-get_env_as_duration :
      (d : ℤ) → fits_int64 d ≡ true → fits_int64 (get_env_as_duration env key d) ≡ true
  unfolding get_env_as_duration
  fits_int64-get_env_as_duration d h = elim (Bool-cases (env key == "")) [
    | inl e ↦ rw e h
    | inr e ↦ rw e (fits_int64-or_default d _ h (parse_duration-Fits (env key)))
  ]

-- The instance is not nameless if the service is not.
with_instance_name-named :
    (cfg : Config)
    → (cfg.service_name == "") ≡ false
    → (name : String) × (with_instance_name cfg ≡ record cfg { service_instance_name = name })
      × ((name == "") ≡ false)
with_instance_name-named cfg h = elim (Bool-cases (cfg.service_instance_name == "")) [
  | inl e ↦ (cfg.service_name, rw e refl, h)
  | inr e ↦ (cfg.service_instance_name, rw e refl, e)
]

read-IsSettable :
    (env : Environment) (name : String)
    → (name == "") ≡ false
    → IsSettable (record (read env) { service_instance_name = name })
unfolding read
read-IsSettable env name h = record {
  service_name = get_env-nonempty env _ _ refl;
  service_instance_name = h;
  service_version = get_env-nonempty env _ _ refl;
  environment = get_env-nonempty env _ _ refl;
  http_port = fits_int64-get_env_as_int env _ _ refl;
  grpc_port = fits_int64-get_env_as_int env _ _ refl;
  log_level = get_env-nonempty env _ _ refl;
  redis_url = get_env-nonempty env _ _ refl;
  configuration_service_url = get_env-nonempty env _ _ refl;
  request_timeout = fits_int64-get_env_as_duration env _ _ refl;
  cache_ttl = fits_int64-get_env_as_duration env _ _ refl;
  health_check_interval = fits_int64-get_env_as_duration env _ _ refl;
}

-- Whatever the environment and the `.env` file say, the ports and the durations that are loaded fit
-- in 64 bits, and no text but the address of the database is empty: neither the name of the service
-- nor that of its instance.
pub load-IsSettable :
    (load_dotenv : Environment → Environment) (env : Environment)
    → IsSettable (load load_dotenv env)
unfolding load read
load-IsSettable load_dotenv env =
    let named = get_env-nonempty (load_dotenv env) "SERVICE_NAME" "exchange-simulator" refl in
    let (name, e, h) = with_instance_name-named (read (load_dotenv env)) named in
    rw e (read-IsSettable (load_dotenv env) name h)
