-- ===== src/Common/World.antt =====
-- `time.Now`: the process reads a clock, whose n-th reading is given by the environment. Times are
-- nanoseconds from Go's zero time, and a duration is a number of nanoseconds.
use Prim.Native.Nat.{ℕ, ◌+◌, ◌-◌, ◌*◌, ◌^◌, ◌≤◌, min}

pub record Clock : Type 0 where
  pub reading : ℕ → ℕ
  pub reads : ℕ

-- The reading that the next `time.Now` returns.
abbrev pub peek : Clock → ℕ
peek c = c.reading c.reads

abbrev pub advance : Clock → Clock
advance c = record c { reads = c.reads + 1 }

abbrev pub now : Clock → ℕ × Clock
now c = (peek c, advance c)

-- `time.Since(start)`, which saturates at the longest duration
abbrev pub since : ℕ → Clock → ℕ
since start c = min (peek c - start) (2 ^ 63 - 1)

-- A clock that never goes back, which Go's monotonic readings are.
abbrev pub IsMonotone : Clock → Type 0
IsMonotone c = (n : ℕ) → c.reading n ≤ c.reading (n + 1)

abbrev pub millisecond : ℕ
millisecond = 1_000_000

abbrev pub second : ℕ
second = 1_000_000_000

-- A clock that moves by `step` at each reading, from `start`.
abbrev pub ticking : ℕ → ℕ → Clock
ticking start step = record { reading = λ n. start + n * step; reads = 0 }
