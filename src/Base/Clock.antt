-- ===== src/Base/Clock.antt =====
-- Go's `int64` durations as integers, and `time.Time` as the nanoseconds since its zero value
-- (January 1 of year 1, UTC). Instants before the zero value are outside the model, and sums of an
-- instant and a duration are not bounded. `Sub` saturates at the ends of `int64`, as Go's does.
use Prim.Native.Nat.{ℕ, ◌-◌, ◌*◌, ◌^◌, min}
use mathlib.Core.Bool.{Bool, true, false}
use push_dispatch.Base.Tests.{ltb, leb, ◌==◌, if◌then◌else◌}

-- `negsuc n` is -(n + 1).
pub data ℤ : Type 0 where
  pos : ℕ → ℤ
  negsuc : ℕ → ℤ

abbrev pub is_negative : ℤ → Bool
is_negative (pos n) = false
is_negative (negsuc n) = true

-- `d > bound` and `d <= bound` for a bound that is not negative.
abbrev pub exceeds : ℤ → ℕ → Bool
exceeds (pos n) bound = ltb bound n
exceeds (negsuc n) bound = false

abbrev pub within : ℤ → ℕ → Bool
within (pos n) bound = leb n bound
within (negsuc n) bound = true

abbrev pub Time : Type 0
Time = ℕ

abbrev pub zero_time : Time
zero_time = 0

abbrev pub is_zero_time : Time → Bool
is_zero_time t = t == 0

abbrev pub max_duration : ℕ
max_duration = 2 ^ 63 - 1

-- `t.Sub(u)`.
abbrev pub time_sub : Time → Time → ℤ
time_sub t u =
    if leb u t then pos (min (t - u) max_duration) else negsuc (min (u - t - 1) max_duration)

abbrev pub second : ℕ
second = 1_000_000_000

abbrev pub minute : ℕ
minute = 60 * second

abbrev pub hour : ℕ
hour = 60 * minute
