-- ===== src/Prelude/Time.antt =====
-- `time.Time` and `time.Duration` as nanoseconds. A time counts from Go's zero time (1 January of
-- year 1, UTC), so `IsZero` is a test for 0. Clocks before 1970 are outside the model.
use Prim.Native.Nat.{ℕ, ◌-◌, ◌*◌, ◌/◌}
use mathlib.Core.Bool.{Bool}
use codexlink.Prelude.Tests.{◌==◌, ltb}

abbrev pub millisecond : ℕ
millisecond = 1_000_000

abbrev pub second : ℕ
second = 1_000_000_000

abbrev pub minute : ℕ
minute = 60 * second

abbrev pub hour : ℕ
hour = 60 * minute

-- Milliseconds from Go's zero time to the Unix epoch.
abbrev pub unix_epoch : ℕ
unix_epoch = 62_135_596_800_000

-- `Time.UnixMilli`, at times from 1970 on.
abbrev pub unix_milli : ℕ → ℕ
unix_milli t = t / millisecond - unix_epoch

abbrev pub is_zero : ℕ → Bool
is_zero t = t == 0

-- `t.Before(u)`
abbrev pub before : ℕ → ℕ → Bool
before t u = ltb t u
