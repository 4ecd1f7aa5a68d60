-- ===== src/Clock.antt =====
-- Instants and durations as package time has them (the standard library's `time.Time` and
-- `time.Duration`). An instant is the number of nanoseconds since the zero time; instants before it
-- are left out. A duration that a program adds is a number of nanoseconds.
use training_ops_scheduling.Base.{ℕ, ◌-◌, ◌/◌, Bool, ltb, leb, if◌then◌else◌}
use training_ops_scheduling.Base.Int.{ℤ, pos, negsuc, max_int64}

abbrev pub Time : Type 0
Time = ℕ

abbrev pub Duration : Type 0
Duration = ℕ

abbrev pub second : Duration
second = 1000000000

abbrev pub minute : Duration
minute = 60000000000

abbrev pub hour : Duration
hour = 3600000000000

-- `t.Before(u)`
abbrev pub before : Time → Time → Bool
before t u = ltb t u

-- `t.After(u)`
abbrev pub after : Time → Time → Bool
after t u = ltb u t

-- `t.Sub(u)`: the difference, which stops at the ends of a 64-bit duration.
unfoldable pub sub : Time → Time → ℤ
sub t u =
    if leb u t
    then pos (if ltb max_int64 (t - u) then max_int64 else t - u)
    else negsuc (if ltb max_int64 (u - t - 1) then max_int64 else u - t - 1)

-- 1970-01-01T00:00:00Z
abbrev pub unix_epoch : Time
unix_epoch = 62135596800000000000

-- `t.UnixNano()`; Go leaves it undefined where it does not fit in 64 bits.
unfoldable pub unix_nano : Time → ℤ
unix_nano t = if leb unix_epoch t then pos (t - unix_epoch) else negsuc (unix_epoch - t - 1)

-- `t.Unix()`: whole seconds since 1970, rounded down.
unfoldable pub unix : Time → ℤ
unix t =
    if leb unix_epoch t
    then pos ((t - unix_epoch) / second)
    else negsuc ((unix_epoch - t - 1) / second)
