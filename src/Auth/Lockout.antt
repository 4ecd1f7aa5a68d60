-- ===== src/Auth/Lockout.antt =====
-- repo/backend/internal/security/lockout.go.
use training_ops_scheduling.Base.{◌+◌, ◌*◌, Bool, not, Option, none, some}
use training_ops_scheduling.Base.Int.{ℤ, pos, ltb_ℤ}
use training_ops_scheduling.Clock.{Time, Duration, before, minute}

abbrev pub max_failed_attempts : ℤ
max_failed_attempts = pos 5

abbrev pub lockout_duration : Duration
lockout_duration = 15 * minute

unfoldable pub is_locked : ℤ → Option Time → Time → Bool
is_locked failed_attempts none now = not (ltb_ℤ failed_attempts max_failed_attempts)
is_locked failed_attempts (some locked_until) now = before now locked_until

unfoldable pub next_lockout : Time → Time
next_lockout now = now + lockout_duration
