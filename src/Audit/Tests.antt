-- ===== src/Audit/Tests.antt =====
-- The expiry worker on a concrete store: its theorem applied.
use training_ops_scheduling.Base.{ℕ, ◌+◌, ◌≡◌, String, some, List, [], ◌∷◌, ◌++◌}
use training_ops_scheduling.Base.Result.{ok}
use training_ops_scheduling.Booking.Data.{Booking, BookingStatus}
use training_ops_scheduling.Booking.Tests.Samples.{lesson}
use training_ops_scheduling.Audit.Trail.{AuditStore, AuditRecorder}
use training_ops_scheduling.Audit.Worker.{HoldExpiryStore, start, swept_entries, start-entries}

-- Each sweep expires the holds that are left.
abbrev holds : HoldExpiryStore (List Booking)
holds = record { expire_held_bookings = λ now held. ([], ok held) }

-- A store that takes no entry.
abbrev broken : AuditStore ℕ
broken = record { write_audit_transition = λ entry s. (s + 1, some "no connection") }

abbrev empty_trail : AuditRecorder ℕ
empty_trail = record { entries = []; stored = 0 }

abbrev waiting : List Booking
waiting = lesson "b1" BookingStatus.held 100 ∷ lesson "b2" BookingStatus.held 102 ∷ []

abbrev stamp : ℕ → String
stamp now = "2026-01-01T00:00:00Z"

start-entries_example :
    (start holds (some broken) stamp 5 (6 ∷ []) (waiting, empty_trail)).1.entries
    ≡ [] ++ swept_entries holds (some broken) stamp 5 (6 ∷ []) waiting
start-entries_example = start-entries holds (some broken) stamp 5 (6 ∷ []) waiting empty_trail
