-- ===== src/Booking/Service/Alternatives/Placed.antt =====
-- What a client of the in-memory repository gets by asking for a slot that was suggested to it.
use training_ops_scheduling.Base.{◌≡◌, ◌↔◌, ◌≤◌, List, All, All-mono, length, arith}
use training_ops_scheduling.Base.Result.{ok}
use training_ops_scheduling.Clock.{Time, Duration}
use training_ops_scheduling.Booking.Data.{Booking, AlternativeSlot}
use training_ops_scheduling.Booking.Store.{HoldResult}
use training_ops_scheduling.Booking.Memory.{
  BookingRepository, memory_store, create_hold, as_held, list_bookings, list_rooms,
  list_instructors,
}
use training_ops_scheduling.Booking.Memory.Hold.{Fits, create_hold-placed_iff}
use training_ops_scheduling.Booking.Service.Alternatives.{suggest_alternatives, search_alternatives}
use training_ops_scheduling.Booking.Service.Alternatives.Agree.{has_conflict-IsFree_iff}
use training_ops_scheduling.Booking.Service.Alternatives.Sound.{at_slot, search_alternatives_sound}

-- A hold on a suggested slot is placed at the same moment exactly when the slot's room, if the
-- repository knows it, seats the attendees; and at most three slots are suggested.
pub suggest_alternatives-placed :
    (booking : Booking) (ttl : Duration) (now : Time) (r : BookingRepository)
    (slots : List AlternativeSlot)
    → suggest_alternatives memory_store booking now r ≡ ok slots
    → All
        (λ slot.
          ((create_hold (at_slot booking slot) ttl now r).1
            ≡ HoldResult.placed (as_held (at_slot booking slot) ttl now))
          ↔ Fits (at_slot booking slot) r)
        slots
      × (length slots ≤ 3)
unfolding suggest_alternatives
suggest_alternatives-placed booking ttl now r slots e =
    let bookings = list_bookings booking.tenant_id r in
    let (free, few) =
      search_alternatives_sound bookings booking now (list_rooms booking.tenant_id r)
        (list_instructors booking.tenant_id r) in
    let found : search_alternatives bookings booking now (list_rooms booking.tenant_id r)
          (list_instructors booking.tenant_id r)
        ≡ slots =
      ground arith in
    (
      All-mono
          (λ slot vacant.
            let asked = at_slot booking slot in
            let placed = create_hold-placed_iff asked ttl now r in
            (
              λ h. (placed.0 h).0,
              λ fits. placed.1 (fits, (has_conflict-IsFree_iff now asked r).0 vacant),
            ))
          slots (rw found at free),
      rw found at few,
    )
