-- ===== src/Booking/Service/Alternatives/Agree.antt =====
-- hasConflict of the service says what the conflict loop of the repository says.
use training_ops_scheduling.Base.{
  ◌≡◌, refl, ◌↔◌, true, false, ◌||◌, List, [], ◌∷◌, arith, str_eq, str_eq_iff, str_eq_comm, All,
  select, select-All_iff,
}
use training_ops_scheduling.Base.Sort.{sort_slice-All_iff}
use training_ops_scheduling.Base.Table.{values}
use training_ops_scheduling.Base.Invariant.{Each-mono, values-All_iff}
use training_ops_scheduling.Clock.{Time, before}
use training_ops_scheduling.Booking.Data.{Booking}
use training_ops_scheduling.Booking.Conflict.{in_the_way}
use training_ops_scheduling.Booking.Conflict.Blocking.{Active, Collide, blocks, blocks_iff}
use training_ops_scheduling.Booking.Memory.{BookingRepository, list_bookings}
use training_ops_scheduling.Booking.Memory.Hold.{IsFree}
use training_ops_scheduling.Booking.Service.Alternatives.{candidate_of, has_conflict}

abbrev pub AllFree : Time → Booking → List Booking → Type 0
AllFree now candidate = All (λ b. ¬ (Active now b × Collide b candidate))

has_conflict-blocks :
    (now : Time) (candidate b : Booking) (rest : List Booking)
    → has_conflict (b ∷ rest) (candidate_of candidate) now
      ≡ (blocks now candidate b || has_conflict rest (candidate_of candidate) now)
unfolding has_conflict candidate_of blocks in_the_way
has_conflict-blocks now candidate b rest = ground (
  arith,
  str_eq_comm candidate.room_id b.room_id,
  str_eq_comm candidate.instructor_id b.instructor_id,
)

has_conflict_iff :
    (now : Time) (candidate : Booking) (bookings : List Booking)
    → (has_conflict bookings (candidate_of candidate) now ≡ false) ↔ AllFree now candidate bookings
unfolding has_conflict
has_conflict_iff now candidate [] = (λ h. tt, λ h. refl)
has_conflict_iff now candidate (b ∷ rest) =
    let step = has_conflict-blocks now candidate b rest in
    let here = blocks_iff now candidate b in
    let ih = has_conflict_iff now candidate rest in
    (
      λ h. (here.0 (ground arith), ih.0 (ground arith)),
      λ h. let off = here.1 h.0 in let others = ih.1 h.1 in ground arith,
    )

-- The service's test on a tenant's list and the repository's own loop agree on every candidate of
-- that tenant.
pub has_conflict-IsFree_iff :
    (now : Time) (candidate : Booking) (r : BookingRepository)
    → (has_conflict (list_bookings candidate.tenant_id r) (candidate_of candidate) now ≡ false)
      ↔ IsFree now candidate r.bookings
unfolding list_bookings
has_conflict-IsFree_iff now candidate r =
    let free = λ (b : Booking). ¬ (Active now b × Collide b candidate) in
    let own = λ (b : Booking). str_eq b.tenant_id candidate.tenant_id in
    let said = has_conflict_iff now candidate (list_bookings candidate.tenant_id r) in
    let sorted =
      sort_slice-All_iff (λ a b. before a.start_at b.start_at) free
        (select own (values r.bookings)) in
    let chosen = select-All_iff free own (values r.bookings) in
    let stored = values-All_iff (λ b. own b ≡ true → free b) r.bookings in
    (
      λ h.
          Each-mono _ _ r.bookings
            (λ _ b keep (act, c). keep ((str_eq_iff _ _).1 c.same_tenant) (act, c))
            (stored.0 (chosen.0 (sorted.0 (said.0 h)))),
      λ h.
          said.1 (sorted.1 (chosen.1 (stored.1 (Each-mono _ _ r.bookings (λ _ b keep _. keep) h)))),
    )
