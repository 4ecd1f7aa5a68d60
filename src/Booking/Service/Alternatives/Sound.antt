-- ===== src/Booking/Service/Alternatives/Sound.antt =====
-- Every slot that SuggestAlternatives offers is free, and it offers at most three.
use training_ops_scheduling.Base.{
  ℕ, zero, suc, ◌+◌, ◌≤◌, ◌<◌, ◌*◌, ◌≡◌, inl, inr, false, List, [], ◌∷◌, ◌++◌, arith, ltb, str_lt,
  ◌==◌, Bool-cases, All, All-append, length, length-append,
}
use training_ops_scheduling.Base.Int.{ltb_ℤ}
use training_ops_scheduling.Base.Sort.{sort_slice}
use training_ops_scheduling.Clock.{Time, minute, hour}
use training_ops_scheduling.Booking.Data.{Booking, Room, Instructor, AlternativeSlot}
use training_ops_scheduling.Booking.Service.Alternatives.{
  candidate_of, has_conflict, Search, going, done, candidate_at, slot_at, try_instructors,
  try_rooms, try_offsets, room_capacity, too_small, hour_slot, try_hours, finish_search,
  search_alternatives,
}

-- The booking, asked for in another slot.
abbrev pub at_slot : Booking → AlternativeSlot → Booking
at_slot booking slot = record booking {
  room_id = slot.room_id;
  instructor_id = slot.instructor_id;
  start_at = slot.start_at;
  end_at = slot.end_at;
}

module _ (bookings : List Booking) (booking : Booking) (now : Time) where
  abbrev pub IsFreeSlot : AlternativeSlot → Type 0
  IsFreeSlot slot = has_conflict bookings (candidate_of (at_slot booking slot)) now ≡ false

  -- A loop that goes on has room for another slot.
  abbrev IsSound : Search → Type 0
  IsSound (going found) = All IsFreeSlot found × (length found < 3)
  IsSound (done found) = All IsFreeSlot found × (length found ≤ 3)

  add_slot :
      (found : List AlternativeSlot) (slot : AlternativeSlot)
      → All IsFreeSlot found
      → IsFreeSlot slot
      → All IsFreeSlot (found ++ slot ∷ [])
  add_slot found slot h free = All-append IsFreeSlot found (slot ∷ []) h (free, tt)

  try_instructors-IsSound :
      (room : Room) (start end : Time) (instructors : List Instructor)
      (found : List AlternativeSlot)
      → All IsFreeSlot found
      → length found < 3
      → IsSound (try_instructors bookings booking now room start end instructors found)
  unfolding try_instructors candidate_at slot_at candidate_of
  try_instructors-IsSound room start end [] found h few = (h, few)
  try_instructors-IsSound room start end (i ∷ rest) found h few =
      elim (Bool-cases
        (has_conflict bookings (candidate_at bookings booking now room.id i.id start end) now)) [
          | inl taken ↦
              rw (taken, try_instructors) (try_instructors-IsSound room start end rest found h few)
          | inr free ↦
              let slot = slot_at bookings booking now room i start end in
              let more = add_slot found slot h free in
              let longer = length-append found (slot ∷ []) in
              elim (Bool-cases (length (found ++ slot ∷ []) == 3)) [
                | inl full ↦ rw (free, try_instructors, full) (more, ground arith)
                | inr short ↦
                    rw (free, try_instructors, short)
                      (try_instructors-IsSound room start end rest (found ++ slot ∷ []) more
                        (ground arith))
              ]
        ]

  -- What the body of a loop found is sound, and so is what the loop does next.
  after_body :
      (body : Search) (next : List AlternativeSlot → Search)
      → IsSound body
      → ((found : List AlternativeSlot)
          → All IsFreeSlot found
          → length found < 3
          → IsSound (next found))
      → IsSound (elim body [ done found ↦ done found | going found ↦ next found ])
  after_body (going found) next h k = k found h.0 h.1
  after_body (done found) next h k = h

  try_rooms-IsSound :
      (start end : Time) (instructors : List Instructor) (rooms : List Room)
      (found : List AlternativeSlot)
      → All IsFreeSlot found
      → length found < 3
      → IsSound (try_rooms bookings booking now start end instructors rooms found)
  unfolding try_rooms
  try_rooms-IsSound start end instructors [] found h few = (h, few)
  try_rooms-IsSound start end instructors (room ∷ rest) found h few =
      elim (Bool-cases (ltb_ℤ room.capacity booking.attendees)) [
        | inl small ↦
            rw (small, try_rooms) (try_rooms-IsSound start end instructors rest found h few)
        | inr fits ↦
            rw (fits, try_rooms)
              (after_body (try_instructors bookings booking now room start end instructors found)
                (λ f. try_rooms bookings booking now start end instructors rest f)
                (try_instructors-IsSound room start end instructors found h few)
                (λ f. try_rooms-IsSound start end instructors rest f))
      ]

  try_offsets-IsSound :
      (instructors : List Instructor) (rooms : List Room) (left offset : ℕ)
      (found : List AlternativeSlot)
      → All IsFreeSlot found
      → length found < 3
      → IsSound (try_offsets bookings booking now instructors rooms left offset found)
  unfolding try_offsets
  try_offsets-IsSound instructors rooms zero offset found h few = (h, few)
  try_offsets-IsSound instructors rooms (suc left) offset found h few =
      elim (Bool-cases (ltb (length found) 3)) [
        | inr full ↦ absurd (ground arith)
        | inl short ↦
            let start = booking.start_at + offset * (30 * minute) in
            let end = booking.end_at + offset * (30 * minute) in
            rw (short, try_offsets)
              (after_body (try_rooms bookings booking now start end instructors rooms found)
                (λ f. try_offsets bookings booking now instructors rooms left (offset + 1) f)
                (try_rooms-IsSound start end instructors rooms found h few)
                (λ f. try_offsets-IsSound instructors rooms left (offset + 1) f))
      ]

  try_hours_sound :
      (rooms : List Room) (left offset : ℕ) (found : List AlternativeSlot)
      → All IsFreeSlot found
      → length found ≤ 3
      → All IsFreeSlot (try_hours bookings booking now rooms left offset found)
        × (length (try_hours bookings booking now rooms left offset found) ≤ 3)
  unfolding try_hours candidate_at hour_slot candidate_of
  try_hours_sound rooms zero offset found h few = (h, few)
  try_hours_sound rooms (suc left) offset found h few = elim (Bool-cases (ltb (length found) 3)) [
    | inr full ↦ rw (full, try_hours) (h, few)
    | inl short ↦
        elim (Bool-cases
          (too_small bookings booking now (room_capacity bookings booking now rooms))) [
            | inl small ↦
                rw (short, try_hours, small) (try_hours_sound rooms left (offset + 1) found h few)
            | inr fits ↦
                let start = booking.start_at + offset * hour in
                let end = booking.end_at + offset * hour in
                let slot = hour_slot bookings booking now offset start end in
                elim (Bool-cases (
                  has_conflict bookings
                    (candidate_at bookings booking now booking.room_id booking.instructor_id start
                      end)
                    now)) [
                      | inl taken ↦
                          rw (short, try_hours, fits, taken)
                            (try_hours_sound rooms left (offset + 1) found h few)
                      | inr free ↦
                          rw (short, try_hours, fits, free)
                            (try_hours_sound rooms left (offset + 1) (found ++ slot ∷ [])
                              (add_slot found slot h free)
                              (ground (arith, length-append found (slot ∷ []))))
                    ]
          ]
  ]

  finish_search_sound :
      (rooms : List Room) (s : Search)
      → IsSound s
      → All IsFreeSlot (finish_search bookings booking now rooms s)
        × (length (finish_search bookings booking now rooms s) ≤ 3)
  unfolding finish_search
  finish_search_sound rooms (done found) h = h
  finish_search_sound rooms (going found) h = elim (Bool-cases (ltb (length found) 3)) [
    | inl short ↦ rw short (try_hours_sound rooms 3 1 found h.0 (omega arith))
    | inr full ↦ rw full (h.0, omega arith)
  ]

  -- At most three slots are offered, and no booking of the list conflicts with any of them.
  pub search_alternatives_sound :
      (rooms : List Room) (instructors : List Instructor)
      → All IsFreeSlot (search_alternatives bookings booking now rooms instructors)
        × (length (search_alternatives bookings booking now rooms instructors) ≤ 3)
  unfolding search_alternatives
  search_alternatives_sound rooms instructors =
      let rooms' = sort_slice (λ (a b : Room). str_lt a.id b.id) rooms in
      let instructors' = sort_slice (λ (a b : Instructor). str_lt a.id b.id) instructors in
      finish_search_sound rooms' (try_offsets bookings booking now instructors' rooms' 6 1 [])
        (try_offsets-IsSound instructors' rooms' 6 1 [] tt (omega arith))
