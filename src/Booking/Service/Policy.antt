-- ===== src/Booking/Service/Policy.antt =====
-- The rules that the booking service adds to its store: the cancellation cutoff and the limit on
-- rescheduling.
use training_ops_scheduling.Base.{
  ◌+◌, ◌≤◌, ◌<◌, ◌*◌, ◌≡◌, ◌⊎◌, inl, inr, String, some, arith, Bool-cases, ltb,
}
use training_ops_scheduling.Base.Int.{pos, ltb_ℤ, ◌≤ℤ◌}
use training_ops_scheduling.Base.Result.{ok, err}
use training_ops_scheduling.Clock.{Time, sub, hour}
use training_ops_scheduling.Booking.Data.{Booking}
use training_ops_scheduling.Booking.Store.{BookingStore, BookingError}
use training_ops_scheduling.Booking.Service.{cancel, reschedule}

-- `t.Sub(now) < 24h` holds exactly when `t` lies less than 24 hours ahead of `now`.
sub_lt_day : (t now : Time) → ltb_ℤ (sub t now) (pos (24 * hour)) ≡ ltb t (now + 24 * hour)
unfolding sub
sub_lt_day t now = ground arith

module _ (store : BookingStore) where
  -- On a booking that the store has, Cancel refuses and changes nothing when less than 24 hours are
  -- left until the start, and is the store's own cancellation otherwise.
  pub cancel_cutoff :
      (t i : String) (now : Time) (s : store.State) (b : Booking)
      → store.get_booking t i s ≡ ok b
      → ((b.start_at < now + 24 * hour)
          × (cancel store t i now s ≡ (s, some BookingError.cancellation_closed)))
        ⊎ ((now + 24 * hour ≤ b.start_at) × (cancel store t i now s ≡ store.cancel t i now s))
  unfolding cancel
  cancel_cutoff t i now s b e = elim (Bool-cases (ltb b.start_at (now + 24 * hour))) [
    | inl late ↦ inl (ground arith, rw (e, cancel, sub_lt_day b.start_at now, late))
    | inr early ↦ inr (ground arith, rw (e, cancel, sub_lt_day b.start_at now, early))
  ]

  -- On a booking that the store has, Reschedule refuses and changes nothing when the booking was
  -- moved twice already, and is the store's own move otherwise.
  reschedule_limit :
      (t i : String) (new_start new_end now : Time) (s : store.State) (b : Booking)
      → store.get_booking t i s ≡ ok b
      → ((pos 2 ≤ℤ b.reschedule_count)
          × (reschedule store t i new_start new_end now s
              ≡ (s, err BookingError.reschedule_limit_reached)))
        ⊎ ((¬ (pos 2 ≤ℤ b.reschedule_count))
            × (reschedule store t i new_start new_end now s
                ≡ store.reschedule t i new_start new_end now s))
  unfolding reschedule
  reschedule_limit t i new_start new_end now s b e =
      elim (Bool-cases (ltb_ℤ b.reschedule_count (pos 2))) [
        | inl few ↦ inr (λ h. grind arith, rw (e, reschedule, few))
        | inr many ↦ inl (grind arith, rw (e, reschedule, many))
      ]
