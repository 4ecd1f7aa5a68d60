-- ===== src/Booking/Postgres/Kept.antt =====
-- The methods of the booking store on Postgres that ask for no new slot: what they keep.
use training_ops_scheduling.Base.{
  String, true, false, ◌≡◌, refl, inl, inr, Option, none, some, any, arith, Bool-cases,
}
use training_ops_scheduling.Base.Result.{Result, ok, err, Result-cases}
use training_ops_scheduling.Clock.{Time}
use training_ops_scheduling.Booking.Data.{Booking, BookingStatus, is_held, is_confirmed}
use training_ops_scheduling.Booking.Store.{BookingError, Error?}
use training_ops_scheduling.Booking.Conflict.{has_lapsed}
use training_ops_scheduling.Booking.Postgres.Tables.{
  Database, Server, cast_uuid, resolve_tenant_uuid, is_row, refers_user,
}
use training_ops_scheduling.Booking.Postgres.Rows.{
  has_ended, is_confirmable, confirm_row, expire_row, cancel_row, check_in_row, is_confirmable_row,
  is_confirmed_row,
}
use training_ops_scheduling.Booking.Postgres.Methods.{
  confirm, cancel, check_in, with_row_ids, one_row, or_fail, confirm_statements, cancel_statement,
  check_in_statement, release_expired_holds, expire_held_bookings,
}
use training_ops_scheduling.Base.Int.{ltb_ℤ}
use training_ops_scheduling.Base.Rows.{first_where}
use training_ops_scheduling.Booking.Postgres.Reserve.{
  reserve_row, seat_statements, seat_unless, reserve_learner_seat,
}
use training_ops_scheduling.Booking.Postgres.Exclusion.{Keeps, Rewrites, kept, rewritten}

expire_row-Keeps : (now : Time) (a : Booking) → Keeps now a (expire_row now a)
unfolding expire_row
expire_row-Keeps now a = record {
  id = refl;
  tenant_id = refl;
  room_id = refl;
  instructor_id = refl;
  start_at = refl;
  end_at = refl;
  active = λ h. absurd (h.not_expired refl);
}

cancel_row-Keeps : (now : Time) (a : Booking) → Keeps now a (cancel_row now a)
unfolding cancel_row
cancel_row-Keeps now a = record {
  id = refl;
  tenant_id = refl;
  room_id = refl;
  instructor_id = refl;
  start_at = refl;
  end_at = refl;
  active = λ h. absurd (h.not_cancelled refl);
}

is_confirmed_only : (s : BookingStatus) → is_confirmed s ≡ true → s ≡ BookingStatus.confirmed
unfolding is_confirmed
is_confirmed_only s h = ground arith

is_held_only : (s : BookingStatus) → is_held s ≡ true → s ≡ BookingStatus.held
unfolding is_held
is_held_only s h = ground arith

-- A row that is checked in was confirmed.
check_in_row-Keeps :
    (now : Time) (a : Booking) → is_confirmed a.status ≡ true → Keeps now a (check_in_row now a)
unfolding check_in_row
check_in_row-Keeps now a e = record {
  id = refl;
  tenant_id = refl;
  room_id = refl;
  instructor_id = refl;
  start_at = refl;
  end_at = refl;
  active = λ h.
      let was = is_confirmed_only a.status e in
      record { not_cancelled = λ x. cc; not_expired = λ x. cc; in_force = h.in_force };
}

has_ended-has_lapsed :
    (now : Time) (o : Option Time) → has_ended now o ≡ false → has_lapsed now o ≡ false
unfolding has_ended has_lapsed
has_ended-has_lapsed now none h = refl
has_ended-has_lapsed now (some t) h = ground arith

-- A row that is confirmed was held, and its hold had not run out.
confirm_row-Keeps :
    (now : Time) (a : Booking) → is_confirmable now a ≡ true → Keeps now a (confirm_row now a)
unfolding confirm_row is_confirmable
confirm_row-Keeps now a e = record {
  id = refl;
  tenant_id = refl;
  room_id = refl;
  instructor_id = refl;
  start_at = refl;
  end_at = refl;
  active = λ h.
      let was = is_held_only a.status (ground arith) in
      record {
        not_cancelled = λ x. cc;
        not_expired = λ x. cc;
        in_force = has_ended-has_lapsed now a.hold_expires_at (ground arith);
      };
}

reserve_row-Keeps : (now : Time) (a : Booking) → Keeps now a (reserve_row now a)
unfolding reserve_row
reserve_row-Keeps now a = record {
  id = refl;
  tenant_id = refl;
  room_id = refl;
  instructor_id = refl;
  start_at = refl;
  end_at = refl;
  active = λ h. record {
    not_cancelled = h.not_cancelled;
    not_expired = h.not_expired;
    in_force = h.in_force;
  };
}

module _ (server : Server) (now : Time) (db : Database) where
  with_row_ids-Rewrites :
      (t i : String) (statements : String → String → Database × Error?)
      → ((tenant id : String) → Rewrites now db (statements tenant id).0)
      → Rewrites now db (with_row_ids server t i statements db).0
  unfolding with_row_ids or_fail
  with_row_ids-Rewrites t i statements h = elim (Result-cases (resolve_tenant_uuid t db)) [
    | inl (e, r) ↦ rw (r, or_fail) kept
    | inr (tenant, r) ↦ elim (Result-cases (cast_uuid server i)) [
      | inl (e, c) ↦ rw (r, c, or_fail) kept
      | inr (id, c) ↦ rw (r, c, or_fail) (h tenant id)
    ]
  ]

  pub cancel-Rewrites : (t i : String) → Rewrites now db (cancel server t i now db).0
  unfolding cancel cancel_statement
  cancel-Rewrites t i = with_row_ids-Rewrites t i _ λ tenant id.
      elim (Bool-cases (any (is_row tenant id) db.bookings)) [
        | inl e ↦ rw e (rewritten _ _ λ a _. cancel_row-Keeps now a)
        | inr e ↦ rw e kept
      ]

  pub check_in-Rewrites : (t i : String) → Rewrites now db (check_in server t i now db).0
  unfolding check_in check_in_statement is_confirmed_row
  check_in-Rewrites t i = with_row_ids-Rewrites t i _ λ tenant id.
      elim (Bool-cases (any (is_confirmed_row tenant id) db.bookings)) [
        | inl e ↦ rw e (rewritten _ _ λ a h. check_in_row-Keeps now a (ground arith))
        | inr e ↦ rw e kept
      ]

  pub confirm-Rewrites : (t i : String) → Rewrites now db (confirm server t i now db).0
  unfolding confirm confirm_statements is_confirmable_row
  confirm-Rewrites t i = with_row_ids-Rewrites t i _ λ tenant id.
      elim (Bool-cases (any (is_confirmable_row tenant id now) db.bookings)) [
        | inl e ↦ rw e (rewritten _ _ λ a h. confirm_row-Keeps now a (ground arith))
        | inr e ↦ rw e (rewritten _ _ λ a _. expire_row-Keeps now a)
      ]

  pub release_expired_holds-Rewrites : Rewrites now db (release_expired_holds now db).0
  unfolding release_expired_holds
  release_expired_holds-Rewrites = rewritten _ _ λ a _. expire_row-Keeps now a

  pub expire_held_bookings-Rewrites : Rewrites now db (expire_held_bookings now db).0
  unfolding expire_held_bookings
  expire_held_bookings-Rewrites = rewritten _ _ λ a _. expire_row-Keeps now a

  seat_statements-Rewrites :
      (tenant id learner : String)
      → Rewrites now db (seat_statements server tenant id learner now db).0
  unfolding seat_statements
  seat_statements-Rewrites tenant id learner = elim (Result-cases (cast_uuid server learner)) [
    | inl (e, c) ↦ rw (c, seat_statements) kept
    | inr (user, c) ↦
        rw (c, seat_statements)
          (elim (Bool-cases (refers_user user db)) [
            | inl e ↦ rw e (rewritten _ _ λ a _. reserve_row-Keeps now a)
            | inr e ↦ rw e kept
          ])
  ]

  seat_unless-Rewrites :
      (tenant id learner : String) (read : Result BookingError Booking)
      → Rewrites now db (seat_unless server tenant id learner now db read).0
  unfolding seat_unless
  seat_unless-Rewrites tenant id learner (err e) = kept
  seat_unless-Rewrites tenant id learner (ok row) = elim (Bool-cases (is_confirmed row.status)) [
    | inr e ↦ rw e kept
    | inl e ↦ rw e (elim (Bool-cases (ltb_ℤ row.attendees row.capacity)) [
      | inr full ↦ rw full kept
      | inl room ↦ rw room (seat_statements-Rewrites tenant id learner)
    ])
  ]

  pub reserve_learner_seat-Rewrites :
      (t i learner : String) → Rewrites now db (reserve_learner_seat server t i learner now db).0
  unfolding reserve_learner_seat
  reserve_learner_seat-Rewrites t i learner =
      with_row_ids-Rewrites t i
        (λ tenant id.
          seat_unless server tenant id learner now db
            (one_row (first_where (is_row tenant id) db.bookings)))
        (λ tenant id.
          seat_unless-Rewrites tenant id learner
            (one_row (first_where (is_row tenant id) db.bookings)))
