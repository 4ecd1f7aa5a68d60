-- ===== src/Booking/Postgres/Outcomes.antt =====
-- What Confirm, Cancel and CheckIn on Postgres do to the booking that they name, on every branch.
use training_ops_scheduling.Base.{
  String, Bool, true, false, ◌&&◌, ◌≡◌, ◌≢◌, ◌≤◌, ◌<◌, refl, ap, subst, Option-cases, ◌∙◌, inl, inr,
  none, some, any, arith, str_eq, str_eq_iff, Bool-cases, All-mono, if◌then◌else◌,
}
use training_ops_scheduling.Base.Rows.{
  first_where, first_where-passes, first_where-update_where, any_unique,
}
use training_ops_scheduling.Base.Int.{pos, ◌+ℤ◌}
use training_ops_scheduling.Base.Result.{ok}
use training_ops_scheduling.Clock.{Time}
use training_ops_scheduling.Booking.Data.{Booking, BookingStatus, is_held, is_confirmed}
use training_ops_scheduling.Booking.Store.{BookingError, Error?}
use training_ops_scheduling.Booking.Postgres.Tables.{
  Database, Server, cast_uuid, resolve_tenant_uuid, is_row,
}
use training_ops_scheduling.Booking.Postgres.Rows.{
  has_ended, is_confirmable, has_run_out, confirm_row, expire_row, check_in_row, is_confirmable_row,
  is_run_out_row, is_confirmed_row,
}
use training_ops_scheduling.Booking.Postgres.Methods.{
  get_booking, get_booking_tx, one_row, confirm, check_in, with_row_ids, or_fail,
  confirm_statements, check_in_statement, update_bookings,
}
use training_ops_scheduling.Booking.Postgres.Exclusion.{WellFormed, unique_row}

-- The row that the method's tenant and identifier name.
pub record Names (server : Server) (t i : String) (db : Database) (row : Booking) : Type 0 where
  pub tenant : resolve_tenant_uuid t db ≡ ok row.tenant_id
  pub id : server.uuid i ≡ some row.id
  pub found : first_where (is_row row.tenant_id row.id) db.bookings ≡ some row

get_booking-Names_iff :
    (server : Server) (t i : String) (db : Database) (row : Booking)
    → Names server t i db row
    → get_booking server t i db ≡ ok row
unfolding get_booking get_booking_tx cast_uuid one_row
get_booking-Names_iff server t i db row n =
    rw (n.tenant, n.id, get_booking, get_booking_tx, cast_uuid, n.found) refl

-- A held booking that cannot be confirmed has run out.
has_run_out-held :
    (now : Time) (row : Booking)
    → is_confirmable now row ≡ false
    → has_run_out now row ≡ is_held row.status
unfolding is_confirmable has_run_out
has_run_out-held now row h = ground arith

is_confirmable-open :
    (now : Time) (row : Booking)
    → row.status ≡ BookingStatus.held
    → ((until : Time) → row.hold_expires_at ≡ some until → now < until)
    → is_confirmable now row ≡ true
unfolding is_confirmable has_ended is_held
is_confirmable-open now row held open_until = elim (Option-cases row.hold_expires_at) [
  | inl e ↦ rw (is_confirmable, held, e, has_ended) refl
  | inr (until, e) ↦
      let later = open_until until e in rw (is_confirmable, held, e, has_ended) (ground arith)
]

is_confirmable-ended :
    (now until : Time) (row : Booking)
    → row.hold_expires_at ≡ some until
    → until ≤ now
    → is_confirmable now row ≡ false
unfolding is_confirmable has_ended
is_confirmable-ended now until row e over = rw (is_confirmable, e, has_ended) (ground arith)

is_held-other : (s : BookingStatus) → s ≢ BookingStatus.held → is_held s ≡ false
unfolding is_held
is_held-other s h = ground arith

module _ (server : Server) (t i : String) (now : Time) (db : Database) (row : Booking)
    (n : Names server t i db row) where
  with_row_ids-Names :
      (statements : String → String → Database × Error?)
      → with_row_ids server t i statements db ≡ statements row.tenant_id row.id
  unfolding with_row_ids or_fail cast_uuid
  with_row_ids-Names statements = rw (n.tenant, n.id, with_row_ids, or_fail, cast_uuid) refl

  get_booking-update_bookings :
      (p : Booking → Bool) (f : Booking → Booking)
      → ((a : Booking) → is_row row.tenant_id row.id (f a) ≡ is_row row.tenant_id row.id a)
      → get_booking server t i (update_bookings p f db) ≡ ok (if p row then f row else row)
  unfolding get_booking get_booking_tx cast_uuid one_row update_bookings
  get_booking-update_bookings p f same =
      let found =
        first_where-update_where (is_row row.tenant_id row.id) p f db.bookings row same n.found in
      rw (n.tenant, n.id, get_booking, get_booking_tx, cast_uuid, found) refl

  is_row_found : is_row row.tenant_id row.id row ≡ true
  is_row_found = first_where-passes (is_row row.tenant_id row.id) db.bookings row n.found

  any_row :
      (c : Booking → Bool)
      → WellFormed server now db
      → any (λ a. is_row row.tenant_id row.id a && c a) db.bookings ≡ c row
  any_row c w = any_unique (is_row row.tenant_id row.id) c db.bookings row n.found (
      All-mono (λ a only e. only ((str_eq_iff a.id row.id).0 (is_row-id a e))) db.bookings
        (unique_row now (is_row row.tenant_id row.id) db.bookings row w.separate n.found))
    where
      is_row-id : (a : Booking) → is_row row.tenant_id row.id a ≡ true → str_eq a.id row.id ≡ true
      is_row-id a e = unfold is_row in ground arith

  confirm_statements-confirmable :
      WellFormed server now db
      → is_confirmable now row ≡ true
      → let (db', e) = confirm_statements row.tenant_id row.id now db in
        (e ≡ none) × (get_booking server t i db' ≡ ok (confirm_row now row))
  unfolding confirm_statements is_confirmable_row
  confirm_statements-confirmable w yes_ =
      let here = is_row_found in
      let changed : (is_row row.tenant_id row.id row && is_confirmable now row) ≡ true =
        ground arith in
      let got =
        get_booking-update_bookings (λ a. is_row row.tenant_id row.id a && is_confirmable now a)
          (confirm_row now) (λ a. refl) in
      rw (any_row (is_confirmable now) w ∙ yes_) (refl, rw changed at got)

  confirm_statements-refused :
      WellFormed server now db
      → is_confirmable now row ≡ false
      → let (db', e) = confirm_statements row.tenant_id row.id now db in
        (e ≡ some (BookingError.other "booking cannot be confirmed"))
        × (get_booking server t i db' ≡ ok (if is_held row.status then expire_row now row else row))
  unfolding confirm_statements is_confirmable_row is_run_out_row
  confirm_statements-refused w shut =
      let here = is_row_found in
      let over : (is_row row.tenant_id row.id row && has_run_out now row) ≡ is_held row.status =
        let ended = has_run_out-held now row shut in ground arith in
      let got =
        get_booking-update_bookings (λ a. is_row row.tenant_id row.id a && has_run_out now a)
          (expire_row now) (λ a. refl) in
      rw (any_row (is_confirmable now) w ∙ shut) (refl, rw over at got)

  -- CheckIn checks a confirmed booking in, and otherwise reports an error and changes nothing.
  pub check_in_outcome :
      WellFormed server now db
      → let (db', e) = check_in server t i now db in
        if is_confirmed row.status
        then (e ≡ none) × (get_booking server t i db' ≡ ok (check_in_row now row))
        else (e ≡ some (BookingError.other "only confirmed bookings can be checked in"))
          × (db' ≡ db)
  unfolding check_in check_in_statement is_confirmed_row
  check_in_outcome w =
      let here = is_row_found in
      let asked = any_row (λ a. is_confirmed a.status) w in
      let got =
        get_booking-update_bookings (λ a. is_row row.tenant_id row.id a && is_confirmed a.status)
          (check_in_row now) (λ a. refl) in
      rw (with_row_ids-Names (λ tenant id. check_in_statement tenant id now db))
        (elim (Bool-cases (is_confirmed row.status)) [
          | inl t_ ↦
              rw (asked ∙ t_, t_)
                (
                  refl,
                  rw
                      (let k : (is_row row.tenant_id row.id row && is_confirmed row.status) ≡ true =
                          ground arith in
                        k)
                      at got,
                )
          | inr f_ ↦ rw (asked ∙ f_, f_) (refl, refl)
        ])

  -- In a table whose rows have identifiers of their own, printed as the server prints them, and whose
  -- active rows do not collide, and of a booking that the tenant and the identifier name: Confirm confirms it without an error, which clears
  -- the end of its hold, where it is held and its hold has no end or ends later; where it is held and its
  -- hold has ended, Confirm reports that it cannot be confirmed and expires it; and of one that is not
  -- held, it reports that and changes nothing of it.
  pub confirm_outcome :
      WellFormed server now db
      → let (db', e) = confirm server t i now db in
        (row.status ≡ BookingStatus.held
          → ((until : Time) → row.hold_expires_at ≡ some until → now < until)
          → (e ≡ none)
            × (get_booking server t i db'
                ≡ ok (record row {
                  status = BookingStatus.confirmed;
                  hold_expires_at = none;
                  updated_at = now;
                  version = row.version +ℤ pos 1;
                })))
        × ((until : Time)
            → row.status ≡ BookingStatus.held
            → row.hold_expires_at ≡ some until
            → until ≤ now
            → (e ≡ some (BookingError.other "booking cannot be confirmed"))
              × (get_booking server t i db'
                  ≡ ok (record row {
                    status = BookingStatus.expired;
                    updated_at = now;
                    version = row.version +ℤ pos 1;
                  })))
        × (row.status ≢ BookingStatus.held
            → (e ≡ some (BookingError.other "booking cannot be confirmed"))
              × (get_booking server t i db' ≡ ok row))
  unfolding confirm confirm_row expire_row is_held is_confirmable
  confirm_outcome w =
      let after_refusal =
        λ (b : Bool) (held : is_held row.status ≡ b) (shut : is_confirmable now row ≡ false).
          subst
            (λ x.
              let (db', e) = confirm_statements row.tenant_id row.id now db in
              (e ≡ some (BookingError.other "booking cannot be confirmed"))
              × (get_booking server t i db' ≡ ok (if x then expire_row now row else row)))
            held (confirm_statements-refused w shut) in
      rw (with_row_ids-Names (λ tenant id. confirm_statements tenant id now db)) (
        λ held until. confirm_statements-confirmable w (is_confirmable-open now row held until),
        λ until held ends over.
            after_refusal true (ap is_held held) (is_confirmable-ended now until row ends over),
        λ other.
            let off = is_held-other row.status other in
            after_refusal false off (rw (is_confirmable, off) refl),
      )
