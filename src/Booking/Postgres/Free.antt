-- ===== src/Booking/Postgres/Free.antt =====
-- When detectBookingConflictsTx reports no conflict, for a candidate whose room and instructor are
-- given in the form that the server prints.
use training_ops_scheduling.Base.{
  String, true, false, ◌&&◌, ◌≡◌, ◌≢◌, ◌≤◌, ◌⊎◌, leb, ◌==◌, str_eq_iff, any-false_iff, any-Some_iff,
  Some, refl, ap, subst, ◌↔◌, inl, inr, Option, some, List, [], ◌∷◌, any, select, arith, str_eq,
  Bool-cases, Option-cases, append-eq-nil, All, All-mono, select-All_iff,
}
use training_ops_scheduling.Base.Int.{pos, ◌≤ℤ◌}
use training_ops_scheduling.Base.Rows.{first_where}
use training_ops_scheduling.Base.Result.{ok}
use training_ops_scheduling.Clock.{Time}
use training_ops_scheduling.Booking.Data.{Booking, Room}
use training_ops_scheduling.Booking.Conflict.{overlaps, in_the_way}
use training_ops_scheduling.Booking.Conflict.Blocking.{Active, Collide, blocks, blocks_iff}
use training_ops_scheduling.Booking.Conflict.Dedupe.{dedupe_booking_conflicts-nil_iff}
use training_ops_scheduling.Booking.Postgres.Tables.{Database, Server, ClassPeriodRow, cast_uuid}
use training_ops_scheduling.Booking.Postgres.Detect.{
  row_overlaps, row_conflicts, all_row_conflicts, seat_conflicts, blackout_conflicts,
  period_conflicts, conflicts_in_room, conflicts_for, detect_booking_conflicts_tx,
}

-- The candidate as a booking of the tenant.
abbrev pub of_tenant : String → Booking → Booking
of_tenant tenant candidate = record candidate { tenant_id = tenant }

-- A row that is not excluded stands in the candidate's way only if it is over.
abbrev pub IsClear : String → Booking → Time → List String → Booking → Type 0
IsClear tenant candidate now excluded row =
    any (str_eq row.id) excluded ≡ false
    → ¬ (Active now row × Collide row (of_tenant tenant candidate))

module _ (tenant : String) (candidate : Booking) (now : Time) (excluded : List String) where
  row_conflicts-blocks :
      (row : Booking)
      → any (str_eq row.id) excluded ≡ false
      → (row_overlaps tenant candidate candidate.room_id candidate.instructor_id row ≡ true
          → row_conflicts candidate now excluded row ≡ [])
        ↔ (blocks now (of_tenant tenant candidate) row ≡ false)
  unfolding row_overlaps row_conflicts blocks in_the_way overlaps
  row_conflicts-blocks row kept = (λ h. ground arith, λ h e. ground arith)

  row_conflicts-nil_iff :
      (row : Booking)
      → (row_overlaps tenant candidate candidate.room_id candidate.instructor_id row ≡ true
          → row_conflicts candidate now excluded row ≡ [])
        ↔ IsClear tenant candidate now excluded row
  unfolding row_conflicts
  row_conflicts-nil_iff row = elim (Bool-cases (any (str_eq row.id) excluded)) [
    | inl out ↦ (λ h kept. absurd (cc), λ h e. rw (out, row_conflicts) refl)
    | inr kept ↦
        let tests = row_conflicts-blocks row kept in
        let said = blocks_iff now (of_tenant tenant candidate) row in
        (λ h _. said.0 (tests.0 h), λ h. tests.1 (said.1 (h kept)))
  ]

  all_row_conflicts-All :
      (rows : List Booking)
      → (all_row_conflicts candidate now excluded rows ≡ [])
        ↔ All (λ row. row_conflicts candidate now excluded row ≡ []) rows
  unfolding all_row_conflicts
  all_row_conflicts-All [] = (λ h. tt, λ h. refl)
  all_row_conflicts-All (row ∷ rows) = (
    λ h.
        let (first, later) = append-eq-nil (row_conflicts candidate now excluded row) _ h in
        (first, (all_row_conflicts-All rows).0 later),
    λ h. rw (h.0, (all_row_conflicts-All rows).1 h.1) refl,
  )

  -- No row of the tables stands in the way.
  rows-nil_iff :
      (rows : List Booking)
      → (all_row_conflicts candidate now excluded
            (select (row_overlaps tenant candidate candidate.room_id candidate.instructor_id) rows)
          ≡ [])
        ↔ All (IsClear tenant candidate now excluded) rows
  rows-nil_iff rows =
      let each = all_row_conflicts-All (select _ rows) in
      let kept =
        select-All_iff (λ row. row_conflicts candidate now excluded row ≡ [])
          (row_overlaps tenant candidate candidate.room_id candidate.instructor_id) rows in
      (
        λ h. All-mono (λ row. (row_conflicts-nil_iff row).0) rows (kept.0 (each.0 h)),
        λ h. each.1 (kept.1 (All-mono (λ row. (row_conflicts-nil_iff row).1) rows h)),
      )

-- A class period of the tenant covers the candidate's hours.
pub record Covers (server : Server) (tenant : String) (candidate : Booking) (p : ClassPeriodRow)
    : Type 0 where
  pub tenant_id : p.tenant_id ≡ tenant
  pub weekday : p.weekday ≡ server.weekday_of candidate.start_at
  pub opens : p.start_time ≤ server.clock_of candidate.start_at
  pub closes : server.clock_of candidate.end_at ≤ p.end_time

-- What else a booking needs: its room, where it has a capacity, seats the attendees, none of the tenant's
-- blackouts falls on its day, and where the tenant has class periods one of them covers its hours.
pub record Admits (server : Server) (tenant : String) (candidate : Booking) (room : Room)
    (db : Database) : Type 0 where
  pub seats : pos 1 ≤ℤ room.capacity → candidate.attendees ≤ℤ room.capacity
  pub open_day :
      All
        (λ d. d.tenant_id ≡ tenant → d.blackout_date ≢ server.date_of candidate.start_at)
        db.blackout_dates
  pub in_period :
      All (λ p. p.tenant_id ≢ tenant) db.class_periods
      ⊎ Some (Covers server tenant candidate) db.class_periods

seat_conflicts-nil_iff :
    (candidate : Booking) (room : Room)
    → (seat_conflicts candidate room ≡ [])
      ↔ (pos 1 ≤ℤ room.capacity → candidate.attendees ≤ℤ room.capacity)
unfolding seat_conflicts
seat_conflicts-nil_iff candidate room = (λ h k. ground arith, λ h. ground arith)

module _ (server : Server) (tenant : String) (candidate : Booking) where
  blackout_conflicts-nil_iff :
      (db : Database)
      → (blackout_conflicts server tenant candidate db ≡ [])
        ↔ All
            (λ d. d.tenant_id ≡ tenant → d.blackout_date ≢ server.date_of candidate.start_at)
            db.blackout_dates
  unfolding blackout_conflicts
  blackout_conflicts-nil_iff db =
      let none_falls =
        any-false_iff
          (λ d. str_eq d.tenant_id tenant && d.blackout_date == server.date_of candidate.start_at)
          db.blackout_dates in
      (
        λ h.
            All-mono (λ d off same. ground (arith, str_eq_iff d.tenant_id tenant)) db.blackout_dates
              (none_falls.0 (ground arith)),
        λ h.
            let off = none_falls.1 (
              All-mono (λ d away. ground (arith, str_eq_iff d.tenant_id tenant)) db.blackout_dates
                h) in
            ground arith,
      )

  period_conflicts-nil_iff :
      (db : Database)
      → (period_conflicts server tenant candidate db ≡ []) ↔ (
          All (λ p. p.tenant_id ≢ tenant) db.class_periods
          ⊎ Some (Covers server tenant candidate) db.class_periods)
  unfolding period_conflicts
  period_conflicts-nil_iff db =
      let configured = λ (p : ClassPeriodRow). str_eq p.tenant_id tenant in
      let covers = λ (p : ClassPeriodRow).
        str_eq p.tenant_id tenant
        && p.weekday == server.weekday_of candidate.start_at
        && leb p.start_time (server.clock_of candidate.start_at)
        && leb (server.clock_of candidate.end_at) p.end_time in
      let covered =
        any-Some_iff (Covers server tenant candidate) covers
          (λ p. (
            λ e. record {
              tenant_id = ground (arith, str_eq_iff p.tenant_id tenant);
              weekday = ground arith;
              opens = ground arith;
              closes = ground arith;
            },
            λ c.
                let t = c.tenant_id in
                let w = c.weekday in
                let o = c.opens in
                let e = c.closes in ground (arith, str_eq_iff p.tenant_id tenant),
          ))
          db.class_periods in
      let free = any-false_iff configured db.class_periods in
      (
        λ h. elim (Bool-cases (any covers db.class_periods)) [
          | inl e ↦ inr (covered.0 e)
          | inr none_covers ↦
              let unused : any configured db.class_periods ≡ false = ground arith in
              inl (
                All-mono (λ p e same. ground (arith, str_eq_iff p.tenant_id tenant))
                  db.class_periods (free.0 unused))
        ],
        λ h. elim h [
          | inl away ↦
              let unused : any configured db.class_periods ≡ false = free.1 (
                All-mono (λ p e. ground (arith, str_eq_iff p.tenant_id tenant)) db.class_periods
                  away) in
              rw unused refl
          | inr there_is ↦ let e = covered.1 there_is in ground arith
        ],
      )

  -- The three checks of a known room find nothing exactly when it admits the candidate.
  pub Admits-nil_iff :
      (room : Room) (db : Database)
      → ((seat_conflicts candidate room ≡ [])
          × (blackout_conflicts server tenant candidate db ≡ [])
          × (period_conflicts server tenant candidate db ≡ []))
        ↔ Admits server tenant candidate room db
  Admits-nil_iff room db = (
    λ (a, b, c). record {
      seats = (seat_conflicts-nil_iff candidate room).0 a;
      open_day = (blackout_conflicts-nil_iff db).0 b;
      in_period = (period_conflicts-nil_iff db).0 c;
    },
    λ w. (
      (seat_conflicts-nil_iff candidate room).1 w.seats,
      (blackout_conflicts-nil_iff db).1 w.open_day,
      (period_conflicts-nil_iff db).1 w.in_period,
    ),
  )

-- The room that the candidate asks for.
abbrev pub found_room : String → Booking → Database → Option Room
found_room tenant candidate db =
    first_where (λ r. str_eq r.tenant_id tenant && str_eq r.id candidate.room_id) db.rooms

module _ (server : Server) (tenant : String) (candidate : Booking) (now : Time)
    (excluded : List String) (db : Database)
    (canonical_room : server.uuid candidate.room_id ≡ some candidate.room_id)
    (canonical_instructor : server.uuid candidate.instructor_id
      ≡ some candidate.instructor_id) where
  conflicts_in_room-nil_iff :
      (room : Room)
      → (conflicts_in_room server tenant candidate now excluded candidate.room_id room db ≡ ok [])
        ↔ (Admits server tenant candidate room db
            × All (IsClear tenant candidate now excluded) db.bookings)
  unfolding conflicts_in_room cast_uuid
  conflicts_in_room-nil_iff room =
      rw (canonical_instructor, cast_uuid)
        (
          λ h.
              let none_left = (dedupe_booking_conflicts-nil_iff _).0 (ground arith) in
              let (a, rest) = append-eq-nil (seat_conflicts candidate room) _ none_left in
              let (b, rest') =
                append-eq-nil (blackout_conflicts server tenant candidate db) _ rest in
              let (c, d) = append-eq-nil (period_conflicts server tenant candidate db) _ rest' in
              (
                (Admits-nil_iff server tenant candidate room db).0 (a, b, c),
                (rows-nil_iff tenant candidate now excluded db.bookings).0 d,
              ),
          λ h.
              let (a, b, c) = (Admits-nil_iff server tenant candidate room db).1 h.0 in
              let d = (rows-nil_iff tenant candidate now excluded db.bookings).1 h.1 in
              ap ok ((dedupe_booking_conflicts-nil_iff _).1 (rw (a, b, c, d) refl)),
        )

  detect_booking_conflicts_tx-conflicts_for :
      detect_booking_conflicts_tx server tenant candidate now excluded db
      ≡ conflicts_for server tenant candidate now excluded candidate.room_id db
          (found_room tenant candidate db)
  unfolding detect_booking_conflicts_tx cast_uuid
  detect_booking_conflicts_tx-conflicts_for = rw (canonical_room, cast_uuid) refl

  -- No conflict is reported exactly when the room is known and admits the booking, and every active
  -- row that collides with it is excluded.
  pub detect_booking_conflicts_tx-nil_iff :
      (detect_booking_conflicts_tx server tenant candidate now excluded db ≡ ok []) ↔ (
        ((room : Room) × (found_room tenant candidate db ≡ some room)
          × Admits server tenant candidate room db)
        × All (IsClear tenant candidate now excluded) db.bookings)
  unfolding conflicts_for
  detect_booking_conflicts_tx-nil_iff = elim (Option-cases (found_room tenant candidate db)) [
    | inl e ↦
        rw (detect_booking_conflicts_tx-conflicts_for, e, conflicts_for)
          (λ h. absurd (cc), λ ((room, f, _), _). absurd (cc))
    | inr (room, e) ↦
        let inner = conflicts_in_room-nil_iff room in
        rw (detect_booking_conflicts_tx-conflicts_for, e, conflicts_for)
          (
            λ h. let (a, b) = inner.0 h in ((room, refl, a), b),
            λ ((found, f, a), b).
                let it : found ≡ room = cc in
                inner.1 (subst (λ r. Admits server tenant candidate r db) it a, b),
          )
  ]
