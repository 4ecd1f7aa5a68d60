-- ===== src/Booking/Postgres/History.antt =====
-- Histories of the booking store on Postgres, its transactions run one at a time: none of them books
-- a room or an instructor twice.
use training_ops_scheduling.Base.{
  String, ◌≤◌, ◌≡◌, refl, sym, ap, ◌∙◌, subst, inl, inr, some, List, [], ◌∷◌, arith, str_eq_iff,
  Option-cases, All, All-mono,
}
use training_ops_scheduling.Base.Rows.{first_where, first_where-passes, All-first_where, Pairwise}
use training_ops_scheduling.Base.Result.{Result, ok, err, Result-cases}
use training_ops_scheduling.Clock.{Time, Duration}
use training_ops_scheduling.Booking.Data.{Booking, BookingConflict}
use training_ops_scheduling.Booking.Store.{BookingError}
use training_ops_scheduling.Booking.Conflict.Blocking.{Collide}
use training_ops_scheduling.Booking.Postgres.Tables.{
  Database, Server, cast_uuid, resolve_tenant_uuid, is_row,
}
use training_ops_scheduling.Booking.Postgres.Rows.{held_row}
use training_ops_scheduling.Booking.Postgres.Detect.{detect_booking_conflicts_tx}
use training_ops_scheduling.Booking.Postgres.Free.{
  IsClear, of_tenant, detect_booking_conflicts_tx-nil_iff,
}
use training_ops_scheduling.Booking.Postgres.Methods.{
  create_hold, hold_unless, insert_hold, cast_user, confirm, cancel, check_in, reschedule,
  move_unless, get_booking_tx, one_row, release_expired_holds, expire_held_bookings,
}
use training_ops_scheduling.Booking.Postgres.Exclusion.{
  Canonical, Separate, WellFormed, WellFormed-mono, Rewrites-WellFormed,
}
use training_ops_scheduling.Booking.Postgres.Writes.{
  insert_booking-WellFormed, IsClear-free, update_bookings-WellFormed_moved,
}
use training_ops_scheduling.Booking.Postgres.Kept.{
  confirm-Rewrites, cancel-Rewrites, check_in-Rewrites, release_expired_holds-Rewrites,
  expire_held_bookings-Rewrites, reserve_learner_seat-Rewrites,
}
use training_ops_scheduling.Booking.Postgres.Reserve.{reserve_learner_seat}

-- gen_random_uuid() gives an identifier that is printed the way it is stored.
abbrev pub NewIds : Server → Type 0
NewIds server = (db : Database) → server.uuid (server.new_id db) ≡ some (server.new_id db)

-- The room and the instructor are named the way the server prints them.
pub record IsCanonical (server : Server) (b : Booking) : Type 0 where
  pub room_id : server.uuid b.room_id ≡ some b.room_id
  pub instructor_id : server.uuid b.instructor_id ≡ some b.instructor_id

one_row-ok : (a b : Booking) → one_row (some a) ≡ ok b → a ≡ b
unfolding one_row
one_row-ok a b h = cc

module _ (server : Server) (new_ids : NewIds server) (now : Time) (db : Database)
    (inv : WellFormed server now db) where
  insert_hold-WellFormed :
      (tenant : String) (b : Booking) (ttl : Duration)
      → IsCanonical server b
      → All (IsClear tenant b now []) db.bookings
      → WellFormed server now (insert_hold server tenant b ttl now db).0
  unfolding insert_hold cast_uuid
  insert_hold-WellFormed tenant b ttl c clear = elim (Result-cases (cast_user server b.user_id)) [
    | inl (e, u) ↦ rw (u, insert_hold) inv
    | inr (user, u) ↦
        rw (u, c.room_id, c.instructor_id, insert_hold, cast_uuid)
          (insert_booking-WellFormed server now
            (held_row b ttl now (server.new_id db) tenant user b.room_id b.instructor_id) db
            (record { id = new_ids db; room_id = c.room_id; instructor_id = c.instructor_id })
            (All-mono
              (λ a.
                IsClear-free tenant b
                  (held_row b ttl now (server.new_id db) tenant user b.room_id b.instructor_id) now
                  a (same_slot tenant user b ttl a))
              db.bookings clear)
            inv)
  ]
    where
      same_slot :
          (tenant user : String) (b : Booking) (ttl : Duration) (a : Booking)
          → Collide a (held_row b ttl now (server.new_id db) tenant user b.room_id b.instructor_id)
          → Collide a (of_tenant tenant b)
      same_slot tenant user b ttl a k = record {
        same_tenant = k.same_tenant;
        starts_before = k.starts_before;
        ends_after = k.ends_after;
        shared = k.shared;
      }

  pub create_hold-WellFormed :
      (b : Booking) (ttl : Duration)
      → IsCanonical server b
      → WellFormed server now (create_hold server b ttl now db).0
  unfolding create_hold hold_unless
  create_hold-WellFormed b ttl c = elim (Result-cases (resolve_tenant_uuid b.tenant_id db)) [
    | inl (e, r) ↦ rw (r, create_hold) inv
    | inr (tenant, r) ↦
        rw (r, create_hold)
          (after_check tenant (detect_booking_conflicts_tx server tenant b now [] db) (λ e.
            ((detect_booking_conflicts_tx-nil_iff server tenant b now [] db c.room_id
                c.instructor_id).0
              e).1))
  ]
    where
      after_check :
          (tenant : String) (found : Result BookingError (List BookingConflict))
          → (found ≡ ok [] → All (IsClear tenant b now []) db.bookings)
          → WellFormed server now (hold_unless server tenant b ttl now found db).0
      after_check tenant (err e) h = inv
      after_check tenant (ok []) h = insert_hold-WellFormed tenant b ttl c (h refl)
      after_check tenant (ok (x ∷ xs)) h = inv

  get_booking_tx-row :
      (tenant i : String) (row : Booking)
      → get_booking_tx server tenant i db ≡ ok row
      → (server.uuid i ≡ some row.id) × (first_where (is_row tenant row.id) db.bookings ≡ some row)
  unfolding get_booking_tx cast_uuid is_row
  get_booking_tx-row tenant i row h = elim (Option-cases (server.uuid i)) [
    | inl e ↦ absurd (let k = rw (e, get_booking_tx, cast_uuid) at h in cc)
    | inr (id, e) ↦ elim (Option-cases (first_where (is_row tenant id) db.bookings)) [
      | inl f ↦ absurd (let k = rw (e, get_booking_tx, cast_uuid, f, one_row) at h in cc)
      | inr (found, f) ↦
          let got : one_row (some found) ≡ ok row = rw (e, get_booking_tx, cast_uuid, f) at h in
          let k : found ≡ row = one_row-ok found row got in
          let passed = first_where-passes (is_row tenant id) db.bookings found f in
          let same : row.id ≡ id =
            ap (λ (b : Booking). b.id) (sym k) ∙ (str_eq_iff found.id id).0 (ground arith) in
          (
            e ∙ ap some (sym same),
            subst (λ x. first_where (is_row tenant x) db.bookings ≡ some row) (sym same)
                (f ∙ ap some k),
          )
    ]
  ]

  module _ (tenant booking_id : String) (new_start new_end : Time) (current : Booking) where
    move_unless-WellFormed :
        get_booking_tx server tenant booking_id db ≡ ok current
        → (found : Result BookingError (List BookingConflict))
        → (found ≡ ok []
            → All
                (IsClear tenant
                  (record current { start_at = new_start; end_at = new_end })
                  now
                  (booking_id ∷ []))
                db.bookings)
        → WellFormed server now (move_unless tenant new_start new_end now current found db).0
    unfolding move_unless
    move_unless-WellFormed g (err e) h = inv
    move_unless-WellFormed g (ok (x ∷ xs)) h = inv
    move_unless-WellFormed g (ok []) h =
        let (named, first) = get_booking_tx-row tenant booking_id current g in
        update_bookings-WellFormed_moved server tenant booking_id new_start new_end now current
          named (first_where-passes _ db.bookings current first) db first (h refl) inv

  pub reschedule-WellFormed :
      (t i : String) (new_start new_end : Time)
      → WellFormed server now (reschedule server t i new_start new_end now db).0
  unfolding reschedule
  reschedule-WellFormed t i new_start new_end = elim (Result-cases (resolve_tenant_uuid t db)) [
    | inl (e, r) ↦ rw (r, reschedule) inv
    | inr (tenant, r) ↦ elim (Result-cases (get_booking_tx server tenant i db)) [
      | inl (e, g) ↦ rw (r, g, reschedule) inv
      | inr (current, g) ↦
          let (_, first) = get_booking_tx-row tenant i current g in
          let c = All-first_where (Canonical server) _ db.bookings current inv.canonical first in
          rw (r, g, reschedule)
            (move_unless-WellFormed tenant i new_start new_end current g _ (λ e.
              ((detect_booking_conflicts_tx-nil_iff server tenant
                  (record current { start_at = new_start; end_at = new_end }) now (i ∷ []) db
                  c.room_id c.instructor_id).0
                e).1))
    ]
  ]

-- A method that runs at the time `now`. A hold names its room and instructor as the server prints
-- them; the other tables may change in any way.
pub data Step (server : Server) (now : Time) (db : Database) : Database → Type 0 where
  settled : (db' : Database) → db'.bookings ≡ db.bookings → Step server now db db'
  hold :
      (b : Booking) (ttl : Duration)
      → IsCanonical server b
      → Step server now db (create_hold server b ttl now db).0
  confirmed : (t i : String) → Step server now db (confirm server t i now db).0
  cancelled : (t i : String) → Step server now db (cancel server t i now db).0
  checked_in : (t i : String) → Step server now db (check_in server t i now db).0
  rescheduled :
      (t i : String) (new_start new_end : Time)
      → Step server now db (reschedule server t i new_start new_end now db).0
  reserved :
      (t i learner : String) → Step server now db (reserve_learner_seat server t i learner now db).0
  released : Step server now db (release_expired_holds now db).0
  expired : Step server now db (expire_held_bookings now db).0

-- The databases that such steps lead to from one without bookings, the clock never running
-- backwards.
pub data Reach (server : Server) : Time → Database → Type 0 where
  start : (now : Time) (db : Database) → db.bookings ≡ [] → Reach server now db
  next :
      {now : Time} {db : Database} (later : Time) {db' : Database}
      → Reach server now db
      → now ≤ later
      → Step server later db db'
      → Reach server later db'

WellFormed-settled :
    (server : Server) (now : Time) (db db' : Database)
    → db'.bookings ≡ db.bookings
    → WellFormed server now db
    → WellFormed server now db'
WellFormed-settled server now db db' e inv = record {
  canonical = subst (All (Canonical server)) (sym e) inv.canonical;
  separate = subst (Pairwise (Separate now)) (sym e) inv.separate;
}

Step-WellFormed :
    (server : Server) (now : Time) (db db' : Database)
    → NewIds server
    → Step server now db db'
    → WellFormed server now db
    → WellFormed server now db'
Step-WellFormed server now db db' new_ids (settled _ e) inv =
    WellFormed-settled server now db db' e inv
Step-WellFormed server now db _ new_ids (hold b ttl c) inv =
    create_hold-WellFormed server new_ids now db inv b ttl c
Step-WellFormed server now db _ new_ids (rescheduled t i s e) inv =
    reschedule-WellFormed server new_ids now db inv t i s e
Step-WellFormed server now db _ new_ids (confirmed t i) inv =
    Rewrites-WellFormed server now db _ (confirm-Rewrites server now db t i) inv
Step-WellFormed server now db _ new_ids (cancelled t i) inv =
    Rewrites-WellFormed server now db _ (cancel-Rewrites server now db t i) inv
Step-WellFormed server now db _ new_ids (checked_in t i) inv =
    Rewrites-WellFormed server now db _ (check_in-Rewrites server now db t i) inv
Step-WellFormed server now db _ new_ids (reserved t i learner) inv =
    Rewrites-WellFormed server now db _ (reserve_learner_seat-Rewrites server now db t i learner)
      inv
Step-WellFormed server now db _ new_ids released inv =
    Rewrites-WellFormed server now db _ (release_expired_holds-Rewrites server now db) inv
Step-WellFormed server now db _ new_ids expired inv =
    Rewrites-WellFormed server now db _ (expire_held_bookings-Rewrites server now db) inv

-- Whatever was held, confirmed, cancelled, checked in, rescheduled, reserved and swept since the table
-- was empty, one method at a time, each with a time that is not before that of an earlier one:
-- each row has its own identifier, and no two active bookings of a tenant overlap in time and share
-- a room or an instructor. Each hold names its room and instructor in the form in which the server
-- prints them.
pub Reach-WellFormed :
    (server : Server) (now : Time) (db : Database)
    → NewIds server
    → Reach server now db
    → WellFormed server now db
Reach-WellFormed server now db new_ids (start _ _ e) = record {
  canonical = subst (All (Canonical server)) (sym e) tt;
  separate = subst (Pairwise (Separate now)) (sym e) tt;
}
Reach-WellFormed server now db new_ids (next {now = before} {db = old} _ path h step) =
    Step-WellFormed server now old db new_ids step
      (WellFormed-mono server before now old h (Reach-WellFormed server before old new_ids path))
