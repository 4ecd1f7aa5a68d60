-- ===== src/Booking/Postgres/Writes.antt =====
-- The two methods that ask for a new slot, CreateHold and Reschedule: the row that they write is in
-- no active row's way, where detectBookingConflictsTx found none.
use training_ops_scheduling.Base.{
  String, true, false, not, ◌&&◌, ◌≡◌, ◌≢◌, refl, sym, ap, ◌∙◌, subst, inl, inr, some, [], ◌∷◌, any,
  arith, str_eq, str_eq_iff, Bool-cases, All, All-mono, All-zip, All-append, any-false_iff,
  if◌then◌else◌,
}
use training_ops_scheduling.Base.Rows.{
  first_where, All-update_where, Pairwise-append_one, Pairwise-update_where,
}
use training_ops_scheduling.Clock.{Time}
use training_ops_scheduling.Booking.Data.{Booking}
use training_ops_scheduling.Booking.Conflict.Blocking.{Active, Collide}
use training_ops_scheduling.Booking.Conflict.Apart.{Apart, Apart-symm}
use training_ops_scheduling.Booking.Postgres.Tables.{Database, Server, is_row, refers_user}
use training_ops_scheduling.Booking.Postgres.Rows.{reschedule_row}
use training_ops_scheduling.Booking.Postgres.Methods.{update_bookings, insert_booking}
use training_ops_scheduling.Booking.Postgres.Free.{IsClear, of_tenant}
use training_ops_scheduling.Booking.Postgres.Exclusion.{Canonical, Separate, WellFormed, unique_row}

pub insert_booking-WellFormed :
    (server : Server) (now : Time) (row : Booking) (db : Database)
    → Canonical server row
    → All (λ a. Active now a → ¬ Collide a row) db.bookings
    → WellFormed server now db
    → WellFormed server now (insert_booking row db).0
unfolding insert_booking
insert_booking-WellFormed server now row db c free w =
    elim (Bool-cases (any (λ b. str_eq b.id row.id) db.bookings)) [
      | inl met ↦ rw (met, insert_booking) w
      | inr fresh ↦ elim (Bool-cases (not (refers_user row.instructor_id db))) [
        | inl t ↦ rw (fresh, t, insert_booking) w
        | inr t ↦
            elim (Bool-cases (not (str_eq row.user_id "") && not (refers_user row.user_id db))) [
              | inl u ↦ rw (fresh, t, u, insert_booking) w
              | inr u ↦
                  rw (fresh, t, u, insert_booking)
                    (record {
                      canonical = All-append (Canonical server) db.bookings _ w.canonical (c, tt);
                      separate =
                          Pairwise-append_one (Separate now) db.bookings row
                            (All-mono
                              (λ a (new, apart). record {
                                ids = λ e. let same = (str_eq_iff a.id row.id).1 e in cc;
                                apart = λ act _. apart act;
                              })
                              db.bookings
                              (All-zip _ _ db.bookings
                                ((any-false_iff (λ b. str_eq b.id row.id) db.bookings).0 fresh)
                                free))
                            w.separate;
                    })
            ]
      ]
    ]

-- A clear row does not collide with the candidate that was asked about.
pub IsClear-free :
    (tenant : String) (candidate row : Booking) (now : Time) (a : Booking)
    → (Collide a row → Collide a (of_tenant tenant candidate))
    → IsClear tenant candidate now [] a
    → Active now a
    → ¬ Collide a row
unfolding any
IsClear-free tenant candidate row now a same h act c = h refl (act, same c)

-- The moved row, beside the others.
module _ (server : Server) (tenant booking_id : String) (new_start new_end now : Time)
    (current : Booking) (named : server.uuid booking_id ≡ some current.id)
    (found : is_row tenant current.id current ≡ true) where
  abbrev moved : Booking
  moved = reschedule_row new_start new_end now current

  abbrev pub candidate : Booking
  candidate = record current { start_at = new_start; end_at = new_end }

  -- What is known of each row when the update runs.
  abbrev Known : Booking → Type 0
  Known a =
      Canonical server a
      × (a.id ≡ current.id → a ≡ current)
      × IsClear tenant candidate now (booking_id ∷ []) a

  moved-Apart : (b : Booking) → Known b → b.id ≢ current.id → Apart now moved b
  unfolding reschedule_row any is_row
  moved-Apart b (c, _, clear) other act_m act_b both =
      let kept : any (str_eq b.id) (booking_id ∷ []) ≡ false =
        elim (Bool-cases (str_eq b.id booking_id)) [
          | inl e ↦
              let text = (str_eq_iff b.id booking_id).0 e in
              let here : server.uuid b.id ≡ some current.id = rw text named in
              absurd (other (let k = c.id in cc))
          | inr e ↦ ground arith
        ] in
      let ten = (str_eq_iff current.tenant_id tenant).0 (ground arith) in
      clear kept (
        act_b,
        record {
          same_tenant = let k = both.same_tenant in cc;
          starts_before = both.ends_after;
          ends_after = both.starts_before;
          shared = let k = both.shared in ground arith;
        },
      )

  moved-Canonical : Canonical server current → Canonical server moved
  unfolding reschedule_row
  moved-Canonical c = record { id = c.id; room_id = c.room_id; instructor_id = c.instructor_id }

  moved-Separate : (b : Booking) → Known b → Separate now current b → Separate now moved b
  unfolding reschedule_row
  moved-Separate b k s = record { ids = s.ids; apart = moved-Apart b k (λ e. s.ids (sym e)) }

  Separate-symm : (a b : Booking) → Separate now a b → Separate now b a
  Separate-symm a b s = record { ids = λ e. s.ids (sym e); apart = Apart-symm now a b s.apart }

  -- Two rows after the update, of which at most one is moved.
  pair_kept :
      (a b : Booking)
      → Known a
      → Known b
      → Separate now a b
      → Separate now
          (if is_row tenant current.id a then reschedule_row new_start new_end now a else a)
          (if is_row tenant current.id b then reschedule_row new_start new_end now b else b)
  unfolding is_row
  pair_kept a b ka kb s = elim (Bool-cases (is_row tenant current.id a)) [
    | inl ea ↦
        let ia = ka.1 ((str_eq_iff a.id current.id).0 (ground arith)) in
        elim (Bool-cases (is_row tenant current.id b)) [
          | inl eb ↦
              let ib = kb.1 ((str_eq_iff b.id current.id).0 (ground arith)) in
              absurd (s.ids (ap (λ (x : Booking). x.id) (ia ∙ sym ib)))
          | inr eb ↦
              rw (ea, eb)
                (subst (λ x. Separate now (reschedule_row new_start new_end now x) b) (sym ia)
                  (moved-Separate b kb (subst (λ x. Separate now x b) ia s)))
        ]
    | inr ea ↦ elim (Bool-cases (is_row tenant current.id b)) [
      | inl eb ↦
          let ib = kb.1 ((str_eq_iff b.id current.id).0 (ground arith)) in
          rw (ea, eb)
            (subst (λ x. Separate now a (reschedule_row new_start new_end now x)) (sym ib)
              (Separate-symm moved a
                (moved-Separate a ka (Separate-symm a current (subst (Separate now a) ib s)))))
      | inr eb ↦ rw (ea, eb) s
    ]
  ]

  pub update_bookings-WellFormed_moved :
      (db : Database)
      → first_where (is_row tenant current.id) db.bookings ≡ some current
      → All (IsClear tenant candidate now (booking_id ∷ [])) db.bookings
      → WellFormed server now db
      → WellFormed server now
          (update_bookings (is_row tenant current.id) (reschedule_row new_start new_end now) db)
  unfolding update_bookings reschedule_row
  update_bookings-WellFormed_moved db e clear w = record {
    canonical =
        All-update_where (Canonical server) (is_row tenant current.id)
          (reschedule_row new_start new_end now) db.bookings
          (λ a _ c. record { id = c.id; room_id = c.room_id; instructor_id = c.instructor_id })
          w.canonical;
    separate =
        Pairwise-update_where (Separate now) (Separate now) Known (is_row tenant current.id)
          (reschedule_row new_start new_end now) db.bookings pair_kept
          (All-mono (λ a (c, rest). (c, rest.0, rest.1)) db.bookings
            (All-zip _ _ db.bookings w.canonical (
              All-zip _ _ db.bookings
                (unique_row now (is_row tenant current.id) db.bookings current w.separate e)
                clear)))
          w.separate;
  }
