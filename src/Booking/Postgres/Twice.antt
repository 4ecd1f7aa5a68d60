-- ===== src/Booking/Postgres/Twice.antt =====
-- What the locks of CreateHold do not keep apart on Postgres: the bookings of one instructor in two
-- rooms, whose transactions interleave.
use training_ops_scheduling.Base.{
  String, ◌<◌, ◌≡◌, refl, sym, subst, ap, ◌∙◌, inl, inr, List, [], ◌∷◌, ◌++◌, arith,
}
use training_ops_scheduling.Base.Rows.{Pairwise}
use training_ops_scheduling.Base.Result.{ok, Result-cases}
use training_ops_scheduling.Clock.{Time, Duration}
use training_ops_scheduling.Booking.Data.{Booking}
use training_ops_scheduling.Booking.Store.{HoldResult}
use training_ops_scheduling.Booking.Conflict.{has_lapsed}
use training_ops_scheduling.Booking.Conflict.Blocking.{Active, Collide}
use training_ops_scheduling.Booking.Conflict.Apart.{Apart}
use training_ops_scheduling.Booking.Postgres.Tables.{
  Database, Server, cast_uuid, resolve_tenant_uuid,
}
use training_ops_scheduling.Booking.Postgres.Rows.{held_row}
use training_ops_scheduling.Booking.Postgres.Detect.{detect_booking_conflicts_tx}
use training_ops_scheduling.Booking.Postgres.Methods.{insert_hold, insert_booking, cast_user}
use training_ops_scheduling.Booking.Postgres.History.{IsCanonical}
use training_ops_scheduling.Booking.Postgres.Race.{
  Checked, SameRoom, checked, inserted, Reach, next,
}

-- What an insert that succeeds leaves: the row last, with what its transaction asked for.
record IsInserted (db : Database) (p : Checked) (row : Booking) (db' : Database) : Type 0 where
  rows : db'.bookings ≡ db.bookings ++ (row ∷ [])
  tenant_id : row.tenant_id ≡ p.tenant
  instructor_id : row.instructor_id ≡ p.booking.instructor_id
  start_at : row.start_at ≡ p.booking.start_at
  end_at : row.end_at ≡ p.booking.end_at
  active : Active p.started row

insert_booking-placed :
    (row a : Booking) (db d : Database)
    → insert_booking row db ≡ (d, HoldResult.placed a)
    → (a ≡ row) × (d ≡ record db { bookings = db.bookings ++ (row ∷ []) })
unfolding insert_booking
insert_booking-placed row a db d h = (ground arith, ground arith)

held_row-Active :
    (b : Booking) (ttl : Duration) (now : Time) (i t u r k : String)
    → Active now (held_row b ttl now i t u r k)
unfolding held_row has_lapsed
held_row-Active b ttl now i t u r k = record {
  not_cancelled = λ x. cc;
  not_expired = λ x. cc;
  in_force = ground arith;
}

insert_hold-IsInserted :
    (server : Server) (p : Checked) (a : Booking) (db d : Database)
    → IsCanonical server p.booking
    → insert_hold server p.tenant p.booking p.hold_ttl p.started db ≡ (d, HoldResult.placed a)
    → IsInserted db p a d
unfolding insert_hold cast_uuid
insert_hold-IsInserted server p a db d c h =
    elim (Result-cases (cast_user server p.booking.user_id)) [
      | inl (e, u) ↦ absurd (let k = rw (u, insert_hold) at h in cc)
      | inr (user, u) ↦
          let k = rw (u, c.room_id, c.instructor_id, insert_hold, cast_uuid) at h in
          let (same, grown) = insert_booking-placed _ a db d k in
          subst (λ x. IsInserted db p x d) (sym same) (as_inserted user grown)
    ]
  where
    as_inserted :
        (user : String)
        → d ≡ record db {
          bookings =
              db.bookings
              ++ (held_row p.booking p.hold_ttl p.started
                    (server.new_id db)
                    p.tenant
                    user
                    p.booking.room_id
                    p.booking.instructor_id
                  ∷ []);
        }
        → IsInserted db p
            (held_row p.booking p.hold_ttl p.started
              (server.new_id db)
              p.tenant
              user
              p.booking.room_id
              p.booking.instructor_id)
            d
    as_inserted user grown = record {
      rows = ap (λ (x : Database). x.bookings) grown;
      tenant_id = refl;
      instructor_id = refl;
      start_at = refl;
      end_at = refl;
      active = held_row-Active p.booking p.hold_ttl p.started _ _ _ _ _;
    }

-- The check of the transaction passes at the time `now`.
pub record IsPassed (server : Server) (now : Time) (db : Database) (p : Checked) : Type 0 where
  pub canonical : IsCanonical server p.booking
  pub starts_now : p.started ≡ now
  pub tenant : resolve_tenant_uuid p.booking.tenant_id db ≡ ok p.tenant
  pub none_found : detect_booking_conflicts_tx server p.tenant p.booking now [] db ≡ ok []

-- Two transactions ask for one instructor at one time.
pub record IsRival (p q : Checked) : Type 0 where
  pub tenant : p.tenant ≡ q.tenant
  pub instructor : p.booking.instructor_id ≡ q.booking.instructor_id
  pub starts_before : p.booking.start_at < q.booking.end_at
  pub ends_after : q.booking.start_at < p.booking.end_at

Pairwise_last_two {ℓ κ} :
    {A : Type ℓ} (R : A → A → Type κ) (xs : List A) (a b : A)
    → Pairwise R ((xs ++ (a ∷ [])) ++ (b ∷ []))
    → R a b
Pairwise_last_two R [] a b w = w.0.0
Pairwise_last_two R (x ∷ xs) a b w = Pairwise_last_two R xs a b w.1

IsRival-Collide :
    (db d e : Database) (p q : Checked) (a b : Booking)
    → IsRival p q
    → IsInserted db p a d
    → IsInserted d q b e
    → Collide a b
IsRival-Collide db d e p q a b r i j = record {
  same_tenant = i.tenant_id ∙ r.tenant ∙ sym j.tenant_id;
  starts_before =
      subst (λ t. t < b.end_at) (sym i.start_at)
        (subst (λ t. p.booking.start_at < t) (sym j.end_at) r.starts_before);
  ends_after =
      subst (λ t. t < a.end_at) (sym j.start_at)
        (subst (λ t. q.booking.start_at < t) (sym i.end_at) r.ends_after);
  shared = inr (i.instructor_id ∙ r.instructor ∙ sym j.instructor_id);
}

-- Two holds for one instructor in two rooms, whose checks both pass before either row is inserted:
-- where both inserts succeed, the database that they lead to has the instructor booked twice.
pub instructor_booked_twice :
    (server : Server) (now : Time) (db d e : Database) (p q : Checked) (a b : Booking)
    → Reach server now (record { db = db; pending = [] })
    → IsPassed server now db p
    → IsPassed server now db q
    → ¬ SameRoom q p
    → IsRival p q
    → insert_hold server p.tenant p.booking p.hold_ttl p.started db ≡ (d, HoldResult.placed a)
    → insert_hold server q.tenant q.booking q.hold_ttl q.started d ≡ (e, HoldResult.placed b)
    → Reach server now (record { db = e; pending = [] }) × (¬ Pairwise (Apart now) e.bookings)
instructor_booked_twice server now db d e p q a b path pp pq two_rooms rival ip iq =
    let first =
      next now path (omega arith)
        (checked p pp.canonical pp.starts_now pp.tenant tt pp.none_found) in
    let second =
      next now first (omega arith)
        (checked q pq.canonical pq.starts_now pq.tenant (two_rooms, tt) pq.none_found) in
    let third =
      subst (λ x. Reach server now (record { db = x; pending = q ∷ [] })) (ap (λ x. x.0) ip)
        (next now second (omega arith) (inserted (q ∷ []) [] p refl)) in
    let fourth =
      subst (λ x. Reach server now (record { db = x; pending = [] })) (ap (λ x. x.0) iq)
        (next now third (omega arith) (inserted [] [] q refl)) in
    let i = insert_hold-IsInserted server p a db d pp.canonical ip in
    let j = insert_hold-IsInserted server q b d e pq.canonical iq in
    let rows = j.rows ∙ ap (λ x. x ++ (b ∷ [])) i.rows in
    (
      fourth,
      λ w.
          Pairwise_last_two (Apart now) db.bookings a b (subst (Pairwise (Apart now)) rows w)
            (subst (λ t. Active t a) pp.starts_now i.active)
            (subst (λ t. Active t b) pq.starts_now j.active)
            (IsRival-Collide db d e p q a b rival i j),
    )
