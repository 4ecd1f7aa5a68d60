-- ===== src/Booking/Postgres/Locked.antt =====
-- The lock on the room's row keeps the bookings of a room apart, however transactions interleave.
use training_ops_scheduling.Base.{
  String, ◌≤◌, ◌<◌, ◌≡◌, refl, sym, ◌∙◌, subst, ◌⊎◌, inl, inr, List, [], ◌∷◌, ◌++◌, any, arith, All,
  All-mono, All-append, All-zip, All-unit,
}
use training_ops_scheduling.Base.Rows.{
  All-update_where, Pairwise, Pairwise-append_one, Pairwise-update_where, Pairwise-mono,
  Pairwise-remove, All-remove,
}
use training_ops_scheduling.Base.Result.{Result-cases}
use training_ops_scheduling.Clock.{Time, Duration}
use training_ops_scheduling.Booking.Data.{Booking}
use training_ops_scheduling.Booking.Conflict.Blocking.{Active, Active-mono}
use training_ops_scheduling.Booking.Postgres.Tables.{Database, Server, cast_uuid}
use training_ops_scheduling.Booking.Postgres.Rows.{held_row}
use training_ops_scheduling.Booking.Postgres.Methods.{
  insert_hold, insert_booking, cast_user, update_bookings,
}
use training_ops_scheduling.Booking.Postgres.Free.{
  IsClear, of_tenant, detect_booking_conflicts_tx-nil_iff,
}
use training_ops_scheduling.Booking.Postgres.Exclusion.{
  Keeps, Keeps-refl, Keeps-if, Rewrites, kept, rewritten,
}
use training_ops_scheduling.Booking.Postgres.Kept.{
  confirm-Rewrites, cancel-Rewrites, check_in-Rewrites, release_expired_holds-Rewrites,
  expire_held_bookings-Rewrites, reserve_learner_seat-Rewrites,
}
use training_ops_scheduling.Booking.Postgres.History.{IsCanonical}
use training_ops_scheduling.Booking.Postgres.Race.{
  Checked, System, SameRoom, Step, checked, inserted, rolled_back, confirmed, cancelled, checked_in,
  reserved, released, expired, Reach, start, next, Clash, RoomApart,
}

-- The row is in the way of no transaction that is about to insert.
abbrev RoomFree : Time → Checked → Booking → Type 0
RoomFree now p row = Active now row → ¬ Clash row (of_tenant p.tenant p.booking)

record Promised (server : Server) (now : Time) (rows : List Booking) (p : Checked) : Type 0 where
  canonical : IsCanonical server p.booking
  free : All (RoomFree now p) rows

record Locked (server : Server) (now : Time) (s : System) : Type 0 where
  apart : Pairwise (RoomApart now) s.db.bookings
  promised : All (Promised server now s.db.bookings) s.pending
  locks : Pairwise (λ p q. ¬ SameRoom p q) s.pending

Locked-mono :
    (server : Server) (now later : Time) (s : System)
    → now ≤ later
    → Locked server now s
    → Locked server later s
Locked-mono server now later s h w = record {
  apart =
      Pairwise-mono (RoomApart now) (RoomApart later) s.db.bookings
        (λ a b k act_a act_b. k (Active-mono now later a h act_a) (Active-mono now later b h act_b))
        w.apart;
  promised =
      All-mono
        (λ p k. record {
          canonical = k.canonical;
          free = All-mono (λ a f act. f (Active-mono now later a h act)) s.db.bookings k.free;
        })
        s.pending w.promised;
  locks = w.locks;
}

-- Two rows that replace two others clash only if those did.
Clash-Keeps :
    (now : Time) (a b c d : Booking) → Keeps now a c → Keeps now b d → Clash c d → Clash a b
Clash-Keeps now a b c d k l x = record {
  same_tenant = sym k.tenant_id ∙ x.same_tenant ∙ l.tenant_id;
  same_room = sym k.room_id ∙ x.same_room ∙ l.room_id;
  starts_before =
      subst (λ t. a.start_at < t) l.end_at (subst (λ t. t < d.end_at) k.start_at x.starts_before);
  ends_after =
      subst (λ t. b.start_at < t) k.end_at (subst (λ t. t < c.end_at) l.start_at x.ends_after);
}

Clash-Keeps_left : (now : Time) (a c b : Booking) → Keeps now a c → Clash c b → Clash a b
Clash-Keeps_left now a c b k x = Clash-Keeps now a b c b k (Keeps-refl now b) x

module _ (server : Server) (now : Time) where
  Rewrites-Locked :
      (db db' : Database) (pending : List Checked)
      → Rewrites now db db'
      → Locked server now (record { db = db; pending = pending })
      → Locked server now (record { db = db'; pending = pending })
  unfolding update_bookings
  Rewrites-Locked db _ pending kept w = w
  Rewrites-Locked db _ pending (rewritten p f h) w = record {
    apart =
        Pairwise-update_where (RoomApart now) (RoomApart now) (λ _. Unit {0}) p f db.bookings
          (λ a b _ _ r act_c act_d x.
            let k = Keeps-if now p f a (h a) in
            let l = Keeps-if now p f b (h b) in
            r (k.active act_c) (l.active act_d) (Clash-Keeps now a b _ _ k l x))
          (All-unit db.bookings) w.apart;
    promised =
        All-mono
          (λ q k. record {
            canonical = k.canonical;
            free =
                All-update_where (RoomFree now q) p f db.bookings
                  (λ a e free act x.
                    free ((h a e).active act) (Clash-Keeps_left now a (f a) _ (h a e) x))
                  k.free;
          })
          pending w.promised;
    locks = w.locks;
  }

  -- What a check that found no conflict promises.
  Promised-checked :
      (db : Database) (p : Checked)
      → IsCanonical server p.booking
      → All (IsClear p.tenant p.booking now []) db.bookings
      → Promised server now db.bookings p
  unfolding any
  Promised-checked db p c clear = record {
    canonical = c;
    free =
        All-mono
          (λ a h act x. h refl (
            act,
            record {
              same_tenant = x.same_tenant;
              starts_before = x.starts_before;
              ends_after = x.ends_after;
              shared = inl x.same_room;
            },
          ))
          db.bookings clear;
  }

  insert_booking-cases :
      (row : Booking) (db : Database)
      → ((insert_booking row db).0 ≡ db)
        ⊎ ((insert_booking row db).0 ≡ record db { bookings = db.bookings ++ (row ∷ []) })
  unfolding insert_booking
  insert_booking-cases row db = ground arith

  insert_hold-cases :
      (tenant : String) (b : Booking) (ttl : Duration) (at : Time) (db : Database)
      → IsCanonical server b
      → ((insert_hold server tenant b ttl at db).0 ≡ db)
        ⊎ ((user : String) × ((insert_hold server tenant b ttl at db).0 ≡ record db {
          bookings =
              db.bookings
              ++ (held_row b ttl at (server.new_id db) tenant user b.room_id b.instructor_id ∷ []);
        }))
  unfolding insert_hold cast_uuid
  insert_hold-cases tenant b ttl at db c = elim (Result-cases (cast_user server b.user_id)) [
    | inl (e, u) ↦ inl (rw (u, insert_hold) refl)
    | inr (user, u) ↦
        rw (u, c.room_id, c.instructor_id, insert_hold, cast_uuid)
          (elim (insert_booking-cases
            (held_row b ttl at (server.new_id db) tenant user b.room_id b.instructor_id) db) [
              | inl same ↦ inl same
              | inr grown ↦ inr (user, grown)
            ])
  ]

  -- The row of one transaction is in the way of no other one.
  append_Locked :
      (db : Database) (p : Checked) (rest : List Checked) (row : Booking)
      → row.tenant_id ≡ p.tenant
      → row.room_id ≡ p.booking.room_id
      → row.start_at ≡ p.booking.start_at
      → row.end_at ≡ p.booking.end_at
      → Promised server now db.bookings p
      → All (λ q. ¬ SameRoom p q) rest
      → Locked server now (record { db = db; pending = rest })
      → Locked server now
          (record { db = record db { bookings = db.bookings ++ (row ∷ []) }; pending = rest })
  append_Locked db p rest row t r s e mine others w = record {
    apart =
        Pairwise-append_one (RoomApart now) db.bookings row
          (All-mono
            (λ a free act _ x. free act (record {
              same_tenant = x.same_tenant ∙ t;
              same_room = x.same_room ∙ r;
              starts_before = subst (λ u. a.start_at < u) e x.starts_before;
              ends_after = subst (λ u. u < a.end_at) s x.ends_after;
            }))
            db.bookings mine.free)
          w.apart;
    promised =
        All-mono
          (λ q (k, other). record {
            canonical = k.canonical;
            free = All-append (RoomFree now q) db.bookings (row ∷ []) k.free (
              λ _ x.
                  other (record { tenant = sym t ∙ x.same_tenant; room_id = sym r ∙ x.same_room }),
              tt,
            );
          })
          rest (All-zip _ _ rest w.promised others);
    locks = w.locks;
  }

  -- A transaction that ends lets go of its lock.
  remove_Locked :
      (db : Database) (pending earlier later : List Checked) (p : Checked)
      → pending ≡ earlier ++ (p ∷ later)
      → Locked server now (record { db = db; pending = pending })
      → Promised server now db.bookings p
        × All (λ q. ¬ SameRoom p q) (earlier ++ later)
        × Locked server now (record { db = db; pending = earlier ++ later })
  remove_Locked db pending earlier later p e w =
      let (mine, theirs) =
        All-remove (Promised server now db.bookings) earlier later p
          (subst (All (Promised server now db.bookings)) e w.promised) in
      let (others, locks) =
        Pairwise-remove (λ q r. ¬ SameRoom q r)
          (λ q r h x. h (record { tenant = sym x.tenant; room_id = sym x.room_id })) earlier later p
          (subst (Pairwise (λ q r. ¬ SameRoom q r)) e w.locks) in
      (mine, others, record { apart = w.apart; promised = theirs; locks = locks })

  inserted-Locked :
      (db : Database) (p : Checked) (rest : List Checked)
      → Promised server now db.bookings p
      → All (λ q. ¬ SameRoom p q) rest
      → Locked server now (record { db = db; pending = rest })
      → Locked server now (record {
        db = (insert_hold server p.tenant p.booking p.hold_ttl p.started db).0;
        pending = rest;
      })
  unfolding held_row
  inserted-Locked db p rest mine others w =
      elim (insert_hold-cases p.tenant p.booking p.hold_ttl p.started db mine.canonical) [
        | inl same ↦ subst (λ d. Locked server now (record { db = d; pending = rest })) (sym same) w
        | inr (user, grown) ↦
            subst (λ d. Locked server now (record { db = d; pending = rest })) (sym grown)
              (append_Locked db p rest _ refl refl refl refl mine others w)
      ]

  Step-Locked : (s s' : System) → Step server now s s' → Locked server now s → Locked server now s'
  Step-Locked s _ (checked p c at tenant unlocked none_found) w = record {
    apart = w.apart;
    promised = (
      Promised-checked s.db p c
          ((detect_booking_conflicts_tx-nil_iff server p.tenant p.booking now [] s.db c.room_id
              c.instructor_id).0
            none_found).1,
      w.promised,
    );
    locks = (unlocked, w.locks);
  }
  Step-Locked s _ (inserted earlier later p e) w =
      let (mine, others, rest) = remove_Locked s.db s.pending earlier later p e w in
      inserted-Locked s.db p (earlier ++ later) mine others rest
  Step-Locked s _ (rolled_back earlier later p e) w =
      (remove_Locked s.db s.pending earlier later p e w).2
  Step-Locked s _ (confirmed t i) w =
      Rewrites-Locked s.db _ s.pending (confirm-Rewrites server now s.db t i) w
  Step-Locked s _ (cancelled t i) w =
      Rewrites-Locked s.db _ s.pending (cancel-Rewrites server now s.db t i) w
  Step-Locked s _ (checked_in t i) w =
      Rewrites-Locked s.db _ s.pending (check_in-Rewrites server now s.db t i) w
  Step-Locked s _ (reserved t i learner) w =
      Rewrites-Locked s.db _ s.pending (reserve_learner_seat-Rewrites server now s.db t i learner) w
  Step-Locked s _ released w =
      Rewrites-Locked s.db _ s.pending (release_expired_holds-Rewrites server now s.db) w
  Step-Locked s _ expired w =
      Rewrites-Locked s.db _ s.pending (expire_held_bookings-Rewrites server now s.db) w

Reach-Locked :
    (server : Server) (now : Time) (s : System) → Reach server now s → Locked server now s
Reach-Locked server now _ (start _ db e) = record {
  apart = subst (Pairwise (RoomApart now)) (sym e) tt;
  promised = tt;
  locks = tt;
}
Reach-Locked server now s (next {now = before} {s = old} _ path h step) =
    Step-Locked server now old s step
      (Locked-mono server before now old h (Reach-Locked server before old path))

-- However the checks and the inserts of holds interleave with each other and with confirmations,
-- cancellations, check-ins, reservations and sweeps, each of which is one step and reads a time that is
-- not before that of an earlier step: two active bookings of one room never overlap in time. A hold keeps
-- the time of its check for its insert, and names its room and instructor as the server prints them.
pub Reach-RoomApart :
    (server : Server) (now : Time) (s : System)
    → Reach server now s
    → Pairwise (RoomApart now) s.db.bookings
Reach-RoomApart server now s path = (Reach-Locked server now s path).apart
