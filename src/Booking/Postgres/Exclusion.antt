-- ===== src/Booking/Postgres/Exclusion.antt =====
-- What each method of the booking store on Postgres keeps: identifiers as the server prints them,
-- one row to an identifier, and no two active bookings in each other's way.
use training_ops_scheduling.Base.{
  Bool, true, ◌≤◌, ◌<◌, ◌≡◌, ◌≢◌, refl, sym, ap, ◌∙◌, subst, inl, inr, some, List, [], ◌∷◌, arith,
  Bool-cases, All, All-mono, All-unit, if◌then◌else◌,
}
use training_ops_scheduling.Base.Rows.{
  first_where, All-first_where, All-update_where, Pairwise, Pairwise-update_where, Pairwise-mono,
}
use training_ops_scheduling.Clock.{Time}
use training_ops_scheduling.Booking.Data.{Booking}
use training_ops_scheduling.Booking.Conflict.Blocking.{Active}
use training_ops_scheduling.Booking.Conflict.Apart.{Apart, Apart-mono, Stands, Apart-Stands_both}
use training_ops_scheduling.Booking.Postgres.Tables.{Database, Server}
use training_ops_scheduling.Booking.Postgres.Methods.{update_bookings}

-- The row's identifiers stand in it as the server prints them.
pub record Canonical (server : Server) (b : Booking) : Type 0 where
  pub id : server.uuid b.id ≡ some b.id
  pub room_id : server.uuid b.room_id ≡ some b.room_id
  pub instructor_id : server.uuid b.instructor_id ≡ some b.instructor_id

-- Two rows with two identifiers, not in each other's way.
pub record Separate (now : Time) (a b : Booking) : Type 0 where
  pub ids : a.id ≢ b.id
  pub apart : Apart now a b

pub record WellFormed (server : Server) (now : Time) (db : Database) : Type 0 where
  pub canonical : All (Canonical server) db.bookings
  pub separate : Pairwise (Separate now) db.bookings

pub WellFormed-mono :
    (server : Server) (now later : Time) (db : Database)
    → now ≤ later
    → WellFormed server now db
    → WellFormed server later db
WellFormed-mono server now later db h w = record {
  canonical = w.canonical;
  separate =
      Pairwise-mono (Separate now) (Separate later) db.bookings
        (λ a b s. record { ids = s.ids; apart = Apart-mono now later a b h s.apart }) w.separate;
}

-- A change of a row that leaves its identifiers and its window alone, and makes no row active.
pub record Keeps (now : Time) (a b : Booking) : Type 0 where
  pub id : b.id ≡ a.id
  pub tenant_id : b.tenant_id ≡ a.tenant_id
  pub room_id : b.room_id ≡ a.room_id
  pub instructor_id : b.instructor_id ≡ a.instructor_id
  pub start_at : b.start_at ≡ a.start_at
  pub end_at : b.end_at ≡ a.end_at
  pub active : Active now b → Active now a

pub Keeps-refl : (now : Time) (a : Booking) → Keeps now a a
Keeps-refl now a = record {
  id = refl;
  tenant_id = refl;
  room_id = refl;
  instructor_id = refl;
  start_at = refl;
  end_at = refl;
  active = λ h. h;
}

Keeps-Stands : (now : Time) (a b : Booking) → Keeps now a b → Stands now a b
Keeps-Stands now a b k = record {
  active = k.active;
  collide = λ c both.
      let t = k.tenant_id in
      let r = k.room_id in
      let i = k.instructor_id in
      let shares = both.shared in
      record {
        same_tenant = let e = both.same_tenant in cc;
        starts_before = subst (λ x. x < c.end_at) k.start_at both.starts_before;
        ends_after = subst (λ x. c.start_at < x) k.end_at both.ends_after;
        shared = ground arith;
      };
}

pub Keeps-if :
    (now : Time) (p : Booking → Bool) (f : Booking → Booking) (a : Booking)
    → (p a ≡ true → Keeps now a (f a))
    → Keeps now a (if p a then f a else a)
Keeps-if now p f a h = elim (Bool-cases (p a)) [
  | inl e ↦ rw e (h e)
  | inr e ↦ rw e (Keeps-refl now a)
]

Separate-Keeps :
    (now : Time) (a b c d : Booking)
    → Keeps now a c
    → Keeps now b d
    → Separate now a b
    → Separate now c d
Separate-Keeps now a b c d k l s = record {
  ids = λ e. s.ids (sym k.id ∙ e ∙ l.id);
  apart = Apart-Stands_both now a b c d (Keeps-Stands now a c k) (Keeps-Stands now b d l) s.apart;
}

pub Canonical-transport :
    (server : Server) (a b : Booking)
    → b.id ≡ a.id
    → b.room_id ≡ a.room_id
    → b.instructor_id ≡ a.instructor_id
    → Canonical server a
    → Canonical server b
Canonical-transport server a b i r t c = record {
  id = subst (λ x. server.uuid x ≡ some x) (sym i) c.id;
  room_id = subst (λ x. server.uuid x ≡ some x) (sym r) c.room_id;
  instructor_id = subst (λ x. server.uuid x ≡ some x) (sym t) c.instructor_id;
}

-- An UPDATE that asks for nothing new.
update_bookings-WellFormed :
    (server : Server) (now : Time) (p : Booking → Bool) (f : Booking → Booking) (db : Database)
    → ((a : Booking) → p a ≡ true → Keeps now a (f a))
    → WellFormed server now db
    → WellFormed server now (update_bookings p f db)
unfolding update_bookings
update_bookings-WellFormed server now p f db h w = record {
  canonical =
      All-update_where (Canonical server) p f db.bookings
        (λ a e c.
          let k = h a e in Canonical-transport server a (f a) k.id k.room_id k.instructor_id c)
        w.canonical;
  separate =
      Pairwise-update_where (Separate now) (Separate now) (λ _. Unit {0}) p f db.bookings
        (λ a b _ _ s.
          Separate-Keeps now a b _ _ (Keeps-if now p f a (h a)) (Keeps-if now p f b (h b)) s)
        (All-unit db.bookings) w.separate;
}

-- A method that changes rows one by one and asks for no new slot.
pub data Rewrites (now : Time) (db : Database) : Database → Type 0 where
  kept : Rewrites now db db
  rewritten :
      (p : Booking → Bool) (f : Booking → Booking)
      → ((a : Booking) → p a ≡ true → Keeps now a (f a))
      → Rewrites now db (update_bookings p f db)

pub Rewrites-WellFormed :
    (server : Server) (now : Time) (db db' : Database)
    → Rewrites now db db'
    → WellFormed server now db
    → WellFormed server now db'
Rewrites-WellFormed server now db _ kept inv = inv
Rewrites-WellFormed server now db _ (rewritten p f h) inv =
    update_bookings-WellFormed server now p f db h inv

-- The row that an identifier names is the only one with that identifier.
pub unique_row :
    (now : Time) (p : Booking → Bool) (rows : List Booking) (row : Booking)
    → Pairwise (Separate now) rows
    → first_where p rows ≡ some row
    → All (λ a. a.id ≡ row.id → a ≡ row) rows
unfolding first_where
unique_row now p [] row w e = tt
unique_row now p (a ∷ rows) row w e = elim (Bool-cases (p a)) [
  | inl t ↦
      let found : a ≡ row = ground arith in
      (
        λ _. found,
        All-mono (λ b s same. absurd (s.ids (ap (λ (x : Booking). x.id) found ∙ sym same))) rows
            w.0,
      )
  | inr t ↦
      let later : first_where p rows ≡ some row = ground arith in
      (
        λ same. absurd ((All-first_where (Separate now a) p rows row w.0 later).ids same),
        unique_row now p rows row w.1 later,
      )
]
