-- ===== src/Booking/Postgres/Race.antt =====
-- Transactions of CreateHold side by side (repo/backend/internal/repository/postgres/workflow_store.go):
-- the check and the insert of one transaction are two steps, and steps of others may run between
-- them. The check locks the row of the room (`FOR UPDATE`) until the transaction ends. Inserted rows
-- of an open transaction are seen by no other, and a new row is locked by none. Confirm, Cancel,
-- CheckIn, ReserveLearnerSeat and the sweeps are one step each.
use training_ops_scheduling.Base.{String, ◌≤◌, ◌<◌, ◌≡◌, List, [], ◌∷◌, ◌++◌, All}
use training_ops_scheduling.Base.Result.{ok}
use training_ops_scheduling.Clock.{Time, Duration}
use training_ops_scheduling.Booking.Data.{Booking}
use training_ops_scheduling.Booking.Conflict.Blocking.{Active}
use training_ops_scheduling.Booking.Postgres.Tables.{Database, Server, resolve_tenant_uuid}
use training_ops_scheduling.Booking.Postgres.Detect.{detect_booking_conflicts_tx}
use training_ops_scheduling.Booking.Postgres.Methods.{
  insert_hold, confirm, cancel, check_in, release_expired_holds, expire_held_bookings,
}
use training_ops_scheduling.Booking.Postgres.Reserve.{reserve_learner_seat}
use training_ops_scheduling.Booking.Postgres.History.{IsCanonical}

-- A transaction whose check found no conflict, and which did not insert yet.
pub record Checked : Type 0 where
  pub tenant : String
  pub booking : Booking
  pub hold_ttl : Duration
  pub started : Time

-- The committed rows, and the transactions between their check and their insert.
pub record System : Type 0 where
  pub db : Database
  pub pending : List Checked

-- Both transactions lock the row of one room.
pub record SameRoom (p q : Checked) : Type 0 where
  pub tenant : p.tenant ≡ q.tenant
  pub room_id : p.booking.room_id ≡ q.booking.room_id

pub data Step (server : Server) (now : Time) (s : System) : System → Type 0 where
  checked :
      (p : Checked)
      → IsCanonical server p.booking
      → p.started ≡ now
      → resolve_tenant_uuid p.booking.tenant_id s.db ≡ ok p.tenant
      → All (λ q. ¬ SameRoom p q) s.pending
      → detect_booking_conflicts_tx server p.tenant p.booking now [] s.db ≡ ok []
      → Step server now s (record s { pending = p ∷ s.pending })
  inserted :
      (earlier later : List Checked) (p : Checked)
      → s.pending ≡ earlier ++ (p ∷ later)
      → Step server now s (record {
        db = (insert_hold server p.tenant p.booking p.hold_ttl p.started s.db).0;
        pending = earlier ++ later;
      })
  rolled_back :
      (earlier later : List Checked) (p : Checked)
      → s.pending ≡ earlier ++ (p ∷ later)
      → Step server now s (record s { pending = earlier ++ later })
  confirmed : (t i : String) → Step server now s (record s { db = (confirm server t i now s.db).0 })
  cancelled : (t i : String) → Step server now s (record s { db = (cancel server t i now s.db).0 })
  checked_in :
      (t i : String) → Step server now s (record s { db = (check_in server t i now s.db).0 })
  reserved :
      (t i learner : String)
      → Step server now s (record s { db = (reserve_learner_seat server t i learner now s.db).0 })
  released : Step server now s (record s { db = (release_expired_holds now s.db).0 })
  expired : Step server now s (record s { db = (expire_held_bookings now s.db).0 })

-- What steps lead to from a table without bookings, the clock never running backwards.
pub data Reach (server : Server) : Time → System → Type 0 where
  start :
      (now : Time) (db : Database)
      → db.bookings ≡ []
      → Reach server now (record { db = db; pending = [] })
  next :
      {now : Time} {s : System} (later : Time) {s' : System}
      → Reach server now s
      → now ≤ later
      → Step server later s s'
      → Reach server later s'

-- Two bookings of one room of a tenant whose windows overlap.
pub record Clash (a b : Booking) : Type 0 where
  pub same_tenant : a.tenant_id ≡ b.tenant_id
  pub same_room : a.room_id ≡ b.room_id
  pub starts_before : a.start_at < b.end_at
  pub ends_after : b.start_at < a.end_at

abbrev pub RoomApart : Time → Booking → Booking → Type 0
RoomApart now a b = Active now a → Active now b → ¬ Clash a b
