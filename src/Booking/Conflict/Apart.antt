-- ===== src/Booking/Conflict/Apart.antt =====
-- Bookings that keep out of each other's way, and the changes of one of them that keep it so.
use training_ops_scheduling.Base.{◌≤◌}
use training_ops_scheduling.Clock.{Time}
use training_ops_scheduling.Booking.Data.{Booking}
use training_ops_scheduling.Booking.Conflict.Blocking.{Active, Active-mono, Collide, Collide-symm}

-- Two bookings that are both active at the time `now` have no room and no instructor in common
-- while their windows overlap.
abbrev pub Apart : Time → Booking → Booking → Type 0
Apart now a b = Active now a → Active now b → ¬ Collide a b

pub Apart-symm : (now : Time) (a b : Booking) → Apart now a b → Apart now b a
Apart-symm now a b h act_b act_a c = h act_a act_b (Collide-symm b a c)

pub Apart-mono : (now later : Time) (a b : Booking) → now ≤ later → Apart now a b → Apart later a b
Apart-mono now later a b h apart act_a act_b =
    apart (Active-mono now later a h act_a) (Active-mono now later b h act_b)

-- `b` may stand for `a`: it is active only when `a` is, and asks for the same things.
pub record Stands (now : Time) (a b : Booking) : Type 0 where
  pub active : Active now b → Active now a
  pub collide : (c : Booking) → Collide b c → Collide a c

pub Apart-Stands : (now : Time) (a b c : Booking) → Stands now a b → Apart now a c → Apart now b c
Apart-Stands now a b c s h act_b act_c both = h (s.active act_b) act_c (s.collide c both)

-- Both of them may be replaced.
pub Apart-Stands_both :
    (now : Time) (a b c d : Booking)
    → Stands now a c
    → Stands now b d
    → Apart now a b
    → Apart now c d
Apart-Stands_both now a b c d s t h =
    Apart-symm now d c (Apart-Stands now b d c t (Apart-symm now c b (Apart-Stands now a c b s h)))
