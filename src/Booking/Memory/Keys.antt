-- ===== src/Booking/Memory/Keys.antt =====
-- Keys of the booking repository: a booking stands under the key made of its own tenant and ID, and
-- the key tells them apart where no tenant ID holds a colon.
use Prim.Native.Char.{Char, char, code}
use text.Mathlib.TextLemmas.{cons-eq-cons, cons-append, nil-append}
use training_ops_scheduling.Base.{◌≡◌, refl, sym, ap, ◌∙◌, ◌≢◌, String}
use training_ops_scheduling.Base.Text.{◌+ˢ◌}
use training_ops_scheduling.Base.Invariant.{Each, Each-lookup}
use training_ops_scheduling.Base.Result.{ok}
use training_ops_scheduling.Booking.Data.{Booking}
use training_ops_scheduling.Booking.Memory.Hold.{get_booking-ok_iff}
use training_ops_scheduling.Booking.Memory.{BookingRepository, booking_key, get_booking}

-- A booking stands under its own key.
abbrev pub Keyed : String → Booking → Type 0
Keyed k b = k ≡ booking_key b.tenant_id b.id

abbrev pub HasNoColon : String → Type 0
HasNoColon String.[] = Unit {0}
HasNoColon (String.◌∷◌ c s) = (code c ≢ b':') × HasNoColon s

abbrev colon : Char
colon = char b':' tt

-- A text is cut at its first colon.
cut_at_colon :
    (s t x y : String)
    → HasNoColon s
    → HasNoColon t
    → s +ˢ String.◌∷◌ colon x ≡ t +ˢ String.◌∷◌ colon y
    → (s ≡ t) × (x ≡ y)
cut_at_colon String.[] String.[] x y hs ht e =
    (refl, (cons-eq-cons.0 (sym (nil-append _) ∙ e ∙ nil-append _)).1)
cut_at_colon String.[] (String.◌∷◌ d t) x y hs ht e =
    absurd (ht.0 (ap code (sym (cons-eq-cons.0 (sym (nil-append _) ∙ e ∙ cons-append d t _)).0)))
cut_at_colon (String.◌∷◌ c s) String.[] x y hs ht e =
    absurd (hs.0 (ap code (cons-eq-cons.0 (sym (cons-append c s _) ∙ e ∙ nil-append _)).0))
cut_at_colon (String.◌∷◌ c s) (String.◌∷◌ d t) x y hs ht e =
    let (first, later) = cons-eq-cons.0 (sym (cons-append c s _) ∙ e ∙ cons-append d t _) in
    let (same, rest) = cut_at_colon s t x y hs.1 ht.1 later in (cons-eq-cons.1 (first, same), rest)

booking_key_lem : (t i : String) → booking_key t i ≡ t +ˢ String.◌∷◌ colon i
unfolding booking_key
booking_key_lem t i =
    ap (λ s. t +ˢ s) (cons-append colon "" i ∙ ap (String.◌∷◌ colon) (nil-append i))

pub booking_key-injective :
    (s t x y : String)
    → HasNoColon s
    → HasNoColon t
    → booking_key s x ≡ booking_key t y
    → (s ≡ t) × (x ≡ y)
booking_key-injective s t x y hs ht e =
    cut_at_colon s t x y hs ht (sym (booking_key_lem s x) ∙ e ∙ booking_key_lem t y)

-- In a repository whose bookings stand under their own keys, GetBooking returns the booking asked
-- for, of the tenant that asks, where the two tenant IDs hold no colon.
pub get_booking_isolated :
    (t i : String) (r : BookingRepository) (b : Booking)
    → Each Keyed r.bookings
    → HasNoColon t
    → HasNoColon b.tenant_id
    → get_booking t i r ≡ ok b
    → (b.tenant_id ≡ t) × (b.id ≡ i)
get_booking_isolated t i r b keyed ht hb e = booking_key-injective b.tenant_id t b.id i hb ht (
    sym (Each-lookup Keyed (booking_key t i) r.bookings b keyed ((get_booking-ok_iff t i r b).0 e)))
