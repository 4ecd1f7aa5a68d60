-- ===== src/Booking/Conflict/Dedupe.antt =====
-- The list of conflicts that a refused hold returns: each reason once, none lost.
use training_ops_scheduling.Base.{
  ◌≡◌, refl, ap, sym, inl, inr, ◌↔◌, Bool, true, false, ◌||◌, List, [], ◌∷◌, arith, any, Bool-cases,
}
use training_ops_scheduling.Booking.Data.{BookingConflict, BookingConflictReason, reason_eq}
use training_ops_scheduling.Booking.Conflict.{dedupe_from, dedupe_booking_conflicts}

-- Some conflict of the list has the reason.
abbrev pub has_reason : BookingConflictReason → List BookingConflict → Bool
has_reason r conflicts = any (λ c. reason_eq r c.reason) conflicts

-- No two conflicts of the list have the same reason.
abbrev pub OncePerReason : List BookingConflict → Type 0
OncePerReason [] = Unit
OncePerReason (c ∷ cs) = (has_reason c.reason cs ≡ false) × OncePerReason cs

pub reason_eq_iff : (r s : BookingConflictReason) → (reason_eq r s ≡ true) ↔ (r ≡ s)
unfolding reason_eq
reason_eq_iff r s = (λ h. ground arith, λ h. ground arith)

module _ (r : BookingConflictReason) where
  -- Reasons are told apart, so a reason that is equal to one that was met was met.
  any-seen :
      (s : BookingConflictReason) (seen : List BookingConflictReason)
      → reason_eq r s ≡ true
      → any (reason_eq s) seen ≡ any (reason_eq r) seen
  any-seen s seen h = ap (λ t. any (reason_eq t) seen) (sym ((reason_eq_iff r s).0 h))

  dedupe_from-has_reason :
      (seen : List BookingConflictReason) (cs : List BookingConflict)
      → (any (reason_eq r) seen || has_reason r (dedupe_from seen cs))
        ≡ (any (reason_eq r) seen || has_reason r cs)
  unfolding dedupe_from any
  dedupe_from-has_reason seen [] = refl
  dedupe_from-has_reason seen (c ∷ cs) = ground (
    arith,
    any-seen c.reason seen,
    dedupe_from-has_reason seen cs,
    dedupe_from-has_reason (c.reason ∷ seen) cs,
  )

  dedupe_from-fresh :
      (seen : List BookingConflictReason) (cs : List BookingConflict)
      → any (reason_eq r) seen ≡ true
      → has_reason r (dedupe_from seen cs) ≡ false
  unfolding dedupe_from any
  dedupe_from-fresh seen [] h = refl
  dedupe_from-fresh seen (c ∷ cs) h = ground (
    arith,
    any-seen c.reason seen,
    dedupe_from-fresh seen cs,
    dedupe_from-fresh (c.reason ∷ seen) cs,
  )

dedupe_from-OncePerReason :
    (seen : List BookingConflictReason) (cs : List BookingConflict)
    → OncePerReason (dedupe_from seen cs)
unfolding dedupe_from any
dedupe_from-OncePerReason seen [] = tt
dedupe_from-OncePerReason seen (c ∷ cs) = elim (Bool-cases (any (reason_eq c.reason) seen)) [
  | inl met ↦ rw (met, dedupe_from) (dedupe_from-OncePerReason seen cs)
  | inr new ↦
      rw (new, dedupe_from)
        (
          dedupe_from-fresh c.reason (c.reason ∷ seen) cs
              (ground (arith, reason_eq_iff c.reason c.reason)),
          dedupe_from-OncePerReason (c.reason ∷ seen) cs,
        )
]

-- The list that is returned has each reason at most once, and a reason stands in it exactly when it
-- stands in the list of the conflicts that were found.
pub dedupe_booking_conflicts_lem :
    (cs : List BookingConflict)
    → OncePerReason (dedupe_booking_conflicts cs)
      × ((r : BookingConflictReason) → has_reason r (dedupe_booking_conflicts cs) ≡ has_reason r cs)
unfolding dedupe_booking_conflicts any
dedupe_booking_conflicts_lem cs =
    (dedupe_from-OncePerReason [] cs, λ r. dedupe_from-has_reason r [] cs)

-- Nothing is left exactly when nothing was found.
pub dedupe_booking_conflicts-nil_iff :
    (cs : List BookingConflict) → (dedupe_booking_conflicts cs ≡ []) ↔ (cs ≡ [])
unfolding dedupe_booking_conflicts dedupe_from any
dedupe_booking_conflicts-nil_iff [] = (λ h. refl, λ h. refl)
dedupe_booking_conflicts-nil_iff (c ∷ cs) = (λ h. cc, λ h. cc)
