-- ===== src/Audit/Worker.antt =====
-- repo/backend/internal/service/hold_expiry_worker.go: the worker that expires held bookings. The sweep
-- itself is the store's; the text of an instant (RFC 3339) is a parameter, and logging is left out.
use training_ops_scheduling.Base.{
  ◌≡◌, refl, sym, ap, ◌∙◌, String, Option, List, [], ◌∷◌, ◌++◌, map, not, if◌then◌else◌,
}
use training_ops_scheduling.Base.Int.{ℤ, pos, ltb_ℤ}
use training_ops_scheduling.Base.Result.{Result, ok, err}
use training_ops_scheduling.Clock.{Time, minute}
use training_ops_scheduling.Booking.Data.{Booking}
use training_ops_scheduling.Audit.Trail.{AuditEntry, AuditStore, AuditRecorder, record_transition}

-- The HoldExpiryStore interface; an error is its text.
pub record HoldExpiryStore (Held : Type 0) : Type 0 where
  pub expire_held_bookings : Time → Held → Held × Result String (List Booking)

-- `if interval <= 0 { interval = time.Minute }`
unfoldable pub worker_interval : ℤ → ℤ
worker_interval interval = if not (ltb_ℤ (pos 0) interval) then pos minute else interval

module _ {Held State : Type 0} (store : HoldExpiryStore Held) (audit : Option (AuditStore State))
    (format_rfc3339 : Time → String) where
  record_expired : Time → Booking → AuditRecorder State → AuditRecorder State
  record_expired now booking r =
      record_transition audit "booking_expired" "booking" booking.id booking.tenant_id "held"
        "expired"
        (record {
          actor_user_id = "";
          reason = "hold timeout";
          who = "system";
          when = format_rfc3339 now;
        })
        now r

  -- `for _, booking := range expired`
  record_all : Time → List Booking → AuditRecorder State → AuditRecorder State
  unfolding record_expired
  record_all now [] r = r
  record_all now (booking ∷ rest) r = record_all now rest (record_expired now booking r)

  record_swept : Time → Result String (List Booking) → AuditRecorder State → AuditRecorder State
  unfolding record_all
  record_swept now (err e) r = r
  record_swept now (ok expired) r = record_all now expired r

  unfoldable pub run_once : Time → Held × AuditRecorder State → Held × AuditRecorder State
  unfolding record_swept
  run_once now (held, r) =
      let (held', swept) = store.expire_held_bookings now held in (held', record_swept now swept r)

  -- Start: a sweep at once, and one at each tick until the context is done.
  unfoldable pub start : Time → List Time → Held × AuditRecorder State → Held × AuditRecorder State
  unfolding run_once
  start now [] s = run_once now s
  start now (tick ∷ ticks) s = start tick ticks (run_once now s)

  -- The entry that the worker writes for an expired booking.
  abbrev pub expiry_entry : Time → Booking → AuditEntry
  expiry_entry now booking = record {
    actor_user_id = "";
    old_state = "held";
    new_state = "expired";
    reason = "hold timeout";
    who = "system";
    when = format_rfc3339 now;
    action = "booking_expired";
    entity_type = "booking";
    entity_id = booking.id;
    tenant_id = booking.tenant_id;
    created_at = now;
  }

  expiry_entries : Time → Result String (List Booking) → List AuditEntry
  expiry_entries now (err e) = []
  expiry_entries now (ok expired) = map (expiry_entry now) expired

  -- The entries for the bookings that the sweeps at the instants expire, the store's state carried
  -- from one to the next; a sweep that fails expires none.
  unfoldable pub swept_entries : Time → List Time → Held → List AuditEntry
  unfolding expiry_entries
  swept_entries now [] held = expiry_entries now (store.expire_held_bookings now held).1
  swept_entries now (tick ∷ ticks) held =
      expiry_entries now (store.expire_held_bookings now held).1
      ++ swept_entries tick ticks (store.expire_held_bookings now held).0

  append_nil {ℓ} : {A : Type ℓ} (xs : List A) → xs ++ [] ≡ xs
  append_nil [] = refl
  append_nil (x ∷ xs) = ap (λ ys. x ∷ ys) (append_nil xs)

  append_assoc {ℓ} : {A : Type ℓ} (xs ys zs : List A) → (xs ++ ys) ++ zs ≡ xs ++ (ys ++ zs)
  append_assoc [] ys zs = refl
  append_assoc (x ∷ xs) ys zs = ap (λ l. x ∷ l) (append_assoc xs ys zs)

  record_all-entries :
      (now : Time) (expired : List Booking) (r : AuditRecorder State)
      → (record_all now expired r).entries ≡ r.entries ++ map (expiry_entry now) expired
  unfolding record_all record_expired record_transition
  record_all-entries now [] r = sym (append_nil r.entries)
  record_all-entries now (booking ∷ rest) r =
      record_all-entries now rest (record_expired now booking r)
      ∙ append_assoc r.entries (expiry_entry now booking ∷ []) (map (expiry_entry now) rest)

  record_swept-entries :
      (now : Time) (swept : Result String (List Booking)) (r : AuditRecorder State)
      → (record_swept now swept r).entries ≡ r.entries ++ expiry_entries now swept
  unfolding record_swept expiry_entries
  record_swept-entries now (err e) r = sym (append_nil r.entries)
  record_swept-entries now (ok expired) r = record_all-entries now expired r

  -- However often the worker ran, the audit trail has grown by one entry for each booking that a
  -- sweep expired, in the order of the sweeps, and by nothing else, whether or not the entries
  -- could be stored.
  pub start-entries :
      (now : Time) (ticks : List Time) (held : Held) (r : AuditRecorder State)
      → (start now ticks (held, r)).1.entries ≡ r.entries ++ swept_entries now ticks held
  unfolding start run_once swept_entries
  start-entries now [] held r = record_swept-entries now (store.expire_held_bookings now held).1 r
  start-entries now (tick ∷ ticks) held r =
      let swept = (store.expire_held_bookings now held).1 in
      let r' = record_swept now swept r in
      let held' = (store.expire_held_bookings now held).0 in
      start-entries tick ticks held' r'
      ∙ ap (λ es. es ++ swept_entries tick ticks held') (record_swept-entries now swept r)
      ∙ append_assoc r.entries (expiry_entries now swept) (swept_entries tick ticks held')
