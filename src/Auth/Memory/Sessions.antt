-- ===== src/Auth/Memory/Sessions.antt =====
-- Sessions of the in-memory store: a session that was revoked or rotated away stays inactive.
use training_ops_scheduling.Base.{
  String, Bool, true, false, none, some, ◌≡◌, ◌≢◌, ◌≤◌, ◌↔◌, refl, ap, ◌∙◌, inl, inr, arith, str_eq,
  str_eq_iff, Bool-cases, Option-cases,
}
use training_ops_scheduling.Base.Table.{lookup, insert, lookup-insert, lookup-insert_self}
use training_ops_scheduling.Base.Result.{ok, err}
use training_ops_scheduling.Clock.{Time}
use training_ops_scheduling.Auth.Data.{Session, AuthError}
use training_ops_scheduling.Auth.Memory.{
  Store, session_key, create_session, revoke, session_is_active, is_active, rotate,
}

-- A session stands under the key and has been revoked.
abbrev pub Revoked : String → Store → Type 0
Revoked key s =
    (session : Session) × (at : Time) × (lookup key s.sessions ≡ some session)
    × (session.revoked_at ≡ some at)

-- What happens to sessions. A new session has a key that no session had.
pub data SessionStep (s : Store) : Store → Type 0 where
  created :
      (session : Session)
      → lookup (session_key session.tenant_id session.id) s.sessions ≡ none
      → SessionStep s (create_session session s).0
  ended : (t i : String) (now : Time) → SessionStep s (revoke t i now s).0
  rotated :
      (t i : String) (fresh : Session) (now : Time)
      → lookup (session_key fresh.tenant_id fresh.id) s.sessions ≡ none
      → SessionStep s (rotate t i fresh now s).0

pub data SessionSteps (s : Store) : Store → Type 0 where
  here : SessionSteps s s
  onward : {s' s'' : Store} → SessionSteps s s' → SessionStep s' s'' → SessionSteps s s''

-- A write under a key that holds a revoked session keeps a revoked one under each key.
Revoked-write :
    (key k : String) (s : Store) (session : Session) (at : Time)
    → session.revoked_at ≡ some at
    → Revoked key s
    → Revoked key (record s { sessions = insert k session s.sessions })
Revoked-write key k s session at e (old, when, found, off) =
    let after = lookup-insert k key session s.sessions in
    elim (Bool-cases (str_eq k key)) [
      | inl same ↦ (session, at, rw (after, same) refl, e)
      | inr other ↦ (old, when, rw (after, other) found, off)
    ]

Revoked-new :
    (key k : String) (s : Store) (session : Session)
    → lookup k s.sessions ≡ none
    → Revoked key s
    → Revoked key (record s { sessions = insert k session s.sessions })
Revoked-new key k s session fresh (old, when, found, off) =
    let after = lookup-insert k key session s.sessions in
    elim (Bool-cases (str_eq k key)) [
      | inl same ↦
          let there : lookup k s.sessions ≡ some old =
            ap (λ x. lookup x s.sessions) ((str_eq_iff k key).0 same) ∙ found in
          absurd (cc)
      | inr other ↦ (old, when, rw (after, other) found, off)
    ]

SessionStep-Revoked :
    {s s' : Store} (key : String) → SessionStep s s' → Revoked key s → Revoked key s'
unfolding create_session revoke rotate
SessionStep-Revoked {s} key (created session fresh) gone =
    Revoked-new key (session_key session.tenant_id session.id) s session fresh gone
SessionStep-Revoked {s} key (ended t i now) gone =
    elim (Option-cases (lookup (session_key t i) s.sessions)) [
      | inl missing ↦ rw (missing, revoke) gone
      | inr (session, found) ↦
          rw (found, revoke)
            (Revoked-write key (session_key t i) s (record session { revoked_at = some now }) now
              refl gone)
    ]
SessionStep-Revoked {s} key (rotated t i fresh now unused) gone =
    elim (Option-cases (lookup (session_key t i) s.sessions)) [
      | inl missing ↦ rw (missing, rotate) gone
      | inr (current, found) ↦
          let old : Session = record current { revoked_at = some now; updated_at = now } in
          let s1 : Store = record s { sessions = insert (session_key t i) old s.sessions } in
          let k = session_key fresh.tenant_id fresh.id in
          let unused' : lookup k s1.sessions ≡ none =
            rw (lookup-insert (session_key t i) k old s.sessions)
              (ground (arith, str_eq_iff (session_key t i) k)) in
          rw (found, rotate)
            (Revoked-new key k s1 fresh unused'
              (Revoked-write key (session_key t i) s old now refl gone))
    ]

Revoked-is_active :
    (t i : String) (now : Time) (s : Store)
    → Revoked (session_key t i) s
    → is_active t i now s ≡ ok false
unfolding is_active session_is_active
Revoked-is_active t i now s (session, at, found, off) =
    rw (found, is_active, off, session_is_active) refl

revoke-Revoked :
    (t i : String) (now : Time) (s : Store) (session : Session)
    → lookup (session_key t i) s.sessions ≡ some session
    → Revoked (session_key t i) (revoke t i now s).0
unfolding revoke
revoke-Revoked t i now s session found =
    rw (found, revoke)
      (
        record session { revoked_at = some now },
        now,
        lookup-insert_self (session_key t i) _ s.sessions,
        refl,
      )

-- A session that the store has is inactive once it was revoked, at every instant, and it stays so
-- whatever is then created under unused keys, revoked and rotated.
pub revoked_for_good :
    (t i : String) (at now : Time) (s s' : Store) (session : Session)
    → lookup (session_key t i) s.sessions ≡ some session
    → SessionSteps (revoke t i at s).0 s'
    → is_active t i now s' ≡ ok false
revoked_for_good t i at now s s' session found steps = Revoked-is_active t i now s' (carried steps)
  where
    carried : {r : Store} → SessionSteps (revoke t i at s).0 r → Revoked (session_key t i) r
    carried here = revoke-Revoked t i at s session found
    carried (onward before step) = SessionStep-Revoked (session_key t i) step (carried before)

-- Rotation ends the old session and starts the new one, which is active until it expires; of a
-- missing session it reports that it is missing, and changes nothing.
rotate_branches :
    (t i : String) (fresh : Session) (at now : Time) (s : Store)
    → session_key t i ≢ session_key fresh.tenant_id fresh.id
    → fresh.revoked_at ≡ none
    → (is_active t i now s ≡ err AuthError.not_found
        → rotate t i fresh at s ≡ (s, some AuthError.not_found))
      × ((active : Bool)
          → is_active t i now s ≡ ok active
          → ((rotate t i fresh at s).1 ≡ none)
            × (is_active t i now (rotate t i fresh at s).0 ≡ ok false)
            × ((is_active fresh.tenant_id fresh.id now (rotate t i fresh at s).0 ≡ ok true)
                ↔ (now ≤ fresh.expires_at)))
unfolding rotate is_active session_is_active
rotate_branches t i fresh at now s ne unrevoked =
    elim (Option-cases (lookup (session_key t i) s.sessions)) [
      | inl missing ↦ (λ h. rw (missing, rotate) refl, λ active h. absurd (ground arith))
      | inr (current, found) ↦ (
        λ h. absurd (ground arith),
        λ active h.
            let old : Session = record current { revoked_at = some at; updated_at = at } in
            let k = session_key fresh.tenant_id fresh.id in
            let key = session_key t i in
            let away : str_eq k key ≡ false = ground (arith, str_eq_iff k key) in
            let read_old : lookup key (insert k fresh (insert key old s.sessions)) ≡ some old =
              rw (lookup-insert k key fresh (insert key old s.sessions), away)
                (lookup-insert_self key old s.sessions) in
            let read_new : lookup k (insert k fresh (insert key old s.sessions)) ≡ some fresh =
              lookup-insert_self k fresh (insert key old s.sessions) in
            (
              rw (found, rotate) refl,
              rw (found, rotate, read_old, is_active) refl,
              rw (found, rotate, read_new, is_active, unrevoked, session_is_active)
                  (λ h. ground arith, λ h. ground arith),
            ),
      )
    ]
