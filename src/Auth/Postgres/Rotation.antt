-- ===== src/Auth/Postgres/Rotation.antt =====
-- Rotation on Postgres: both statements of the transaction happen or neither.
use training_ops_scheduling.Base.{
  String, true, false, ◌<◌, ◌≡◌, ◌≢◌, ◌↔◌, refl, sym, ap, inl, inr, none, some, List, [], ◌∷◌, ◌++◌,
  any, arith, str_eq, str_eq_iff, str_eq_refl, Option-cases, All, All-append,
}
use training_ops_scheduling.Base.Rows.{first_where}
use training_ops_scheduling.Base.Result.{Result, ok, err}
use training_ops_scheduling.Clock.{Time}
use training_ops_scheduling.Auth.Data.{Session, AuthError}
use training_ops_scheduling.Auth.Postgres.Revoked.{Ended-session_activity, end_session-ended}
use training_ops_scheduling.Auth.Postgres.{
  Tables, Server, resolve_tenant, is_session, run, row_is_active, cast, insert_session, add_session,
  revoke_row, session_activity, is_active, rotate,
}

-- A row of none of the earlier ones is found last.
first_where-last :
    (tenant id : String) (rows : List Session) (row : Session)
    → any (λ r. str_eq r.id id) rows ≡ false
    → is_session tenant id row ≡ true
    → first_where (is_session tenant id) (rows ++ (row ∷ [])) ≡ some row
unfolding any first_where is_session
first_where-last tenant id [] row unused e = ground arith
first_where-last tenant id (r ∷ rows) row unused e =
    let ih = first_where-last tenant id rows row in ground (arith, ih)

module _ (server : Server) where
  insert_session-ok :
      (row : Session) (db db' : Tables)
      → insert_session server row db ≡ ok db'
      → (any (λ r. str_eq r.id row.id) db.sessions ≡ false)
        × (db' ≡ record db { sessions = db.sessions ++ (row ∷ []) })
  unfolding insert_session
  insert_session-ok row db db' h = (ground arith, ground arith)

  run-none :
      (db : Tables) (result : Result AuthError Tables)
      → (run result db).1 ≡ none
      → result ≡ ok (run result db).0
  unfolding run
  run-none db (err e) h = absurd (cc)
  run-none db (ok db') h = refl

  run-some :
      (db : Tables) (result : Result AuthError Tables) (e : AuthError)
      → (run result db).1 ≡ some e
      → (run result db).0 ≡ db
  unfolding run
  run-some db (err e') e h = refl
  run-some db (ok db') e h = absurd (cc)

  -- A row that was added: no row had its identifier, and it stands last.
  add_session-ok :
      (tenant new : String) (session : Session) (db db' : Tables)
      → server.uuid session.id ≡ some new
      → add_session server tenant session db ≡ ok db'
      → (any (λ r. str_eq r.id new) db.sessions ≡ false)
        × ((user : String) × (db' ≡ record db {
          sessions =
              db.sessions ++ (record session { id = new; tenant_id = tenant; user_id = user } ∷ []);
        }))
  unfolding add_session cast
  add_session-ok tenant new session db db' same h =
      elim (Option-cases (server.uuid session.user_id)) [
        | inl u ↦ absurd (let k = rw (same, u, add_session, cast) at h in cc)
        | inr (user, u) ↦
            let row : Session = record session { id = new; tenant_id = tenant; user_id = user } in
            let (unused, grown) =
              insert_session-ok row db db' (rw (same, u, add_session, cast) at h) in
            (unused, (user, grown))
      ]

  rotate-none :
      (tenant old new t i : String) (fresh : Session) (at : Time) (db : Tables)
      → resolve_tenant t db ≡ ok tenant
      → server.uuid i ≡ some old
      → server.uuid fresh.id ≡ some new
      → (rotate server t i fresh at db).1 ≡ none
      → add_session server tenant
          (record fresh { revoked_at = none })
          (revoke_row server tenant old at db)
        ≡ ok (rotate server t i fresh at db).0
  unfolding rotate cast
  rotate-none tenant old new t i fresh at db named same_old same_new h =
      let step =
        add_session server tenant (record fresh { revoked_at = none })
          (revoke_row server tenant old at db) in
      let same : rotate server t i fresh at db ≡ run step db =
        rw (named, same_old, same_new, rotate, cast) refl in
      rw same (run-none db step (rw same at h))

  resolved :
      (tenant t : String) (db db' : Tables)
      → resolve_tenant t db ≡ ok tenant
      → db'.tenants ≡ db.tenants
      → resolve_tenant t db' ≡ ok tenant
  unfolding resolve_tenant
  resolved tenant t db db' named e = rw e named

  read :
      (tenant id t i : String) (now : Time) (db : Tables)
      → resolve_tenant t db ≡ ok tenant
      → server.uuid i ≡ some id
      → is_active server t i now db
        ≡ ok (session_activity server now (first_where (is_session tenant id) db.sessions))
  unfolding is_active cast
  read tenant id t i now db named same = rw (named, same, is_active, cast) refl

  fresh-session_activity :
      (now : Time) (row : Session)
      → row.revoked_at ≡ none
      → (session_activity server now (some row) ≡ true) ↔ (now < row.expires_at)
  unfolding session_activity row_is_active
  fresh-session_activity now row e =
      rw (e, session_activity, row_is_active) (λ h. ground arith, λ h. ground arith)

  -- What the two statements leave: the old session revoked, the new one last.
  rotated-is_active :
      (tenant old new user t i j : String) (fresh : Session) (at now : Time) (db db' : Tables)
      → resolve_tenant t db ≡ ok tenant
      → server.uuid i ≡ some old
      → server.uuid j ≡ some new
      → old ≢ new
      → any (λ r. str_eq r.id new) (revoke_row server tenant old at db).sessions ≡ false
      → db' ≡ record (revoke_row server tenant old at db) {
        sessions =
            (revoke_row server tenant old at db).sessions
            ++ (record fresh { revoked_at = none; id = new; tenant_id = tenant; user_id = user }
                ∷ []);
      }
      → (is_active server t i now db' ≡ ok false)
        × ((is_active server t j now db' ≡ ok true) ↔ (now < fresh.expires_at))
  unfolding revoke_row is_session
  rotated-is_active tenant old new user t i j fresh at now db db' named same_old same_new ne unused
        grown =
      let kept = (revoke_row server tenant old at db).sessions in
      let row : Session = record fresh {
        revoked_at = none;
        id = new;
        tenant_id = tenant;
        user_id = user;
      } in
      let named' : resolve_tenant t db' ≡ ok tenant =
        resolved tenant t db db' named (ap (λ d. d.tenants) grown) in
      let rows : db'.sessions ≡ kept ++ (row ∷ []) = ap (λ d. d.sessions) grown in
      let gone : All (λ r. is_session tenant old r ≡ true → r.revoked_at ≢ none)
          (kept ++ (row ∷ [])) =
        All-append (λ r. is_session tenant old r ≡ true → r.revoked_at ≢ none) kept (row ∷ [])
          (end_session-ended server tenant old at (server.clock db) db.sessions)
          (λ e. absurd (ne (sym ((str_eq_iff new old).0 (ground arith)))), tt) in
      let last : first_where (is_session tenant new) (kept ++ (row ∷ [])) ≡ some row =
        first_where-last tenant new kept row unused
          (rw (str_eq_refl tenant, str_eq_refl new, is_session) refl) in
      (
        rw (read tenant old t i now db' named' same_old, rows)
            (ap ok (Ended-session_activity server tenant old now (kept ++ (row ∷ [])) gone)),
        rw (read tenant new t j now db' named' same_new, rows, last)
            (let (fwd, back) = fresh-session_activity now row refl in
              (λ h. fwd (cc), λ h. ap ok (back h))),
      )

-- Rotation that reports an error changes nothing. One that reports none, to a session with another
-- id, leaves the old session inactive at every instant and the new one active exactly before it expires;
-- the tenant is known and both ids are UUIDs.
pub rotate_outcome :
    (server : Server) (tenant old new t i : String) (fresh : Session) (at now : Time) (db : Tables)
    → resolve_tenant t db ≡ ok tenant
    → server.uuid i ≡ some old
    → server.uuid fresh.id ≡ some new
    → old ≢ new
    → ((e : AuthError)
        → (rotate server t i fresh at db).1 ≡ some e
        → (rotate server t i fresh at db).0 ≡ db)
      × ((rotate server t i fresh at db).1 ≡ none
          → (is_active server t i now (rotate server t i fresh at db).0 ≡ ok false)
            × ((is_active server t fresh.id now (rotate server t i fresh at db).0 ≡ ok true)
                ↔ (now < fresh.expires_at)))
unfolding rotate
rotate_outcome server tenant old new t i fresh at now db named same_old same_new ne = (
  λ e h. run-some server db _ e h,
  λ h.
      let db' = (rotate server t i fresh at db).0 in
      let next : Session = record fresh { revoked_at = none } in
      let (unused, (user, grown)) =
        add_session-ok server tenant new next (revoke_row server tenant old at db) db' same_new
          (rotate-none server tenant old new t i fresh at db named same_old same_new h) in
      rotated-is_active server tenant old new user t i fresh.id fresh at now db db' named same_old
        same_new ne unused grown,
)
