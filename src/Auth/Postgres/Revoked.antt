-- ===== src/Auth/Postgres/Revoked.antt =====
-- Sessions on Postgres: one that was revoked stays inactive.
use training_ops_scheduling.Base.{
  String, Bool, true, false, ◌≡◌, ◌≢◌, refl, sym, ap, ◌∙◌, subst, inl, inr, none, some, List, [],
  ◌∷◌, ◌++◌, any, any-append, arith, str_eq, str_eq_iff, Bool-cases, Option-cases, All, All-append,
}
use training_ops_scheduling.Base.Rows.{
  update_where, first_where, first_where-passes, All-first_where, All-update_where,
}
use training_ops_scheduling.Base.Result.{Result, ok, err, Result-cases, ◌>>=◌}
use training_ops_scheduling.Clock.{Time}
use training_ops_scheduling.Auth.Data.{Session, AuthError}
use training_ops_scheduling.Auth.Postgres.{
  TenantName, Tables, Server, resolve_tenant, is_session, run, row_is_active, cast, insert_session,
  add_session, create_session, end_session, revoke_row, revoke, session_activity, is_active, rotate,
}

module _ (server : Server) (tenant id : String) where
  -- Some row has the identifier, and the tenant's row with it has been revoked.
  record Ended (tenants : List TenantName) (db : Tables) : Type 0 where
    same_tenants : db.tenants ≡ tenants
    known : any (λ r. str_eq r.id id) db.sessions ≡ true
    ended : All (λ r. is_session tenant id r ≡ true → r.revoked_at ≢ none) db.sessions

  pub any-update_where :
      (p : Session → Bool) (at clock : Time) (rows : List Session)
      → any (λ r. str_eq r.id id) (update_where p (end_session server at clock) rows)
        ≡ any (λ r. str_eq r.id id) rows
  unfolding any update_where end_session
  any-update_where p at clock [] = refl
  any-update_where p at clock (r ∷ rows) =
      let ih = any-update_where p at clock rows in
      elim (Bool-cases (p r)) [ inl e ↦ rw (e, ih) refl | inr e ↦ rw (e, ih) refl ]

  revoke_row-Ended :
      (tenants : List TenantName) (t i : String) (at : Time) (db : Tables)
      → Ended tenants db
      → Ended tenants (revoke_row server t i at db)
  unfolding revoke_row end_session
  revoke_row-Ended tenants t i at db w = record {
    same_tenants = w.same_tenants;
    known = any-update_where (is_session t i) at (server.clock db) db.sessions ∙ w.known;
    ended =
        All-update_where (λ r. is_session tenant id r ≡ true → r.revoked_at ≢ none) (is_session t i)
          (end_session server at (server.clock db)) db.sessions (λ r _ _ _ e. cc) w.ended;
  }

  -- No row is inserted under an identifier that a row has.
  insert_session-Ended :
      (tenants : List TenantName) (row : Session) (db db' : Tables)
      → insert_session server row db ≡ ok db'
      → Ended tenants db
      → Ended tenants db'
  unfolding insert_session is_session
  insert_session-Ended tenants row db db' h w =
      let grown : db' ≡ record db { sessions = db.sessions ++ (row ∷ []) } = ground arith in
      let unused : any (λ r. str_eq r.id row.id) db.sessions ≡ false = ground arith in
      let other : row.id ≢ id = λ e.
        let k = subst (λ x. any (λ r. str_eq r.id x) db.sessions ≡ false) e unused in
        let known = w.known in cc in
      subst (Ended tenants) (sym grown) (record {
        same_tenants = w.same_tenants;
        known =
            any-append (λ r. str_eq r.id id) db.sessions (row ∷ [])
            ∙ (let known = w.known in ground arith);
        ended =
            All-append (λ r. is_session tenant id r ≡ true → r.revoked_at ≢ none) db.sessions
              (row ∷ []) w.ended
              (λ e. absurd (other ((str_eq_iff row.id id).0 (ground arith))), tt);
      })

  add_session-Ended :
      (tenants : List TenantName) (t : String) (session : Session) (db db' : Tables)
      → add_session server t session db ≡ ok db'
      → Ended tenants db
      → Ended tenants db'
  unfolding add_session
  add_session-Ended tenants t session db db' h w = elim (Result-cases (cast server session.id)) [
    | inl (e, c) ↦ absurd (let k = rw (c, add_session) at h in cc)
    | inr (i, c) ↦ elim (Result-cases (cast server session.user_id)) [
      | inl (e, u) ↦ absurd (let k = rw (c, u, add_session) at h in cc)
      | inr (user, u) ↦
          insert_session-Ended tenants (record session { id = i; tenant_id = t; user_id = user }) db
            db' (rw (c, u, add_session) at h) w
    ]
  ]

  run-Ended :
      (tenants : List TenantName) (db : Tables) (result : Result AuthError Tables)
      → ((db' : Tables) → result ≡ ok db' → Ended tenants db')
      → Ended tenants db
      → Ended tenants (run result db).0
  unfolding run
  run-Ended tenants db (err e) h w = w
  run-Ended tenants db (ok db') h w = h db' refl

  pub Ended-session_activity :
      (now : Time) (rows : List Session)
      → All (λ r. is_session tenant id r ≡ true → r.revoked_at ≢ none) rows
      → session_activity server now (first_where (is_session tenant id) rows) ≡ false
  unfolding session_activity row_is_active
  Ended-session_activity now rows w =
      elim (Option-cases (first_where (is_session tenant id) rows)) [
        | inl missing ↦ rw missing refl
        | inr (row, found) ↦
            let gone =
              All-first_where (λ r. is_session tenant id r ≡ true → r.revoked_at ≢ none)
                (is_session tenant id) rows row w found
                (first_where-passes (is_session tenant id) rows row found) in
            elim (Option-cases row.revoked_at) [
              | inl unset ↦ absurd (gone unset)
              | inr (at, off) ↦ rw (found, session_activity, row_is_active, off) refl
            ]
      ]

  Ended-is_active :
      (t i : String) (now : Time) (first db : Tables)
      → resolve_tenant t first ≡ ok tenant
      → server.uuid i ≡ some id
      → Ended first.tenants db
      → is_active server t i now db ≡ ok false
  unfolding is_active cast resolve_tenant
  Ended-is_active t i now first db named same w =
      let known : resolve_tenant t db ≡ ok tenant = rw w.same_tenants named in
      rw (known, same, is_active, cast) (ap ok (Ended-session_activity now db.sessions w.ended))

  pub end_session-ended :
      (at clock : Time) (rows : List Session)
      → All
          (λ r. is_session tenant id r ≡ true → r.revoked_at ≢ none)
          (update_where (is_session tenant id) (end_session server at clock) rows)
  unfolding update_where end_session
  end_session-ended at clock [] = tt
  end_session-ended at clock (r ∷ rows) =
      let ih = end_session-ended at clock rows in
      elim (Bool-cases (is_session tenant id r)) [
        | inl e ↦ rw e (λ _ h. cc, ih)
        | inr e ↦ rw e (λ h. absurd (cc), ih)
      ]

  revoke-Ended :
      (t i : String) (at : Time) (db : Tables)
      → resolve_tenant t db ≡ ok tenant
      → server.uuid i ≡ some id
      → any (λ r. str_eq r.id id) db.sessions ≡ true
      → Ended db.tenants (revoke server t i at db).0
  unfolding revoke cast run revoke_row
  revoke-Ended t i at db named same there =
      rw (named, same, revoke, cast, run)
        (record {
          same_tenants = refl;
          known = any-update_where (is_session tenant id) at (server.clock db) db.sessions ∙ there;
          ended = end_session-ended at (server.clock db) db.sessions;
        })

-- What happens to the store. Every other method leaves tenants and sessions alone.
pub data SessionStep (server : Server) (db : Tables) : Tables → Type 0 where
  created : (session : Session) → SessionStep server db (create_session server session db).0
  ended : (t i : String) (at : Time) → SessionStep server db (revoke server t i at db).0
  rotated :
      (t i : String) (fresh : Session) (at : Time)
      → SessionStep server db (rotate server t i fresh at db).0
  elsewhere :
      (db' : Tables)
      → db'.tenants ≡ db.tenants
      → db'.sessions ≡ db.sessions
      → SessionStep server db db'

pub data SessionSteps (server : Server) (db : Tables) : Tables → Type 0 where
  here : SessionSteps server db db
  onward :
      {db' db'' : Tables}
      → SessionSteps server db db'
      → SessionStep server db' db''
      → SessionSteps server db db''

-- A value under a bind that succeeds.
>>=-ok :
    {A B : Type 0} (r : Result AuthError A) (k : A → Result AuthError B) (b : B)
    → (r >>= k) ≡ ok b
    → (a : A) × (r ≡ ok a) × (k a ≡ ok b)
>>=-ok (err e) k b h = absurd (cc)
>>=-ok (ok a) k b h = (a, refl, h)

module _ (server : Server) (tenant id : String) (tenants : List TenantName) where
  abbrev StillEnded : Tables → Type 0
  StillEnded = Ended server tenant id tenants

  create_session-Ended :
      (session : Session) (db : Tables)
      → StillEnded db
      → StillEnded (create_session server session db).0
  unfolding create_session
  create_session-Ended session db w =
      run-Ended server tenant id tenants db
        (resolve_tenant session.tenant_id db >>= (λ t. add_session server t session db))
        (λ db' h.
          let (t, _, added) =
            >>=-ok (resolve_tenant session.tenant_id db) (λ t. add_session server t session db) db'
              h in
          add_session-Ended server tenant id tenants t session db db' added w)
        w

  revoke-StillEnded :
      (t i : String) (at : Time) (db : Tables)
      → StillEnded db
      → StillEnded (revoke server t i at db).0
  unfolding revoke
  revoke-StillEnded t i at db w =
      let last : String → String → Result AuthError Tables =
        λ n j. ok (revoke_row server n j at db) in
      let inner = λ (n : String). cast server i >>= last n in
      run-Ended server tenant id tenants db (resolve_tenant t db >>= inner)
        (λ db' h.
          let (n, _, h1) = >>=-ok (resolve_tenant t db) inner db' h in
          let (j, _, h2) = >>=-ok (cast server i) (last n) db' h1 in
          let same : revoke_row server n j at db ≡ db' = cc in
          subst StillEnded same (revoke_row-Ended server tenant id tenants n j at db w))
        w

  rotate-Ended :
      (t i : String) (fresh : Session) (at : Time) (db : Tables)
      → StillEnded db
      → StillEnded (rotate server t i fresh at db).0
  unfolding rotate
  rotate-Ended t i fresh at db w =
      let next : Session = record fresh { revoked_at = none } in
      let last = λ (n j _ : String). add_session server n next (revoke_row server n j at db) in
      let middle = λ (n j : String). cast server fresh.id >>= last n j in
      let inner = λ (n : String). cast server i >>= middle n in
      run-Ended server tenant id tenants db (resolve_tenant t db >>= inner)
        (λ db' h.
          let (n, _, h1) = >>=-ok (resolve_tenant t db) inner db' h in
          let (j, _, h2) = >>=-ok (cast server i) (middle n) db' h1 in
          let (f, _, h3) = >>=-ok (cast server fresh.id) (last n j) db' h2 in
          add_session-Ended server tenant id tenants n next (revoke_row server n j at db) db' h3
            (revoke_row-Ended server tenant id tenants n j at db w))
        w

  SessionStep-Ended : {db db' : Tables} → SessionStep server db db' → StillEnded db → StillEnded db'
  SessionStep-Ended {db} (created session) w = create_session-Ended session db w
  SessionStep-Ended {db} (ended t i at) w = revoke-StillEnded t i at db w
  SessionStep-Ended {db} (rotated t i fresh at) w = rotate-Ended t i fresh at db w
  SessionStep-Ended (elsewhere db' same_tenants same_sessions) w = record {
    same_tenants = same_tenants ∙ w.same_tenants;
    known = rw same_sessions w.known;
    ended = rw same_sessions w.ended;
  }

-- Once revoke was called for a session under a name of its tenant and a spelling of its id, is_active
-- answers that it is inactive, at every instant, whatever sessions are then created, revoked and
-- rotated by any method and whatever happens to the other tables; some row has the id, and
-- tenants are not changed.
pub session_stays_revoked :
    (server : Server) (tenant id t i : String) (at now : Time) (db db' : Tables)
    → resolve_tenant t db ≡ ok tenant
    → server.uuid i ≡ some id
    → any (λ r. str_eq r.id id) db.sessions ≡ true
    → SessionSteps server (revoke server t i at db).0 db'
    → is_active server t i now db' ≡ ok false
session_stays_revoked server tenant id t i at now db db' named same there steps =
    Ended-is_active server tenant id t i now db db' named same (carried steps)
  where
    carried :
        {r : Tables}
        → SessionSteps server (revoke server t i at db).0 r
        → Ended server tenant id db.tenants r
    carried here = revoke-Ended server tenant id t i at db named same there
    carried (onward before step) =
        SessionStep-Ended server tenant id db.tenants step (carried before)
