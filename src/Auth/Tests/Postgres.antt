-- ===== src/Auth/Tests/Postgres.antt =====
-- Sessions on Postgres, on concrete tables.
use training_ops_scheduling.Base.{
  ◌<◌, ◌≡◌, ◌≢◌, ◌↔◌, refl, true, false, none, some, [], ◌∷◌, any, str_eq, str_eq_iff, arith,
}
use training_ops_scheduling.Base.Int.{pos}
use training_ops_scheduling.Base.Result.{ok}
use training_ops_scheduling.Base.Rows.{first_where}
use training_ops_scheduling.Auth.Data.{User, Session, AuthError}
use training_ops_scheduling.Auth.Postgres.{
  Tables, Server, run, resolve_tenant, is_active, revoke, rotate,
}
use training_ops_scheduling.Auth.Postgres.Revoked.{here, onward, rotated, session_stays_revoked}
use training_ops_scheduling.Auth.Postgres.Rotation.{rotate_outcome}

-- Every text is a UUID.
abbrev server : Server
server = record { uuid = λ text. some text; clock = λ _. 7 }

abbrev ann : User
ann = record {
  id = "u1";
  tenant_id = "t1";
  email = "ann";
  display_name = "Ann";
  role = "";
  password_hash = "x";
  failed_attempts = pos 0;
  locked_until = none;
  pii_encrypted = [];
  password_changed_at = 0;
  created_at = 0;
  updated_at = 0;
}

abbrev login : Session
login = record {
  id = "s1";
  tenant_id = "t1";
  user_id = "u1";
  refresh_token_hash = "rt_0";
  expires_at = 100;
  last_used_at = 0;
  revoked_at = none;
  created_at = 0;
  updated_at = 0;
}

abbrev next_login : Session
next_login = record login { id = "s2"; tenant_id = ""; expires_at = 200 }

abbrev db : Tables
db = record {
  tenants = record { id = "t1"; slug = "acme" } ∷ [];
  users = ann ∷ [];
  sessions = login ∷ [];
}

named : resolve_tenant "acme" db ≡ ok "t1"
unfolding resolve_tenant first_where str_eq
named = refl

known : any (λ r. str_eq r.id "s1") db.sessions ≡ true
unfolding any str_eq
known = refl

apart : login.id ≢ next_login.id
unfolding str_eq
apart e = ground (arith, str_eq_iff login.id next_login.id)

-- The rotation of the concrete session succeeds.
rotation_runs : (rotate server "acme" "s1" next_login 6 db).1 ≡ none
unfolding rotate run resolve_tenant first_where str_eq any
rotation_runs = refl

session_stays_revoked_example :
    let revoked = (revoke server "acme" "s1" 5 db).0 in
    is_active server "acme" "s1" 9 (rotate server "acme" "s1" next_login 6 revoked).0 ≡ ok false
session_stays_revoked_example =
    session_stays_revoked server "t1" "s1" "acme" "s1" 5 9 db
      (rotate server "acme" "s1" next_login 6 (revoke server "acme" "s1" 5 db).0).0 named refl known
      (onward here (rotated "acme" "s1" next_login 6))

rotate_outcome_example :
    ((e : AuthError)
      → (rotate server "acme" "s1" next_login 6 db).1 ≡ some e
      → (rotate server "acme" "s1" next_login 6 db).0 ≡ db)
    × ((rotate server "acme" "s1" next_login 6 db).1 ≡ none
        → (is_active server "acme" "s1" 9 (rotate server "acme" "s1" next_login 6 db).0 ≡ ok false)
          × ((is_active server "acme" "s2" 9 (rotate server "acme" "s1" next_login 6 db).0
                ≡ ok true)
              ↔ (9 < 200)))
rotate_outcome_example =
    rotate_outcome server "t1" "s1" "s2" "acme" "s1" next_login 6 9 db named refl refl apart
