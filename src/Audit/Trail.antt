-- ===== src/Audit/Trail.antt =====
-- repo/backend/internal/service/audit.go and audit/context.go: the audit recorder. What it logs is left out.
use training_ops_scheduling.Base.{String, Option, none, some, List, [], ◌∷◌, ◌++◌}
use training_ops_scheduling.Clock.{Time}

pub record Metadata : Type 0 where
  pub actor_user_id : String
  pub reason : String
  pub who : String
  pub when : String

pub record AuditEntry : Type 0 where
  pub actor_user_id : String
  pub old_state : String
  pub new_state : String
  pub reason : String
  pub who : String
  pub when : String
  pub action : String
  pub entity_type : String
  pub entity_id : String
  pub tenant_id : String
  pub created_at : Time

-- The AuditStore interface; an error is its text.
pub record AuditStore (State : Type 0) : Type 0 where
  pub write_audit_transition : AuditEntry → State → State × Option String

-- The entries in memory, and the state of the store.
pub record AuditRecorder (State : Type 0) : Type 0 where
  pub entries : List AuditEntry
  pub stored : State

module _ {State : Type 0} (store : Option (AuditStore State)) where
  persist : AuditEntry → State → State
  persist entry s = elim store [ none ↦ s | some st ↦ (st.write_audit_transition entry s).0 ]

  -- An entry that could not be stored is kept in memory all the same.
  unfoldable pub record_transition :
      String
      → String
      → String
      → String
      → String
      → String
      → Metadata
      → Time
      → AuditRecorder State
      → AuditRecorder State
  unfolding persist
  record_transition action entity_type entity_id tenant_id old_state new_state md now r =
      let entry : AuditEntry = record {
        actor_user_id = md.actor_user_id;
        old_state = old_state;
        new_state = new_state;
        reason = md.reason;
        who = md.who;
        when = md.when;
        action = action;
        entity_type = entity_type;
        entity_id = entity_id;
        tenant_id = tenant_id;
        created_at = now;
      } in
      record { entries = r.entries ++ entry ∷ []; stored = persist entry r.stored }

unfoldable pub entries_of : {State : Type 0} → AuditRecorder State → List AuditEntry
entries_of r = r.entries
