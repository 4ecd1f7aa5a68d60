-- ===== src/Api/Http.antt =====
-- Requests and responses of the handlers (repo/backend/internal/api/handlers): what a handler reads
-- of a request, and the status and body that it answers with.
use training_ops_scheduling.Base.{ℕ, String, Option, none, some, List, str_eq, if◌then◌else◌}
use training_ops_scheduling.Booking.Data.{
  Booking, Room, Instructor, BookingConflict, AlternativeSlot,
}
use training_ops_scheduling.Audit.Trail.{Metadata}

-- The values of a request that the middleware set: the tenant and the audit metadata of its context,
-- and the headers X-Actor-User-ID and X-Actor-Role.
pub record Caller : Type 0 where
  pub tenant_id : Option String
  pub user_header : String
  pub role_header : String
  pub metadata : Option Metadata

-- `tenant.ID(ctx)`: an empty identifier is none.
unfoldable pub context_tenant : Caller → Option String
context_tenant c = elim c.tenant_id [
  | none ↦ none
  | some id ↦ if str_eq id "" then none else some id
]

pub data Body : Type 0 where
  error_text status_text : String → Body
  booking : Booking → Body
  conflicts : List BookingConflict → List AlternativeSlot → Body
  rooms : List Room → Body
  instructors : List Instructor → Body

pub record Response : Type 0 where
  pub code : ℕ
  pub body : Body

unfoldable pub json_error : ℕ → String → Response
json_error code message = record { code = code; body = Body.error_text message }

-- `audit.FromContext(ctx)`, whose second result is not looked at.
unfoldable pub plain_metadata : Caller → Metadata
plain_metadata c = elim c.metadata [
  | none ↦ record { actor_user_id = ""; reason = ""; who = ""; when = "" }
  | some md ↦ md
]

unfoldable pub actor_role : (to_lower trim_space : String → String) → Caller → String
actor_role to_lower trim_space c = to_lower (trim_space c.role_header)

module _ (trim_space : String → String) where
  unfoldable pub actor_user : Caller → String
  actor_user c = trim_space c.user_header

  -- The metadata of the context, with the reason of the body where it has none.
  unfoldable pub audit_metadata : Caller → String → Metadata
  unfolding plain_metadata
  audit_metadata c why =
      let md = plain_metadata c in
      if str_eq (trim_space md.reason) "" then record md { reason = trim_space why } else md
