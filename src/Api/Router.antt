-- ===== src/Api/Router.antt =====
-- repo/backend/internal/api/router.go: the routes with the roles that they ask for, and the way of a
-- request to a handler. Which route a request takes is the server library's choice.

pub mod Admission
use training_ops_scheduling.Base.{String, Option, none, some, List, [], ◌∷◌}
use training_ops_scheduling.Clock.{Time}
use training_ops_scheduling.Access
use training_ops_scheduling.Access.{require_role}
use training_ops_scheduling.Auth.Store.{SessionStore}
use training_ops_scheduling.Security.Token.{Codec}
use training_ops_scheduling.Api.Http.{json_error}
use training_ops_scheduling.Api.Guard.{HttpRequest, Passage, refused, passed, Strings, auth_guard}

pub data Method : Type 0 where
  get post put delete : Method

-- A route without RequireRole has no roles.
pub record Route : Type 0 where
  pub method : Method
  pub pattern : String
  pub roles : Option (List String)
  pub handler : String

abbrev pub public_paths : List String
public_paths =
    "/healthz" ∷ "/readyz" ∷ "/v1/auth/register" ∷ "/v1/auth/login" ∷ "/v1/setup/status"
    ∷ "/v1/setup/tenant" ∷ []

plain : Method → String → String → Route
plain method pattern handler = record {
  method = method;
  pattern = pattern;
  roles = none;
  handler = handler;
}

for_roles : List String → Method → String → String → Route
for_roles roles method pattern handler = record {
  method = method;
  pattern = pattern;
  roles = some roles;
  handler = handler;
}

abbrev coordinator : List String
coordinator = "coordinator" ∷ []

abbrev admin_or_coordinator_or_learner : List String
admin_or_coordinator_or_learner = "admin" ∷ "coordinator" ∷ "learner" ∷ []

abbrev instructor_or_coordinator : List String
instructor_or_coordinator = "instructor" ∷ "coordinator" ∷ []

abbrev admin_or_coordinator : List String
admin_or_coordinator = "admin" ∷ "coordinator" ∷ []

abbrev coordinator_or_instructor : List String
coordinator_or_instructor = "coordinator" ∷ "instructor" ∷ []

abbrev coordinator_or_instructor_or_learner : List String
coordinator_or_instructor_or_learner = "coordinator" ∷ "instructor" ∷ "learner" ∷ []

abbrev learner : List String
learner = "learner" ∷ []

abbrev admin : List String
admin = "admin" ∷ []

unfoldable pub routes : List Route
unfolding plain for_roles
routes =
    (plain get "/healthz" "healthz")
    ∷ (plain get "/readyz" "readyz")
    ∷ (plain post "/v1/auth/register" "authHandler.Register")
    ∷ (plain post "/v1/auth/login" "authHandler.Login")
    ∷ (plain post "/v1/auth/logout" "authHandler.Logout")
    ∷ (plain get "/v1/auth/session" "authHandler.Session")
    ∷ (plain get "/v1/setup/status" "setupHandler.Status")
    ∷ (plain post "/v1/setup/tenant" "setupHandler.BootstrapTenant")
    ∷ (plain get "/v1/workspaces/:role/dashboard" "dashboardHandler.Get")
    ∷ (for_roles coordinator post "/v1/bookings/hold" "bookingHandler.Hold")
    ∷ (for_roles admin_or_coordinator_or_learner get "/v1/bookings/rooms"
        "bookingHandler.ListRooms")
    ∷ (for_roles admin_or_coordinator_or_learner get "/v1/bookings/instructors"
        "bookingHandler.ListInstructors")
    ∷ (for_roles coordinator post "/v1/bookings/confirm" "bookingHandler.Confirm")
    ∷ (for_roles coordinator post "/v1/bookings/cancel" "bookingHandler.Cancel")
    ∷ (for_roles coordinator post "/v1/bookings/reschedule" "bookingHandler.Reschedule")
    ∷ (for_roles coordinator put "/v1/bookings/reschedule" "bookingHandler.Reschedule")
    ∷ (for_roles instructor_or_coordinator post "/v1/bookings/:id/check-in"
        "bookingHandler.CheckIn")
    ∷ (for_roles admin_or_coordinator post "/v1/schedule/periods"
        "scheduleHandler.CreateClassPeriod")
    ∷ (for_roles admin_or_coordinator get "/v1/schedule/periods" "scheduleHandler.ListClassPeriods")
    ∷ (for_roles admin_or_coordinator post "/v1/schedule/class-periods"
        "scheduleHandler.CreateClassPeriod")
    ∷ (for_roles admin_or_coordinator get "/v1/schedule/class-periods"
        "scheduleHandler.ListClassPeriods")
    ∷ (for_roles admin_or_coordinator put "/v1/schedule/class-periods/:id"
        "scheduleHandler.UpdateClassPeriod")
    ∷ (for_roles admin_or_coordinator delete "/v1/schedule/class-periods/:id"
        "scheduleHandler.DeleteClassPeriod")
    ∷ (for_roles admin_or_coordinator post "/v1/schedule/blackout-dates"
        "scheduleHandler.CreateBlackoutDate")
    ∷ (for_roles admin_or_coordinator get "/v1/schedule/blackout-dates"
        "scheduleHandler.ListBlackoutDates")
    ∷ (for_roles admin_or_coordinator delete "/v1/schedule/blackout-dates/:id"
        "scheduleHandler.DeleteBlackoutDate")
    ∷ (for_roles admin_or_coordinator post "/v1/schedule/conflicts"
        "scheduleHandler.CheckConflicts")
    ∷ (for_roles coordinator_or_instructor post "/v1/uploads/start" "contentHandler.StartUpload")
    ∷ (for_roles coordinator_or_instructor post "/v1/uploads/chunk" "contentHandler.AppendChunk")
    ∷ (for_roles coordinator_or_instructor post "/v1/uploads/finalize"
        "contentHandler.FinalizeUpload")
    ∷ (for_roles coordinator_or_instructor_or_learner get "/v1/content/search"
        "contentHandler.Search")
    ∷ (for_roles coordinator_or_instructor_or_learner get "/v1/content/:id/versions"
        "contentHandler.Versions")
    ∷ (for_roles coordinator_or_instructor post "/v1/content/:id/share"
        "contentHandler.GenerateShare")
    ∷ (plain get "/v1/content/share/:token" "contentHandler.DownloadShared")
    ∷ (for_roles learner get "/v1/learner/catalog" "learnerHandler.Catalog")
    ∷ (for_roles learner post "/v1/learner/reserve" "learnerHandler.Reserve")
    ∷ (for_roles learner get "/v1/learner/my-reservations" "learnerHandler.MyReservations")
    ∷ (for_roles learner get "/v1/learner/download/:file_id" "learnerHandler.DownloadApproved")
    ∷ (for_roles admin get "/v1/admin/tenants" "adminHandler.ListTenants")
    ∷ (for_roles admin put "/v1/admin/tenants/:id/policies" "adminHandler.UpdateTenantPolicies")
    ∷ (for_roles admin get "/v1/admin/users" "adminHandler.ListUsers")
    ∷ (for_roles admin put "/v1/admin/users/:id/role" "adminHandler.UpdateUserRole")
    ∷ (for_roles admin get "/v1/admin/permissions" "adminHandler.ListPermissions")
    ∷ (for_roles admin get "/v1/admin/rooms" "adminHandler.ListRooms")
    ∷ (for_roles admin post "/v1/admin/rooms" "adminHandler.CreateRoom")
    ∷ (for_roles admin put "/v1/admin/rooms/:id" "adminHandler.UpdateRoom")
    ∷ (for_roles admin_or_coordinator post "/v1/ingestion/run" "ingestionHandler.Run")
    ∷ (for_roles admin_or_coordinator get "/v1/analytics/cohorts" "analyticsHandler.Cohorts")
    ∷ (for_roles admin_or_coordinator get "/v1/analytics/anomalies" "analyticsHandler.Anomalies")
    ∷ (for_roles admin get "/v1/reports/bookings.csv" "reportingHandler.BookingsCSV")
    ∷ (for_roles admin get "/v1/reports/compliance.pdf" "reportingHandler.CompliancePDF")
    ∷ (for_roles admin get "/v1/reports/download/:filename" "reportingHandler.Download")
    ∷ (for_roles coordinator post "/v1/milestones/:id/tasks" "taskHandler.Create")
    ∷ (for_roles coordinator_or_instructor get "/v1/milestones/:id/tasks"
        "taskHandler.ListByMilestone")
    ∷ (for_roles coordinator put "/v1/tasks/:id" "taskHandler.Update")
    ∷ (for_roles coordinator delete "/v1/tasks/:id" "taskHandler.Delete")
    ∷ (for_roles coordinator post "/v1/tasks/:id/dependencies" "taskHandler.AddDependencies")
    ∷ []

module _ (strings : Strings) (codec : Codec) {S : Type 0} (sessions : SessionStore S)
    (signing_key : String) where
  -- RequireRole, before the handler.
  unfoldable pub check_role : Option (List String) → Passage → Passage
  unfolding json_error require_role
  check_role roles (refused response) = refused response
  check_role none (passed r cookie) = passed r cookie
  check_role (some roles) (passed r cookie) =
      elim (require_role strings.to_lower strings.trim_space roles r.role_header) [
        | Access.proceed ↦ passed r cookie
        | Access.unauthorized text ↦ refused (json_error 401 text)
        | Access.forbidden text ↦ refused (json_error 403 text)
      ]

  -- The way of a request to the handler of its route.
  unfoldable pub enter : Route → Time → Time → S → HttpRequest → Passage
  unfolding auth_guard check_role
  enter route verified_at now s r =
      check_role route.roles
        (auth_guard strings codec sessions signing_key public_paths verified_at now s r)

  -- The way of a request through the server. `choose` is the server library's choice of a route by the
  -- method and the path: it answers 404 where there is none.
  unfoldable pub serve :
      (List Route → Method → String → Option Route)
      → Method
      → Time
      → Time
      → S
      → HttpRequest
      → Option (String × Passage)
  unfolding enter routes
  serve choose method verified_at now s r = elim (choose routes method r.path) [
    | none ↦ none
    | some route ↦ some (route.handler, enter route verified_at now s r)
  ]
