-- ===== src/Lib.antt =====
-- Verification library of the training operations backend (repo/backend, Go).
--
-- The backend books rooms and instructors for training sessions and keeps the tasks of a training
-- plan, for several tenants. Handlers call services, a service calls a store through an interface
-- (repo/backend/internal/repository/interfaces.go), and a store is a repository in memory or in
-- Postgres. This library models the booking, the task, the authentication, the ingestion, the
-- audit and the content components: their records, services and in-memory repositories; and the
-- checks of roles and tenants.
--
-- Files and what they model:
--   Base          shared names, Boolean tests, lists, 64-bit integers, decimal text, results,
--                 association lists for Go's maps and invariants over them, sort.Slice.
--   Clock         the parts of Go's package time that the code uses, in nanoseconds.
--   Booking/Data, Booking/Store
--                 repo/backend/internal/model/booking.go and the BookingStore interface, a record of
--                 operations on a state of the store's own.
--   Booking/Conflict, Booking/Memory
--                 repo/backend/internal/repository/memory/booking_store.go. CreateHold is create_hold,
--                 ReleaseExpiredHolds release_expired_holds, and so on; a method takes the repository
--                 and returns the new one. The mutex makes each method one step.
--   Booking/Postgres
--                 the booking methods of repo/backend/internal/repository/postgres/workflow_store.go.
--                 Tables are lists of rows (Base/Rows), an UPDATE with a condition is update_where. A
--                 method is one transaction (Methods); Race takes the check and the insert of
--                 CreateHold as two steps, with the lock on the row of the room between them; Reserve is
--                 ReserveLearnerSeat of admin_learner_store.go, without the table of reservations. What
--                 the server and the calendar compute are the fields of the record Server.
--   Security/Token
--                 repo/backend/internal/security/token.go. JSON, base64, HMAC and Split are the fields of
--                 the record Codec.
--   Api/Guard, Api/Router
--                 repo/backend/internal/api/middleware/auth.go, tenant.go and audit.go, and the routes
--                 of repo/backend/internal/api/router.go. auth_guard gives the request that the next
--                 handler sees, enter adds the check of the route's roles, and serve the choice of the
--                 route, which is a parameter: the server library's. The guard has a store of sessions,
--                 as NewServer always sets one.
--   Api/Http, Api/Booking
--                 repo/backend/internal/api/handlers/booking.go, with the tenant and the audit metadata
--                 of the request's context and the headers that the middleware set. A handler takes
--                 the bound request, or none where binding failed, and the instants of its calls of
--                 time.Now, and returns the new stores and the response.
--   Booking/Service, Booking/Service/Alternatives
--                 repo/backend/internal/service/booking.go, over any BookingStore. The nested loops of
--                 SuggestAlternatives are recursions on the lists and on the rounds left.
--   Task/Data, Task/Store, Task/Memory
--                 repo/backend/internal/model/task.go, the TaskStore interface and
--                 repo/backend/internal/repository/memory/task_store.go.
--   Task/Dag, Task/Service
--                 repo/backend/internal/service/task.go. The recursive closure of ValidateDAG takes
--                 fuel, one more than the graph has keys.
--   Task/Postgres repo/backend/internal/repository/postgres/workflow_store.go, UpsertTask and GetTask, each one
--                 statement; Upsert holds what a written task reads as. Casts, the dates of a column
--                 and the values that the columns admit are parameters.
--   Auth/Data, Auth/Store, Auth/Memory
--                 repo/backend/internal/model/models.go (users and sessions), the user and session
--                 interfaces, and repo/backend/internal/repository/memory/store.go.
--   Auth/Postgres repo/backend/internal/repository/postgres/store.go, its sessions: Revoked holds what
--                 revoking leaves, Rotation what a rotation does. A method is one transaction on
--                 the tables, on a configured pool; the casts and the clock of the server are
--                 parameters.
--   Auth/Password, Auth/Lockout, Auth/Service
--                 repo/backend/internal/security/password.go and lockout.go, and
--                 repo/backend/internal/service/auth.go. bcrypt (generate and compare), the IDs of
--                 GenerateUUID and the Unicode tables (Auth/Unicode) are parameters.
--   Ingestion     repo/backend/internal/service/ingestion.go: Pool has the two rotations, Limit the limit on
--                 requests (allowRequest), Bot the bot over any IngestionStore, Text strings.Contains.
--                 An index past the end of a rotation, which panics in Go, is `none`.
--   Audit         repo/backend/internal/service/audit.go (Trail) and hold_expiry_worker.go (Worker). The
--                 worker sweeps at a list of instants, which its ticker gives.
--   Access        repo/backend/internal/api/middleware/authorization.go.
--   Content       repo/backend/internal/model/content.go, repository/memory/content_store.go (Memory) and
--                 service/content.go (Upload: metadata rules and uploads in chunks; Duplicates: the merging
--                 of duplicates). SHA-256 and the file that an upload is written to are parameters.
-- The modules below these hold their theorems, by what they prove; Tests modules hold runs of the
-- code and the theorems at concrete inputs.
--
-- Conventions. An int or int64 is an integer; counters and sums wrap around at 64 bits, while
-- comparisons need no bound. An instant is a number of nanoseconds since Go's zero time, and
-- arithmetic on instants is exact. Columns of times on Postgres keep them whole in the booking and
-- session tables, where a column ends at the microsecond. The handlers read the clock before a store
-- runs, so the histories of steps say where they ask that no step's time is before that of an earlier
-- one. A map is an association list; the code ranges over maps in an
-- unspecified order, the model in the order of the list, and the theorems hold for every list.
-- sort.Slice is a stable insertion sort, where Go leaves the order of equal elements open.
-- strings.ToLower and the classes of runes are parameters, as the Unicode tables are not part of
-- the repository. Contexts are left out, since the in-memory repositories do not read them.
--
-- Not modelled: the share links of content.go, the users on Postgres, the other
-- Postgres repositories, the logging middleware, the
-- other handlers, reporting, the configuration, the third-party
-- packages and the frontend.
pub mod Base
pub mod Clock
pub mod Booking
pub mod Task
pub mod Auth
pub mod Ingestion
pub mod Audit
pub mod Access
pub mod Content
pub mod Security
pub mod Api
