-- ===== src/Task.antt =====
-- The task component: repo/backend/internal/model/task.go, service/task.go and the in-memory task
-- repository.
pub mod Data
pub mod Dag
pub mod Store
pub mod Memory
pub mod Postgres
pub mod Service
mod Tests
