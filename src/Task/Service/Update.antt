-- ===== src/Task/Service/Update.antt =====
-- repo/backend/internal/service/task.go: UpdateTask against the in-memory repository, one call after
-- another and two calls at a time.
use training_ops_scheduling.Base.{
  String, none, some, ◌≡◌, ◌≢◌, ◌∙◌, refl, sym, ap, inl, inr, arith, Bool-cases,
}
use training_ops_scheduling.Base.Int.{ℤ, eqb_ℤ, eqb_ℤ_iff, increment, increment-moves}
use training_ops_scheduling.Base.Table.{lookup-insert_self}
use training_ops_scheduling.Base.Result.{ok, err, Result-cases}
use training_ops_scheduling.Task.Data.{Task, TaskError}
use training_ops_scheduling.Task.Memory.{
  TaskRepository, task_key, upsert_task, get_task, memory_store,
}
use training_ops_scheduling.Task.Service.{versioned, write_versioned, update_task}

abbrev pub bump : Task → ℤ → Task
bump task v = record task { version = increment v }

versioned-match :
    (current updated : Task)
    → versioned (ok current) updated current.version ≡ ok (bump updated current.version)
unfolding versioned
versioned-match current updated = ground (arith, (eqb_ℤ_iff current.version current.version).1 refl)

versioned-stale :
    (current updated : Task) (v : ℤ)
    → current.version ≢ v
    → versioned (ok current) updated v ≡ err TaskError.task_version_conflict
unfolding versioned
versioned-stale current updated v ne = ground (arith, (eqb_ℤ_iff current.version v).0)

get_task-upsert_task :
    (task : Task) (r : TaskRepository)
    → get_task task.tenant_id task.id (upsert_task task r).0 ≡ ok task
unfolding get_task upsert_task
get_task-upsert_task task r =
    rw (lookup-insert_self (task_key task.tenant_id task.id) task r.tasks, get_task) refl

module _ (to_lower : String → String) where
  -- An update of a missing task and an update with a version that is not the stored one change
  -- nothing and say so; an update with the stored version replaces the task, with the next version.
  pub update_task_branches :
      (updated : Task) (v : ℤ) (r : TaskRepository)
      → (get_task updated.tenant_id updated.id r ≡ err TaskError.task_not_found
          → update_task (memory_store to_lower) updated v r ≡ (r, some TaskError.task_not_found))
        × ((current : Task)
            → get_task updated.tenant_id updated.id r ≡ ok current
            → (current.version ≢ v
                → update_task (memory_store to_lower) updated v r
                  ≡ (r, some TaskError.task_version_conflict))
              × (current.version ≡ v
                  → ((update_task (memory_store to_lower) updated v r).1 ≡ none)
                    × (get_task updated.tenant_id updated.id
                          (update_task (memory_store to_lower) updated v r).0
                        ≡ ok (bump updated v))))
  unfolding update_task upsert_task
  update_task_branches updated v r = (
    λ missing. rw (missing, versioned) refl,
    λ current found. (
      λ ne. rw (found) (rw (versioned-stale current updated v ne, write_versioned) refl),
      λ same.
          let checked : versioned (get_task updated.tenant_id updated.id r) updated v
              ≡ ok (bump updated v) =
            ap (λ g. versioned g updated v) found
            ∙ ap (versioned (ok current) updated) (sym same)
            ∙ versioned-match current updated
            ∙ ap (λ w. ok (bump updated w)) same in
          rw (checked, write_versioned) (refl, get_task-upsert_task (bump updated v) r),
    ),
  )

  update_task-stored :
      (updated : Task) (v : ℤ) (r r' : TaskRepository)
      → update_task (memory_store to_lower) updated v r ≡ (r', none)
      → get_task updated.tenant_id updated.id r' ≡ ok (bump updated v)
  unfolding update_task
  update_task-stored updated v r r' done =
      elim (Result-cases (get_task updated.tenant_id updated.id r)) [
        | inl (e, missing) ↦
            let says : update_task (memory_store to_lower) updated v r ≡ (r, some e) =
              rw (missing, versioned, write_versioned) refl in
            absurd (cc)
        | inr (current, found) ↦
            let branches = (update_task_branches updated v r).1 current found in
            elim (Bool-cases (eqb_ℤ current.version v)) [
              | inl same ↦
                  ap (get_task updated.tenant_id updated.id) (ap (λ x. x.0) (sym done))
                  ∙ (branches.1 ((eqb_ℤ_iff current.version v).0 same)).1
              | inr other ↦
                  let says =
                    branches.0 (λ e. absurd (let yes = (eqb_ℤ_iff current.version v).1 e in cc)) in
                  absurd (cc)
            ]
      ]

  -- Of two updates of one task from the same version, made one after the other, the second is
  -- refused as stale when the first succeeds, and it changes nothing.
  pub update_task-stale :
      (first second : Task) (v : ℤ) (r r' : TaskRepository)
      → first.tenant_id ≡ second.tenant_id
      → first.id ≡ second.id
      → update_task (memory_store to_lower) first v r ≡ (r', none)
      → update_task (memory_store to_lower) second v r' ≡ (r', some TaskError.task_version_conflict)
  update_task-stale first second v r r' tenant id done =
      ((update_task_branches second v r').1 (bump first v) (
          ap (λ t. get_task t second.id r') (sym tenant)
          ∙ ap (λ i. get_task first.tenant_id i r') (sym id)
          ∙ update_task-stored first v r r' done)).0
        (increment-moves v)

-- The store is locked for each call and not from the read to the write of UpdateTask. When two
-- updates of one task from its stored version both read before either writes, both are accepted, with
-- the same next version, and the first one's task is lost.
pub update_task-lost :
    (current first second : Task) (r : TaskRepository)
    → first.tenant_id ≡ second.tenant_id
    → first.id ≡ second.id
    → get_task second.tenant_id second.id r ≡ ok current
    → (let checked_first = versioned (get_task first.tenant_id first.id r) first current.version in
        let checked_second =
          versioned (get_task second.tenant_id second.id r) second current.version in
        (checked_first ≡ ok (bump first current.version))
        × (checked_second ≡ ok (bump second current.version))
        × (get_task second.tenant_id second.id
              (upsert_task
                (bump second current.version)
                (upsert_task (bump first current.version) r).0).0
            ≡ ok (bump second current.version)))
update_task-lost current first second r tenant id found = (
  ap (λ t. versioned (get_task t first.id r) first current.version) tenant
      ∙ ap (λ i. versioned (get_task second.tenant_id i r) first current.version) id
      ∙ ap (λ g. versioned g first current.version) found
      ∙ versioned-match current first,
  rw found (versioned-match current second),
  get_task-upsert_task (bump second current.version) (upsert_task (bump first current.version) r).0,
)
