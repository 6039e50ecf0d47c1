-- ===== src/Containers/Lifecycle/Results.antt =====
-- From a lifecycle request to the report of its task.
use server_vps.Prelude.{
  ℕ, String, ◌≡◌, ◌≢◌, refl, ◌∙◌, inl, inr, false, Option, List, [], ◌∷◌, ◌==◌, arith, update,
  Bool-cases, ok,
}
use server_vps.Database.{Db, User, NodeTask}
use server_vps.Tasks.Results.Complete.{TaskResult, OtherTypes, complete_succeeded}
use server_vps.Tasks.Results.Complete.Statuses.{
  Row, statuses, set_row, settled, settle, complete_succeeded-settle,
}
use server_vps.Containers.Lifecycle.{
  Operation, start_container, stop_container, restart_container, pending_status,
  operation_task_type, enqueue_container_lifecycle,
}
use server_vps.Containers.Lifecycle.Guards.{enqueue_container_lifecycle_sound}

-- The status that the user of the operation asked for.
abbrev pub goal_status : Operation → String
goal_status start_container = "running"
goal_status stop_container = "stopped"
goal_status restart_container = "running"

set_row-set_row :
    (id : ℕ) (f : String → String) (a b : String) (rows : List Row)
    → f a ≡ b
    → set_row id f (set_row id (λ s. a) rows) ≡ set_row id (λ s. b) rows
unfolding update
set_row-set_row id f a b [] h = refl
set_row-set_row id f a b (r ∷ rows) h =
    let rest = set_row-set_row id f a b rows h in
    elim (Bool-cases (r.0 == id)) [
      | inl e ↦ rw (e, update) (rw (e, rest, h, update) refl)
      | inr e ↦ rw (e, update) (rw (e, rest, update) refl)
    ]

settle-pending :
    (operation : Operation) (id : ℕ) (rows : List Row)
    → id ≢ 0
    → settle (operation_task_type operation) id (set_row id (λ s. pending_status operation) rows)
      ≡ set_row id (λ s. goal_status operation) rows
unfolding operation_task_type pending_status
settle-pending start_container id rows h =
    let ne : (id == 0) ≡ false = ground (arith, h) in
    rw ne (set_row-set_row id (settled "incus_start_container") "starting" "running" rows refl)
settle-pending stop_container id rows h =
    let ne : (id == 0) ≡ false = ground (arith, h) in
    rw ne (set_row-set_row id (settled "incus_stop_container") "stopping" "stopped" rows refl)
settle-pending restart_container id rows h =
    let ne : (id == 0) ≡ false = ground (arith, h) in
    rw ne (set_row-set_row id (settled "incus_restart_container") "restarting" "running" rows refl)

-- The container of a lifecycle request that succeeds, and no other, has the status that the request asked for once the
-- node reports success of the task that it enqueued: running after a start or restart, stopped after a stop. The
-- statements for the other task types are supposed to change no status.
pub complete_succeeded-enqueue_container_lifecycle :
    (others : OtherTypes) (request : Option User) (ts done retention id : ℕ) (operation : Operation)
    (result : TaskResult) (d d' : Db) (task : NodeTask)
    → id ≢ 0
    → ((e : Db)
        → statuses (others.on_success done result task e).containers ≡ statuses e.containers)
    → enqueue_container_lifecycle request ts id operation d ≡ ok (task, d')
    → statuses (complete_succeeded others done retention result task d').containers
      ≡ set_row id (λ s. goal_status operation) (statuses d.containers)
complete_succeeded-enqueue_container_lifecycle others request ts done retention id operation result
      d d' task ne quiet h =
    let (c, _, _, _, _, type, owner, _, _, _, waiting) =
      enqueue_container_lifecycle_sound request ts id operation d d' task h in
    complete_succeeded-settle others done retention result task d' quiet
    ∙ rw (type, owner, waiting) (settle-pending operation id (statuses d.containers) ne)
