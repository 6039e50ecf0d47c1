-- ===== src/Tests/Lifecycle.antt =====
-- The life of a container.
use server_vps.Prelude.{
  [], ◌∷◌, List, ◌≡◌, ◌≢◌, refl, true, false, some, arith, ok, All, find, if◌then◌else◌,
}
use server_vps.Database.{Db, NodeTask, empty_payload, after}
use server_vps.Tasks.Results.Complete.{complete_succeeded, complete_failed}
use server_vps.Tasks.Results.Complete.Statuses.{
  statuses, set_row, settle, complete_succeeded-settle,
}
use server_vps.Tasks.Results.Complete.Failed.{spoil, abandon, ends_creation, complete_failed-spoil}
use server_vps.Tasks.Results.Failure.{linked_sync}
use server_vps.Containers.Lifecycle.{
  Operation, start_container, stop_container, restart_container, enqueue_container_lifecycle,
  delete_container,
}
use server_vps.Containers.Lifecycle.Waiting.{
  LifecycleRequest, operate, remove, run_requests, run_requests-ne,
}
use server_vps.Containers.Lifecycle.Guards.{
  Enqueued, Removed, enqueue_container_lifecycle_sound, delete_container_sound,
}
use server_vps.Containers.Lifecycle.Results.{
  goal_status, complete_succeeded-enqueue_container_lifecycle,
}
use server_vps.Containers.Expiry.{container_expiry_round, workspace_cleanup_round, is_due}
use server_vps.Containers.Expiry.Sweeps.{overran, container_expiry_round-overran}
use server_vps.Containers.Expiry.Workspaces.{workspace_cleanup_round-is_due}
use server_vps.Tests.Data.{alice, root, database, task, result, no_others}

complete_succeeded-settle_example :
    statuses (complete_succeeded no_others 9 7 result task (database "starting")).containers
    ≡ settle "incus_start_container" 3 (statuses (database "starting").containers)
complete_succeeded-settle_example =
    complete_succeeded-settle no_others 9 7 result task (database "starting") (λ e. refl)

complete_failed-spoil_example :
    statuses (complete_failed no_others 9 result task (database "starting")).containers ≡ (
      if ends_creation task (linked_sync task (database "starting"))
      then abandon 3 (spoil "incus_start_container" 3 (statuses (database "starting").containers))
      else spoil "incus_start_container" 3 (statuses (database "starting").containers))
complete_failed-spoil_example =
    complete_failed-spoil no_others 9 result task (database "starting") (λ error e. (refl, refl))

abbrev started : NodeTask
started = record task {
  id = 2;
  created_at = 9;
  updated_at = 9;
  payload = record empty_payload {
    container_id = 3;
    name = "lab";
    operation = "start";
    previous_status = "stopped";
  };
}

abbrev after_start : Db
after_start =
    after (enqueue_container_lifecycle (some alice) 9 3 start_container) (database "stopped")

enqueue_container_lifecycle_sound_example :
    Enqueued (some alice) 9 3 start_container (database "stopped") started after_start
unfolding enqueue_container_lifecycle server_vps.Auth.require_user
    server_vps.Containers.Lifecycle.find_container find
    server_vps.Containers.Lifecycle.require_container_access server_vps.Auth.is_admin_group
    server_vps.Containers.Lifecycle.is_busy server_vps.Tasks.Queue.enqueue_node_task
    server_vps.Containers.Lifecycle.set_status server_vps.Containers.Lifecycle.operation_task_type
    server_vps.Containers.Lifecycle.incus_lifecycle_payload
    server_vps.Tasks.Results.Success.update_container server_vps.Containers.Lifecycle.operation_name
enqueue_container_lifecycle_sound_example =
    enqueue_container_lifecycle_sound (some alice) 9 3 start_container (database "stopped")
      after_start started refl

-- A stop by another user, and a forced deletion by an administrator with a wrong name.
abbrev tries : List LifecycleRequest
tries = operate (some root) 10 3 stop_container ∷ remove (some root) 11 3 "other" true ∷ []

run_requests-ne_example :
    (enqueue_container_lifecycle (some root) 12 3 stop_container (run_requests tries after_start)
      ≢ ok (started, after_start))
    × (delete_container (some root) 12 3 "lab" false (run_requests tries after_start)
        ≢ ok (tt, after_start))
unfolding enqueue_container_lifecycle server_vps.Auth.require_user
    server_vps.Containers.Lifecycle.find_container find
    server_vps.Containers.Lifecycle.require_container_access server_vps.Auth.is_admin_group
    server_vps.Containers.Lifecycle.is_busy server_vps.Tasks.Queue.enqueue_node_task
    server_vps.Containers.Lifecycle.set_status server_vps.Containers.Lifecycle.operation_task_type
    server_vps.Containers.Lifecycle.incus_lifecycle_payload
    server_vps.Tasks.Results.Success.update_container server_vps.Containers.Lifecycle.operation_name
run_requests-ne_example =
    run_requests-ne (some alice) (some root) 9 12 3 start_container stop_container
      (database "stopped") after_start after_start started started "lab" tries refl

complete_succeeded-enqueue_container_lifecycle_example :
    statuses (complete_succeeded no_others 12 7 result started after_start).containers
    ≡ set_row 3 (λ s. goal_status start_container) (statuses (database "stopped").containers)
unfolding enqueue_container_lifecycle server_vps.Auth.require_user
    server_vps.Containers.Lifecycle.find_container find
    server_vps.Containers.Lifecycle.require_container_access server_vps.Auth.is_admin_group
    server_vps.Containers.Lifecycle.is_busy server_vps.Tasks.Queue.enqueue_node_task
    server_vps.Containers.Lifecycle.set_status server_vps.Containers.Lifecycle.operation_task_type
    server_vps.Containers.Lifecycle.incus_lifecycle_payload
    server_vps.Tasks.Results.Success.update_container server_vps.Containers.Lifecycle.operation_name
complete_succeeded-enqueue_container_lifecycle_example =
    complete_succeeded-enqueue_container_lifecycle no_others (some alice) 9 12 7 3 start_container
      result (database "stopped") after_start started (omega arith) (λ e. refl) refl

abbrev after_removal : Db
after_removal = after (delete_container (some root) 9 3 "lab" true) (database "starting")

delete_container_sound_example :
    Removed (some root) 9 3 "lab" true (database "starting") after_removal
unfolding delete_container server_vps.Auth.require_user
    server_vps.Containers.Lifecycle.find_container find
    server_vps.Containers.Lifecycle.require_container_access server_vps.Containers.Lifecycle.is_busy
delete_container_sound_example =
    delete_container_sound (some root) 9 3 "lab" true (database "starting") after_removal refl

container_expiry_round-overran_example :
    All (λ c. overran 9 c ≡ false) (container_expiry_round 9 (database "running")).containers
container_expiry_round-overran_example = container_expiry_round-overran 9 (database "running")

workspace_cleanup_round-is_due_example :
    All
      (λ v. is_due 9 (workspace_cleanup_round 9 (database "running")).containers v ≡ false)
      (workspace_cleanup_round 9 (database "running")).workspace_volumes
    × ((workspace_cleanup_round 9 (database "running")).containers
        ≡ (database "running").containers)
workspace_cleanup_round-is_due_example = workspace_cleanup_round-is_due 9 (database "running")
