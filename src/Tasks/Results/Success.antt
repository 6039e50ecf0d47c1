-- ===== src/Tasks/Results/Success.antt =====
-- The branch `payload.ok` of `complete_node_task`, for the tasks of a container, with
-- `enqueue_container_access_task` and `task_payload_has_ssh_port`.
use server_vps.Prelude.{
  ℕ, ◌+◌, ◌*◌, String, str_eq, Bool, not, ◌&&◌, ◌||◌, Option, none, some, List, [], ◌∷◌, ◌++◌, Text,
  codes, text_eq, strip, lower, is_empty, ◌==◌, if◌then◌else◌, find, exists, update, delete,
}
use server_vps.Database.{
  Db, Container, PublicPort, NodeTask, Payload, empty_payload, WorkspaceVolume,
}
use server_vps.Tasks.Queue.{insert_task}

-- UPDATE containers SET ... WHERE id = ...
unfoldable pub update_container : ℕ → (Container → Container) → Db → Db
update_container id f d = record d { containers = update (λ c. c.id == id) f d.containers }

unfoldable pub audit_log : String → String → String → ℕ → ℕ → Db → Db
audit_log actor action kind id ts d = record d {
  audit_logs =
      d.audit_logs
      ++ record {
        actor = actor;
        action = action;
        target_kind = kind;
        target_id = id;
        target_name = [];
        created_at = ts;
      }
        ∷ [];
}

unfoldable pub task_payload_has_ssh_port : NodeTask → Bool
task_payload_has_ssh_port task =
    exists (λ (p : PublicPort). text_eq (lower p.protocol) (codes "tcp") && p.container_port == 22)
      task.payload.ports

-- int(task["container_id"] or payload.get("container_id") or 0)
unfoldable pub access_id : NodeTask → ℕ
access_id task = if task.container_id == 0 then task.payload.container_id else task.container_id

unfoldable pub access_payload : NodeTask → Payload
access_payload task =
    let p = task.payload in
    record empty_payload {
      container_id = access_id task;
      name = p.name;
      ssh_username = if is_empty p.ssh_username then codes "ubuntu" else p.ssh_username;
      ssh_key = p.ssh_key;
      mounts = p.mounts;
    }

unfoldable pub mark_access_missing : ℕ → Container → Container
mark_access_missing ts c = record c {
  access_status = "failed";
  access_error = codes "缺少 SSH 初始化参数";
  updated_at = ts;
}

unfoldable pub mark_access_pending : ℕ → Container → Container
mark_access_pending ts c = record c {
  access_status = "pending";
  access_error = [];
  updated_at = ts;
}

unfoldable pub queue_access_task : ℕ → NodeTask → Db → NodeTask × Db
queue_access_task ts task d =
    insert_task ts task.node_id (access_id task) "incus_sync_ssh_keys" (access_payload task) 0 0
      (update_container (access_id task) (mark_access_pending ts) d)

unfoldable pub enqueue_container_access_task : ℕ → NodeTask → Db → Option NodeTask × Db
enqueue_container_access_task ts task d =
    if access_id task == 0
    then (none, d)
    else if str_eq task.payload.name "" || is_empty task.payload.ssh_key
    then (none, update_container (access_id task) (mark_access_missing ts) d)
    else (some (queue_access_task ts task d).0, (queue_access_task ts task d).1)

-- The container runs, at the reported address if there is one.
unfoldable pub mark_running : ℕ → Text → Container → Container
mark_running ts ip c = record c {
  status = "running";
  ip = if is_empty (strip ip) then c.ip else strip ip;
  updated_at = ts;
}

unfoldable pub mark_stopped : ℕ → Container → Container
mark_stopped ts c = record c { status = "stopped"; ip = []; updated_at = ts }

unfoldable pub mark_access_ready : ℕ → Container → Container
mark_access_ready ts c = record c { access_status = "ready"; access_error = []; updated_at = ts }

-- incus_create_container
unfoldable pub created : ℕ → Text → NodeTask → Db → Db
unfolding update_container
created ts ip task d =
    let running = update_container task.container_id (mark_running ts ip) d in
    let (access_task, queued) = enqueue_container_access_task ts task running in
    elim access_task [
      | none ↦ queued
      | some t ↦ audit_log "node-agent" "task-created" "node-task" t.id ts queued
    ]

-- DELETE FROM containers WHERE id; ports and tasks of the container go with it (ON DELETE CASCADE).
unfoldable pub delete_container_row : ℕ → Db → Db
delete_container_row id d = record d {
  containers = delete (λ c. c.id == id) d.containers;
  container_ports = delete (λ p. p.container_id == id) d.container_ports;
  node_tasks = delete (λ t. t.container_id == id) d.node_tasks;
}

-- Whether the owner has another container on the node that is not being deleted.
unfoldable pub has_other_container : Container → List Container → Bool
has_other_container c = exists (λ x.
    x.owner_id == c.owner_id
    && x.node_id == c.node_id
    && not (x.id == c.id)
    && not (str_eq x.status "deleting"))

-- The last container gone, a temporary workspace is due `retention` days later.
unfoldable pub schedule_cleanup : ℕ → ℕ → Container → List WorkspaceVolume → List WorkspaceVolume
schedule_cleanup ts retention c =
    update
      (λ v. v.user_id == c.owner_id && v.node_id == c.node_id && str_eq v.lifecycle "temporary")
      (λ v. record v { cleanup_after = ts + retention * 86400; last_used_at = ts; updated_at = ts })

-- incus_delete_container
unfoldable pub deleted : ℕ → ℕ → NodeTask → Db → Db
deleted ts retention task d =
    let volumes : List WorkspaceVolume =
      elim (find (λ (c : Container). c.id == task.container_id) d.containers) [
        | none ↦ d.workspace_volumes
        | some c ↦
            if has_other_container c d.containers
            then d.workspace_volumes
            else schedule_cleanup ts retention c d.workspace_volumes
      ] in
    let kept =
      update (λ (t : NodeTask). t.id == task.id) (λ t. record t { container_id = 0 })
        d.node_tasks in
    delete_container_row task.container_id
      (record d { workspace_volumes = volumes; node_tasks = kept })

-- The statements that follow the task's type; a task without a container runs none of them.
unfoldable pub apply_success : ℕ → ℕ → Text → NodeTask → Db → Db
apply_success ts retention ip task d =
    let type = task.task_type in
    let run = update_container task.container_id (mark_running ts ip) d in
    let ready = update_container task.container_id (mark_access_ready ts) d in
    if task.container_id == 0
    then d
    else if str_eq type "incus_create_container"
    then created ts ip task d
    else if str_eq type "incus_sync_ssh_keys"
    then ready
    else if str_eq type "incus_sync_ports"
    then (if task_payload_has_ssh_port task then ready else d)
    else if str_eq type "incus_start_container" || str_eq type "incus_restart_container"
    then run
    else if str_eq type "incus_stop_container"
    then update_container task.container_id (mark_stopped ts) d
    else if str_eq type "incus_delete_container"
    then deleted ts retention task d
    else d

unfoldable pub succeed_task : ℕ → ℕ → List NodeTask → List NodeTask
succeed_task id ts =
    update (λ t. t.id == id)
      (λ t. record t { status = "succeeded"; last_error = []; finished_at = ts; updated_at = ts })
