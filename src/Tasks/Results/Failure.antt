-- ===== src/Tasks/Results/Failure.antt =====
-- The other branch of `complete_node_task`: what a failed task of a container leaves behind, and the
-- retry of a data synchronisation.
use Prim.Native.Nat.{min, max, ◌^◌}
use server_vps.Prelude.{
  ℕ, ◌+◌, ◌*◌, String, str_eq, Bool, false, not, ◌&&◌, ◌||◌, Option, none, some, Text, ltb, ◌==◌,
  if◌then◌else◌, find, exists, update, List, [], ◌∷◌, ◌++◌,
}
use server_vps.Database.{Db, Container, NodeTask, DataSyncTask, CacheInventory}
use server_vps.Tasks.Queue.{insert_task}
use server_vps.Tasks.Results.Success.{update_container, task_payload_has_ssh_port}

unfoldable pub mark_access_failed : ℕ → Text → Container → Container
mark_access_failed ts error c = record c {
  access_status = "failed";
  access_error = error;
  updated_at = ts;
}

unfoldable pub mark_failed : ℕ → Container → Container
mark_failed ts c = record c { status = "failed"; updated_at = ts }

unfoldable pub mark_create_failed : ℕ → Text → Container → Container
mark_create_failed ts error c = record c {
  status = "failed";
  access_status = "failed";
  access_error = error;
  updated_at = ts;
}

unfoldable pub is_lifecycle : String → Bool
is_lifecycle type =
    str_eq type "incus_start_container"
    || str_eq type "incus_stop_container"
    || str_eq type "incus_restart_container"
    || str_eq type "incus_delete_container"

unfoldable pub apply_failure : ℕ → Text → NodeTask → Db → Db
apply_failure ts error task d =
    let type = task.task_type in
    let access = update_container task.container_id (mark_access_failed ts error) d in
    if task.container_id == 0
    then d
    else if str_eq type "incus_create_container"
    then update_container task.container_id (mark_create_failed ts error) d
    else if str_eq type "incus_sync_ssh_keys"
    then access
    else if str_eq type "incus_sync_ports"
    then (if task_payload_has_ssh_port task then access else d)
    else if is_lifecycle type
    then update_container task.container_id (mark_failed ts) d
    else d

unfoldable pub linked_sync : NodeTask → Db → Option DataSyncTask
linked_sync task d =
    if task.data_sync_task_id == 0
    then none
    else find (λ s. s.id == task.data_sync_task_id) d.data_sync_tasks

unfoldable pub retry_scheduled : Option DataSyncTask → Bool
retry_scheduled none = false
retry_scheduled (some s) = ltb s.retry_count s.max_retries

-- backoff = max(1, seconds or 60); min(86400, backoff * 2 ** retry_count)
unfoldable pub retry_delay : DataSyncTask → ℕ
retry_delay s =
    let seconds = if s.retry_backoff_seconds == 0 then 60 else s.retry_backoff_seconds in
    min 86400 (max 1 seconds * 2 ^ s.retry_count)

unfoldable pub retry_sync : ℕ → Text → NodeTask → DataSyncTask → Db → Db
retry_sync ts error task s d =
    let d' =
      (insert_task ts task.node_id task.container_id task.task_type task.payload
        task.data_sync_task_id (ts + retry_delay s) d).1 in
    record d' {
      data_sync_tasks =
          update (λ x. x.id == task.data_sync_task_id)
            (λ x. record x {
              status = "retrying";
              error = error;
              retry_count = s.retry_count + 1;
              finished_at = 0;
              updated_at = ts;
            })
            d'.data_sync_tasks;
    }

-- INSERT INTO node_cache_inventory ... ON CONFLICT (resource_id, node_id) DO UPDATE
unfoldable pub cache_failed : ℕ → Text → DataSyncTask → List CacheInventory → List CacheInventory
cache_failed ts error s inventory =
    let own : CacheInventory → Bool =
      λ x. x.resource_id == s.resource_id && x.node_id == s.target_node_id in
    if exists own inventory
    then update own (λ x. record x { status = "failed"; last_error = error; updated_at = ts })
        inventory
    else inventory
      ++ record {
        resource_id = s.resource_id;
        node_id = s.target_node_id;
        path = s.target_path;
        status = "failed";
        last_error = error;
        updated_at = ts;
      }
        ∷ []

unfoldable pub give_up_sync : ℕ → Text → NodeTask → Db → Db
unfolding linked_sync
give_up_sync ts error task d = if task.data_sync_task_id == 0 then d else record d {
  data_sync_tasks =
      update (λ x. x.id == task.data_sync_task_id)
        (λ x. record x { status = "failed"; error = error; finished_at = ts; updated_at = ts })
        d.data_sync_tasks;
  node_cache_inventory = elim (linked_sync task d) [
    | none ↦ d.node_cache_inventory
    | some s ↦
        if str_eq s.task_type "shared_resource_sync" && not (s.resource_id == 0)
        then cache_failed ts error s d.node_cache_inventory
        else d.node_cache_inventory
  ];
}

unfoldable pub is_user_home_sync : Option DataSyncTask → Bool
is_user_home_sync none = false
is_user_home_sync (some s) = str_eq s.task_type "user_home_sync"

-- A container that still waits for its creation fails with the task, and so do the tasks that would
-- create it.
unfoldable pub cancel_creation : ℕ → Text → NodeTask → Db → Db
cancel_creation ts blocked task d = record d {
  containers =
      update (λ c. c.id == task.container_id && str_eq c.status "provisioning") (mark_failed ts)
        d.containers;
  node_tasks =
      update
        (λ t.
          t.container_id == task.container_id
          && str_eq t.task_type "incus_create_container"
          && (str_eq t.status "pending" || str_eq t.status "claimed"))
        (λ t. record t {
          status = "failed";
          last_error = blocked;
          finished_at = ts;
          updated_at = ts;
        })
        d.node_tasks;
}

unfoldable pub fail_or_retry : ℕ → Text → Text → NodeTask → Db → Db
fail_or_retry ts error blocked task d =
    let sync = linked_sync task d in
    let synced : Db = elim sync [
      | none ↦ give_up_sync ts error task d
      | some s ↦
          if retry_scheduled (some s)
          then retry_sync ts error task s d
          else give_up_sync ts error task d
    ] in
    if not (task.container_id == 0) && not (retry_scheduled sync) && not (is_user_home_sync sync)
    then cancel_creation ts blocked task synced
    else synced
