-- ===== src/Tasks/Queue/Expire.antt =====
-- `cleanup_container_sync_key` and `expire_stalled_container_sync_tasks` of
-- backend/app/agent/routes.py.
use server_vps.Prelude.{
  ℕ, ◌-◌, String, str_eq, Bool, not, ◌&&◌, ◌||◌, none, some, List, [], ◌∷◌, ◌++◌, Text, codes, ltb,
  ◌==◌, if◌then◌else◌, select, find, update,
}
use server_vps.Database.{Db, NodeTask, empty_payload, DataSyncTask, SharedResource}
use server_vps.Tasks.Queue.{insert_task}

-- The node that holds the temporary key gets a task that removes it. The keys `key_id` and `public_key` of its
-- payload stand in the fields of the key; without a storage node it starts no further removal.
unfoldable pub cleanup_container_sync_key : ℕ → NodeTask → Db → Db
cleanup_container_sync_key now task d =
    let p = task.payload in
    if str_eq p.sync_key_id "" || p.sync_storage_node_id == 0
    then d
    else (insert_task now p.sync_storage_node_id 0 "remove_sync_pubkey"
        (record empty_payload { sync_key_id = p.sync_key_id; sync_pubkey = p.sync_pubkey }) 0 now
        d).1

unfoldable pub is_stalled : ℕ → ℕ → NodeTask → Bool
is_stalled node_id ts t =
    t.node_id == node_id
    && str_eq t.task_type "container_data_sync"
    && str_eq t.status "claimed"
    && ltb 0 t.claimed_at
    && ltb t.claimed_at (ts - 900)

abbrev stalled_error : Text
stalled_error =
    codes
      "container_data_sync stalled: progress heartbeat timeout (>900s); mark failed for safe retry"

unfoldable pub fail_task : ℕ → Text → ℕ → List NodeTask → List NodeTask
fail_task id error ts =
    update (λ t. t.id == id)
      (λ t. record t { status = "failed"; last_error = error; finished_at = ts; updated_at = ts })

-- ("planned", "running", "verifying", "retrying")
unfoldable pub is_open_sync : String → Bool
is_open_sync status =
    str_eq status "planned"
    || str_eq status "running"
    || str_eq status "verifying"
    || str_eq status "retrying"

unfoldable pub fail_sync_task : DataSyncTask → ℕ → Db → Db
fail_sync_task sync ts d =
    let failed =
      update (λ (s : DataSyncTask). s.id == sync.id)
        (λ s. record s {
          status = "failed";
          error = stalled_error;
          finished_at = ts;
          updated_at = ts;
        })
        d.data_sync_tasks in
    let resources =
      update
        (λ (r : SharedResource).
          r.id == sync.resource_id
          && (str_eq r.request_status "uploading"
              || str_eq r.request_status "finalizing"
              || str_eq r.request_status "checking"))
        (λ r. record r {
          request_status = "failed";
          check_status = "failed";
          check_error = stalled_error;
          updated_at = ts;
        })
        d.shared_resources in
    record d {
      data_sync_tasks = if is_open_sync sync.status then failed else d.data_sync_tasks;
      shared_resources =
          if str_eq sync.task_type "shared_resource_upload" && not (sync.resource_id == 0)
          then resources
          else d.shared_resources;
    }

unfoldable pub fail_linked_sync : NodeTask → ℕ → Db → Db
fail_linked_sync stale ts d =
    if stale.data_sync_task_id == 0
    then d
    else elim (find (λ s. s.id == stale.data_sync_task_id) d.data_sync_tasks) [
      | none ↦ d
      | some sync ↦ fail_sync_task sync ts d
    ]

unfoldable pub audit_expired : NodeTask → ℕ → Db → Db
audit_expired stale ts d = record d {
  audit_logs =
      d.audit_logs
      ++ record {
        actor = "system";
        action = "expire-stalled-container-sync";
        target_kind = "node-task";
        target_id = stale.id;
        target_name = [];
        created_at = ts;
      }
        ∷ [];
}

unfoldable pub expire_one : ℕ → NodeTask → Db → Db
expire_one ts stale d =
    let d' = record d { node_tasks = fail_task stale.id stalled_error ts d.node_tasks } in
    audit_expired stale ts (cleanup_container_sync_key ts stale (fail_linked_sync stale ts d'))

unfoldable pub expire_each : ℕ → List NodeTask → Db → Db
expire_each ts [] d = d
expire_each ts (stale ∷ rest) d = expire_each ts rest (expire_one ts stale d)

-- FOR UPDATE SKIP LOCKED
unfoldable pub expire_stalled_container_sync_tasks : (ℕ → Bool) → ℕ → ℕ → Db → Db
expire_stalled_container_sync_tasks locked node_id ts d =
    expire_each ts (select (λ t. is_stalled node_id ts t && not (locked t.id)) d.node_tasks) d
