-- ===== src/Tasks/Results/Complete.antt =====
-- `complete_node_task`: the agent's report on one task. The statements for the task types that this library
-- does not model (images, datasets, shared resources, directory scans, and the success of a linked
-- synchronisation) are a parameter.
pub mod Statuses
pub mod Failed
use server_vps.Prelude.{
  ℕ, ◌+◌, String, str_eq, Bool, true, false, not, ◌&&◌, Option, none, some, List, Text, codes,
  strip, take, ◌==◌, if◌then◌else◌, find,
}
use server_vps.Database.{Db, NodeTask, DataSyncTask, Tx, pure, query, modify, found_or, ◌>>=◌, ◌>>◌}
use server_vps.Tasks.Queue.{verify_agent_node}
use server_vps.Tasks.Queue.Expire.{cleanup_container_sync_key, fail_task}
use server_vps.Tasks.Results.Success.{apply_success, succeed_task, audit_log}
use server_vps.Tasks.Results.Failure.{apply_failure, fail_or_retry, linked_sync, retry_scheduled}

-- AgentTaskResult, less the credentials. `blocked` is the message that names the failed task.
pub record TaskResult : Type 0 where
  pub succeeded : Bool
  pub ip : Text
  pub error : Text
  pub blocked : Text

pub record OtherTypes : Type 0 where
  pub on_success : ℕ → TaskResult → NodeTask → Db → Db
  pub on_failure : ℕ → Text → NodeTask → Db → Db

unfoldable pub complete_succeeded : OtherTypes → ℕ → ℕ → TaskResult → NodeTask → Db → Db
complete_succeeded others ts retention result task d =
    let closed = record d { node_tasks = succeed_task task.id ts d.node_tasks } in
    let applied =
      others.on_success ts result task (apply_success ts retention result.ip task closed) in
    audit_log "node-agent" "task-succeeded" "node-task" task.id ts
      (cleanup_container_sync_key ts task applied)

unfoldable pub complete_failed : OtherTypes → ℕ → TaskResult → NodeTask → Db → Db
complete_failed others ts result task d =
    let error = take 4000 (strip result.error) in
    let again = retry_scheduled (linked_sync task d) in
    let closed = record d { node_tasks = fail_task task.id error ts d.node_tasks } in
    let applied = others.on_failure ts error task (apply_failure ts error task closed) in
    let handled = fail_or_retry ts error result.blocked task applied in
    let cleaned = if again then handled else cleanup_container_sync_key ts task handled in
    audit_log "node-agent" (if again then "task-retrying" else "task-failed") "node-task" task.id ts
      cleaned

unfoldable pub complete_node_task :
    (Text → String) → OtherTypes → ℕ → ℕ → Text → String → ℕ → TaskResult → Tx Unit
complete_node_task hash_token others ts retention token hostname task_id result = do
  node ← verify_agent_node hash_token token hostname
  tasks ← query (λ d. d.node_tasks)
  task ← found_or 404 (find (λ (t : NodeTask). t.id == task_id && t.node_id == node.id) tasks)
  modify (
      if result.succeeded
      then complete_succeeded others ts retention result task
      else complete_failed others ts result task)
