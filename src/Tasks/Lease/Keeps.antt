-- ===== src/Tasks/Lease/Keeps.antt =====
-- The operations of the queue on a leased task, one by one.
use server_vps.Prelude.{
  ℕ, String, str_eq, refl, inl, inr, not, ◌||◌, List, [], ◌∷◌, Text, ◌==◌, arith, delete,
  All-update, All-select, All-append, Option-cases, Bool-cases,
}
use server_vps.Database.{Db, NodeTask, Payload, DataSyncTask}
use server_vps.Tasks.Queue.{insert_task}
use server_vps.Tasks.Queue.Expire.{
  cleanup_container_sync_key, fail_sync_task, fail_linked_sync, audit_expired, expire_one,
  expire_each,
}
use server_vps.Tasks.Results.Success.{
  update_container, mark_running, mark_access_pending, access_id, access_payload, queue_access_task,
  enqueue_container_access_task, created, delete_container_row, deleted, apply_success, audit_log,
}
use server_vps.Tasks.Results.Failure.{
  apply_failure, retry_sync, give_up_sync, cancel_creation, fail_or_retry, linked_sync,
}
use server_vps.Tasks.Lease.Quiet.{Quiet, IsLeased, Quiet-fail_task}

module _ (k c : ℕ) where
  pub insert_task-IsLeased :
      (ts node_id container_id : ℕ) (type : String) (p : Payload) (sync available : ℕ) (d : Db)
      → IsLeased k c d
      → IsLeased k c (insert_task ts node_id container_id type p sync available d).1
  unfolding insert_task
  insert_task-IsLeased ts node_id container_id type p sync available d h = record {
    known = omega (arith, h.known);
    quiet =
        All-append (Quiet k c) d.node_tasks (_ ∷ []) h.quiet
          (inl (λ e. absurd (omega (arith, h.known, e))), tt);
  }

  pub cleanup-IsLeased :
      (now : ℕ) (t : NodeTask) (d : Db)
      → IsLeased k c d
      → IsLeased k c (cleanup_container_sync_key now t d)
  unfolding cleanup_container_sync_key
  cleanup-IsLeased now t d h =
      elim (Bool-cases (str_eq t.payload.sync_key_id "" || t.payload.sync_storage_node_id == 0)) [
        | inl e ↦ rw e h
        | inr e ↦ rw e (insert_task-IsLeased now _ _ _ _ _ _ d h)
      ]

  fail_linked_sync-IsLeased :
      (t : NodeTask) (ts : ℕ) (d : Db) → IsLeased k c d → IsLeased k c (fail_linked_sync t ts d)
  unfolding fail_linked_sync fail_sync_task
  fail_linked_sync-IsLeased t ts d h = record {
    known = ground (arith, h.known);
    quiet = ground (arith, h.quiet);
  }

  expire_one-IsLeased :
      (ts : ℕ) (t : NodeTask) (d : Db) → IsLeased k c d → IsLeased k c (expire_one ts t d)
  unfolding expire_one audit_expired
  expire_one-IsLeased ts t d h =
      let failed : IsLeased k c (record d { node_tasks = _ }) = record {
        known = h.known;
        quiet = Quiet-fail_task k c t.id ts _ d.node_tasks h.quiet;
      } in
      let linked = fail_linked_sync-IsLeased t ts _ failed in
      let cleaned = cleanup-IsLeased ts t _ linked in
      record { known = cleaned.known; quiet = cleaned.quiet }

  pub expire_each-IsLeased :
      (ts : ℕ) (tasks : List NodeTask) (d : Db)
      → IsLeased k c d
      → IsLeased k c (expire_each ts tasks d)
  unfolding expire_each
  expire_each-IsLeased ts [] d h = h
  expire_each-IsLeased ts (t ∷ tasks) d h =
      expire_each-IsLeased ts tasks (expire_one ts t d) (expire_one-IsLeased ts t d h)

  queue_access_task-IsLeased :
      (ts : ℕ) (t : NodeTask) (d : Db) → IsLeased k c d → IsLeased k c (queue_access_task ts t d).1
  unfolding queue_access_task update_container
  queue_access_task-IsLeased ts t d h =
      insert_task-IsLeased ts t.node_id (access_id t) "incus_sync_ssh_keys" (access_payload t) 0 0
        (update_container (access_id t) (mark_access_pending ts) d)
        (record { known = h.known; quiet = h.quiet })

  access_task-IsLeased :
      (ts : ℕ) (t : NodeTask) (d : Db)
      → IsLeased k c d
      → IsLeased k c (enqueue_container_access_task ts t d).1
  unfolding enqueue_container_access_task update_container
  access_task-IsLeased ts t d h =
      let queued = queue_access_task-IsLeased ts t d h in
      record {
        known = ground (arith, h.known, queued.known);
        quiet = ground (arith, h.quiet, queued.quiet);
      }

  created-IsLeased :
      (ts : ℕ) (ip : Text) (t : NodeTask) (d : Db)
      → IsLeased k c d
      → IsLeased k c (created ts ip t d)
  unfolding created update_container audit_log
  created-IsLeased ts ip t d h =
      let d' = update_container t.container_id (mark_running ts ip) d in
      let run : IsLeased k c d' = record { known = h.known; quiet = h.quiet } in
      let queued = access_task-IsLeased ts t d' run in
      elim (Option-cases (enqueue_container_access_task ts t d').0) [
        | inl e ↦ rw (e, created) queued
        | inr (row, e) ↦ rw (e, created) (record { known = queued.known; quiet = queued.quiet })
      ]

  delete_row-IsLeased :
      (id : ℕ) (d : Db) → IsLeased k c d → IsLeased k c (delete_container_row id d)
  unfolding delete_container_row delete
  delete_row-IsLeased id d h = record {
    known = h.known;
    quiet = All-select (Quiet k c) (λ t. not (t.container_id == id)) d.node_tasks h.quiet;
  }

  deleted-IsLeased :
      (ts retention : ℕ) (t : NodeTask) (d : Db)
      → IsLeased k c d
      → IsLeased k c (deleted ts retention t d)
  unfolding deleted
  deleted-IsLeased ts retention t d h = delete_row-IsLeased t.container_id _ (record {
    known = h.known;
    quiet =
        All-update (Quiet k c) (λ x. x.id == t.id) (λ x. record x { container_id = 0 }) d.node_tasks
          (λ a q e. q) h.quiet;
  })

  pub apply_success-IsLeased :
      (ts retention : ℕ) (ip : Text) (t : NodeTask) (d : Db)
      → IsLeased k c d
      → IsLeased k c (apply_success ts retention ip t d)
  unfolding apply_success update_container
  apply_success-IsLeased ts retention ip t d h =
      let made = created-IsLeased ts ip t d h in
      let gone = deleted-IsLeased ts retention t d h in
      record {
        known = ground (arith, h.known, made.known, gone.known);
        quiet = ground (arith, h.quiet, made.quiet, gone.quiet);
      }

  pub apply_failure-IsLeased :
      (ts : ℕ) (error : Text) (t : NodeTask) (d : Db)
      → IsLeased k c d
      → IsLeased k c (apply_failure ts error t d)
  unfolding apply_failure update_container
  apply_failure-IsLeased ts error t d h = record {
    known = ground (arith, h.known);
    quiet = ground (arith, h.quiet);
  }

  cancel_creation-IsLeased :
      (ts : ℕ) (blocked : Text) (t : NodeTask) (d : Db)
      → IsLeased k c d
      → IsLeased k c (cancel_creation ts blocked t d)
  unfolding cancel_creation
  cancel_creation-IsLeased ts blocked t d h = record {
    known = h.known;
    quiet = All-update (Quiet k c) _ _ d.node_tasks (λ a q e. inr (inr (inl refl))) h.quiet;
  }

  retry_sync-IsLeased :
      (ts : ℕ) (error : Text) (t : NodeTask) (s : DataSyncTask) (d : Db)
      → IsLeased k c d
      → IsLeased k c (retry_sync ts error t s d)
  unfolding retry_sync
  retry_sync-IsLeased ts error t s d h =
      let queued = insert_task-IsLeased ts t.node_id t.container_id t.task_type t.payload _ _ d h in
      record { known = queued.known; quiet = queued.quiet }

  give_up_sync-IsLeased :
      (ts : ℕ) (error : Text) (t : NodeTask) (d : Db)
      → IsLeased k c d
      → IsLeased k c (give_up_sync ts error t d)
  unfolding give_up_sync
  give_up_sync-IsLeased ts error t d h = record {
    known = ground (arith, h.known);
    quiet = ground (arith, h.quiet);
  }

  pub fail_or_retry-IsLeased :
      (ts : ℕ) (error blocked : Text) (t : NodeTask) (d : Db)
      → IsLeased k c d
      → IsLeased k c (fail_or_retry ts error blocked t d)
  unfolding fail_or_retry
  fail_or_retry-IsLeased ts error blocked t d h =
      let given = give_up_sync-IsLeased ts error t d h in
      let cancelled = cancel_creation-IsLeased ts blocked t (give_up_sync ts error t d) given in
      elim (Option-cases (linked_sync t d)) [
        | inl e ↦ record {
          known = ground (arith, e, given.known, cancelled.known);
          quiet = ground (arith, e, given.quiet, cancelled.quiet);
        }
        | inr (s, e) ↦
            let again = retry_sync-IsLeased ts error t s d h in
            let both = cancel_creation-IsLeased ts blocked t (retry_sync ts error t s d) again in
            record {
              known = ground (arith, e, given.known, cancelled.known, again.known, both.known);
              quiet = ground (arith, e, given.quiet, cancelled.quiet, again.quiet, both.quiet);
            }
      ]
