-- ===== src/Tasks/Lease/Trace.antt =====
-- The operations of the task queue as steps of the database, in any order, each at its own time.
use server_vps.Prelude.{
  ℕ, ◌+◌, ◌≤◌, ◌<◌, String, ◌≡◌, ◌≢◌, inl, inr, strip, take, Bool, some, List, [], ◌∷◌, Text, arith,
  All, Option-cases, Bool-cases, ok, Result-cases, find, ◌==◌, ◌&&◌,
}
use server_vps.Database.{Db, NodeTask, Payload, Progress, after}
use server_vps.Tasks.Queue.{
  verify_agent_node, enqueue_node_task, claim_node_task, claim_task_row, next_task,
  report_node_task_progress,
}
use server_vps.Tasks.Queue.Expire.{fail_task, expire_stalled_container_sync_tasks}
use server_vps.Tasks.Results.Complete.{
  TaskResult, OtherTypes, complete_succeeded, complete_failed, complete_node_task,
}
use server_vps.Tasks.Results.Success.{succeed_task, audit_log}
use server_vps.Tasks.Results.Failure.{linked_sync, retry_scheduled}
use server_vps.Tasks.Lease.Quiet.{
  IsLeased, Quiet-fail_task, Quiet-succeed_task, Quiet-renew_lease, Quiet-claim,
}
use server_vps.Tasks.Lease.Keeps.{
  insert_task-IsLeased, cleanup-IsLeased, expire_each-IsLeased, apply_success-IsLeased,
  apply_failure-IsLeased, fail_or_retry-IsLeased,
}
use server_vps.Tasks.Lease.Exclusive.{verify_same, claim_node_task-IsLeased, claim_node_task-ne}

-- A request to the queue, or an enqueue by another part of the backend.
pub data Op : Type 0 where
  enqueue :
      (node_id container_id : ℕ) (task_type : String) (payload : Payload) (sync_id available_at : ℕ)
      → Op
  claim : (locked : ℕ → Bool) (token : Text) (hostname : String) → Op
  progress : (token : Text) (hostname : String) (task_id : ℕ) (report : Progress) → Op
  expire : (locked : ℕ → Bool) (node_id : ℕ) → Op
  complete :
      (retention : ℕ) (token : Text) (hostname : String) (task_id : ℕ) (result : TaskResult) → Op

-- What a lease needs of the statements for the other task types.
pub record KeepsLease (others : OtherTypes) : Type 0 where
  pub success :
      (k c ts : ℕ) (result : TaskResult) (t : NodeTask) (d : Db)
      → IsLeased k c d
      → IsLeased k c (others.on_success ts result t d)
  pub failure :
      (k c ts : ℕ) (error : Text) (t : NodeTask) (d : Db)
      → IsLeased k c d
      → IsLeased k c (others.on_failure ts error t d)

module _ (hash_token : Text → String) (others : OtherTypes) where
  unfoldable pub run : ℕ → Op → Db → Db
  run now (enqueue node_id container_id type p sync_id available_at) d =
      after (enqueue_node_task now node_id container_id type p sync_id available_at) d
  run now (claim locked token hostname) d =
      after (claim_node_task hash_token locked now token hostname) d
  run now (progress token hostname task_id report) d =
      after (report_node_task_progress hash_token now token hostname task_id report) d
  run now (expire locked node_id) d = expire_stalled_container_sync_tasks locked node_id now d
  run now (complete retention token hostname task_id result) d =
      after (complete_node_task hash_token others now retention token hostname task_id result) d

  -- The first step of the list runs first.
  unfoldable pub run_all : List (ℕ × Op) → Db → Db
  unfolding run
  run_all [] d = d
  run_all ((now, op) ∷ rest) d = run_all rest (run now op d)

  module _ (keeps : KeepsLease others) (k c : ℕ) where
    complete_succeeded-IsLeased :
        (ts retention : ℕ) (result : TaskResult) (t : NodeTask) (d : Db)
        → IsLeased k c d
        → IsLeased k c (complete_succeeded others ts retention result t d)
    unfolding complete_succeeded audit_log
    complete_succeeded-IsLeased ts retention result t d h =
        let closed : IsLeased k c (record d { node_tasks = succeed_task t.id ts d.node_tasks }) =
          record { known = h.known; quiet = Quiet-succeed_task k c t.id ts d.node_tasks h.quiet } in
        let applied = apply_success-IsLeased k c ts retention result.ip t _ closed in
        let rest = keeps.success k c ts result t _ applied in
        let cleaned = cleanup-IsLeased k c ts t _ rest in
        record { known = cleaned.known; quiet = cleaned.quiet }

    complete_failed-IsLeased :
        (ts : ℕ) (result : TaskResult) (t : NodeTask) (d : Db)
        → IsLeased k c d
        → IsLeased k c (complete_failed others ts result t d)
    unfolding complete_failed audit_log
    complete_failed-IsLeased ts result t d h =
        let error = take 4000 (strip result.error) in
        let closed : IsLeased k c (record d { node_tasks = fail_task t.id error ts d.node_tasks }) =
          record {
            known = h.known;
            quiet = Quiet-fail_task k c t.id ts error d.node_tasks h.quiet;
          } in
        let applied = apply_failure-IsLeased k c ts error t _ closed in
        let rest = keeps.failure k c ts error t _ applied in
        let handled = fail_or_retry-IsLeased k c ts error result.blocked t _ rest in
        let cleaned = cleanup-IsLeased k c ts t _ handled in
        elim (Bool-cases (retry_scheduled (linked_sync t d))) [
          | inl e ↦
              rw (e, complete_failed)
                (record {
                  known = ground (arith, handled.known, cleaned.known);
                  quiet = ground (arith, handled.quiet, cleaned.quiet);
                })
          | inr e ↦
              rw (e, complete_failed)
                (record {
                  known = ground (arith, handled.known, cleaned.known);
                  quiet = ground (arith, handled.quiet, cleaned.quiet);
                })
        ]

    run-IsLeased :
        (now : ℕ) (op : Op) (d : Db) → c ≤ now → IsLeased k c d → IsLeased k c (run now op d)
    unfolding run enqueue_node_task claim_node_task report_node_task_progress
        expire_stalled_container_sync_tasks complete_node_task claim_task_row
    run-IsLeased now (enqueue node_id container_id type p sync_id available_at) d b h =
        insert_task-IsLeased k c now node_id container_id type p sync_id available_at d h
    run-IsLeased now (claim locked token hostname) d b h =
        elim (Result-cases (verify_agent_node hash_token token hostname d)) [
          | inr (code, e) ↦ record {
            known = ground (arith, e, h.known);
            quiet = ground (arith, e, h.quiet);
          }
          | inl ((n, d''), e) ↦
              let same = verify_same hash_token token hostname d d'' n e in
              elim (Option-cases (next_task locked n.id now d.node_tasks)) [
                | inl f ↦ record {
                  known = ground (arith, e, f, same, h.known);
                  quiet = ground (arith, e, f, same, h.quiet);
                }
                | inr (s, f) ↦
                    let q = Quiet-claim k c s.id now d.node_tasks b h.quiet in
                    record {
                      known = ground (arith, e, f, same, h.known);
                      quiet = ground (arith, e, f, same, q);
                    }
              ]
        ]
    run-IsLeased now (progress token hostname task_id report) d b h =
        elim (Result-cases (verify_agent_node hash_token token hostname d)) [
          | inr (code, e) ↦ record {
            known = ground (arith, e, h.known);
            quiet = ground (arith, e, h.quiet);
          }
          | inl ((n, d''), e) ↦
              let same = verify_same hash_token token hostname d d'' n e in
              let q = Quiet-renew_lease k c task_id n.id now d.node_tasks b h.quiet in
              elim (Option-cases
                (find (λ (t : NodeTask). t.id == task_id && t.node_id == n.id) d.node_tasks)) [
                  | inl f ↦ record {
                    known = ground (arith, e, f, same, h.known);
                    quiet = ground (arith, e, f, same, h.quiet);
                  }
                  | inr (s, f) ↦ record {
                    known = ground (arith, e, f, same, h.known);
                    quiet = ground (arith, e, f, same, q);
                  }
                ]
        ]
    run-IsLeased now (expire locked node_id) d b h = expire_each-IsLeased k c now _ d h
    run-IsLeased now (complete retention token hostname task_id result) d b h =
        elim (Result-cases (verify_agent_node hash_token token hostname d)) [
          | inr (code, e) ↦ record {
            known = ground (arith, e, h.known);
            quiet = ground (arith, e, h.quiet);
          }
          | inl ((n, d''), e) ↦
              let same = verify_same hash_token token hostname d d'' n e in
              elim (Option-cases
                (find (λ (t : NodeTask). t.id == task_id && t.node_id == n.id) d.node_tasks)) [
                  | inl f ↦ record {
                    known = ground (arith, e, f, same, h.known);
                    quiet = ground (arith, e, f, same, h.quiet);
                  }
                  | inr (s, f) ↦
                      let good = complete_succeeded-IsLeased now retention result s d h in
                      let bad = complete_failed-IsLeased now result s d h in
                      record {
                        known = ground (arith, e, f, same, good.known, bad.known);
                        quiet = ground (arith, e, f, same, good.quiet, bad.quiet);
                      }
                ]
        ]

    run_all-IsLeased :
        (ops : List (ℕ × Op)) (d : Db)
        → All (λ op. c ≤ op.0) ops
        → IsLeased k c d
        → IsLeased k c (run_all ops d)
    unfolding run_all
    run_all-IsLeased [] d b h = h
    run_all-IsLeased ((now, op) ∷ rest) d (b, bs) h =
        run_all-IsLeased rest (run now op d) bs (run-IsLeased now op d b h)

  -- Where the statements for the other task types keep every lease and
  -- every task id is below the next serial id: after a claim at time `c` returns a task, let any
  -- enqueues, claims, progress reports, expiry sweeps and results follow in any order, from any node, each
  -- at `c` or later; then a claim at a time up to `c + 300` does not return the same task again.
  pub claim_node_task-run_all :
      (keeps : KeepsLease others) (c now : ℕ) (locked locked' : ℕ → Bool) (token token' : Text)
      (hostname hostname' : String) (d d' e : Db) (t u : NodeTask) (ops : List (ℕ × Op))
      → All (λ x. x.id < d.next_task_id) d.node_tasks
      → claim_node_task hash_token locked c token hostname d ≡ ok (some t, d')
      → All (λ op. c ≤ op.0) ops
      → now ≤ c + 300
      → claim_node_task hash_token locked' now token' hostname' (run_all ops d') ≡ ok (some u, e)
      → u.id ≢ t.id
  claim_node_task-run_all keeps c now locked locked' token token' hostname hostname' d d' e t u ops
        ids h later b h' =
      let leased = claim_node_task-IsLeased hash_token locked c token hostname d d' t ids h in
      let kept = run_all-IsLeased keeps t.id c ops d' later leased in
      claim_node_task-ne hash_token t.id c locked' now token' hostname' (run_all ops d') e u kept b
        h'
