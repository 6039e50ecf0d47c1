-- ===== src/Tests/Queue.antt =====
-- The task queue.
use server_vps.Prelude.{
  ℕ, ◌+◌, ◌≤◌, ◌<◌, String, ◌≡◌, ◌≢◌, refl, true, false, none, some, List, [], ◌∷◌, codes, arith,
  ok, All,
}
use server_vps.Database.{Db, NodeTask, empty_payload, after}
use server_vps.Tasks.Queue.{
  verify_agent_node, claim_node_task, is_claimable, next_task, task_before, claimed_at_now,
  claim_task_row,
}
use server_vps.Tasks.Queue.Order.{IsTaken, IsServed, claim_node_task-IsServed}
use server_vps.Tasks.Lease.Trace.{Op, enqueue, run, run_all, KeepsLease, claim_node_task-run_all}
use server_vps.Tasks.Events.{Events}
use server_vps.Tasks.Events.Registry.{IsBounded, register, signal, sweep, steps, steps-IsBounded}
use server_vps.Tests.Data.{hash, node, task, database, no_others, nobody}

abbrev claimed : NodeTask
claimed = record task { status = "claimed"; attempts = 1; claimed_at = 10; updated_at = 10 }

abbrev after_claim : Db
after_claim = record (database "stopped") { node_tasks = claimed ∷ [] }

claim_node_task-IsServed_example :
    IsTaken nobody 7 10 (task ∷ []) (some claimed)
    × All (IsServed nobody 7 10 (some claimed)) (task ∷ [])
unfolding verify_agent_node claim_node_task next_task is_claimable task_before claimed_at_now
    claim_task_row server_vps.Prelude.find server_vps.Prelude.order_by server_vps.Prelude.select
    server_vps.Prelude.update
claim_node_task-IsServed_example =
    claim_node_task-IsServed hash nobody 10 [] "gpu7" (database "stopped") after_claim node
      (some claimed) refl refl

-- A stop that is enqueued after the claim.
abbrev later_task : NodeTask
later_task = record task {
  id = 2;
  task_type = "incus_stop_container";
  created_at = 11;
  updated_at = 20;
  status = "claimed";
  attempts = 1;
  claimed_at = 20;
}

abbrev ops : List (ℕ × Op)
ops = (11, enqueue 7 3 "incus_stop_container" empty_payload 0 0) ∷ []

abbrev no_others_keep : KeepsLease no_others
no_others_keep = record { success = λ k c ts r t d h. h; failure = λ k c ts e t d h. h }

claim_node_task-run_all_example : later_task.id ≢ claimed.id
unfolding verify_agent_node claim_node_task next_task is_claimable task_before claimed_at_now
    claim_task_row run run_all server_vps.Prelude.find server_vps.Prelude.order_by
    server_vps.Prelude.select server_vps.Prelude.update server_vps.Tasks.Queue.enqueue_node_task
claim_node_task-run_all_example =
    claim_node_task-run_all hash no_others no_others_keep 10 20 nobody nobody [] [] "gpu7" "gpu7"
      (database "stopped") after_claim
      (after (claim_node_task hash nobody 20 [] "gpu7") (run_all hash no_others ops after_claim))
      claimed later_task ops (omega arith, tt) refl (omega arith, tt) (omega arith) refl

abbrev no_events : Events
no_events = record {
  node_task_events = [];
  event_created_at = [];
  set_events = [];
  next_event = 0;
  last_gc_at = 0;
}

steps-IsBounded_example : IsBounded (steps (register 5 1 ∷ signal 1 ∷ sweep 200000 ∷ []) no_events)
steps-IsBounded_example =
    steps-IsBounded (register 5 1 ∷ signal 1 ∷ sweep 200000 ∷ []) no_events
      (record { bound = omega arith; same = refl })
