-- ===== src/Tasks/Queue.antt =====
-- `verify_agent_node` and `enqueue_node_task` of backend/app/agent/tasks.py;
-- `claim_node_task` and `report_node_task_progress` of backend/app/agent/routes.py. The hash of a token is a
-- parameter, and so is the set of rows that other transactions hold locked.
pub mod Expire
pub mod Order
use mathlib.Core.List.{head?}
use server_vps.Prelude.{
  ℕ, ◌+◌, ◌-◌, String, str_eq, Bool, true, false, not, ◌&&◌, ◌||◌, Option, none, some, Result, ok,
  List, [], ◌∷◌, ◌++◌, Text, codes, ltb, leb, ◌==◌, if◌then◌else◌, select, find, update, order_by,
}
use server_vps.Database.{
  Db, Node, NodeTask, Payload, empty_payload, DataSyncTask, SharedResource, Progress, Tx, pure,
  query, modify, raise_when, found_or, when, audit, ◌>>=◌, ◌>>◌,
}

-- SELECT * FROM nodes WHERE hostname = ..., then the test of the token's hash.
unfoldable pub verify_agent_node : (Text → String) → Text → String → Tx Node
verify_agent_node hash_token token hostname = do
  nodes ← query (λ d. d.nodes)
  node ← found_or 403 (find (λ (n : Node). str_eq n.hostname hostname) nodes)
  raise_when (not (str_eq node.node_token (hash_token token))) 403
  pure node

-- INSERT INTO node_tasks ... RETURNING *; a missing id is 0.
unfoldable pub insert_task : ℕ → ℕ → ℕ → String → Payload → ℕ → ℕ → Db → NodeTask × Db
insert_task ts node_id container_id task_type payload data_sync_task_id available_at d =
    let task : NodeTask = record {
      id = d.next_task_id;
      node_id = node_id;
      container_id = container_id;
      data_sync_task_id = data_sync_task_id;
      task_type = task_type;
      payload = payload;
      status = "pending";
      attempts = 0;
      last_error = [];
      created_at = ts;
      claimed_at = 0;
      finished_at = 0;
      available_at = available_at;
      updated_at = ts;
    } in
    (task, record d { node_tasks = d.node_tasks ++ task ∷ []; next_task_id = d.next_task_id + 1 })

unfoldable pub enqueue_node_task : ℕ → ℕ → ℕ → String → Payload → ℕ → ℕ → Tx NodeTask
unfolding insert_task
enqueue_node_task ts node_id container_id task_type payload data_sync_task_id available_at d =
    ok (insert_task ts node_id container_id task_type payload data_sync_task_id available_at d)

-- The WHERE clause of the claim. `now - 300` stops at 0, and no time is below 0.
unfoldable pub is_claimable : ℕ → ℕ → NodeTask → Bool
is_claimable node_id now t =
    t.node_id == node_id
    && leb t.available_at now
    && (str_eq t.status "pending" || (str_eq t.status "claimed" && ltb t.claimed_at (now - 300)))

-- ORDER BY created_at, id
unfoldable pub task_before : NodeTask → NodeTask → Bool
task_before a b = ltb a.created_at b.created_at || (a.created_at == b.created_at && leb a.id b.id)

-- LIMIT 1 FOR UPDATE SKIP LOCKED
unfoldable pub next_task : (ℕ → Bool) → ℕ → ℕ → List NodeTask → Option NodeTask
next_task locked node_id now tasks =
    head?
      (order_by task_before (select (λ t. is_claimable node_id now t && not (locked t.id)) tasks))

unfoldable pub claimed_at_now : ℕ → NodeTask → NodeTask
claimed_at_now ts t = record t {
  status = "claimed";
  attempts = t.attempts + 1;
  claimed_at = ts;
  updated_at = ts;
}

-- UPDATE data_sync_tasks SET status, updated_at WHERE id
unfoldable pub set_sync_status : ℕ → String → ℕ → List DataSyncTask → List DataSyncTask
set_sync_status id status ts =
    update (λ s. s.id == id) (λ s. record s { status = status; updated_at = ts })

unfoldable pub claim_task_row : ℕ → NodeTask → Db → Db
claim_task_row now t d =
    let status = if str_eq t.task_type "verify_data_sync" then "verifying" else "running" in
    record d {
      node_tasks = update (λ x. x.id == t.id) (claimed_at_now now) d.node_tasks;
      data_sync_tasks =
          if t.data_sync_task_id == 0
          then d.data_sync_tasks
          else set_sync_status t.data_sync_task_id status now d.data_sync_tasks;
    }

unfoldable pub claim_node_task :
    (Text → String) → (ℕ → Bool) → ℕ → Text → String → Tx (Option NodeTask)
claim_node_task hash_token locked now token hostname = do
  node ← verify_agent_node hash_token token hostname
  tasks ← query (λ d. d.node_tasks)
  elim (next_task locked node.id now tasks) [
    | none ↦ pure none
    | some t ↦ (do modify (claim_task_row now t); pure (some (claimed_at_now now t)))
  ]

-- The keys that `setdefault` fills in.
unfoldable pub with_defaults : ℕ → String → Progress → Progress
with_defaults task_id hostname p = record p {
  task_id = elim p.task_id [ none ↦ some task_id | some i ↦ some i ];
  node = elim p.node [ none ↦ some hostname | some n ↦ some n ];
}

unfoldable pub holds_lease : ℕ → ℕ → NodeTask → Bool
holds_lease task_id node_id t = t.id == task_id && t.node_id == node_id && str_eq t.status "claimed"

unfoldable pub renew_lease : ℕ → ℕ → ℕ → List NodeTask → List NodeTask
unfolding holds_lease
renew_lease task_id node_id ts =
    update (holds_lease task_id node_id) (λ t. record t { claimed_at = ts; updated_at = ts })

unfoldable pub report_node_task_progress :
    (Text → String) → ℕ → Text → String → ℕ → Progress → Tx Unit
report_node_task_progress hash_token now token hostname task_id progress = do
  node ← verify_agent_node hash_token token hostname
  tasks ← query (λ d. d.node_tasks)
  task ← found_or 404 (find (λ (t : NodeTask). t.id == task_id && t.node_id == node.id) tasks)
  modify λ d. record d { node_tasks = renew_lease task_id node.id now d.node_tasks }
  when (not (task.data_sync_task_id == 0)) (
      modify λ d. record d {
        data_sync_tasks =
            update
              (λ s.
                s.id == task.data_sync_task_id
                && (str_eq s.status "planned" || str_eq s.status "running"))
              (λ s. record s { progress = progress; updated_at = now }) d.data_sync_tasks;
      })
  let resource_id = task.payload.resource_id
  when (str_eq task.task_type "download_shared_resource" && not (resource_id == 0)) (
      modify λ d. record d {
        shared_resources =
            update (λ r. r.id == resource_id && str_eq r.request_status "downloading")
              (λ r. record r {
                download_progress = with_defaults task_id node.hostname progress;
                updated_at = now;
              })
              d.shared_resources;
      })
