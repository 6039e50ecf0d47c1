-- ===== src/Tasks/Lease/Exclusive.antt =====
-- What `claim_node_task` does to the lease on a task.
use server_vps.Prelude.{
  ℕ, ◌+◌, ◌≤◌, ◌<◌, String, ◌≡◌, ◌≢◌, inl, inr, Bool, true, false, not, ◌&&◌, some, List, [], ◌∷◌,
  Text, ◌==◌, arith, select, update, order_by, All, All-IsIn, IsIn, IsIn-select, IsIn-order_by,
  Option-cases, ok, Result-cases,
}
use mathlib.Core.List.{head?}
use server_vps.Database.{Db, Node, NodeTask}
use server_vps.Tasks.Queue.{
  verify_agent_node, is_claimable, task_before, next_task, claim_task_row, claimed_at_now,
  claim_node_task,
}
use server_vps.Tasks.Lease.Quiet.{Quiet, IsLeased, Quiet-not_claimable}

IsIn-of_head? : (t : NodeTask) (tasks : List NodeTask) → head? tasks ≡ some t → IsIn t tasks
IsIn-of_head? t [] h = ground arith
IsIn-of_head? t (x ∷ tasks) h = inl (ground arith)

-- The task that a claim picks is a claimable row of the table that nobody has locked.
pub next_task_sound :
    (locked : ℕ → Bool) (node_id now : ℕ) (tasks : List NodeTask) (t : NodeTask)
    → next_task locked node_id now tasks ≡ some t
    → (is_claimable node_id now t ≡ true) × IsIn t tasks × (locked t.id ≡ false)
unfolding next_task
next_task_sound locked node_id now tasks t h =
    let test : NodeTask → Bool = λ x. is_claimable node_id now x && not (locked x.id) in
    let sorted = IsIn-of_head? t (order_by task_before (select test tasks)) h in
    let (passed, row) =
      IsIn-select test tasks t (IsIn-order_by task_before t (select test tasks) sorted) in
    (ground (arith, passed), row, ground (arith, passed))

leased_rows :
    (k now : ℕ) (tasks : List NodeTask)
    → All (Quiet k now) (update (λ x. x.id == k) (claimed_at_now now) tasks)
unfolding update claimed_at_now
leased_rows k now [] = tt
leased_rows k now (x ∷ tasks) = (ground arith, leased_rows k now tasks)

module _ (hash_token : Text → String) where
  pub verify_same :
      (token : Text) (hostname : String) (d d' : Db) (n : Node)
      → verify_agent_node hash_token token hostname d ≡ ok (n, d')
      → d' ≡ d
  unfolding verify_agent_node
  verify_same token hostname d d' n h = ground arith

  -- What a claim that returned a task did.
  pub claim_node_task_inv :
      (locked : ℕ → Bool) (now : ℕ) (token : Text) (hostname : String) (d d' : Db) (t : NodeTask)
      → claim_node_task hash_token locked now token hostname d ≡ ok (some t, d')
      → (n : Node) × (s : NodeTask) × (verify_agent_node hash_token token hostname d ≡ ok (n, d))
        × (next_task locked n.id now d.node_tasks ≡ some s)
        × (t ≡ claimed_at_now now s)
        × (d' ≡ claim_task_row now s d)
  unfolding claim_node_task
  claim_node_task_inv locked now token hostname d d' t h =
      elim (Result-cases (verify_agent_node hash_token token hostname d)) [
        | inr (c, e) ↦ absurd (ground (arith, e))
        | inl ((n, d''), e) ↦
            let same = verify_same token hostname d d'' n e in
            elim (Option-cases (next_task locked n.id now d.node_tasks)) [
              | inl f ↦ absurd (ground (arith, e, f, same))
              | inr (s, f) ↦ (
                n,
                s,
                ground (arith, e, same),
                f,
                ground (arith, e, f, same),
                ground (arith, e, f, same),
              )
            ]
      ]

  -- Once claimed, the task is leased from that time on.
  pub claim_node_task-IsLeased :
      (locked : ℕ → Bool) (now : ℕ) (token : Text) (hostname : String) (d d' : Db) (t : NodeTask)
      → All (λ x. x.id < d.next_task_id) d.node_tasks
      → claim_node_task hash_token locked now token hostname d ≡ ok (some t, d')
      → IsLeased t.id now d'
  unfolding claim_task_row claimed_at_now
  claim_node_task-IsLeased locked now token hostname d d' t ids h =
      let (n, s, _, picked, e, e') = claim_node_task_inv locked now token hostname d d' t h in
      let (_, row, _) = next_task_sound locked n.id now d.node_tasks s picked in
      let same : t.id ≡ s.id = ground (arith, e) in
      rw (e', same)
        (record {
          known = All-IsIn (λ x. x.id < d.next_task_id) d.node_tasks s ids row;
          quiet = leased_rows s.id now d.node_tasks;
        })

  -- A task that is leased at time c is not handed out up to time c + 300.
  pub claim_node_task-ne :
      (k c : ℕ) (locked : ℕ → Bool) (now : ℕ) (token : Text) (hostname : String) (d d' : Db)
      (t : NodeTask)
      → IsLeased k c d
      → now ≤ c + 300
      → claim_node_task hash_token locked now token hostname d ≡ ok (some t, d')
      → t.id ≢ k
  unfolding claimed_at_now
  claim_node_task-ne k c locked now token hostname d d' t l b h =
      let (n, s, _, picked, e, _) = claim_node_task_inv locked now token hostname d d' t h in
      let (test, row, _) = next_task_sound locked n.id now d.node_tasks s picked in
      let q = All-IsIn (Quiet k c) d.node_tasks s l.quiet row in
      let ne = Quiet-not_claimable k c n.id now s q b test in ground (arith, e, ne)
