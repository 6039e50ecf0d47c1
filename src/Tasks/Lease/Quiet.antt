-- ===== src/Tasks/Lease/Quiet.antt =====
-- The rows of a leased task, and what each statement of the queue does to them.
use server_vps.Prelude.{
  ℕ, ◌+◌, ◌≤◌, ◌<◌, ◌≡◌, ◌≢◌, refl, ◌⊎◌, inl, inr, true, List, [], Text, ◌==◌, arith, update, All,
  All-update,
}
use server_vps.Database.{Db, NodeTask}
use server_vps.Tasks.Queue.{is_claimable, claimed_at_now, renew_lease, holds_lease}
use server_vps.Tasks.Queue.Expire.{fail_task}
use server_vps.Tasks.Results.Success.{succeed_task}

-- A row that is not the task k, or is finished, or has been claimed at time c or later.
abbrev pub Quiet : ℕ → ℕ → NodeTask → Type 0
Quiet k c t =
    (t.id ≢ k)
    ⊎ (t.status ≡ "succeeded")
    ⊎ (t.status ≡ "failed")
    ⊎ ((t.status ≡ "claimed") × (c ≤ t.claimed_at))

pub record IsLeased (k c : ℕ) (d : Db) : Type 0 where
  pub known : k < d.next_task_id
  pub quiet : All (Quiet k c) d.node_tasks

-- Such a row of the task k is not claimable before c + 300 is past.
pub Quiet-not_claimable :
    (k c node_id now : ℕ) (t : NodeTask)
    → Quiet k c t
    → now ≤ c + 300
    → is_claimable node_id now t ≡ true
    → t.id ≢ k
unfolding is_claimable
Quiet-not_claimable k c node_id now t (inl ne) b h = ne
Quiet-not_claimable k c node_id now t (inr (inl e)) b h =
    absurd (ground (arith, rw (e, is_claimable) at h))
Quiet-not_claimable k c node_id now t (inr (inr (inl e))) b h =
    absurd (ground (arith, rw (e, is_claimable) at h))
Quiet-not_claimable k c node_id now t (inr (inr (inr (e, l)))) b h =
    absurd (ground (arith, rw (e, is_claimable) at h))

-- UPDATE of the status to a finished one.
pub Quiet-fail_task :
    (k c id ts : ℕ) (error : Text) (tasks : List NodeTask)
    → All (Quiet k c) tasks
    → All (Quiet k c) (fail_task id error ts tasks)
unfolding fail_task
Quiet-fail_task k c id ts error tasks h =
    All-update (Quiet k c) (λ t. t.id == id)
      (λ t. record t { status = "failed"; last_error = error; finished_at = ts; updated_at = ts })
      tasks (λ a q e. inr (inr (inl refl))) h

pub Quiet-succeed_task :
    (k c id ts : ℕ) (tasks : List NodeTask)
    → All (Quiet k c) tasks
    → All (Quiet k c) (succeed_task id ts tasks)
unfolding succeed_task
Quiet-succeed_task k c id ts tasks h =
    All-update (Quiet k c) (λ t. t.id == id)
      (λ t. record t { status = "succeeded"; last_error = []; finished_at = ts; updated_at = ts })
      tasks (λ a q e. inr (inl refl)) h

pub Quiet-renew_lease :
    (k c id node_id ts : ℕ) (tasks : List NodeTask)
    → c ≤ ts
    → All (Quiet k c) tasks
    → All (Quiet k c) (renew_lease id node_id ts tasks)
unfolding renew_lease
Quiet-renew_lease k c id node_id ts tasks b h =
    All-update (Quiet k c) (holds_lease id node_id)
      (λ t. record t { claimed_at = ts; updated_at = ts }) tasks (λ a q e. ground arith) h

pub Quiet-claim :
    (k c id ts : ℕ) (tasks : List NodeTask)
    → c ≤ ts
    → All (Quiet k c) tasks
    → All (Quiet k c) (update (λ x. x.id == id) (claimed_at_now ts) tasks)
unfolding claimed_at_now
Quiet-claim k c id ts tasks b h =
    All-update (Quiet k c) (λ x. x.id == id) (claimed_at_now ts) tasks
      (λ a q e. inr (inr (inr (refl, b)))) h
