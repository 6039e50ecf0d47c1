-- ===== src/Tasks/Queue/Order.antt =====
-- The order in which `claim_node_task` hands out tasks.
use server_vps.Prelude.{
  ℕ, ◌+◌, ◌-◌, eq_iff, IsIn, IsIn-select, IsIn-order_by, ◌≤◌, ◌<◌, ◌≡◌, ◌⊎◌, inl, inr, refl, Bool,
  true, false, not, ◌&&◌, Option, none, some, List, [], ◌∷◌, Text, String, ok, Option-cases,
  Bool-cases, arith, select, order_by, insert_by, All,
}
use mathlib.Core.List.{head?}
use server_vps.Database.{Db, Node, NodeTask}
use server_vps.Tasks.Queue.{
  verify_agent_node, is_claimable, task_before, next_task, claimed_at_now, claim_node_task,
}

-- (created_at, id) of the one is at most that of the other.
abbrev pub IsBefore : NodeTask → NodeTask → Type 0
IsBefore a b = (a.created_at < b.created_at) ⊎ ((a.created_at ≡ b.created_at) × (a.id ≤ b.id))

-- What heads the sorted list is at or before every row, and the list is empty only if there is none.
First : List NodeTask → Option NodeTask → Type 0
First tasks none = tasks ≡ []
First tasks (some t) = All (IsBefore t) tasks

All-IsBefore :
    (a b : NodeTask) (tasks : List NodeTask)
    → IsBefore a b
    → All (IsBefore b) tasks
    → All (IsBefore a) tasks
All-IsBefore a b [] h k = tt
All-IsBefore a b (x ∷ tasks) h (k, ks) = (omega (arith, h, k), All-IsBefore a b tasks h ks)

First-insert_by :
    (x : NodeTask) (tasks sorted : List NodeTask)
    → First tasks (head? sorted)
    → First (x ∷ tasks) (head? (insert_by task_before x sorted))
unfolding First insert_by task_before
First-insert_by x tasks [] h = (omega arith, rw h tt)
First-insert_by x tasks (y ∷ ys) h = elim (Bool-cases (task_before x y)) [
  | inl e ↦
      let order : IsBefore x y = ground (arith, rw (e, task_before) at e) in
      rw e (omega arith, All-IsBefore x y tasks order h)
  | inr e ↦ let order : IsBefore y x = ground (arith, rw (e, task_before) at e) in rw e (order, h)
]

order_by-First : (tasks : List NodeTask) → First tasks (head? (order_by task_before tasks))
unfolding First order_by
order_by-First [] = refl
order_by-First (x ∷ tasks) =
    First-insert_by x tasks (order_by task_before tasks) (order_by-First tasks)

-- The result of a claim comes at or before the row; no result comes before none.
abbrev pub Precedes : Option NodeTask → NodeTask → Type 0
Precedes none x = ⊥
Precedes (some t) x = IsBefore t x

All-Precedes :
    (o : Option NodeTask) (tasks : List NodeTask) → First tasks o → All (Precedes o) tasks
unfolding First
All-Precedes none tasks h = rw h tt
All-Precedes (some t) tasks h = h

-- A row that the claim may not take, or that is locked, or that the result precedes.
abbrev pub IsServed : (ℕ → Bool) → ℕ → ℕ → Option NodeTask → NodeTask → Type 0
IsServed locked node_id now o x =
    (is_claimable node_id now x ≡ false) ⊎ (locked x.id ≡ true) ⊎ Precedes o x

module _ (locked : ℕ → Bool) (node_id now : ℕ) where
  ready : NodeTask → Bool
  ready x = is_claimable node_id now x && not (locked x.id)

  All-ready :
      (P : NodeTask → Type 0) (tasks : List NodeTask)
      → All P (select ready tasks)
      → All (λ x. (is_claimable node_id now x ≡ false) ⊎ (locked x.id ≡ true) ⊎ P x) tasks
  unfolding select ready
  All-ready P [] h = tt
  All-ready P (x ∷ tasks) h =
      let rest = All-ready P tasks in
      elim (Bool-cases (is_claimable node_id now x)) [
        | inr e ↦ (inl e, rest (rw (e, select) at h))
        | inl e ↦ elim (Bool-cases (locked x.id)) [
          | inl f ↦ (inr (inl f), rest (rw (e, f, select) at h))
          | inr f ↦ let (hx, hs) = rw (e, f, select) at h in (inr (inr hx), rest hs)
        ]
      ]

  next_task-IsServed :
      (tasks : List NodeTask)
      → All (IsServed locked node_id now (next_task locked node_id now tasks)) tasks
  unfolding next_task ready First
  next_task-IsServed tasks =
      let first = order_by-First (select ready tasks) in
      All-ready (Precedes (next_task locked node_id now tasks)) tasks
        (All-Precedes (next_task locked node_id now tasks) (select ready tasks) first)

-- A row of the node of a claim that it may take: not locked, due, and pending or claimed more than 300 seconds ago.
abbrev pub IsTakable : (ℕ → Bool) → ℕ → ℕ → NodeTask → Type 0
IsTakable locked node_id now s =
    (locked s.id ≡ false)
    × (s.node_id ≡ node_id)
    × (s.available_at ≤ now)
    × ((s.status ≡ "pending") ⊎ ((s.status ≡ "claimed") × (s.claimed_at < now - 300)))

-- What a claim returns: nothing, or a takable row of the table as it is after the claim.
abbrev pub IsTaken : (ℕ → Bool) → ℕ → ℕ → List NodeTask → Option NodeTask → Type 0
IsTaken locked node_id now tasks none = Unit
IsTaken locked node_id now tasks (some t) =
    (s : NodeTask) × IsIn s tasks
    × IsTakable locked node_id now s
    × (t ≡ record s {
      status = "claimed";
      attempts = s.attempts + 1;
      claimed_at = now;
      updated_at = now;
    })

is_claimable-IsTakable :
    (locked : ℕ → Bool) (node_id now : ℕ) (s : NodeTask)
    → (is_claimable node_id now s && not (locked s.id)) ≡ true
    → IsTakable locked node_id now s
unfolding is_claimable
is_claimable-IsTakable locked node_id now s h =
    let pending = eq_iff s.status "pending" in
    let claimed = eq_iff s.status "claimed" in
    (ground (arith, h), ground (arith, h), ground (arith, h), ground (arith, h, pending, claimed))

head?-IsIn : (t : NodeTask) (ts : List NodeTask) → head? ts ≡ some t → IsIn t ts
head?-IsIn t [] h = ground (arith, h)
head?-IsIn t (x ∷ ts) h = inl (ground (arith, h))

next_task-IsTakable :
    (locked : ℕ → Bool) (node_id now : ℕ) (tasks : List NodeTask) (s : NodeTask)
    → next_task locked node_id now tasks ≡ some s
    → IsIn s tasks × IsTakable locked node_id now s
unfolding next_task
next_task-IsTakable locked node_id now tasks s h =
    let p : NodeTask → Bool = λ t. is_claimable node_id now t && not (locked t.id) in
    let i = head?-IsIn s (order_by task_before (select p tasks)) h in
    let (test, row) = IsIn-select p tasks s (IsIn-order_by task_before s (select p tasks) i) in
    (row, is_claimable-IsTakable locked node_id now s test)

-- A claim returns a row of its node that is not locked, due, and pending or claimed more than 300 seconds ago, as
-- claimed now. The queue is first in, first out: every other row that the node may take and that is not locked comes
-- at or after it, by creation time and then by id; where no task is returned, no such row exists.
pub claim_node_task-IsServed :
    (hash_token : Text → String) (locked : ℕ → Bool) (now : ℕ) (token : Text) (hostname : String)
    (d d' : Db) (n : Node) (o : Option NodeTask)
    → verify_agent_node hash_token token hostname d ≡ ok (n, d)
    → claim_node_task hash_token locked now token hostname d ≡ ok (o, d')
    → IsTaken locked n.id now d.node_tasks o × All (IsServed locked n.id now o) d.node_tasks
unfolding claim_node_task claimed_at_now
claim_node_task-IsServed hash_token locked now token hostname d d' n none e h =
    let picked : next_task locked n.id now d.node_tasks ≡ none = ground (arith, e, h) in
    let served = next_task-IsServed locked n.id now d.node_tasks in (tt, rw picked at served)
claim_node_task-IsServed hash_token locked now token hostname d d' n (some t) e h =
    elim (Option-cases (next_task locked n.id now d.node_tasks)) [
      | inl f ↦ absurd (ground (arith, e, f, h))
      | inr (s, f) ↦
          let same : t ≡ claimed_at_now now s = ground (arith, e, f, h) in
          let served = next_task-IsServed locked n.id now d.node_tasks in
          let (row, takable) = next_task-IsTakable locked n.id now d.node_tasks s f in
          ((s, row, takable, same), rw same (rw f at served))
    ]
