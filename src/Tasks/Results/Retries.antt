-- ===== src/Tasks/Results/Retries.antt =====
-- A data synchronisation whose tasks fail again and again.
use Prim.Native.Nat.{◌-◌}
use server_vps.Prelude.{
  ℕ, ◌+◌, ◌≤◌, ◌≡◌, refl, sym, ap, ◌∙◌, inl, inr, true, Option, none, some, List, [], ◌∷◌, ◌++◌,
  Text, arith, length, find, update, ltb, ltb→lt, ◌==◌, All, Bool-cases, Option-cases,
  length-update,
}
use server_vps.Database.{Db, NodeTask, DataSyncTask}
use server_vps.Tasks.Queue.{insert_task}
use server_vps.Tasks.Results.Failure.{
  linked_sync, retry_scheduled, retry_sync, give_up_sync, cancel_creation, fail_or_retry,
}

-- A failure report of a task of the synchronisation.
pub record Failure : Type 0 where
  pub ts : ℕ
  pub error : Text
  pub blocked : Text
  pub task : NodeTask

-- The reports of tasks of one synchronisation, in order.
unfoldable pub fail_all : List Failure → Db → Db
fail_all [] d = d
fail_all (f ∷ fs) d = fail_all fs (fail_or_retry f.ts f.error f.blocked f.task d)

-- The retries that a synchronisation has left.
unfoldable pub retries_left : Option DataSyncTask → ℕ
retries_left none = 0
retries_left (some s) = s.max_retries - s.retry_count

unfoldable pub budget : ℕ → Db → ℕ
unfolding retries_left
budget id d = retries_left (find (λ (s : DataSyncTask). s.id == id) d.data_sync_tasks)

find-update :
    (id : ℕ) (f : DataSyncTask → DataSyncTask) (xs : List DataSyncTask)
    → ((x : DataSyncTask) → (f x).id ≡ x.id)
    → find (λ x. x.id == id) (update (λ x. x.id == id) f xs)
      ≡ elim (find (λ x. x.id == id) xs) [ none ↦ none | some s ↦ some (f s) ]
unfolding find update
find-update id f [] keep = refl
find-update id f (x ∷ xs) keep = ground (arith, keep x, find-update id f xs keep)

length-insert : (xs : List NodeTask) (t : NodeTask) → length (xs ++ t ∷ []) ≡ length xs + 1
length-insert [] t = omega arith
length-insert (x ∷ xs) t = omega (arith, length-insert xs t)

budget-update :
    (id : ℕ) (f : DataSyncTask → DataSyncTask) (xs : List DataSyncTask)
    → ((x : DataSyncTask) → (f x).id ≡ x.id)
    → ((x : DataSyncTask) → retries_left (some (f x)) ≤ retries_left (some x))
    → retries_left (find (λ x. x.id == id) (update (λ x. x.id == id) f xs))
      ≤ retries_left (find (λ x. x.id == id) xs)
unfolding retries_left
budget-update id f xs keep less = elim (Option-cases (find (λ (x : DataSyncTask). x.id == id) xs)) [
  | inl e ↦ ground (arith, e, find-update id f xs keep)
  | inr (s, e) ↦ ground (arith, e, find-update id f xs keep, less s)
]

module _ (ts : ℕ) (error blocked : Text) (task : NodeTask) (d : Db) where
  retry_sync-budget :
      (s : DataSyncTask)
      → find (λ x. x.id == task.data_sync_task_id) d.data_sync_tasks ≡ some s
      → ltb s.retry_count s.max_retries ≡ true
      → (budget task.data_sync_task_id (retry_sync ts error task s d) + 1
          ≡ budget task.data_sync_task_id d)
        × (length (retry_sync ts error task s d).node_tasks ≡ length d.node_tasks + 1)
  unfolding retry_sync insert_task budget retries_left
  retry_sync-budget s e left =
      let f : DataSyncTask → DataSyncTask = λ x. record x {
        status = "retrying";
        error = error;
        retry_count = s.retry_count + 1;
        finished_at = 0;
        updated_at = ts;
      } in
      let found = find-update task.data_sync_task_id f d.data_sync_tasks (λ x. refl) in
      let now : find (λ x. x.id == task.data_sync_task_id)
            (update (λ x. x.id == task.data_sync_task_id) f d.data_sync_tasks)
          ≡ some (f s) =
        rw e at found in
      let one_less : s.max_retries - (s.retry_count + 1) + 1 ≡ s.max_retries - s.retry_count =
        omega (arith, ltb→lt s.retry_count s.max_retries left) in
      (
        ap (λ o. retries_left o + 1) now ∙ (one_less ∙ sym (ap retries_left e)),
        length-insert d.node_tasks _,
      )

  give_up_sync-budget :
      (budget task.data_sync_task_id (give_up_sync ts error task d)
        ≤ budget task.data_sync_task_id d)
      × (length (give_up_sync ts error task d).node_tasks ≡ length d.node_tasks)
  unfolding give_up_sync budget retries_left
  give_up_sync-budget =
      let f : DataSyncTask → DataSyncTask =
        λ x. record x { status = "failed"; error = error; finished_at = ts; updated_at = ts } in
      let less =
        budget-update task.data_sync_task_id f d.data_sync_tasks (λ x. refl) (λ x. omega arith) in
      elim (Bool-cases (task.data_sync_task_id == 0)) [
        | inl e ↦ rw e (omega arith, refl)
        | inr e ↦ rw e (less, refl)
      ]

  cancel_creation-budget :
      (id : ℕ)
      → (budget id (cancel_creation ts blocked task d) ≡ budget id d)
        × (length (cancel_creation ts blocked task d).node_tasks ≡ length d.node_tasks)
  unfolding cancel_creation budget
  cancel_creation-budget id = (refl, length-update _ _ d.node_tasks)

-- One failure enqueues a task only at the cost of a retry.
fail_or_retry-budget :
    (ts : ℕ) (error blocked : Text) (task : NodeTask) (d : Db)
    → length (fail_or_retry ts error blocked task d).node_tasks
        + budget task.data_sync_task_id (fail_or_retry ts error blocked task d)
      ≤ length d.node_tasks + budget task.data_sync_task_id d
unfolding fail_or_retry linked_sync retry_scheduled
fail_or_retry-budget ts error blocked task d =
    let id = task.data_sync_task_id in
    let given_up = give_up_sync ts error task d in
    let g = give_up_sync-budget ts error blocked task d in
    let g' = cancel_creation-budget ts error blocked task given_up id in
    elim (Option-cases (linked_sync task d)) [
      | inl e ↦ ground (arith, e, g, g')
      | inr (s, e) ↦ elim (Bool-cases (ltb s.retry_count s.max_retries)) [
        | inr spent ↦ ground (arith, e, spent, g, g')
        | inl left ↦
            let found : find (λ x. x.id == id) d.data_sync_tasks ≡ some s = ground (arith, e) in
            let r = retry_sync-budget ts error blocked task d s found left in
            let r' =
              cancel_creation-budget ts error blocked task (retry_sync ts error task s d) id in
            ground (arith, e, left, r, r')
      ]
    ]

-- However often tasks of one data synchronisation fail, the retries come to an end: the steps of the failures that
-- retry or give up the synchronisation (`fail_or_retry`) together enqueue at most as many node tasks as it had retries
-- left. The removal of an SSH key, which the report of a last failure enqueues after that step, is not counted.
pub fail_all-budget :
    (id : ℕ) (failures : List Failure) (d : Db)
    → All (λ f. f.task.data_sync_task_id ≡ id) failures
    → length (fail_all failures d).node_tasks + budget id (fail_all failures d)
      ≤ length d.node_tasks + budget id d
unfolding fail_all
fail_all-budget id [] d h = omega arith
fail_all-budget id (f ∷ fs) d h =
    let next = fail_or_retry f.ts f.error f.blocked f.task d in
    let first = fail_or_retry-budget f.ts f.error f.blocked f.task d in
    let first' : length next.node_tasks + budget id next ≤ length d.node_tasks + budget id d =
      rw (← h.0) first in
    let rest : length (fail_all (f ∷ fs) d).node_tasks + budget id (fail_all (f ∷ fs) d)
        ≤ length next.node_tasks + budget id next =
      fail_all-budget id fs next h.1 in
    omega (arith, first', rest)
