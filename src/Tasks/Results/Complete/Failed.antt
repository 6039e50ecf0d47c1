-- ===== src/Tasks/Results/Complete/Failed.antt =====
-- The statuses of the containers after a failed task.
use server_vps.Prelude.{
  ℕ, String, str_eq, eq_iff, ◌≡◌, refl, ◌∙◌, inl, inr, Bool, true, false, not, ◌&&◌, ◌||◌, Option,
  List, [], ◌∷◌, Text, ◌==◌, arith, if◌then◌else◌, update, take, strip, Bool-cases, Option-cases,
}
use server_vps.Database.{Db, Container, NodeTask, DataSyncTask}
use server_vps.Tasks.Queue.{insert_task}
use server_vps.Tasks.Queue.Expire.{cleanup_container_sync_key, fail_task}
use server_vps.Tasks.Results.Success.{update_container, audit_log}
use server_vps.Tasks.Results.Failure.{
  mark_failed, mark_create_failed, mark_access_failed, is_lifecycle, apply_failure, linked_sync,
  retry_scheduled, is_user_home_sync, retry_sync, give_up_sync, cancel_creation, fail_or_retry,
}
use server_vps.Tasks.Results.Complete.{TaskResult, OtherTypes, complete_failed}
use server_vps.Tasks.Results.Complete.Statuses.{
  Row, statuses, set_row, statuses-update, set_row-same,
}

-- The task's own effect: only a creation, a start, a restart, a stop and a deletion fail the container.
abbrev pub spoil : String → ℕ → List Row → List Row
spoil type id rows =
    if id == 0
    then rows
    else if str_eq type "incus_create_container" || is_lifecycle type
    then set_row id (λ s. "failed") rows
    else rows

-- A container that still waits for its creation fails.
abbrev pub abandon : ℕ → List Row → List Row
abandon id = set_row id (λ s. if str_eq s "provisioning" then "failed" else s)

-- Whether the container's creation ends with the task.
abbrev pub ends_creation : NodeTask → Option DataSyncTask → Bool
ends_creation t sync =
    not (t.container_id == 0) && not (retry_scheduled sync) && not (is_user_home_sync sync)

is_lifecycle-keys : (s : String) → str_eq s "incus_sync_ssh_keys" ≡ true → is_lifecycle s ≡ false
unfolding is_lifecycle
is_lifecycle-keys s h =
    let e : s ≡ "incus_sync_ssh_keys" = ground (arith, eq_iff s "incus_sync_ssh_keys", h) in
    rw e refl

is_lifecycle-ports : (s : String) → str_eq s "incus_sync_ports" ≡ true → is_lifecycle s ≡ false
unfolding is_lifecycle
is_lifecycle-ports s h =
    let e : s ≡ "incus_sync_ports" = ground (arith, eq_iff s "incus_sync_ports", h) in rw e refl

statuses-apply_failure :
    (ts : ℕ) (error : Text) (t : NodeTask) (d : Db)
    → statuses (apply_failure ts error t d).containers
      ≡ spoil t.task_type t.container_id (statuses d.containers)
unfolding apply_failure update_container mark_failed mark_create_failed mark_access_failed
statuses-apply_failure ts error t d =
    let id = t.container_id in
    let failed =
      statuses-update id (mark_failed ts) (λ s. "failed") d.containers (λ c. (refl, refl)) in
    let create =
      statuses-update id (mark_create_failed ts error) (λ s. "failed") d.containers
        (λ c. (refl, refl)) in
    let access =
      statuses-update id (mark_access_failed ts error) (λ s. s) d.containers (λ c. (refl, refl)) in
    let same = set_row-same id (statuses d.containers) in
    let keys = is_lifecycle-keys t.task_type in
    let ports = is_lifecycle-ports t.task_type in
    ground (arith, failed, create, access, same, keys, ports)

statuses-cancel :
    (ts id : ℕ) (cs : List Container)
    → statuses (update (λ c. c.id == id && str_eq c.status "provisioning") (mark_failed ts) cs)
      ≡ abandon id (statuses cs)
unfolding update mark_failed
statuses-cancel ts id [] = refl
statuses-cancel ts id (c ∷ cs) =
    let rest = statuses-cancel ts id cs in
    elim (Bool-cases (c.id == id)) [
      | inr e ↦ rw (e, update) (rw rest refl)
      | inl e ↦ elim (Bool-cases (str_eq c.status "provisioning")) [
        | inl f ↦ rw (e, f, update) (rw rest refl)
        | inr f ↦ rw (e, f, update) (rw rest refl)
      ]
    ]

statuses-fail_or_retry :
    (ts : ℕ) (error blocked : Text) (t : NodeTask) (d : Db)
    → statuses (fail_or_retry ts error blocked t d).containers ≡ (
        if ends_creation t (linked_sync t d)
        then abandon t.container_id (statuses d.containers)
        else statuses d.containers)
unfolding fail_or_retry retry_sync give_up_sync cancel_creation insert_task
statuses-fail_or_retry ts error blocked t d =
    let cancelled = statuses-cancel ts t.container_id in
    let given : (give_up_sync ts error t d).containers ≡ d.containers = ground arith in
    let again : (s : DataSyncTask) → (retry_sync ts error t s d).containers ≡ d.containers =
      λ s. refl in
    elim (Option-cases (linked_sync t d)) [
      | inl e ↦ ground (arith, e, given, cancelled d.containers)
      | inr (s, e) ↦ ground (arith, e, given, again s, cancelled d.containers)
    ]

linked_sync-same :
    (t : NodeTask) (d e : Db)
    → e.data_sync_tasks ≡ d.data_sync_tasks
    → linked_sync t e ≡ linked_sync t d
unfolding linked_sync
linked_sync-same t d e h = ground (arith, h)

sync-apply_failure :
    (ts : ℕ) (error : Text) (t : NodeTask) (d : Db)
    → (apply_failure ts error t d).data_sync_tasks ≡ d.data_sync_tasks
unfolding apply_failure update_container
sync-apply_failure ts error t d = ground arith

-- A failed result fails the task's container where the task creates, starts, restarts, stops or deletes it, and
-- a container still in provisioning fails with any task of its own, unless a retry of a linked
-- synchronisation is scheduled or that synchronisation is one of the user's home. No other container changes its
-- status. The statements for the other task types are supposed to change no status and no synchronisation.
pub complete_failed-spoil :
    (others : OtherTypes) (ts : ℕ) (result : TaskResult) (t : NodeTask) (d : Db)
    → ((error : Text) (e : Db)
        → (statuses (others.on_failure ts error t e).containers ≡ statuses e.containers)
          × ((others.on_failure ts error t e).data_sync_tasks ≡ e.data_sync_tasks))
    → statuses (complete_failed others ts result t d).containers ≡ (
        if ends_creation t (linked_sync t d)
        then abandon t.container_id (spoil t.task_type t.container_id (statuses d.containers))
        else spoil t.task_type t.container_id (statuses d.containers))
unfolding complete_failed cleanup_container_sync_key insert_task audit_log
complete_failed-spoil others ts result t d h =
    let error = take 4000 (strip result.error) in
    let closed = record d { node_tasks = fail_task t.id error ts d.node_tasks } in
    let applied = apply_failure ts error t closed in
    let rest = others.on_failure ts error t applied in
    let (shown, kept) = h error applied in
    let sync = linked_sync-same t d rest (kept ∙ sync-apply_failure ts error t closed) in
    let handled = statuses-fail_or_retry ts error result.blocked t rest in
    let spoilt = shown ∙ statuses-apply_failure ts error t closed in
    let total = rw (sync, spoilt) at handled in ground (arith, total)
