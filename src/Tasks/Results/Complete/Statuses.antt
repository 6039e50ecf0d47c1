-- ===== src/Tasks/Results/Complete/Statuses.antt =====
-- The statuses of the containers as the whole view that the users have of a task's result.
use server_vps.Prelude.{
  ℕ, String, str_eq, eq_iff, ◌⊎◌, ◌≡◌, refl, inl, inr, false, ◌||◌, List, [], ◌∷◌, Text, ◌==◌,
  arith, if◌then◌else◌, select, update, delete, Bool-cases, All, Option-cases, ◌∙◌, sym,
}
use server_vps.Database.{Db, Container, NodeTask}
use server_vps.Tasks.Queue.{insert_task}
use server_vps.Tasks.Queue.Expire.{cleanup_container_sync_key}
use server_vps.Tasks.Results.Success.{
  update_container, audit_log, mark_running, mark_stopped, mark_access_ready, mark_access_pending,
  mark_access_missing, access_id, queue_access_task, enqueue_container_access_task, created,
  delete_container_row, deleted, apply_success, succeed_task,
}
use server_vps.Tasks.Results.Complete.{TaskResult, OtherTypes, complete_succeeded}

abbrev pub Row : Type 0
Row = ℕ × String

abbrev pub statuses : List Container → List Row
statuses [] = []
statuses (c ∷ cs) = (c.id, c.status) ∷ statuses cs

abbrev pub set_row : ℕ → (String → String) → List Row → List Row
set_row id f rows = update (λ (r : Row). r.0 == id) (λ r. (r.0, f r.1)) rows

-- The status that a successful task leaves.
abbrev pub settled : String → String → String
settled type status =
    if str_eq type "incus_create_container"
      || str_eq type "incus_start_container"
      || str_eq type "incus_restart_container"
    then "running"
    else if str_eq type "incus_stop_container"
    then "stopped"
    else status

abbrev pub settle : String → ℕ → List Row → List Row
settle type id rows =
    if id == 0
    then rows
    else if str_eq type "incus_delete_container"
    then delete (λ (r : Row). r.0 == id) rows
    else set_row id (settled type) rows

-- An update of the rows that keeps their ids is one of their statuses.
pub statuses-update :
    (id : ℕ) (f : Container → Container) (s : String → String) (cs : List Container)
    → ((c : Container) → ((f c).id ≡ c.id) × ((f c).status ≡ s c.status))
    → statuses (update (λ c. c.id == id) f cs) ≡ set_row id s (statuses cs)
unfolding update
statuses-update id f s [] h = refl
statuses-update id f s (c ∷ cs) h =
    let rest = statuses-update id f s cs h in
    let (same, status) = h c in
    elim (Bool-cases (c.id == id)) [
      | inl e ↦ rw (e, update) (rw (rest, same, status) refl)
      | inr e ↦ rw (e, update) (rw rest refl)
    ]

pub set_row-same : (id : ℕ) (rows : List Row) → set_row id (λ s. s) rows ≡ rows
unfolding update
set_row-same id [] = refl
set_row-same id (r ∷ rows) = rw (set_row-same id rows) (ground arith)

statuses-delete :
    (id : ℕ) (cs : List Container)
    → statuses (delete (λ c. c.id == id) cs) ≡ delete (λ (r : Row). r.0 == id) (statuses cs)
unfolding delete select
statuses-delete id [] = refl
statuses-delete id (c ∷ cs) = ground (arith, statuses-delete id cs)

-- The task types that a result's statements test for.
task_types : List String
task_types =
    "incus_create_container" ∷ "incus_sync_ssh_keys" ∷ "incus_sync_ports" ∷ "incus_start_container"
    ∷ "incus_restart_container" ∷ "incus_stop_container" ∷ "incus_delete_container" ∷ []

OneOf : String → List String → Type 0
OneOf s [] = ⊥
OneOf s (x ∷ xs) = (s ≡ x) ⊎ OneOf s xs

NoneOf : String → List String → Type 0
NoneOf s [] = Unit
NoneOf s (x ∷ xs) = (str_eq s x ≡ false) × NoneOf s xs

type-cases : (s : String) (types : List String) → OneOf s types ⊎ NoneOf s types
unfolding OneOf NoneOf
type-cases s [] = inr tt
type-cases s (x ∷ xs) = elim (Bool-cases (str_eq s x)) [
  | inl e ↦ inl (inl (ground (arith, eq_iff s x, e)))
  | inr e ↦ elim (type-cases s xs) [ inl h ↦ inl (inr h) | inr h ↦ inr (e, h) ]
]

-- A type that is one of them passes the test for no other.
tests : (s x : String) (types : List String) → s ≡ x → All (λ y. str_eq s y ≡ str_eq x y) types
tests s x [] h = tt
tests s x (y ∷ types) h = (rw h refl, tests s x types h)

statuses-access :
    (ts : ℕ) (t : NodeTask) (d : Db)
    → statuses (enqueue_container_access_task ts t d).1.containers ≡ statuses d.containers
unfolding enqueue_container_access_task queue_access_task insert_task update_container
    mark_access_pending mark_access_missing
statuses-access ts t d =
    let pending =
      statuses-update (access_id t) (mark_access_pending ts) (λ s. s) d.containers
        (λ c. (refl, refl)) in
    let missing =
      statuses-update (access_id t) (mark_access_missing ts) (λ s. s) d.containers
        (λ c. (refl, refl)) in
    let same = set_row-same (access_id t) (statuses d.containers) in
    ground (arith, pending, missing, same)

statuses-created :
    (ts : ℕ) (ip : Text) (t : NodeTask) (d : Db)
    → statuses (created ts ip t d).containers
      ≡ set_row t.container_id (λ s. "running") (statuses d.containers)
unfolding created audit_log update_container mark_running
statuses-created ts ip t d =
    let running = update_container t.container_id (mark_running ts ip) d in
    let run =
      statuses-update t.container_id (mark_running ts ip) (λ s. "running") d.containers
        (λ c. (refl, refl)) in
    let access = statuses-access ts t running in
    elim (Option-cases (enqueue_container_access_task ts t running).0) [
      | inl e ↦ rw (e, created) (access ∙ run)
      | inr (row, e) ↦ rw (e, created) (access ∙ run)
    ]

statuses-deleted :
    (ts retention : ℕ) (t : NodeTask) (d : Db)
    → statuses (deleted ts retention t d).containers
      ≡ delete (λ (r : Row). r.0 == t.container_id) (statuses d.containers)
unfolding deleted delete_container_row
statuses-deleted ts retention t d = statuses-delete t.container_id d.containers

statuses-apply_success :
    (ts retention : ℕ) (ip : Text) (t : NodeTask) (d : Db)
    → statuses (apply_success ts retention ip t d).containers
      ≡ settle t.task_type t.container_id (statuses d.containers)
unfolding apply_success OneOf NoneOf task_types update_container mark_running mark_stopped
    mark_access_ready
statuses-apply_success ts retention ip t d =
    let id = t.container_id in
    let rows = statuses d.containers in
    let run =
      statuses-update id (mark_running ts ip) (λ s. "running") d.containers (λ c. (refl, refl)) in
    let stop =
      statuses-update id (mark_stopped ts) (λ s. "stopped") d.containers (λ c. (refl, refl)) in
    let ready =
      statuses-update id (mark_access_ready ts) (λ s. s) d.containers (λ c. (refl, refl)) in
    let same = set_row-same id rows in
    let made = statuses-created ts ip t d in
    let gone = statuses-deleted ts retention t d in
    elim (Bool-cases (id == 0)) [
      | inl e ↦ ground (arith, e)
      | inr e ↦ elim (type-cases t.task_type task_types) [
        | inl (inl f) ↦
            let h = tests t.task_type _ task_types f in
            rw (e, h.0, h.1.1.1.1.1.1.0, apply_success) made
        | inl (inr (inl f)) ↦
            let h = tests t.task_type _ task_types f in
            rw
              (e, h.0, h.1.0, h.1.1.1.1.1.1.0, h.1.1.1.0, h.1.1.1.1.0, h.1.1.1.1.1.0, apply_success)
              ready
        | inl (inr (inr (inl f))) ↦
            let h = tests t.task_type _ task_types f in
            rw
              (
                e, h.0, h.1.0, h.1.1.0, h.1.1.1.1.1.1.0, h.1.1.1.0, h.1.1.1.1.0, h.1.1.1.1.1.0,
                apply_success,
              )
              (ground (arith, ready, same))
        | inl (inr (inr (inr (inl f)))) ↦
            let h = tests t.task_type _ task_types f in
            rw (e, h.0, h.1.0, h.1.1.0, h.1.1.1.0, h.1.1.1.1.1.1.0, apply_success) run
        | inl (inr (inr (inr (inr (inl f))))) ↦
            let h = tests t.task_type _ task_types f in
            rw (e, h.0, h.1.0, h.1.1.0, h.1.1.1.0, h.1.1.1.1.0, h.1.1.1.1.1.1.0, apply_success) run
        | inl (inr (inr (inr (inr (inr (inl f)))))) ↦
            let h = tests t.task_type _ task_types f in
            rw
              (
                e, h.0, h.1.0, h.1.1.0, h.1.1.1.0, h.1.1.1.1.0, h.1.1.1.1.1.0, h.1.1.1.1.1.1.0,
                apply_success,
              )
              stop
        | inl (inr (inr (inr (inr (inr (inr (inl f))))))) ↦
            let h = tests t.task_type _ task_types f in
            rw
              (
                e, h.0, h.1.0, h.1.1.0, h.1.1.1.0, h.1.1.1.1.0, h.1.1.1.1.1.0, h.1.1.1.1.1.1.0,
                apply_success,
              )
              gone
        | inl (inr (inr (inr (inr (inr (inr (inr bad))))))) ↦ absurd bad
        | inr h ↦
            rw
              (
                e, h.0, h.1.0, h.1.1.0, h.1.1.1.0, h.1.1.1.1.0, h.1.1.1.1.1.0, h.1.1.1.1.1.1.0,
                apply_success,
              )
              (sym same)
      ]
    ]

-- A successful result changes the statuses of the containers by the task's type alone: creation, start and
-- restart leave the task's container running, a stop leaves it stopped, a deletion removes it with no other row, and
-- every other type and every other container keep their status. The statements for the other task types are
-- supposed to change no status.
pub complete_succeeded-settle :
    (others : OtherTypes) (ts retention : ℕ) (result : TaskResult) (t : NodeTask) (d : Db)
    → ((e : Db) → statuses (others.on_success ts result t e).containers ≡ statuses e.containers)
    → statuses (complete_succeeded others ts retention result t d).containers
      ≡ settle t.task_type t.container_id (statuses d.containers)
unfolding complete_succeeded cleanup_container_sync_key insert_task audit_log
complete_succeeded-settle others ts retention result t d h =
    let closed = record d { node_tasks = succeed_task t.id ts d.node_tasks } in
    let applied = statuses-apply_success ts retention result.ip t closed in
    let rest = h (apply_success ts retention result.ip t closed) in ground (arith, applied, rest)
