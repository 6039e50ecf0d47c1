-- ===== src/Containers/Lifecycle/Guards.antt =====
-- Who may change a container's state, and when.
use server_vps.Prelude.{
  ℕ, String, eq_iff, ◌≡◌, ◌≢◌, refl, ◌⊎◌, inl, inr, Bool, true, false, Option, some, List, [], ◌∷◌,
  ◌++◌, ◌==◌, arith, find, update, Option-cases, Bool-cases, ok, All, find_sound, All-IsIn, delete,
}
use server_vps.Database.{Db, Container, User, NodeTask}
use server_vps.Auth.{require_user, is_admin_user}
use server_vps.Tasks.Queue.{enqueue_node_task, insert_task}
use server_vps.Tasks.Results.Success.{update_container, delete_container_row}
use server_vps.Tasks.Results.Complete.Statuses.{statuses, set_row, statuses-update}
use server_vps.Containers.Lifecycle.{
  Operation, start_container, stop_container, restart_container, pending_status,
  operation_task_type, require_container_access, find_container, is_busy, set_status,
  enqueue_container_lifecycle, delete_container,
}

-- The user of the request owns the container or is an administrator.
abbrev pub MayOperate : Option User → Container → Type 0
MayOperate request c =
    (user : User) × (request ≡ some user)
    × ((is_admin_user (some user) ≡ true) ⊎ (c.owner_id ≡ user.id))

-- What a lifecycle request that succeeds has checked and done.
abbrev pub Enqueued : Option User → ℕ → ℕ → Operation → Db → NodeTask → Db → Type 0
Enqueued request ts id operation d task d' =
    (c : Container) × (find (λ x. x.id == id) d.containers ≡ some c)
    × MayOperate request c
    × (c.system_role ≡ "")
    × (is_busy c.status ≡ false)
    × (task.task_type ≡ operation_task_type operation)
    × (task.container_id ≡ id)
    × (task.node_id ≡ c.node_id)
    × (task.status ≡ "pending")
    × (d'.node_tasks ≡ d.node_tasks ++ task ∷ [])
    × (statuses d'.containers ≡ set_row id (λ s. pending_status operation) (statuses d.containers))

-- A start, stop or restart succeeds only for the owner of an idle container that is not a system one, or for an
-- administrator; it then appends one pending task for the container's node and leaves the container, and no other, in
-- the operation's waiting status.
pub enqueue_container_lifecycle_sound :
    (request : Option User) (ts id : ℕ) (operation : Operation) (d d' : Db) (task : NodeTask)
    → enqueue_container_lifecycle request ts id operation d ≡ ok (task, d')
    → Enqueued request ts id operation d task d'
unfolding enqueue_container_lifecycle require_user find_container require_container_access
    set_status update_container enqueue_node_task insert_task
enqueue_container_lifecycle_sound request ts id operation d d' task h =
    elim (Option-cases request) [
      | inl e ↦ absurd (ground (arith, e, h))
      | inr (user, e) ↦ elim (Option-cases (find (λ (x : Container). x.id == id) d.containers)) [
        | inl f ↦ absurd (ground (arith, e, f, h))
        | inr (c, f) ↦
            let marked =
              statuses-update id
                (λ c. record c { status = pending_status operation; updated_at = ts })
                (λ s. pending_status operation) d.containers (λ c. (refl, refl)) in
            (
              c,
              f,
              (user, e, ground (arith, e, f, h)),
              ground (arith, e, f, h, eq_iff c.system_role ""),
              ground (arith, e, f, h),
              ground (arith, e, f, h),
              ground (arith, e, f, h),
              ground (arith, e, f, h),
              ground (arith, e, f, h),
              ground (arith, e, f, h),
              ground (arith, e, f, h, marked),
            )
      ]
    ]

-- Every row of the id waits for its node.
abbrev pub IsWaiting : ℕ → Db → Type 0
IsWaiting id d = All (λ (c : Container). (c.id ≢ id) ⊎ (is_busy c.status ≡ true)) d.containers

set_status-IsWaiting :
    (id ts : ℕ) (status : String) (cs : List Container)
    → is_busy status ≡ true
    → All
        (λ (c : Container). (c.id ≢ id) ⊎ (is_busy c.status ≡ true))
        (update (λ c. c.id == id) (λ c. record c { status = status; updated_at = ts }) cs)
unfolding update
set_status-IsWaiting id ts status [] h = tt
set_status-IsWaiting id ts status (c ∷ cs) h =
    let rest = set_status-IsWaiting id ts status cs h in
    elim (Bool-cases (c.id == id)) [
      | inl e ↦ rw (e, update) (inr h, rest)
      | inr e ↦ rw (e, update) (inl (ground (arith, e)), rest)
    ]

pub busy_pending : (operation : Operation) → is_busy (pending_status operation) ≡ true
unfolding is_busy pending_status
busy_pending start_container = refl
busy_pending stop_container = refl
busy_pending restart_container = refl

-- A successful request leaves the container waiting.
pub enqueue_container_lifecycle-IsWaiting :
    (request : Option User) (ts id : ℕ) (operation : Operation) (d d' : Db) (task : NodeTask)
    → enqueue_container_lifecycle request ts id operation d ≡ ok (task, d')
    → IsWaiting id d'
unfolding enqueue_container_lifecycle require_user find_container require_container_access
    set_status update_container enqueue_node_task insert_task
enqueue_container_lifecycle-IsWaiting request ts id operation d d' task h =
    let waits =
      set_status-IsWaiting id ts (pending_status operation) d.containers (busy_pending operation) in
    let marked : d'.containers
        ≡ update (λ c. c.id == id)
            (λ c. record c { status = pending_status operation; updated_at = ts }) d.containers =
      elim (Option-cases request) [
        | inl e ↦ absurd (ground (arith, e, h))
        | inr (user, e) ↦ elim (Option-cases (find (λ (x : Container). x.id == id) d.containers)) [
          | inl f ↦ absurd (ground (arith, e, f, h))
          | inr (c, f) ↦ ground (arith, e, f, h)
        ]
      ] in
    rw marked waits

waiting_row :
    (id : ℕ) (d : Db) (c : Container)
    → IsWaiting id d
    → find (λ (x : Container). x.id == id) d.containers ≡ some c
    → is_busy c.status ≡ true
waiting_row id d c w h =
    let (same, row) = find_sound (λ (x : Container). x.id == id) d.containers c h in
    let waits =
      All-IsIn (λ (c : Container). (c.id ≢ id) ⊎ (is_busy c.status ≡ true)) d.containers c w row in
    ground (arith, same, waits)

-- A container that waits for its node takes no start, stop or restart, and no deletion without force.
pub IsWaiting-ne :
    (other : Option User) (later id : ℕ) (second : Operation) (d' e : Db) (again : NodeTask)
    (name : String)
    → IsWaiting id d'
    → (enqueue_container_lifecycle other later id second d' ≢ ok (again, e))
      × (delete_container other later id name false d' ≢ ok (tt, e))
unfolding enqueue_container_lifecycle delete_container require_user find_container
    require_container_access
IsWaiting-ne other later id second d' e again name w = elim (Option-cases other) [
  | inl f ↦ (λ k. absurd (ground (arith, f, k)), λ k. absurd (ground (arith, f, k)))
  | inr (user, f) ↦ elim (Option-cases (find (λ (x : Container). x.id == id) d'.containers)) [
    | inl g ↦ (λ k. absurd (ground (arith, f, g, k)), λ k. absurd (ground (arith, f, g, k)))
    | inr (c, g) ↦
        let busy = waiting_row id d' c w g in
        (λ k. absurd (ground (arith, f, g, busy, k)), λ k. absurd (ground (arith, f, g, busy, k)))
  ]
]

-- What a deletion that succeeds has checked and done.
abbrev pub Removed : Option User → ℕ → ℕ → String → Bool → Db → Db → Type 0
Removed request ts id name force d d' =
    (c : Container) × (find (λ x. x.id == id) d.containers ≡ some c)
    × MayOperate request c
    × (c.system_role ≡ "")
    × (name ≡ c.name)
    × (((is_busy c.status ≡ true)
          × (force ≡ true)
          × ((user : User) × (request ≡ some user) × (is_admin_user (some user) ≡ true))
          × (d'.containers ≡ delete (λ x. x.id == id) d.containers)
          × (d'.node_tasks ≡ delete (λ t. t.container_id == id) d.node_tasks)
          × (d'.container_ports ≡ delete (λ p. p.container_id == id) d.container_ports))
        ⊎ ((is_busy c.status ≡ false)
            × (statuses d'.containers ≡ set_row id (λ s. "deleting") (statuses d.containers))
            × (d'.container_ports ≡ d.container_ports)))

-- A deletion succeeds only for the owner or an administrator who repeats the name of a container that is not
-- a system one. An idle container is only marked as deleting, with its ports kept; a container that waits for its node is
-- removed at once with its tasks and ports, and only for an administrator who forces it.
pub delete_container_sound :
    (request : Option User) (ts id : ℕ) (name : String) (force : Bool) (d d' : Db)
    → delete_container request ts id name force d ≡ ok (tt, d')
    → Removed request ts id name force d d'
unfolding delete_container require_user find_container require_container_access set_status
    update_container enqueue_node_task insert_task delete_container_row
delete_container_sound request ts id name force d d' h = elim (Option-cases request) [
  | inl e ↦ absurd (ground (arith, e, h))
  | inr (user, e) ↦ elim (Option-cases (find (λ (x : Container). x.id == id) d.containers)) [
    | inl f ↦ absurd (ground (arith, e, f, h))
    | inr (c, f) ↦
        let marked =
          statuses-update id (λ c. record c { status = "deleting"; updated_at = ts })
            (λ s. "deleting") d.containers (λ c. (refl, refl)) in
        (
          c,
          f,
          (user, e, ground (arith, e, f, h)),
          ground (arith, e, f, h, eq_iff c.system_role ""),
          ground (arith, e, f, h, eq_iff name c.name),
          elim (Bool-cases (is_busy c.status)) [
            | inl b ↦ inl (
              b,
              ground (arith, e, f, b, h),
              (user, e, ground (arith, e, f, b, h)),
              ground (arith, e, f, b, h),
              ground (arith, e, f, b, h),
              ground (arith, e, f, b, h),
            )
            | inr b ↦ inr (b, ground (arith, e, f, b, h, marked), ground (arith, e, f, b, h))
          ],
        )
  ]
]
