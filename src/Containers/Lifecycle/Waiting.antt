-- ===== src/Containers/Lifecycle/Waiting.antt =====
-- A container that waits for its node, while requests of users come in.
use server_vps.Prelude.{
  ℕ, String, ◌≡◌, ◌≢◌, refl, ◌⊎◌, inl, inr, Bool, true, false, Option, List, [], ◌∷◌, ◌==◌, arith,
  find, update, delete, not, Option-cases, Bool-cases, ok, All, All-update, All-select,
}
use server_vps.Database.{Db, Container, User, NodeTask, after, after-keeps}
use server_vps.Auth.{require_user}
use server_vps.Tasks.Queue.{enqueue_node_task, insert_task}
use server_vps.Tasks.Results.Success.{update_container, delete_container_row}
use server_vps.Containers.Lifecycle.{
  Operation, pending_status, require_container_access, find_container, is_busy, set_status,
  enqueue_container_lifecycle, delete_container,
}
use server_vps.Containers.Lifecycle.Guards.{
  IsWaiting, busy_pending, enqueue_container_lifecycle-IsWaiting, IsWaiting-ne,
}

-- A request of some user at some time: a start, stop or restart, or a deletion with a name and maybe force.
pub data LifecycleRequest : Type 0 where
  operate : Option User → ℕ → ℕ → Operation → LifecycleRequest
  remove : Option User → ℕ → ℕ → String → Bool → LifecycleRequest

unfoldable pub run_request : LifecycleRequest → Db → Db
run_request (operate request ts id operation) d =
    after (enqueue_container_lifecycle request ts id operation) d
run_request (remove request ts id name force) d =
    after (delete_container request ts id name force) d

unfoldable pub run_requests : List LifecycleRequest → Db → Db
run_requests [] d = d
run_requests (r ∷ rs) d = run_requests rs (run_request r d)

abbrev WaitsOrOther : ℕ → Container → Type 0
WaitsOrOther id c = (c.id ≢ id) ⊎ (is_busy c.status ≡ true)

-- Any container may be marked with a waiting status.
marked-IsWaiting :
    (id other ts : ℕ) (status : String) (cs : List Container)
    → is_busy status ≡ true
    → All (WaitsOrOther id) cs
    → All
        (WaitsOrOther id)
        (update (λ c. c.id == other) (λ c. record c { status = status; updated_at = ts }) cs)
marked-IsWaiting id other ts status cs busy h =
    All-update (WaitsOrOther id) (λ c. c.id == other)
      (λ c. record c { status = status; updated_at = ts }) cs (λ c k e. inr busy) h

removed-IsWaiting :
    (id other : ℕ) (cs : List Container)
    → All (WaitsOrOther id) cs
    → All (WaitsOrOther id) (delete (λ c. c.id == other) cs)
unfolding delete
removed-IsWaiting id other cs h = All-select (WaitsOrOther id) (λ c. not (c.id == other)) cs h

deleting : is_busy "deleting" ≡ true
unfolding is_busy
deleting = refl

operate-IsWaiting :
    (request : Option User) (ts other id : ℕ) (operation : Operation) (d d' : Db) (task : NodeTask)
    → IsWaiting id d
    → enqueue_container_lifecycle request ts other operation d ≡ ok (task, d')
    → IsWaiting id d'
unfolding enqueue_container_lifecycle require_user find_container require_container_access
    set_status update_container enqueue_node_task insert_task
operate-IsWaiting request ts other id operation d d' task w h =
    let marked =
      marked-IsWaiting id other ts (pending_status operation) d.containers (busy_pending operation)
        w in
    let rows : d'.containers
        ≡ update (λ c. c.id == other)
            (λ c. record c { status = pending_status operation; updated_at = ts }) d.containers =
      elim (Option-cases request) [
        | inl e ↦ absurd (ground (arith, e, h))
        | inr (user, e) ↦
            elim (Option-cases (find (λ (x : Container). x.id == other) d.containers)) [
              | inl f ↦ absurd (ground (arith, e, f, h))
              | inr (c, f) ↦ ground (arith, e, f, h)
            ]
      ] in
    rw rows marked

remove-IsWaiting :
    (request : Option User) (ts other id : ℕ) (name : String) (force : Bool) (d d' : Db)
    → IsWaiting id d
    → delete_container request ts other name force d ≡ ok (tt, d')
    → IsWaiting id d'
unfolding delete_container require_user find_container require_container_access set_status
    update_container enqueue_node_task insert_task delete_container_row
remove-IsWaiting request ts other id name force d d' w h =
    let marked = marked-IsWaiting id other ts "deleting" d.containers deleting w in
    let removed = removed-IsWaiting id other d.containers w in
    elim (Option-cases request) [
      | inl e ↦ absurd (ground (arith, e, h))
      | inr (user, e) ↦ elim (Option-cases (find (λ (x : Container). x.id == other) d.containers)) [
        | inl f ↦ absurd (ground (arith, e, f, h))
        | inr (c, f) ↦ elim (Bool-cases (is_busy c.status)) [
          | inl b ↦
              let rows : d'.containers ≡ delete (λ c. c.id == other) d.containers =
                ground (arith, e, f, b, h) in
              rw rows removed
          | inr b ↦
              let rows : d'.containers
                  ≡ update (λ c. c.id == other)
                      (λ c. record c { status = "deleting"; updated_at = ts }) d.containers =
                ground (arith, e, f, b, h) in
              rw rows marked
        ]
      ]
    ]

run_requests-IsWaiting :
    (id : ℕ) (rs : List LifecycleRequest) (d : Db)
    → IsWaiting id d
    → IsWaiting id (run_requests rs d)
unfolding run_requests run_request
run_requests-IsWaiting id [] d w = w
run_requests-IsWaiting id (operate request ts other operation ∷ rs) d w =
    run_requests-IsWaiting id rs (after (enqueue_container_lifecycle request ts other operation) d)
      (after-keeps (IsWaiting id) (enqueue_container_lifecycle request ts other operation) d w
        (λ task d' h. operate-IsWaiting request ts other id operation d d' task w h))
run_requests-IsWaiting id (remove request ts other name force ∷ rs) d w =
    run_requests-IsWaiting id rs (after (delete_container request ts other name force) d) (
      after-keeps (IsWaiting id) (delete_container request ts other name force) d w
        (λ u d' h. remove-IsWaiting request ts other id name force d d' w h))

-- After a successful start, stop or restart of a container, let any starts, stops, restarts and deletions of any
-- containers follow, by any users and in any order, and no report of a node between them: then no user's start, stop
-- or restart of that container succeeds, and no deletion of it without force does.
pub run_requests-ne :
    (request other : Option User) (ts later id : ℕ) (first second : Operation) (d d' e : Db)
    (task again : NodeTask) (name : String) (requests : List LifecycleRequest)
    → enqueue_container_lifecycle request ts id first d ≡ ok (task, d')
    → (enqueue_container_lifecycle other later id second (run_requests requests d') ≢ ok (again, e))
      × (delete_container other later id name false (run_requests requests d') ≢ ok (tt, e))
run_requests-ne request other ts later id first second d d' e task again name requests h =
    IsWaiting-ne other later id second (run_requests requests d') e again name (
      run_requests-IsWaiting id requests d'
        (enqueue_container_lifecycle-IsWaiting request ts id first d d' task h))
