-- ===== src/Containers/PortRoutes/Syncs.antt =====
-- What `enqueue_running_port_syncs` leaves to do.
use server_vps.Prelude.{
  ℕ, str_eq, ◌≡◌, refl, ◌∙◌, inl, inr, true, ◌&&◌, ◌||◌, List, [], ◌∷◌, is_empty, leb, ◌==◌, arith,
  select, exists, exists-append, order_by, All, Bool-cases,
}
use server_vps.Database.{Db, Container, NodeTask, Payload}
use server_vps.Ports.Mappings.{list_container_ports}
use server_vps.Tasks.Queue.{insert_task}
use server_vps.Containers.PortRoutes.{
  has_pending_sync, incus_ports_payload, port_sync_one, port_sync_each, enqueue_running_port_syncs,
}

-- The container has no ports, or a synchronisation of them waits.
abbrev pub IsDone : Db → Container → Type 0
IsDone d c = (is_empty (list_container_ports c.id d) || has_pending_sync c.id d.node_tasks) ≡ true

-- The tasks after one that waits for the container `id` has been added.
pending-append :
    (ts id : ℕ) (c : Container) (p : Payload) (d : Db)
    → has_pending_sync id (insert_task ts c.node_id c.id "incus_sync_ports" p 0 0 d).1.node_tasks
      ≡ (has_pending_sync id d.node_tasks || c.id == id)
unfolding has_pending_sync insert_task exists
pending-append ts id c p d =
    let more =
      exists-append
        (λ (t : NodeTask).
          t.container_id == id
          && str_eq t.task_type "incus_sync_ports"
          && (str_eq t.status "pending" || str_eq t.status "running"))
        d.node_tasks ((insert_task ts c.node_id c.id "incus_sync_ports" p 0 0 d).0 ∷ []) in
    ground (arith, more)

one-IsDone : (ts : ℕ) (c : Container) (d : Db) → IsDone (port_sync_one ts c d) c
unfolding port_sync_one
one-IsDone ts c d =
    elim (Bool-cases
      (is_empty (list_container_ports c.id d) || has_pending_sync c.id d.node_tasks)) [
        | inl e ↦ rw (e, port_sync_one) e
        | inr e ↦
            let added =
              pending-append ts c.id c (incus_ports_payload c (list_container_ports c.id d)) d in
            rw (e, port_sync_one) (ground (arith, added))
      ]

ports-insert_task :
    (ts id : ℕ) (c : Container) (p : Payload) (d : Db)
    → list_container_ports id (insert_task ts c.node_id c.id "incus_sync_ports" p 0 0 d).1
      ≡ list_container_ports id d
unfolding list_container_ports insert_task
ports-insert_task ts id c p d = refl

one-keeps : (ts : ℕ) (c x : Container) (d : Db) → IsDone d x → IsDone (port_sync_one ts c d) x
unfolding port_sync_one
one-keeps ts c x d h =
    elim (Bool-cases
      (is_empty (list_container_ports c.id d) || has_pending_sync c.id d.node_tasks)) [
        | inl e ↦ rw (e, port_sync_one) h
        | inr e ↦
            let added =
              pending-append ts x.id c (incus_ports_payload c (list_container_ports c.id d)) d in
            let ports : list_container_ports x.id
                  (insert_task ts c.node_id c.id "incus_sync_ports"
                    (incus_ports_payload c (list_container_ports c.id d)) 0 0 d).1
                ≡ list_container_ports x.id d =
              ports-insert_task ts x.id c _ d in
            rw (e, port_sync_one) (ground (arith, h, ports, added))
      ]

one-same : (ts : ℕ) (c : Container) (d : Db) → IsDone d c → port_sync_one ts c d ≡ d
unfolding port_sync_one
one-same ts c d h = rw (h, port_sync_one) refl

one-containers :
    (ts : ℕ) (c : Container) (d : Db) → (port_sync_one ts c d).containers ≡ d.containers
unfolding port_sync_one insert_task
one-containers ts c d = ground arith

each-keeps :
    (ts : ℕ) (cs : List Container) (x : Container) (d : Db)
    → IsDone d x
    → IsDone (port_sync_each ts cs d) x
unfolding port_sync_each
each-keeps ts [] x d h = h
each-keeps ts (c ∷ cs) x d h = each-keeps ts cs x (port_sync_one ts c d) (one-keeps ts c x d h)

each-IsDone : (ts : ℕ) (cs : List Container) (d : Db) → All (IsDone (port_sync_each ts cs d)) cs
unfolding port_sync_each
each-IsDone ts [] d = tt
each-IsDone ts (c ∷ cs) d = (
  each-keeps ts cs c (port_sync_one ts c d) (one-IsDone ts c d),
  each-IsDone ts cs (port_sync_one ts c d),
)

each-same : (ts : ℕ) (cs : List Container) (d : Db) → All (IsDone d) cs → port_sync_each ts cs d ≡ d
unfolding port_sync_each
each-same ts [] d h = refl
each-same ts (c ∷ cs) d (h, hs) = rw (one-same ts c d h) (each-same ts cs d hs)

each-containers :
    (ts : ℕ) (cs : List Container) (d : Db) → (port_sync_each ts cs d).containers ≡ d.containers
unfolding port_sync_each
each-containers ts [] d = refl
each-containers ts (c ∷ cs) d = each-containers ts cs (port_sync_one ts c d) ∙ one-containers ts c d

-- The sweep over the running containers is idempotent: a second one, at any time, enqueues nothing while the first one's
-- tasks still wait.
pub enqueue_running_port_syncs-idempotent :
    (ts later : ℕ) (d : Db)
    → enqueue_running_port_syncs later (enqueue_running_port_syncs ts d)
      ≡ enqueue_running_port_syncs ts d
unfolding enqueue_running_port_syncs
enqueue_running_port_syncs-idempotent ts later d =
    let running = λ (cs : List Container).
      order_by (λ (a b : Container). leb a.id b.id) (select (λ c. str_eq c.status "running") cs) in
    let swept = port_sync_each ts (running d.containers) d in
    let done = each-IsDone ts (running d.containers) d in
    let same = each-containers ts (running d.containers) d in
    each-same later (running swept.containers) swept (rw same done)
