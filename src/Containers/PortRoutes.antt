-- ===== src/Containers/PortRoutes.antt =====
-- `create_container_port`, `update_container_port`, `delete_container_port` and `has_ssh_port` of
-- backend/app/containers/routes.py; `incus_ports_payload` and `enqueue_running_port_syncs` of
-- backend/app/containers/ports.py.
pub mod Valid
pub mod Requests
pub mod Syncs
use server_vps.Prelude.{
  ℕ, ◌+◌, String, str_eq, Bool, true, false, not, ◌&&◌, ◌||◌, Option, none, some, List, [], ◌∷◌,
  Text, codes, text_eq, lower, is_empty, length, leb, ◌==◌, if◌then◌else◌, select, find, exists,
  update, delete, order_by,
}
use server_vps.Database.{
  Db, Container, ContainerPort, PublicPort, Node, User, Payload, empty_payload, NodeTask, Tx, pure,
  query, modify, raise_when, found_or, lift, when, audit, ◌>>=◌, ◌>>◌,
}
use server_vps.Auth.{require_user}
use server_vps.Ports.Allocate.{Ranges}
use server_vps.Ports.Mappings.{
  PortInput, Draws, normalize_port_payload, same_mapping, add_container_port, list_container_ports,
}
use server_vps.Ports.Keys.{managed_ssh_keys}
use server_vps.Tasks.Queue.{insert_task, enqueue_node_task}
use server_vps.Tasks.Results.Success.{update_container, mark_access_pending}
use server_vps.Containers.Lifecycle.{require_container_access, find_container}

unfoldable pub has_ssh_port : List PublicPort → Bool
has_ssh_port =
    exists (λ port. text_eq (lower port.protocol) (codes "tcp") && port.container_port == 22)

unfoldable pub incus_ports_payload : Container → List PublicPort → Payload
incus_ports_payload c ports = record empty_payload {
  container_id = c.id;
  name = c.name;
  ssh_username = c.ssh_username;
  ssh_key = managed_ssh_keys c.ssh_key;
  mounts = c.mounts;
  managed_mounts = c.managed_mounts;
  ports = ports;
}

-- What each of the three routes does last: the node of a running container gets its new ports.
unfoldable pub sync_ports : ℕ → ℕ → Container → Tx Unit
sync_ports ts container_id c = when (str_eq c.status "running") (do
  ports ← query (list_container_ports container_id)
  when (has_ssh_port ports) (modify (update_container container_id (mark_access_pending ts)))
  task ←
      enqueue_node_task ts c.node_id container_id "incus_sync_ports" (incus_ports_payload c ports) 0
        0
  pure tt)

-- SELECT COUNT(*) FROM container_ports WHERE container_id = ...
unfoldable pub port_count : ℕ → List ContainerPort → ℕ
port_count container_id rows = length (select (λ row. row.container_id == container_id) rows)

unfoldable pub create_container_port :
    Draws → Ranges → Option User → ℕ → ℕ → PortInput → Tx ContainerPort
create_container_port draws ranges request ts container_id input = do
  user ← require_user request
  container ← find_container container_id
  nodes ← query (λ d. d.nodes)
  node ← found_or 404 (find (λ (n : Node). n.id == container.node_id) nodes)
  require_container_access user container
  raise_when (not node.allow_port_mapping) 400
  rows ← query (λ d. d.container_ports)
  raise_when (leb node.max_ports_per_container (port_count container_id rows)) 400
  port ← add_container_port draws ranges ts container_id input
  sync_ports ts container_id container
  audit "admin" "create" "container-port" port.id ts
  pure port

-- UPDATE container_ports SET name, protocol, container_port, updated_at WHERE id AND container_id
unfoldable pub set_mapping : ℕ → ℕ → PortInput → ℕ → List ContainerPort → List ContainerPort
set_mapping port_id container_id payload ts =
    update (λ row. row.id == port_id && row.container_id == container_id)
      (λ row. record row {
        name = payload.name;
        protocol = payload.protocol;
        container_port = payload.container_port;
        updated_at = ts;
      })

unfoldable pub update_container_port : Option User → ℕ → ℕ → ℕ → PortInput → Tx Unit
update_container_port request ts container_id port_id input = do
  payload ← lift (normalize_port_payload input)
  user ← require_user request
  container ← find_container container_id
  require_container_access user container
  rows ← query (λ d. d.container_ports)
  raise_when (not (exists (λ row. row.id == port_id && row.container_id == container_id) rows)) 404
  raise_when
      (exists
        (λ row.
          same_mapping container_id payload.protocol payload.container_port row
          && not (row.id == port_id))
        rows)
      409
  modify λ d. record d {
    container_ports = set_mapping port_id container_id payload ts d.container_ports;
  }
  sync_ports ts container_id container
  audit "admin" "update" "container-port" port_id ts

unfoldable pub delete_container_port : Option User → ℕ → ℕ → ℕ → Tx Unit
delete_container_port request ts container_id port_id = do
  user ← require_user request
  container ← find_container container_id
  require_container_access user container
  rows ← query (λ d. d.container_ports)
  let is_row = λ (row : ContainerPort). row.id == port_id && row.container_id == container_id
  raise_when (not (exists is_row rows)) 404
  modify (λ d. record d { container_ports = delete is_row d.container_ports })
  sync_ports ts container_id container
  audit "admin" "delete" "container-port" port_id ts

-- The query for a pending synchronisation of the ports.
unfoldable pub has_pending_sync : ℕ → List NodeTask → Bool
has_pending_sync container_id = exists (λ t.
    t.container_id == container_id
    && str_eq t.task_type "incus_sync_ports"
    && (str_eq t.status "pending" || str_eq t.status "running"))

unfoldable pub port_sync_one : ℕ → Container → Db → Db
port_sync_one ts c d =
    let ports = list_container_ports c.id d in
    if is_empty ports || has_pending_sync c.id d.node_tasks
    then d
    else (insert_task ts c.node_id c.id "incus_sync_ports" (incus_ports_payload c ports) 0 0 d).1

unfoldable pub port_sync_each : ℕ → List Container → Db → Db
unfolding port_sync_one
port_sync_each ts [] d = d
port_sync_each ts (c ∷ cs) d = port_sync_each ts cs (port_sync_one ts c d)

unfoldable pub enqueue_running_port_syncs : ℕ → Db → Db
unfolding port_sync_each
enqueue_running_port_syncs ts d =
    port_sync_each ts
      (order_by (λ a b. leb a.id b.id) (select (λ c. str_eq c.status "running") d.containers)) d
