-- ===== src/Ports/Mappings.antt =====
-- The rows of `container_ports`: `normalize_port_payload`, `add_container_port`,
-- `backfill_node_ports`, `list_container_ports`, and `public_port_payload` of
-- backend/app/containers/ports.py.
pub mod Unique
pub mod Backfill
use server_vps.Prelude.{
  ℕ, zero, suc, ◌+◌, String, Bool, true, false, not, ◌&&◌, ◌||◌, Option, none, some, List, [], ◌∷◌,
  ◌++◌, map, Text, codes, text_eq, strip, lower, is_empty, ltb, leb, ◌==◌, if◌then◌else◌, select,
  exists, update, order_by, Result, ok, http_error,
}
use server_vps.Database.{
  ContainerPort, PublicPort, Container, Db, Tx, pure, query, modify, raise_when, lift, ◌>>=◌, ◌>>◌,
}
use server_vps.Ports.Allocate.{Ranges, allocate_host_port, allocate_node_port}

-- ContainerPortInput; a negative port is refused with the same error as port 0.
pub record PortInput : Type 0 where
  pub name : Text
  pub protocol : Text
  pub container_port : ℕ

unfoldable pub normalize_port_payload : PortInput → Result PortInput
normalize_port_payload payload =
    let protocol = strip (lower payload.protocol) in
    if not (text_eq protocol (codes "tcp") || text_eq protocol (codes "udp"))
    then http_error 400
    else if ltb payload.container_port 1 || ltb 65535 payload.container_port
    then http_error 400
    else ok (record {
      name = strip payload.name;
      protocol = protocol;
      container_port = payload.container_port;
    })

-- The rows with the same container, protocol and inner port.
unfoldable pub same_mapping : ℕ → Text → ℕ → ContainerPort → Bool
same_mapping container_id protocol container_port row =
    row.container_id == container_id
    && text_eq row.protocol protocol
    && row.container_port == container_port

-- The two allocators draw from two random streams.
pub record Draws : Type 0 where
  pub host : ℕ → ℕ → ℕ
  pub node : ℕ → ℕ → ℕ

unfoldable pub add_container_port : Draws → Ranges → ℕ → ℕ → PortInput → Tx ContainerPort
add_container_port draws ranges ts container_id input = do
  payload ← lift (normalize_port_payload input)
  containers ← query (λ d. d.containers)
  raise_when (not (exists (λ (c : Container). c.id == container_id) containers)) 404
  ports ← query (λ d. d.container_ports)
  raise_when (exists (same_mapping container_id payload.protocol payload.container_port) ports) 409
  host_port ← lift (allocate_host_port draws.host ranges ports)
  node_port ← lift (allocate_node_port draws.node ranges ports)
  id ← query (λ d. d.next_port_id)
  let row : ContainerPort = record {
    id = id;
    container_id = container_id;
    name = payload.name;
    protocol = payload.protocol;
    container_port = payload.container_port;
    host_port = host_port;
    node_port = node_port;
    created_at = ts;
    updated_at = ts;
  }
  modify (λ d. record d { container_ports = d.container_ports ++ row ∷ []; next_port_id = id + 1 })
  pure row

-- UPDATE container_ports SET node_port, updated_at WHERE id
unfoldable pub set_node_port : ℕ → ℕ → ℕ → List ContainerPort → List ContainerPort
set_node_port id node_port ts =
    update (λ row. row.id == id) (λ row. record row { node_port = node_port; updated_at = ts })

-- The loop of `backfill_node_ports` over the rows without a node port; round k draws from `draw k`.
unfoldable pub backfill_rows :
    (ℕ → ℕ → ℕ → ℕ)
    → Ranges
    → ℕ
    → ℕ
    → List ContainerPort
    → List ContainerPort
    → Result (List ContainerPort)
backfill_rows draw ranges ts k [] ports = ok ports
backfill_rows draw ranges ts k (row ∷ rows) ports =
    elim (allocate_node_port (draw k) ranges ports) [
      | http_error code ↦ http_error code
      | ok p ↦ backfill_rows draw ranges ts (k + 1) rows (set_node_port row.id p ts ports)
    ]

unfoldable pub backfill_node_ports :
    (ℕ → ℕ → ℕ → ℕ) → Ranges → ℕ → List ContainerPort → Result (List ContainerPort)
unfolding backfill_rows
backfill_node_ports draw ranges ts ports =
    backfill_rows draw ranges ts 0
      (order_by (λ a b. leb a.id b.id) (select (λ row. row.node_port == 0) ports)) ports

unfoldable pub public_port_payload : ContainerPort → PublicPort
public_port_payload port = record {
  id = port.id;
  name = port.name;
  protocol = port.protocol;
  container_port = port.container_port;
  host_port = port.host_port;
  node_port = port.node_port;
  public_port = port.host_port;
  node_listen_port = port.node_port;
}

-- ORDER BY host_port, id
unfoldable pub port_before : ContainerPort → ContainerPort → Bool
port_before a b = ltb a.host_port b.host_port || (a.host_port == b.host_port && leb a.id b.id)

unfoldable pub list_container_ports : ℕ → Db → List PublicPort
list_container_ports container_id d =
    map public_port_payload
      (order_by port_before (select (λ row. row.container_id == container_id) d.container_ports))
