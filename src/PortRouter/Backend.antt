-- ===== src/PortRouter/Backend.antt =====
-- backend/app/internal/routes.py: the two tables of routes that the backend hands to the port router and to the path
-- proxy.
use server_vps.Prelude.{
  ℕ, String, str_eq, Bool, not, ◌&&◌, ◌||◌, Option, none, some, List, [], ◌∷◌, Text, codes, text_eq,
  is_empty, ltb, leb, ◌==◌, if◌then◌else◌, find, order_by,
}
use server_vps.Database.{Db, Container, Node, ContainerPort, Tx, query, raise_when, ◌>>◌}
use server_vps.Ports.Mappings.{port_before}
use server_vps.Scheduler.Select.{text_before}
use server_vps.PortRouter.{PortRow}

-- PORT_ROUTER_TOKEN and token != PORT_ROUTER_TOKEN
unfoldable pub check_router_token : Text → Text → Tx Unit
check_router_token expected token =
    raise_when (not (is_empty expected) && not (text_eq token expected)) 403

-- JOIN containers c ON c.id = cp.container_id JOIN nodes n ON n.id = c.node_id
unfoldable pub joined : Db → ContainerPort → Option (Container × Node)
joined d cp = elim (find (λ (c : Container). c.id == cp.container_id) d.containers) [
  | none ↦ none
  | some c ↦ elim (find (λ (n : Node). n.id == c.node_id) d.nodes) [
    | none ↦ none
    | some n ↦ some (c, n)
  ]
]

-- The WHERE clause that both queries share.
unfoldable pub is_routed : Container → Node → ContainerPort → Bool
is_routed c n cp =
    str_eq c.status "running"
    && not (is_empty n.ip)
    && not (text_eq n.ip (codes "unknown"))
    && ltb 0 cp.node_port

unfoldable pub port_row : Container → Node → ContainerPort → PortRow
port_row c n cp = record {
  protocol = cp.protocol;
  container_port = cp.container_port;
  host_port = cp.host_port;
  node_port = cp.node_port;
  container_name = c.name;
  node_ip = n.ip;
}

unfoldable pub port_rows : Db → List ContainerPort → List PortRow
port_rows d [] = []
port_rows d (cp ∷ rows) =
    let rest = port_rows d rows in
    elim (joined d cp) [
      | none ↦ rest
      | some (c, n) ↦ if is_routed c n cp then port_row c n cp ∷ rest else rest
    ]

unfoldable pub internal_port_routes : Text → Text → Tx (List PortRow)
internal_port_routes expected token = do
  check_router_token expected token
  query (λ d. port_rows d (order_by port_before d.container_ports))

-- A row of the second table, for the path proxy.
pub record PathRow : Type 0 where
  pub container_name : String
  pub node_ip : Text
  pub node_port : ℕ
  pub port_name : Text
  pub id : ℕ

-- cp.protocol = 'tcp' AND cp.name = ANY(_WEB_PORT_NAMES)
unfoldable pub is_web_port : ContainerPort → Bool
is_web_port cp =
    text_eq cp.protocol (codes "tcp")
    && (text_eq cp.name (codes "code-server")
        || text_eq cp.name (codes "jupyterlab")
        || text_eq cp.name (codes "web"))

unfoldable pub path_row : Container → Node → ContainerPort → PathRow
path_row c n cp = record {
  container_name = c.name;
  node_ip = n.ip;
  node_port = cp.node_port;
  port_name = cp.name;
  id = cp.id;
}

unfoldable pub path_rows : Db → List ContainerPort → List PathRow
path_rows d [] = []
path_rows d (cp ∷ rows) =
    let rest = path_rows d rows in
    elim (joined d cp) [
      | none ↦ rest
      | some (c, n) ↦ if is_routed c n cp && is_web_port cp then path_row c n cp ∷ rest else rest
    ]

-- ORDER BY c.name, cp.id, where container names are plain ASCII
unfoldable pub path_before : PathRow → PathRow → Bool
path_before a b =
    if str_eq a.container_name b.container_name
    then leb a.id b.id
    else text_before (codes a.container_name) (codes b.container_name)

unfoldable pub internal_path_routes : Text → Text → Tx (List PathRow)
internal_path_routes expected token = do
  check_router_token expected token
  query (λ d. order_by path_before (path_rows d d.container_ports))
