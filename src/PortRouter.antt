-- ===== src/PortRouter.antt =====
-- backend/app/port_router.py: the table of routes and the listeners of the port router, round by round. What a
-- request to the backend answers and whether the system lets a port be bound are parameters; the sockets
-- and the bytes that pass through them are not modelled.
pub mod Backend
pub mod Rounds
pub mod Served
use server_vps.Prelude.{
  ℕ, String, Bool, true, false, not, ◌&&◌, ◌||◌, Option, none, some, List, [], ◌∷◌, Text, codes,
  text_eq, str_eq, lower, is_empty, ◌==◌, if◌then◌else◌, Dict, lookup, insert, select,
}

-- An entry of the list `routes` that the backend answers with.
pub record PortRow : Type 0 where
  pub protocol : Text
  pub container_port : ℕ
  pub host_port : ℕ
  pub node_port : ℕ
  pub container_name : String
  pub node_ip : Text

pub record Route : Type 0 where
  pub protocol : Text
  pub public_port : ℕ
  pub node_ip : Text
  pub node_port : ℕ
  pub container_name : String
  pub container_port : ℕ

-- (protocol, public_port)
abbrev pub Key : Type 0
Key = Text × ℕ

unfoldable pub same_key : Key → Key → Bool
same_key j k = text_eq j.0 k.0 && j.1 == k.1

-- `==` of the frozen dataclass
unfoldable pub same_route : Route → Route → Bool
same_route a b =
    text_eq a.protocol b.protocol
    && a.public_port == b.public_port
    && text_eq a.node_ip b.node_ip
    && a.node_port == b.node_port
    && str_eq a.container_name b.container_name
    && a.container_port == b.container_port

-- protocol not in {"tcp", "udp"} or public_port <= 0 or node_port <= 0 or not node_ip
unfoldable pub is_skipped : Text → PortRow → Bool
is_skipped protocol item =
    not (text_eq protocol (codes "tcp") || text_eq protocol (codes "udp"))
    || item.host_port == 0
    || item.node_port == 0
    || is_empty item.node_ip

unfoldable pub route_of : PortRow → Route
route_of item = record {
  protocol = lower item.protocol;
  public_port = item.host_port;
  node_ip = item.node_ip;
  node_port = item.node_port;
  container_name = item.container_name;
  container_port = item.container_port;
}

unfoldable pub add_route : PortRow → Dict Key Route → Dict Key Route
add_route item routes =
    let protocol = lower item.protocol in
    if is_skipped protocol item
    then routes
    else insert same_key (protocol, item.host_port) (route_of item) routes

-- The loop of `fetch_routes` over the items of an answer.
unfoldable pub add_routes : List PortRow → Dict Key Route → Dict Key Route
add_routes [] routes = routes
add_routes (item ∷ items) routes = add_routes items (add_route item routes)

unfoldable pub fetch_routes : List PortRow → Dict Key Route
unfolding add_routes
fetch_routes items = add_routes items []

-- The listeners by their keys, each with its `route`.
abbrev pub Listeners : Type 0
Listeners = Dict Key Route

-- route == getattr(listener, "route", None), where `route` is routes.get(key)
unfoldable pub is_current : Dict Key Route → Key × Route → Bool
is_current routes (key, route) = elim (lookup same_key key routes) [
  | none ↦ false
  | some wanted ↦ same_route wanted route
]

-- The first loop of a round: a listener whose route is gone or has changed is closed.
unfoldable pub close_stale : Dict Key Route → Listeners → Listeners
close_stale routes = select (is_current routes)

-- if key in listeners: continue, and otherwise a listener, unless the port cannot be bound.
unfoldable pub open_one : (Route → Bool) → Key → Route → Listeners → Listeners
open_one binds key route listeners = elim (lookup same_key key listeners) [
  | some listener ↦ listeners
  | none ↦ if binds route then insert same_key key route listeners else listeners
]

-- The second loop, over the routes.
unfoldable pub open_missing : (Route → Bool) → List (Key × Route) → Listeners → Listeners
open_missing binds [] listeners = listeners
open_missing binds ((key, route) ∷ routes) listeners =
    open_missing binds routes (open_one binds key route listeners)

-- One round of `main`; a request that fails leaves the listeners as they are.
unfoldable pub sync_round : (Route → Bool) → Option (List PortRow) → Listeners → Listeners
sync_round binds none listeners = listeners
sync_round binds (some items) listeners =
    let routes = fetch_routes items in open_missing binds routes (close_stale routes listeners)

-- `main` from its start, round after round.
unfoldable pub run_rounds : List ((Route → Bool) × Option (List PortRow)) → Listeners → Listeners
run_rounds [] listeners = listeners
run_rounds ((binds, answer) ∷ rounds) listeners =
    run_rounds rounds (sync_round binds answer listeners)
