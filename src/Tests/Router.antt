-- ===== src/Tests/Router.antt =====
-- The port router on one running container.
use server_vps.Prelude.{
  ◌≡◌, ◌≤◌, refl, inl, inr, arith, Bool, true, Option, none, some, [], ◌∷◌, List, codes, lower,
  lookup, IsIn,
}
use server_vps.Database.{Db, Node, Container, ContainerPort}
use server_vps.Ports.Mappings.Unique.{IsValid}
use server_vps.PortRouter.{
  PortRow, Route, Key, same_key, fetch_routes, route_of, sync_round, run_rounds,
}
use server_vps.PortRouter.Backend.{joined, is_routed, port_row, internal_port_routes}
use server_vps.PortRouter.Rounds.{served, sync_round-lookup}
use server_vps.PortRouter.Served.{run_rounds-serves, run_rounds_sound}
use server_vps.Tests.Data.{node, container, ssh_port, database, ranges}

abbrev reachable : Node
reachable = record node { ip = codes "10.0.0.7" }

abbrev running : Db
running = record (database "running") { nodes = reachable ∷ [] }

abbrev row : PortRow
row = port_row (container "running") reachable ssh_port

abbrev all_bound : Route → Bool
all_bound route = true

abbrev ssh_key : Key
ssh_key = (codes "tcp", 100)

running-IsValid : IsValid ranges running
running-IsValid = record {
  apart = (tt, tt);
  legal = (
    (
      omega arith,
      omega arith,
      omega arith,
      inr (omega arith, omega arith),
      inl refl,
      omega arith,
      omega arith,
    ),
    tt,
  );
}

sync_round-lookup_example :
    lookup same_key ssh_key (sync_round all_bound (some (row ∷ [])) [])
    ≡ served all_bound
        (lookup same_key ssh_key (fetch_routes (row ∷ [])))
        (lookup same_key ssh_key [])
sync_round-lookup_example = sync_round-lookup all_bound (row ∷ []) [] ssh_key tt

run_rounds-serves_example :
    lookup same_key ssh_key
      (sync_round all_bound (some (row ∷ [])) (run_rounds ((all_bound, none) ∷ []) []))
    ≡ some (route_of row)
unfolding internal_port_routes server_vps.PortRouter.Backend.check_router_token
    server_vps.PortRouter.Backend.port_rows server_vps.Prelude.order_by joined
    server_vps.Prelude.find is_routed server_vps.Prelude.text_eq
run_rounds-serves_example =
    run_rounds-serves ((all_bound, none) ∷ []) all_bound [] [] (row ∷ []) ranges running running
      ssh_port (container "running") reachable running-IsValid (omega arith) refl (inl refl) refl
      refl refl

run_rounds_sound_example :
    (cp : ContainerPort) × (c : Container) × (n : Node) × IsIn cp running.container_ports
    × (joined running cp ≡ some (c, n))
    × (is_routed c n cp ≡ true)
    × (ssh_key ≡ (lower cp.protocol, cp.host_port))
    × (route_of row ≡ route_of (port_row c n cp))
unfolding internal_port_routes server_vps.PortRouter.Backend.check_router_token
    server_vps.PortRouter.Backend.port_rows server_vps.Prelude.order_by joined
    server_vps.Prelude.find is_routed server_vps.Prelude.text_eq lookup sync_round run_rounds
    server_vps.PortRouter.open_missing fetch_routes server_vps.PortRouter.add_route
    server_vps.PortRouter.is_skipped lower port_row server_vps.Prelude.insert
    server_vps.PortRouter.add_routes server_vps.PortRouter.close_stale
    server_vps.PortRouter.is_current server_vps.PortRouter.open_one route_of same_key
    server_vps.PortRouter.same_route server_vps.Ports.Mappings.port_before
    server_vps.Prelude.insert_by server_vps.Prelude.select
run_rounds_sound_example =
    run_rounds_sound [] all_bound [] [] (row ∷ []) running running ssh_key (route_of row) refl refl
