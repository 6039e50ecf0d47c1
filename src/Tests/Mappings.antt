-- ===== src/Tests/Mappings.antt =====
-- The ports and their mappings.
use server_vps.Prelude.{
  ℕ, suc, ◌+◌, ◌≤◌, ◌<◌, String, ◌≡◌, ◌≢◌, ◌⊎◌, inl, inr, ◌↔◌, refl, Bool, true, false, none, some,
  List, [], ◌∷◌, Text, codes, arith, ok, http_error, All, Pairwise, Option, find, text_eq, is_empty,
  ◌==◌,
}
use server_vps.Database.{Db, User, Node, Container, ContainerPort, after}
use server_vps.Ports.Allocate.{Ranges, allocate_port_from_pool, is_used, used_ports}
use server_vps.Ports.Allocate.Exhaustion.{
  allocate_port_from_pool_sound, allocate_port_from_pool_exhausted,
}
use server_vps.Ports.Mappings.{backfill_node_ports}
use server_vps.Ports.Mappings.Unique.{IsValid}
use server_vps.Ports.Mappings.Backfill.{Filled, backfill_node_ports-Filled}
use server_vps.Ports.Keys.{
  IsLine, managed_ssh_keys, join_lines, splitlines, IsClean, IsKept, managed_ssh_keys-IsClean,
}
use server_vps.Containers.PortRoutes.{port_count, create_container_port}
use server_vps.Containers.PortRoutes.Valid.{create_container_port-port_count}
use server_vps.Containers.PortRoutes.Requests.{
  PortRequest, create, remove, run_all, run_all-IsValid,
}
use server_vps.Containers.PortRoutes.Syncs.{enqueue_running_port_syncs-idempotent}
use server_vps.Containers.PortRoutes.{enqueue_running_port_syncs}
use server_vps.Tests.Data.{alice, ssh_port, database, ranges, draws, web_port}

valid : IsValid ranges (database "running")
valid = record {
  apart = (tt, tt);
  legal = (
    (
      omega arith,
      omega arith,
      omega arith,
      inr (omega arith, omega arith),
      inl refl,
      omega arith,
      omega arith,
    ),
    tt,
  );
}

abbrev requests : List (Option User × ℕ × PortRequest)
requests = (some alice, 5, create draws 3 web_port) ∷ (some alice, 6, remove 3 1) ∷ []

run_all-IsValid_example : IsValid ranges (run_all ranges requests (database "running"))
run_all-IsValid_example =
    run_all-IsValid ranges requests (database "running") ((λ j n h. h, λ j n h. h), (tt, tt)) valid

allocate_port_from_pool_sound_example :
    (100 ≤ 101)
    × (101 ≤ 103)
    × (1 ≤ 101)
    × (101 ≤ 65535)
    × (is_used (used_ports "host_port" (ssh_port ∷ [])) 101 ≡ false)
unfolding allocate_port_from_pool server_vps.Ports.Allocate.draw_or_search
    server_vps.Ports.Allocate.try_random is_used used_ports server_vps.Ports.Allocate.column_value
    server_vps.Ports.Allocate.first_free server_vps.Ports.Allocate.least
    server_vps.Ports.Allocate.gap_ends server_vps.Prelude.select
allocate_port_from_pool_sound_example =
    allocate_port_from_pool_sound (λ j n. 0) (ssh_port ∷ []) "host_port" 100 103 (λ j n h. h) 101
      refl

allocate_port_from_pool_exhausted_example :
    ((allocate_port_from_pool (λ j n. 0) (ssh_port ∷ []) "host_port" 100 100 ≡ http_error 409)
      ↔ ((v : ℕ) → 100 ≤ v → v ≤ 100 → is_used (used_ports "host_port" (ssh_port ∷ [])) v ≡ true))
    × ((allocate_port_from_pool (λ j n. 0) (ssh_port ∷ []) "host_port" 100 100 ≡ http_error 409)
        ⊎ ((p : ℕ) × (allocate_port_from_pool (λ j n. 0) (ssh_port ∷ []) "host_port" 100 100
              ≡ ok p)))
allocate_port_from_pool_exhausted_example =
    allocate_port_from_pool_exhausted (λ j n. 0) (ssh_port ∷ []) "host_port" 100 100 (λ j n h. h)
      (inl refl) (omega arith) (omega arith) (omega arith)

-- Two keys, one of them twice.
abbrev two_keys : Text
two_keys = codes "b\n\n a \nb"

managed_ssh_keys-IsClean_example :
    (keys : List Text) × (managed_ssh_keys two_keys ≡ join_lines keys)
    × IsClean keys
    × All (IsLine (splitlines two_keys)) keys
    × All (IsKept keys) (splitlines two_keys)
managed_ssh_keys-IsClean_example = managed_ssh_keys-IsClean two_keys

enqueue_running_port_syncs-idempotent_example :
    enqueue_running_port_syncs 9 (enqueue_running_port_syncs 5 (database "running"))
    ≡ enqueue_running_port_syncs 5 (database "running")
enqueue_running_port_syncs-idempotent_example =
    enqueue_running_port_syncs-idempotent 5 9 (database "running")

-- A row from before node ports existed.
abbrev old_port : ContainerPort
old_port = record ssh_port { node_port = 0 }

backfill_node_ports-Filled_example :
    Filled ranges 2 (record ssh_port { node_port = 200; updated_at = 9 } ∷ [])
unfolding backfill_node_ports server_vps.Prelude.order_by server_vps.Prelude.select
    server_vps.Ports.Allocate.allocate_node_port allocate_port_from_pool
    server_vps.Ports.Allocate.draw_or_search server_vps.Ports.Allocate.try_random is_used used_ports
    server_vps.Ports.Allocate.column_value server_vps.Ports.Mappings.set_node_port
    server_vps.Prelude.update
backfill_node_ports-Filled_example =
    backfill_node_ports-Filled (λ k j n. 0) ranges 9 2 (old_port ∷ [])
      (record ssh_port { node_port = 200; updated_at = 9 } ∷ []) (λ k j m h. h) (tt, tt)
      ((omega arith, omega arith, omega arith, inl refl, inl refl, omega arith, omega arith), tt)
      refl

abbrev web_row : ContainerPort
web_row = record {
  id = 2;
  container_id = 3;
  name = codes "web";
  protocol = codes "tcp";
  container_port = 80;
  host_port = 101;
  node_port = 201;
  created_at = 5;
  updated_at = 5;
}

abbrev after_create : Db
after_create =
    after (create_container_port draws ranges (some alice) 5 3 web_port) (database "stopped")

create_container_port-port_count_example :
    (c : Container) × (n : Node) × (find (λ x. x.id == 3) (database "stopped").containers ≡ some c)
    × (find (λ x. x.id == c.node_id) (database "stopped").nodes ≡ some n)
    × (port_count 3 after_create.container_ports ≤ n.max_ports_per_container)
    × (port_count 3 after_create.container_ports
        ≡ suc (port_count 3 (database "stopped").container_ports))
unfolding create_container_port server_vps.Auth.require_user
    server_vps.Containers.Lifecycle.find_container find
    server_vps.Containers.Lifecycle.require_container_access server_vps.Auth.is_admin_user
    server_vps.Auth.is_admin_group port_count server_vps.Prelude.select
    server_vps.Ports.Mappings.add_container_port server_vps.Ports.Mappings.normalize_port_payload
    text_eq server_vps.Prelude.strip server_vps.Prelude.lstrip server_vps.Prelude.is_space
    server_vps.Prelude.lower server_vps.Prelude.exists server_vps.Ports.Mappings.same_mapping
    server_vps.Ports.Allocate.allocate_host_port server_vps.Ports.Allocate.allocate_node_port
    allocate_port_from_pool server_vps.Ports.Allocate.draw_or_search
    server_vps.Ports.Allocate.try_random is_used used_ports server_vps.Ports.Allocate.column_value
    server_vps.Ports.Allocate.first_free server_vps.Ports.Allocate.least
    server_vps.Ports.Allocate.gap_ends server_vps.Containers.PortRoutes.sync_ports
create_container_port-port_count_example =
    create_container_port-port_count draws ranges (some alice) 5 3 web_port (database "stopped")
      after_create web_row refl
