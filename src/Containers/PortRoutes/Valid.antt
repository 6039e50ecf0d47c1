-- ===== src/Containers/PortRoutes/Valid.antt =====
-- The table of port mappings under the three routes: what a creation has checked.
use server_vps.Prelude.{
  ℕ, suc, ◌≤◌, ◌<◌, ◌≡◌, inl, inr, true, Option, some, List, [], ◌∷◌, ◌++◌, ◌==◌, arith, select,
  find, Option-cases, ok, Result-cases,
}
use server_vps.Database.{Db, Container, ContainerPort, Node, User}
use server_vps.Auth.{require_user}
use server_vps.Ports.Allocate.{Ranges}
use server_vps.Ports.Mappings.{PortInput, Draws, add_container_port}
use server_vps.Ports.Mappings.Unique.{IsValid, add_container_port_inv}
use server_vps.Tasks.Queue.{insert_task, enqueue_node_task}
use server_vps.Tasks.Results.Success.{update_container}
use server_vps.Containers.Lifecycle.{require_container_access, find_container}
use server_vps.Containers.PortRoutes.{sync_ports, port_count, create_container_port}

-- Two databases with the same ports.
abbrev pub SamePorts : Db → Db → Type 0
SamePorts d e = (e.container_ports ≡ d.container_ports) × (e.next_port_id ≡ d.next_port_id)

pub IsValid-SamePorts : (r : Ranges) (d e : Db) → SamePorts d e → IsValid r d → IsValid r e
IsValid-SamePorts r d e (same, next) v = record {
  apart = rw same v.apart;
  legal = rw (same, next) v.legal;
}

-- The last step of a route never fails, and leaves the ports alone.
pub sync_ports_total :
    (ts id : ℕ) (c : Container) (d : Db)
    → (d' : Db) × (sync_ports ts id c d ≡ ok (tt, d')) × SamePorts d d'
unfolding sync_ports update_container enqueue_node_task insert_task
sync_ports_total ts id c d = elim (Result-cases (sync_ports ts id c d)) [
  | inl ((_, d'), e) ↦ (d', e, (ground (arith, e), ground (arith, e)))
  | inr (code, e) ↦ absurd (ground (arith, e))
]

module _ (draws : Draws) (r : Ranges) (request : Option User) (ts id : ℕ) (input : PortInput) where
  -- What a creation that succeeds has checked and done to the ports.
  abbrev pub Created : Db → ContainerPort → Db → Type 0
  Created d row d' =
      (c : Container) × (n : Node) × (e : Db) × (find (λ x. x.id == id) d.containers ≡ some c)
      × (find (λ x. x.id == c.node_id) d.nodes ≡ some n)
      × (n.allow_port_mapping ≡ true)
      × (port_count id d.container_ports < n.max_ports_per_container)
      × (add_container_port draws r ts id input d ≡ ok (row, e))
      × SamePorts e d'

  pub create_container_port_inv :
      (d d' : Db) (row : ContainerPort)
      → create_container_port draws r request ts id input d ≡ ok (row, d')
      → Created d row d'
  unfolding create_container_port require_user find_container require_container_access
  create_container_port_inv d d' row h = elim (Option-cases request) [
    | inl e ↦ absurd (ground (arith, e, h))
    | inr (user, e) ↦ elim (Option-cases (find (λ (x : Container). x.id == id) d.containers)) [
      | inl f ↦ absurd (ground (arith, e, f, h))
      | inr (c, f) ↦ elim (Option-cases (find (λ (x : Node). x.id == c.node_id) d.nodes)) [
        | inl g ↦ absurd (ground (arith, e, f, g, h))
        | inr (n, g) ↦ elim (Result-cases (add_container_port draws r ts id input d)) [
          | inr (code, k) ↦ absurd (ground (arith, e, f, g, k, h))
          | inl ((made, e'), k) ↦
              let (last, done, same) = sync_ports_total ts id c e' in
              (
                c,
                n,
                e',
                f,
                g,
                ground (arith, e, f, g, k, h),
                ground (arith, e, f, g, k, h),
                ground (arith, e, f, g, k, done, h),
                (
                  ground (arith, e, f, g, k, done, same, h),
                  ground (arith, e, f, g, k, done, same, h),
                ),
              )
        ]
      ]
    ]
  ]

port_count-append :
    (id : ℕ) (rows : List ContainerPort) (row : ContainerPort)
    → row.container_id ≡ id
    → port_count id (rows ++ row ∷ []) ≡ suc (port_count id rows)
unfolding port_count select
port_count-append id [] row h = ground (arith, h)
port_count-append id (x ∷ rows) row h = ground (arith, port_count-append id rows row h)

-- A creation that succeeds leaves the container with at most the number of mappings that its node allows.
pub create_container_port-port_count :
    (draws : Draws) (r : Ranges) (request : Option User) (ts id : ℕ) (input : PortInput) (d d' : Db)
    (row : ContainerPort)
    → create_container_port draws r request ts id input d ≡ ok (row, d')
    → (c : Container) × (n : Node) × (find (λ x. x.id == id) d.containers ≡ some c)
      × (find (λ x. x.id == c.node_id) d.nodes ≡ some n)
      × (port_count id d'.container_ports ≤ n.max_ports_per_container)
      × (port_count id d'.container_ports ≡ suc (port_count id d.container_ports))
create_container_port-port_count draws r request ts id input d d' row h =
    let (c, n, e, f, g, _, below, added, (same, _)) =
      create_container_port_inv draws r request ts id input d d' row h in
    let (_, _, _, _, _, _, _, owner, _, _, _, rows) =
      add_container_port_inv draws r ts id input d e row added in
    let grown : port_count id d'.container_ports ≡ suc (port_count id d.container_ports) =
      rw (same, rows) (port_count-append id d.container_ports row owner) in
    (c, n, f, g, omega (arith, grown, below), grown)
