-- ===== src/Ports/Mappings/Unique.antt =====
-- `add_container_port` and conflicts in the table of port mappings.
use server_vps.Prelude.{
  ℕ, ◌+◌, ◌≤◌, ◌<◌, ◌≡◌, ◌≢◌, ◌⊎◌, inl, inr, true, false, List, [], ◌∷◌, ◌++◌, codes, text_eq_iff,
  ◌==◌, arith, exists, All, All-append, Pairwise, Pairwise-insert, ok, Result-cases,
}
use server_vps.Database.{ContainerPort, Container, Db}
use server_vps.Ports.Allocate.{
  Ranges, column_value, used_ports, is_used, allocate_host_port, allocate_node_port,
}
use server_vps.Ports.Allocate.Exhaustion.{allocate_port_from_pool_sound}
use server_vps.Ports.Mappings.{
  PortInput, Draws, normalize_port_payload, same_mapping, add_container_port,
}

-- Two rows that can stand in the table together. Rows from before the column existed have the node
-- port 0, which several may share.
abbrev pub Apart : ContainerPort → ContainerPort → Type 0
Apart a b =
    (a.id ≢ b.id)
    × (a.host_port ≢ b.host_port)
    × ((a.node_port ≢ b.node_port) ⊎ (a.node_port ≡ 0))
    × (same_mapping b.container_id b.protocol b.container_port a ≡ false)

abbrev pub IsLegal : Ranges → ℕ → ContainerPort → Type 0
IsLegal r next row =
    (row.id < next)
    × (r.host_start ≤ row.host_port)
    × (row.host_port ≤ r.host_end)
    × ((row.node_port ≡ 0) ⊎ ((r.node_start ≤ row.node_port) × (row.node_port ≤ r.node_end)))
    × ((row.protocol ≡ codes "tcp") ⊎ (row.protocol ≡ codes "udp"))
    × (1 ≤ row.container_port)
    × (row.container_port ≤ 65535)

pub record IsValid (r : Ranges) (d : Db) : Type 0 where
  pub apart : Pairwise Apart d.container_ports
  pub legal : All (IsLegal r d.next_port_id) d.container_ports

-- A payload that passes `normalize_port_payload` has a known protocol and a legal port.
pub normalize_port_payload_sound :
    (input payload : PortInput)
    → normalize_port_payload input ≡ ok payload
    → ((payload.protocol ≡ codes "tcp") ⊎ (payload.protocol ≡ codes "udp"))
      × (1 ≤ payload.container_port)
      × (payload.container_port ≤ 65535)
unfolding normalize_port_payload
normalize_port_payload_sound input payload h =
    ground (
      arith,
      text_eq_iff payload.protocol (codes "tcp"),
      text_eq_iff payload.protocol (codes "udp"),
    )

module _ (draws : Draws) (r : Ranges) (ts container_id : ℕ) (input : PortInput) where
  -- What a successful call has checked and done.
  abbrev pub Added : Db → ContainerPort → Db → Type 0
  Added d row d' =
      (payload : PortInput) × (normalize_port_payload input ≡ ok payload)
      × (exists (λ (c : Container). c.id == container_id) d.containers ≡ true)
      × (exists (same_mapping container_id payload.protocol payload.container_port)
            d.container_ports
          ≡ false)
      × (allocate_host_port draws.host r d.container_ports ≡ ok row.host_port)
      × (allocate_node_port draws.node r d.container_ports ≡ ok row.node_port)
      × (row.id ≡ d.next_port_id)
      × (row.container_id ≡ container_id)
      × (row.name ≡ payload.name)
      × (row.protocol ≡ payload.protocol)
      × (row.container_port ≡ payload.container_port)
      × (d' ≡ record d {
        container_ports = d.container_ports ++ row ∷ [];
        next_port_id = d.next_port_id + 1;
      })

  pub add_container_port_inv :
      (d d' : Db) (row : ContainerPort)
      → add_container_port draws r ts container_id input d ≡ ok (row, d')
      → Added d row d'
  unfolding add_container_port
  add_container_port_inv d d' row h = elim (Result-cases (normalize_port_payload input)) [
    | inr (n, e) ↦ absurd (ground (arith, e))
    | inl (payload, e) ↦ (
      payload,
      e,
      ground (arith, e),
      ground (arith, e),
      ground (arith, e),
      ground (arith, e),
      ground (arith, e),
      ground (arith, e),
      ground (arith, e),
      ground (arith, e),
      ground (arith, e),
      ground (arith, e),
    )
  ]

pub free_host :
    (ports : List ContainerPort) (p : ℕ)
    → is_used (used_ports "host_port" ports) p ≡ false
    → All (λ row. row.host_port ≢ p) ports
unfolding is_used used_ports column_value
free_host [] p h = tt
free_host (row ∷ ports) p h = ground (arith, free_host ports p)

pub free_node :
    (ports : List ContainerPort) (p : ℕ)
    → is_used (used_ports "node_port" ports) p ≡ false
    → All (λ row. row.node_port ≢ p) ports
unfolding is_used used_ports column_value
free_node [] p h = tt
free_node (row ∷ ports) p h = ground (arith, free_node ports p)

-- A row is apart from all others that its id, its two ports and its mapping are new to.
All-Apart :
    (ports : List ContainerPort) (row : ContainerPort) (r : Ranges)
    → All (IsLegal r row.id) ports
    → All (λ x. x.host_port ≢ row.host_port) ports
    → All (λ x. x.node_port ≢ row.node_port) ports
    → exists (same_mapping row.container_id row.protocol row.container_port) ports ≡ false
    → All (λ x. Apart x row) ports
unfolding exists
All-Apart [] row r ids hosts nodes maps = tt
All-Apart (x ∷ ports) row r ids hosts nodes maps =
    ground (arith, All-Apart ports row r ids.1 hosts.1 nodes.1)

All-IsLegal-suc :
    (ports : List ContainerPort) (r : Ranges) (n : ℕ)
    → All (IsLegal r n) ports
    → All (IsLegal r (n + 1)) ports
All-IsLegal-suc [] r n h = tt
All-IsLegal-suc (x ∷ ports) r n h = ground (arith, All-IsLegal-suc ports r n h.1)

module _ (draws : Draws) (r : Ranges) (ts container_id : ℕ) (input : PortInput) where
  -- `add_container_port` keeps the table free of conflicts: no two rows share an id, a host port, a
  -- nonzero node port, or a container with protocol and inner port; and every row stays legal.
  pub add_container_port-IsValid :
      ((j n : ℕ) → 0 < n → draws.host j n < n)
      → ((j n : ℕ) → 0 < n → draws.node j n < n)
      → (d d' : Db) (row : ContainerPort) → IsValid r d
      → add_container_port draws r ts container_id input d ≡ ok (row, d')
      → IsValid r d'
  unfolding allocate_host_port allocate_node_port
  add_container_port-IsValid fair fair' d d' row v h =
      let (payload, norm, _, fresh, host, node, id, owner, _, proto, inner, e) =
        add_container_port_inv draws r ts container_id input d d' row h in
      let hosts =
        allocate_port_from_pool_sound draws.host d.container_ports "host_port" r.host_start
          r.host_end fair row.host_port host in
      let nodes =
        allocate_port_from_pool_sound draws.node d.container_ports "node_port" r.node_start
          r.node_end fair' row.node_port node in
      let apart =
        All-Apart d.container_ports row r (rw id v.legal)
          (free_host d.container_ports row.host_port hosts.4)
          (free_node d.container_ports row.node_port nodes.4) (rw (owner, proto, inner) fresh) in
      let legal : IsLegal r (d.next_port_id + 1) row =
        ground (arith, normalize_port_payload_sound input payload norm) in
      rw e (record {
        apart = Pairwise-insert Apart d.container_ports row v.apart apart;
        legal =
            All-append (IsLegal r (d.next_port_id + 1)) d.container_ports (row ∷ [])
              (All-IsLegal-suc d.container_ports r d.next_port_id v.legal) (legal, tt);
      })
