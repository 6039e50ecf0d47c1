-- ===== src/Ports/Mappings/Backfill.antt =====
-- The old rows of the table under `backfill_node_ports`.
use server_vps.Prelude.{
  ℕ, ◌+◌, ◌≤◌, ◌<◌, ◌≡◌, ◌≢◌, ◌⊎◌, inl, inr, Bool, true, List, [], ◌∷◌, leb, ◌==◌, arith, exists,
  select, update, order_by, All, All-update, All-of_IsIn, IsIn, exists-order_by, Pairwise,
  Pairwise-update, ok, Result-cases,
}
use server_vps.Database.{ContainerPort}
use server_vps.Ports.Allocate.{Ranges, allocate_node_port}
use server_vps.Ports.Allocate.Exhaustion.{allocate_port_from_pool_sound}
use server_vps.Ports.Mappings.{same_mapping, set_node_port, backfill_rows, backfill_node_ports}
use server_vps.Ports.Mappings.Unique.{Apart, IsLegal, free_node}

-- The rows that the loop still has to visit hold every row without a node port.
abbrev IsPending : List ContainerPort → ContainerPort → Type 0
IsPending rows x = (x.node_port ≢ 0) ⊎ (exists (λ row. row.id == x.id) rows ≡ true)

set_node_port-Apart :
    (id p ts : ℕ) (ports : List ContainerPort)
    → All (λ x. x.node_port ≢ p) ports
    → Pairwise Apart ports
    → Pairwise Apart (set_node_port id p ts ports)
unfolding set_node_port same_mapping
set_node_port-Apart id p ts ports free h =
    Pairwise-update Apart (λ x. x.node_port ≢ p) (λ row. row.id == id)
      (λ row. record row { node_port = p; updated_at = ts }) ports (λ a b qa qb ab. ground arith)
      free h

set_node_port-IsLegal :
    (r : Ranges) (n id p ts : ℕ) (ports : List ContainerPort)
    → r.node_start ≤ p
    → p ≤ r.node_end
    → All (IsLegal r n) ports
    → All (IsLegal r n) (set_node_port id p ts ports)
unfolding set_node_port
set_node_port-IsLegal r n id p ts ports low high h =
    All-update (IsLegal r n) (λ row. row.id == id)
      (λ row. record row { node_port = p; updated_at = ts }) ports (λ a l t. ground arith) h

set_node_port-IsPending :
    (row : ContainerPort) (rows : List ContainerPort) (p ts : ℕ) (ports : List ContainerPort)
    → 1 ≤ p
    → All (IsPending (row ∷ rows)) ports
    → All (IsPending rows) (set_node_port row.id p ts ports)
unfolding set_node_port exists update
set_node_port-IsPending row rows p ts [] pos h = tt
set_node_port-IsPending row rows p ts (x ∷ ports) pos h =
    ground (arith, set_node_port-IsPending row rows p ts ports pos h.1)

abbrev pub Filled : Ranges → ℕ → List ContainerPort → Type 0
Filled r n ports = Pairwise Apart ports × All (IsLegal r n) ports × All (λ x. x.node_port ≢ 0) ports

module _ (r : Ranges) (ts n : ℕ) where
  nonzero_of_IsPending :
      (ports : List ContainerPort) → All (IsPending []) ports → All (λ x. x.node_port ≢ 0) ports
  unfolding exists
  nonzero_of_IsPending [] h = tt
  nonzero_of_IsPending (x ∷ ports) h = ground (arith, nonzero_of_IsPending ports h.1)

  backfill_rows-Filled :
      (draw : ℕ → ℕ → ℕ → ℕ)
      → ((k j m : ℕ) → 0 < m → draw k j m < m)
      → (k : ℕ) (rows ports ports' : List ContainerPort) → Pairwise Apart ports
      → All (IsLegal r n) ports
      → All (IsPending rows) ports
      → backfill_rows draw r ts k rows ports ≡ ok ports'
      → Filled r n ports'
  unfolding backfill_rows allocate_node_port
  backfill_rows-Filled draw fair k [] ports ports' a l p h =
      let full : Filled r n ports = (a, l, nonzero_of_IsPending ports p) in ground (arith, full)
  backfill_rows-Filled draw fair k (row ∷ rows) ports ports' a l p h =
      elim (Result-cases (allocate_node_port (draw k) r ports)) [
        | inr (c, e) ↦ absurd (ground (arith, e))
        | inl (q, e) ↦
            let new =
              allocate_port_from_pool_sound (draw k) ports "node_port" r.node_start r.node_end
                (fair k) q e in
            backfill_rows-Filled draw fair (k + 1) rows (set_node_port row.id q ts ports) ports'
              (set_node_port-Apart row.id q ts ports (free_node ports q new.4) a)
              (set_node_port-IsLegal r n row.id q ts ports new.0 new.1 l)
              (set_node_port-IsPending row rows q ts ports new.2 p) (ground (arith, e))
      ]

exists-select_zero :
    (x : ContainerPort) (ports : List ContainerPort)
    → IsIn x ports
    → x.node_port ≡ 0
    → exists (λ row. row.id == x.id) (select (λ row. row.node_port == 0) ports) ≡ true
unfolding exists select
exists-select_zero x [] h z = absurd h
exists-select_zero x (y ∷ ports) h z = ground (arith, exists-select_zero x ports)

-- `backfill_node_ports`, on a table without conflicts, leaves a table without conflicts in which
-- every row is legal and has a node port, if it does not raise.
pub backfill_node_ports-Filled :
    (draw : ℕ → ℕ → ℕ → ℕ) (r : Ranges) (ts n : ℕ) (ports ports' : List ContainerPort)
    → ((k j m : ℕ) → 0 < m → draw k j m < m)
    → Pairwise Apart ports
    → All (IsLegal r n) ports
    → backfill_node_ports draw r ts ports ≡ ok ports'
    → Filled r n ports'
unfolding backfill_node_ports
backfill_node_ports-Filled draw r ts n ports ports' fair a l h =
    let before : ContainerPort → ContainerPort → Bool = λ x y. leb x.id y.id in
    let zeros = select (λ (row : ContainerPort). row.node_port == 0) ports in
    let pending : (x : ContainerPort) → IsIn x ports → IsPending (order_by before zeros) x = λ x i.
      ground (
        arith,
        exists-order_by before (λ row. row.id == x.id) zeros,
        exists-select_zero x ports i,
      ) in
    backfill_rows-Filled r ts n draw fair 0 (order_by before zeros) ports ports' a l
      (All-of_IsIn (IsPending (order_by before zeros)) ports pending) h
