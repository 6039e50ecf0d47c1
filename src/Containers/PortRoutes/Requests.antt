-- ===== src/Containers/PortRoutes/Requests.antt =====
-- Changes and deletions of port mappings, and any sequence of requests.
use server_vps.Prelude.{
  ℕ, ◌≤◌, ◌<◌, ◌≡◌, ◌⊎◌, inl, inr, Bool, false, not, ◌&&◌, Option, List, [], ◌∷◌, codes,
  text_eq_iff, ◌==◌, arith, find, exists, update, delete, exists-false, All, All-select, All-update,
  Pairwise-select, Pairwise-update, changed, Option-cases, Bool-cases, ok, Result-cases,
}
use server_vps.Database.{Db, Container, ContainerPort, User, after, after-keeps}
use server_vps.Auth.{require_user}
use server_vps.Ports.Allocate.{Ranges}
use server_vps.Ports.Mappings.{PortInput, Draws, normalize_port_payload, same_mapping}
use server_vps.Ports.Mappings.Unique.{
  Apart, IsLegal, IsValid, normalize_port_payload_sound, add_container_port-IsValid,
}
use server_vps.Containers.Lifecycle.{require_container_access, find_container}
use server_vps.Containers.PortRoutes.{
  create_container_port, set_mapping, update_container_port, delete_container_port,
}
use server_vps.Containers.PortRoutes.Valid.{
  IsValid-SamePorts, sync_ports_total, create_container_port_inv,
}

module _ (port_id id ts : ℕ) (payload : PortInput) where
  is_row : ContainerPort → Bool
  is_row row = row.id == port_id && row.container_id == id

  set_row : ContainerPort → ContainerPort
  set_row row = record row {
    name = payload.name;
    protocol = payload.protocol;
    container_port = payload.container_port;
    updated_at = ts;
  }

  -- What the query for duplicates has found of each row.
  abbrev IsFree : ContainerPort → Type 0
  IsFree x =
      (same_mapping id payload.protocol payload.container_port x && not (x.id == port_id)) ≡ false

  changed-Apart :
      (a b : ContainerPort)
      → IsFree a
      → IsFree b
      → Apart a b
      → Apart (changed Apart IsFree is_row set_row a) (changed Apart IsFree is_row set_row b)
  unfolding is_row set_row same_mapping
  changed-Apart a b qa qb (ids, hosts, nodes, maps) =
      let left = text_eq_iff a.protocol payload.protocol in
      let right = text_eq_iff payload.protocol b.protocol in
      let back = text_eq_iff b.protocol payload.protocol in
      elim (Bool-cases (is_row a)) [
        | inl e ↦ (
          ground (arith, e, ids),
          ground (arith, hosts),
          ground (arith, nodes),
          ground (arith, e, ids, qb, right, back),
        )
        | inr e ↦ elim (Bool-cases (is_row b)) [
          | inl f ↦ (
            ground (arith, e, f, ids),
            ground (arith, hosts),
            ground (arith, nodes),
            ground (arith, e, f, ids, qa, left),
          )
          | inr f ↦ rw (e, f, is_row) (ids, hosts, nodes, maps)
        ]
      ]

  changed-IsLegal :
      (r : Ranges) (next : ℕ) (rows : List ContainerPort)
      → ((payload.protocol ≡ codes "tcp") ⊎ (payload.protocol ≡ codes "udp"))
        × (1 ≤ payload.container_port)
        × (payload.container_port ≤ 65535)
      → All (IsLegal r next) rows
      → All (IsLegal r next) (update is_row set_row rows)
  unfolding set_row
  changed-IsLegal r next rows checked legal =
      All-update (IsLegal r next) is_row set_row rows
        (λ a q e. (q.0, q.1, q.2, q.3, checked.0, checked.1, checked.2)) legal

  set_mapping-IsValid :
      (r : Ranges) (d : Db)
      → ((payload.protocol ≡ codes "tcp") ⊎ (payload.protocol ≡ codes "udp"))
        × (1 ≤ payload.container_port)
        × (payload.container_port ≤ 65535)
      → exists
          (λ row.
            same_mapping id payload.protocol payload.container_port row && not (row.id == port_id))
          d.container_ports
        ≡ false
      → IsValid r d
      → IsValid r
          (record d { container_ports = set_mapping port_id id payload ts d.container_ports })
  unfolding set_mapping is_row set_row
  set_mapping-IsValid r d checked fresh v = record {
    apart =
        Pairwise-update Apart IsFree is_row set_row d.container_ports changed-Apart
          (exists-false _ d.container_ports fresh) v.apart;
    legal = changed-IsLegal r d.next_port_id d.container_ports checked v.legal;
  }

-- A change of a mapping keeps the table free of conflicts.
update_container_port-IsValid :
    (r : Ranges) (request : Option User) (ts id port_id : ℕ) (input : PortInput) (d d' : Db)
    → update_container_port request ts id port_id input d ≡ ok (tt, d')
    → IsValid r d
    → IsValid r d'
unfolding update_container_port require_user find_container require_container_access
update_container_port-IsValid r request ts id port_id input d d' h v =
    elim (Result-cases (normalize_port_payload input)) [
      | inr (code, k) ↦ absurd (ground (arith, k, h))
      | inl (payload, k) ↦ elim (Option-cases request) [
        | inl e ↦ absurd (ground (arith, k, e, h))
        | inr (user, e) ↦ elim (Option-cases (find (λ (x : Container). x.id == id) d.containers)) [
          | inl f ↦ absurd (ground (arith, k, e, f, h))
          | inr (c, f) ↦
              let mapped = record d {
                container_ports = set_mapping port_id id payload ts d.container_ports;
              } in
              let (last, done, same) = sync_ports_total ts id c mapped in
              let fresh : exists
                    (λ row.
                      same_mapping id payload.protocol payload.container_port row
                      && not (row.id == port_id))
                    d.container_ports
                  ≡ false =
                ground (arith, k, e, f, h) in
              let legal = normalize_port_payload_sound input payload k in
              let valid = set_mapping-IsValid port_id id ts payload r d legal fresh v in
              IsValid-SamePorts r mapped d'
                (ground (arith, k, e, f, h, done, same), ground (arith, k, e, f, h, done, same))
                valid
        ]
      ]
    ]

-- So does a deletion.
delete_container_port-IsValid :
    (r : Ranges) (request : Option User) (ts id port_id : ℕ) (d d' : Db)
    → delete_container_port request ts id port_id d ≡ ok (tt, d')
    → IsValid r d
    → IsValid r d'
unfolding delete_container_port require_user find_container require_container_access delete
delete_container_port-IsValid r request ts id port_id d d' h v = elim (Option-cases request) [
  | inl e ↦ absurd (ground (arith, e, h))
  | inr (user, e) ↦ elim (Option-cases (find (λ (x : Container). x.id == id) d.containers)) [
    | inl f ↦ absurd (ground (arith, e, f, h))
    | inr (c, f) ↦
        let is_row = λ (row : ContainerPort). row.id == port_id && row.container_id == id in
        let left = record d { container_ports = delete is_row d.container_ports } in
        let (last, done, same) = sync_ports_total ts id c left in
        let valid : IsValid r left = record {
          apart = Pairwise-select Apart (λ x. not (is_row x)) d.container_ports v.apart;
          legal =
              All-select (IsLegal r d.next_port_id) (λ x. not (is_row x)) d.container_ports v.legal;
        } in
        IsValid-SamePorts r left d'
          (ground (arith, e, f, h, done, same), ground (arith, e, f, h, done, same)) valid
  ]
]

-- A request for a port mapping, with the draws that it may make.
pub data PortRequest : Type 0 where
  create : (draws : Draws) (container_id : ℕ) (input : PortInput) → PortRequest
  change : (container_id port_id : ℕ) (input : PortInput) → PortRequest
  remove : (container_id port_id : ℕ) → PortRequest

-- `secrets.randbelow(n)` is below n.
abbrev pub IsFair : PortRequest → Type 0
IsFair (create draws id input) =
    ((j n : ℕ) → 0 < n → draws.host j n < n) × ((j n : ℕ) → 0 < n → draws.node j n < n)
IsFair (change id port_id input) = Unit
IsFair (remove id port_id) = Unit

module _ (r : Ranges) where
  unfoldable pub run : Option User → ℕ → PortRequest → Db → Db
  run request ts (create draws id input) d =
      after (create_container_port draws r request ts id input) d
  run request ts (change id port_id input) d =
      after (update_container_port request ts id port_id input) d
  run request ts (remove id port_id) d = after (delete_container_port request ts id port_id) d

  -- The first request of the list runs first; each has its user and its time.
  unfoldable pub run_all : List (Option User × ℕ × PortRequest) → Db → Db
  unfolding run
  run_all [] d = d
  run_all ((request, ts, op) ∷ rest) d = run_all rest (run request ts op d)

  run-IsValid :
      (request : Option User) (ts : ℕ) (op : PortRequest) (d : Db)
      → IsFair op
      → IsValid r d
      → IsValid r (run request ts op d)
  unfolding run
  run-IsValid request ts (create draws id input) d (host, node) v =
      after-keeps (IsValid r) (create_container_port draws r request ts id input) d v (λ row d' e.
        let (_, _, mid, _, _, _, _, added, same) =
          create_container_port_inv draws r request ts id input d d' row e in
        IsValid-SamePorts r mid d' same
          (add_container_port-IsValid draws r ts id input host node d mid row v added))
  run-IsValid request ts (change id port_id input) d fair v =
      after-keeps (IsValid r) (update_container_port request ts id port_id input) d v
        (λ u d' e. update_container_port-IsValid r request ts id port_id input d d' e v)
  run-IsValid request ts (remove id port_id) d fair v =
      after-keeps (IsValid r) (delete_container_port request ts id port_id) d v
        (λ u d' e. delete_container_port-IsValid r request ts id port_id d d' e v)

  -- From a table without conflicts, whatever mappings users create, change and delete, in any order and with any
  -- draws in range, no two mappings share an id, a host port, a nonzero node port, or a container with its protocol and
  -- inner port, and every mapping stays within the pools.
  pub run_all-IsValid :
      (ops : List (Option User × ℕ × PortRequest)) (d : Db)
      → All (λ op. IsFair op.2) ops
      → IsValid r d
      → IsValid r (run_all ops d)
  unfolding run_all
  run_all-IsValid [] d fair v = v
  run_all-IsValid ((request, ts, op) ∷ rest) d (fair, fairs) v =
      run_all-IsValid rest (run request ts op d) fairs (run-IsValid request ts op d fair v)
