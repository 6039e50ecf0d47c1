-- ===== src/PortRouter/Served.antt =====
-- The port router on the backend's answers: mappings of running containers and listeners.
use server_vps.Prelude.{
  ℕ, ◌≤◌, ◌≡◌, refl, sym, ap, ◌∙◌, ◌⊎◌, inl, inr, Bool, true, false, Option, some, List, [], ◌∷◌,
  Text, codes, text_eq_iff, arith, lower, if◌then◌else◌, Dict, lookup, NodupKeys, lookup-insert,
  IsIn, All, All-IsIn, All-of_IsIn, Pairwise-IsIn, IsIn-order_by, order_by-IsIn, order_by, ok,
  Option-cases, Bool-cases,
}
use server_vps.Database.{Db, Container, Node, ContainerPort}
use server_vps.Ports.Allocate.{Ranges}
use server_vps.Ports.Mappings.{port_before}
use server_vps.Ports.Mappings.Unique.{IsValid, Apart, IsLegal}
use server_vps.PortRouter.{
  PortRow, Route, Key, same_key, add_route, add_routes, route_of, fetch_routes, Listeners,
  is_skipped, sync_round, run_rounds,
}
use server_vps.PortRouter.Backend.{
  joined, is_routed, port_row, port_rows, internal_port_routes, check_router_token,
}
use server_vps.PortRouter.Rounds.{
  same_key_iff, same_route_iff, served, sync_round-lookup, run_rounds-NodupKeys,
}

add_route-lookup :
    (item : PortRow) (routes : Dict Key Route) (k : Key)
    → lookup same_key k (add_route item routes) ≡ (
        if is_skipped (lower item.protocol) item
        then lookup same_key k routes
        else if same_key k (lower item.protocol, item.host_port)
        then some (route_of item)
        else lookup same_key k routes)
unfolding add_route
add_route-lookup item routes k = ground (
  arith,
  lookup-insert same_key same_key_iff k (lower item.protocol, item.host_port) (route_of item)
      routes,
)

-- Whether an item is one for the port p.
abbrev Agrees : ℕ → PortRow → PortRow → Type 0
Agrees p item x = x.host_port ≡ p → x ≡ item

add_route-own :
    (item x : PortRow) (routes : Dict Key Route)
    → is_skipped (lower item.protocol) item ≡ false
    → x ≡ item
    → lookup same_key (lower item.protocol, item.host_port) (add_route x routes)
      ≡ some (route_of item)
add_route-own item x routes h e =
    let key : Key = (lower item.protocol, item.host_port) in
    rw e (ground (arith, h, add_route-lookup item routes key, same_key_iff key key))

add_route-other :
    (x : PortRow) (routes : Dict Key Route) (k : Key)
    → same_key k (lower x.protocol, x.host_port) ≡ false
    → lookup same_key k (add_route x routes) ≡ lookup same_key k routes
add_route-other x routes k e = ground (arith, e, add_route-lookup x routes k)

-- The only item of its port, once met, stays in the dict.
add_routes-lookup :
    (item : PortRow) (items : List PortRow) (routes : Dict Key Route)
    → is_skipped (lower item.protocol) item ≡ false
    → All (Agrees item.host_port item) items
    → (lookup same_key (lower item.protocol, item.host_port) routes ≡ some (route_of item))
      ⊎ IsIn item items
    → lookup same_key (lower item.protocol, item.host_port) (add_routes items routes)
      ≡ some (route_of item)
unfolding add_routes
add_routes-lookup item [] routes h agree (inl e) = e
add_routes-lookup item [] routes h agree (inr i) = absurd i
add_routes-lookup item (x ∷ items) routes h agree start =
    let key : Key = (lower item.protocol, item.host_port) in
    let key' : Key = (lower x.protocol, x.host_port) in
    add_routes-lookup item items (add_route x routes) h agree.1
      (elim (Bool-cases (same_key key key')) [
        | inl s ↦
            let port : x.host_port ≡ item.host_port =
              ap (λ (k : Key). k.1) (sym ((same_key_iff key key').0 s)) in
            inl (add_route-own item x routes h (agree.0 port))
        | inr s ↦ elim start [
          | inl e ↦ inl (add_route-other x routes key s ∙ e)
          | inr (inl i) ↦ inl (add_route-own item x routes h (sym i))
          | inr (inr i) ↦ inr i
        ]
      ])

add_routes_sound :
    (items : List PortRow) (routes : Dict Key Route) (k : Key) (r : Route)
    → lookup same_key k (add_routes items routes) ≡ some r
    → (lookup same_key k routes ≡ some r)
      ⊎ ((item : PortRow) × IsIn item items
          × (k ≡ (lower item.protocol, item.host_port))
          × (r ≡ route_of item))
unfolding add_routes
add_routes_sound [] routes k r h = inl h
add_routes_sound (x ∷ items) routes k r h =
    elim (add_routes_sound items (add_route x routes) k r h) [
      | inr (item, i, e, f) ↦ inr (item, inr i, e, f)
      | inl e ↦ elim (Bool-cases (same_key k (lower x.protocol, x.host_port))) [
        | inr s ↦ inl (sym (add_route-other x routes k s) ∙ e)
        | inl s ↦ elim (Bool-cases (is_skipped (lower x.protocol) x)) [
          | inl skipped ↦ inl (ground (arith, e, skipped, add_route-lookup x routes k))
          | inr kept ↦ inr (
            x,
            inl refl,
            (same_key_iff k (lower x.protocol, x.host_port)).0 s,
            ground (arith, e, s, kept, add_route-lookup x routes k),
          )
        ]
      ]
    ]

port_rows-IsIn :
    (d : Db) (rows : List ContainerPort) (cp : ContainerPort) (c : Container) (n : Node)
    → IsIn cp rows
    → joined d cp ≡ some (c, n)
    → is_routed c n cp ≡ true
    → IsIn (port_row c n cp) (port_rows d rows)
unfolding port_rows
port_rows-IsIn d [] cp c n i e f = absurd i
port_rows-IsIn d (x ∷ rows) cp c n (inl i) e f = rw (← i) (ground (arith, e, f))
port_rows-IsIn d (x ∷ rows) cp c n (inr i) e f = ground (arith, port_rows-IsIn d rows cp c n i e f)

-- The item is the row of a mapping among `rows`.
abbrev pub ComesFrom : Db → List ContainerPort → PortRow → Type 0
ComesFrom d rows item =
    (cp : ContainerPort) × (c : Container) × (n : Node) × IsIn cp rows
    × (joined d cp ≡ some (c, n))
    × (is_routed c n cp ≡ true)
    × (item ≡ port_row c n cp)

IsIn-port_rows :
    (d : Db) (rows : List ContainerPort) (item : PortRow)
    → IsIn item (port_rows d rows)
    → ComesFrom d rows item
unfolding port_rows
IsIn-port_rows d [] item i = absurd i
IsIn-port_rows d (x ∷ rows) item i =
    let deeper : IsIn item (port_rows d rows) → ComesFrom d (x ∷ rows) item = λ j.
      let (cp, c, n, k, e, f, g) = IsIn-port_rows d rows item j in (cp, c, n, inr k, e, f, g) in
    elim (Option-cases (joined d x)) [
      | inl e ↦ deeper (ground (arith, e, i))
      | inr ((c, n), e) ↦ elim (Bool-cases (is_routed c n x)) [
        | inr f ↦ deeper (ground (arith, e, f, i))
        | inl f ↦
            let here : (item ≡ port_row c n x) ⊎ IsIn item (port_rows d rows) =
              ground (arith, e, f, i) in
            elim here [ inl g ↦ (x, c, n, inl refl, e, f, g) | inr j ↦ deeper j ]
      ]
    ]

-- Two mappings with one host port are one.
same_row :
    (r : Ranges) (d : Db) (a b : ContainerPort)
    → IsValid r d
    → IsIn a d.container_ports
    → IsIn b d.container_ports
    → a.host_port ≡ b.host_port
    → a ≡ b
same_row r d a b v i j e = elim (Pairwise-IsIn Apart d.container_ports a b v.apart i j) [
  | inl same ↦ same
  | inr (inl apart) ↦ absurd (apart.1 e)
  | inr (inr apart) ↦ absurd (apart.1 (sym e))
]

lower_legal :
    (protocol : Text)
    → (protocol ≡ codes "tcp") ⊎ (protocol ≡ codes "udp")
    → (lower protocol ≡ protocol)
      × ((lower protocol ≡ codes "tcp") ⊎ (lower protocol ≡ codes "udp"))
unfolding lower
lower_legal protocol (inl e) = rw e (refl, inl refl)
lower_legal protocol (inr e) = rw e (refl, inr refl)

port_row-is_skipped :
    (r : Ranges) (d : Db) (cp : ContainerPort) (c : Container) (n : Node)
    → IsLegal r d.next_port_id cp
    → 1 ≤ r.host_start
    → is_routed c n cp ≡ true
    → is_skipped (lower cp.protocol) (port_row c n cp) ≡ false
unfolding is_skipped is_routed port_row
port_row-is_skipped r d cp c n (id, low, high, node, known, inner, outer) start h = ground (
  arith,
  lower_legal cp.protocol known,
  text_eq_iff (lower cp.protocol) (codes "tcp"),
  text_eq_iff (lower cp.protocol) (codes "udp"),
  low,
  start,
  h,
)

-- A row of the answer with the port of a routed mapping is the row of that mapping.
port_rows-Agrees :
    (r : Ranges) (d : Db) (cp : ContainerPort) (c : Container) (n : Node) (x : PortRow)
    → IsValid r d
    → IsIn cp d.container_ports
    → joined d cp ≡ some (c, n)
    → IsIn x (port_rows d (order_by port_before d.container_ports))
    → Agrees cp.host_port (port_row c n cp) x
unfolding port_row
port_rows-Agrees r d cp c n x v i join k port =
    let rows = order_by port_before d.container_ports in
    let (cp', c', n', j, join', _, row) = IsIn-port_rows d rows x k in
    let same : cp' ≡ cp =
      same_row r d cp' cp v (IsIn-order_by port_before cp' d.container_ports j) i
        (sym (ap (λ (y : PortRow). y.host_port) row) ∙ port) in
    ground (arith, row, same, join, join')

round-serves :
    (binds : Route → Bool) (r : Ranges) (d : Db) (listeners : Listeners) (cp : ContainerPort)
    (c : Container) (n : Node)
    → IsValid r d
    → 1 ≤ r.host_start
    → NodupKeys same_key listeners
    → IsIn cp d.container_ports
    → joined d cp ≡ some (c, n)
    → is_routed c n cp ≡ true
    → binds (route_of (port_row c n cp)) ≡ true
    → lookup same_key
        (cp.protocol, cp.host_port)
        (sync_round binds (some (port_rows d (order_by port_before d.container_ports))) listeners)
      ≡ some (route_of (port_row c n cp))
unfolding served port_row fetch_routes
round-serves binds r d listeners cp c n v start nodup i join routed bound =
    let rows = order_by port_before d.container_ports in
    let item = port_row c n cp in
    let legal = All-IsIn (IsLegal r d.next_port_id) d.container_ports cp v.legal i in
    let key : Key = (cp.protocol, cp.host_port) in
    let (known, _) = lower_legal cp.protocol legal.4 in
    let agree : All (Agrees cp.host_port item) (port_rows d rows) =
      All-of_IsIn (Agrees cp.host_port item) (port_rows d rows)
        (λ x k. port_rows-Agrees r d cp c n x v i join k) in
    let listed : IsIn item (port_rows d rows) =
      port_rows-IsIn d rows cp c n (order_by-IsIn port_before cp d.container_ports i) join routed in
    let met =
      add_routes-lookup item (port_rows d rows) []
        (port_row-is_skipped r d cp c n legal start routed) agree (inr listed) in
    let wanted : lookup same_key key (fetch_routes (port_rows d rows)) ≡ some (route_of item) =
      rw known at met in
    elim (Option-cases (lookup same_key key listeners)) [
      | inl e ↦
          ground (
            arith,
            sync_round-lookup binds (port_rows d rows) listeners key nodup,
            wanted,
            e,
            bound,
          )
      | inr (old, e) ↦ ground (
        arith,
        sync_round-lookup binds (port_rows d rows) listeners key nodup,
        wanted,
        e,
        bound,
        same_route_iff (route_of item) old,
      )
    ]

wanted_of_served :
    (binds : Route → Bool) (items : List PortRow) (listeners : Listeners) (k : Key) (route : Route)
    → NodupKeys same_key listeners
    → lookup same_key k (sync_round binds (some items) listeners) ≡ some route
    → (item : PortRow) × IsIn item items
      × (k ≡ (lower item.protocol, item.host_port))
      × (route ≡ route_of item)
unfolding served fetch_routes lookup
wanted_of_served binds items listeners k route nodup h =
    let after = sync_round-lookup binds items listeners k nodup in
    let found : lookup same_key k (add_routes items []) ≡ some route =
      elim (Option-cases (lookup same_key k (add_routes items []))) [
        | inl e ↦ absurd (ground (arith, after, h, e))
        | inr (wanted, e) ↦ elim (Option-cases (lookup same_key k listeners)) [
          | inl f ↦ ground (arith, after, h, e, f)
          | inr (old, f) ↦ ground (arith, after, h, e, f, same_route_iff wanted old)
        ]
      ] in
    elim (add_routes_sound items [] k route found) [
      | inl e ↦ absurd (ground (arith, e))
      | inr w ↦ w
    ]

round_sound :
    (binds : Route → Bool) (d : Db) (listeners : Listeners) (k : Key) (route : Route)
    → NodupKeys same_key listeners
    → lookup same_key k
        (sync_round binds (some (port_rows d (order_by port_before d.container_ports))) listeners)
      ≡ some route
    → (cp : ContainerPort) × (c : Container) × (n : Node) × IsIn cp d.container_ports
      × (joined d cp ≡ some (c, n))
      × (is_routed c n cp ≡ true)
      × (k ≡ (lower cp.protocol, cp.host_port))
      × (route ≡ route_of (port_row c n cp))
unfolding port_row
round_sound binds d listeners k route nodup h =
    let rows = order_by port_before d.container_ports in
    let (item, i, key, same) =
      wanted_of_served binds (port_rows d rows) listeners k route nodup h in
    let (cp, c, n, j, join, routed, row) = IsIn-port_rows d rows item i in
    (
      cp,
      c,
      n,
      IsIn-order_by port_before cp d.container_ports j,
      join,
      routed,
      key ∙ ap (λ (x : PortRow). (lower x.protocol, x.host_port)) row,
      same ∙ ap route_of row,
    )

internal_port_routes-rows :
    (expected token : Text) (d d' : Db) (items : List PortRow)
    → internal_port_routes expected token d ≡ ok (items, d')
    → items ≡ port_rows d (order_by port_before d.container_ports)
unfolding internal_port_routes check_router_token
internal_port_routes-rows expected token d d' items h = ground (arith, h)

-- In a table of mappings without conflicts, after any rounds and one more that the backend answers, the public port
-- of each mapping of a running container, whose node has a known address and whose node port is set, leads
-- to the node port of that mapping, if the system lets the router bind the public port.
pub run_rounds-serves :
    (rounds : List ((Route → Bool) × Option (List PortRow))) (binds : Route → Bool)
    (expected token : Text) (items : List PortRow) (r : Ranges) (d d' : Db) (cp : ContainerPort)
    (c : Container) (n : Node)
    → IsValid r d
    → 1 ≤ r.host_start
    → internal_port_routes expected token d ≡ ok (items, d')
    → IsIn cp d.container_ports
    → joined d cp ≡ some (c, n)
    → is_routed c n cp ≡ true
    → binds (route_of (port_row c n cp)) ≡ true
    → lookup same_key
        (cp.protocol, cp.host_port)
        (sync_round binds (some items) (run_rounds rounds []))
      ≡ some (route_of (port_row c n cp))
run_rounds-serves rounds binds expected token items r d d' cp c n v start answer i join routed
      bound =
    rw (internal_port_routes-rows expected token d d' items answer) (
      round-serves binds r d (run_rounds rounds []) cp c n v start
        (run_rounds-NodupKeys rounds [] tt) i join routed bound)

-- After any rounds and one more that the backend answers, a listener leads to the node port of a mapping of a
-- running container that has the listener's public port.
pub run_rounds_sound :
    (rounds : List ((Route → Bool) × Option (List PortRow))) (binds : Route → Bool)
    (expected token : Text) (items : List PortRow) (d d' : Db) (k : Key) (route : Route)
    → internal_port_routes expected token d ≡ ok (items, d')
    → lookup same_key k (sync_round binds (some items) (run_rounds rounds [])) ≡ some route
    → (cp : ContainerPort) × (c : Container) × (n : Node) × IsIn cp d.container_ports
      × (joined d cp ≡ some (c, n))
      × (is_routed c n cp ≡ true)
      × (k ≡ (lower cp.protocol, cp.host_port))
      × (route ≡ route_of (port_row c n cp))
run_rounds_sound rounds binds expected token items d d' k route answer h =
    let rows = internal_port_routes-rows expected token d d' items answer in
    let after = rw rows at h in
    round_sound binds d (run_rounds rounds []) k route (run_rounds-NodupKeys rounds [] tt) after
