-- ===== src/PortRouter/Rounds.antt =====
-- The listeners after a round, key by key.
use server_vps.Prelude.{
  Bool-cases, lower, ◌≡◌, refl, ◌↔◌, Bool, true, Option, none, some, List, [], ◌∷◌, text_eq_iff,
  eq_iff, arith, if◌then◌else◌, Dict, lookup, NodupKeys, lookup-insert, insert-NodupKeys,
  lookup-select, select-NodupKeys, Option-cases, inl, inr,
}
use server_vps.PortRouter.{
  PortRow, Route, Key, same_key, same_route, add_route, route_of, open_one, add_routes,
  fetch_routes, Listeners, is_current, close_stale, open_missing, sync_round, run_rounds,
}

pub same_key_iff : (j k : Key) → (same_key j k ≡ true) ↔ (j ≡ k)
unfolding same_key
same_key_iff (p, m) (q, n) = ground (arith, text_eq_iff p q)

pub same_route_iff : (a b : Route) → (same_route a b ≡ true) ↔ (a ≡ b)
unfolding same_route
same_route_iff a b = ground (
  arith,
  text_eq_iff a.protocol b.protocol,
  text_eq_iff a.node_ip b.node_ip,
  eq_iff a.container_name b.container_name,
)

-- A dict built by `insert` holds each key once.
pub add_routes-NodupKeys :
    (items : List PortRow) (routes : Dict Key Route)
    → NodupKeys same_key routes
    → NodupKeys same_key (add_routes items routes)
unfolding add_routes add_route
add_routes-NodupKeys [] routes h = h
add_routes-NodupKeys (item ∷ items) routes h = add_routes-NodupKeys items (add_route item routes) (
    ground (
      arith,
      h,
      insert-NodupKeys same_key same_key_iff (lower item.protocol, item.host_port) (route_of item)
          routes,
    ))

pub fetch_routes-NodupKeys : (items : List PortRow) → NodupKeys same_key (fetch_routes items)
unfolding fetch_routes
fetch_routes-NodupKeys items = add_routes-NodupKeys items [] tt

-- What a key that is wanted as `wanted` and served as `current` is served as after a round.
unfoldable pub served : (Route → Bool) → Option Route → Option Route → Option Route
served binds none current = none
served binds (some route) none = if binds route then some route else none
served binds (some route) (some old) =
    if same_route route old then some old else if binds route then some route else none

-- The second loop on its own: what is there stays, and what is missing is opened.
unfoldable pub filled : (Route → Bool) → Option Route → Option Route → Option Route
filled binds wanted (some old) = some old
filled binds none none = none
filled binds (some route) none = if binds route then some route else none

open_one-lookup :
    (binds : Route → Bool) (j k : Key) (r : Route) (listeners : Listeners)
    → lookup same_key k (open_one binds j r listeners) ≡ (
        if same_key k j
        then filled binds (some r) (lookup same_key k listeners)
        else lookup same_key k listeners)
unfolding open_one filled
open_one-lookup binds j k r listeners = elim (Bool-cases (same_key k j)) [
  | inl e ↦
      let at : k ≡ j = (same_key_iff k j).0 e in
      rw at (ground (arith, same_key_iff j j, lookup-insert same_key same_key_iff j j r listeners))
  | inr e ↦ ground (arith, e, lookup-insert same_key same_key_iff k j r listeners)
]

open_missing-lookup :
    (binds : Route → Bool) (routes : Dict Key Route) (listeners : Listeners) (k : Key)
    → NodupKeys same_key routes
    → lookup same_key k (open_missing binds routes listeners)
      ≡ filled binds (lookup same_key k routes) (lookup same_key k listeners)
unfolding open_missing filled lookup
open_missing-lookup binds [] listeners k h = elim (Option-cases (lookup same_key k listeners)) [
  | inl e ↦ rw e refl
  | inr (old, e) ↦ rw e refl
]
open_missing-lookup binds ((j, r) ∷ routes) listeners k h = elim (Bool-cases (same_key k j)) [
  | inl e ↦
      let at : k ≡ j = (same_key_iff k j).0 e in
      rw at (
        ground (
          arith,
          open_missing-lookup binds routes (open_one binds j r listeners) j h.1,
          open_one-lookup binds j j r listeners,
          same_key_iff j j,
          h.0,
        ))
  | inr e ↦ ground (
    arith,
    e,
    open_missing-lookup binds routes (open_one binds j r listeners) k h.1,
    open_one-lookup binds j k r listeners,
  )
]

open_missing-NodupKeys :
    (binds : Route → Bool) (routes : Dict Key Route) (listeners : Listeners)
    → NodupKeys same_key listeners
    → NodupKeys same_key (open_missing binds routes listeners)
unfolding open_missing open_one
open_missing-NodupKeys binds [] listeners h = h
open_missing-NodupKeys binds ((j, r) ∷ routes) listeners h =
    open_missing-NodupKeys binds routes (open_one binds j r listeners)
      (ground (arith, h, insert-NodupKeys same_key same_key_iff j r listeners))

sync_round-NodupKeys :
    (binds : Route → Bool) (answer : Option (List PortRow)) (listeners : Listeners)
    → NodupKeys same_key listeners
    → NodupKeys same_key (sync_round binds answer listeners)
unfolding sync_round close_stale
sync_round-NodupKeys binds none listeners h = h
sync_round-NodupKeys binds (some items) listeners h =
    open_missing-NodupKeys binds (fetch_routes items) (close_stale (fetch_routes items) listeners)
      (select-NodupKeys same_key same_key_iff (is_current (fetch_routes items)) listeners h)

-- The router never has two listeners for one key.
pub run_rounds-NodupKeys :
    (rounds : List ((Route → Bool) × Option (List PortRow))) (listeners : Listeners)
    → NodupKeys same_key listeners
    → NodupKeys same_key (run_rounds rounds listeners)
unfolding run_rounds
run_rounds-NodupKeys [] listeners h = h
run_rounds-NodupKeys ((binds, answer) ∷ rounds) listeners h =
    run_rounds-NodupKeys rounds (sync_round binds answer listeners)
      (sync_round-NodupKeys binds answer listeners h)

-- After a round that the backend has answered, each key is served exactly as follows: not at all where the answer
-- has no route for it; by the listener it had where that has the same route; and otherwise by a new listener for
-- the route, or not at all where the port cannot be bound.
pub sync_round-lookup :
    (binds : Route → Bool) (items : List PortRow) (listeners : Listeners) (k : Key)
    → NodupKeys same_key listeners
    → lookup same_key k (sync_round binds (some items) listeners)
      ≡ served binds (lookup same_key k (fetch_routes items)) (lookup same_key k listeners)
unfolding sync_round close_stale served filled is_current
sync_round-lookup binds items listeners k h = ground (
  arith,
  open_missing-lookup binds (fetch_routes items) (close_stale (fetch_routes items) listeners) k
      (fetch_routes-NodupKeys items),
  lookup-select same_key same_key_iff (is_current (fetch_routes items)) k listeners h,
)
