-- ===== src/Tasks/Events.antt =====
-- The registry of waiting requests in backend/app/agent/tasks.py: `_gc_orphan_events`, `get_node_task_event`,
-- `signal_node_task_done` and `release_node_task_event`. An event is a number, new for each `threading.Event()`; the
-- monotonic clock counts milliseconds. What runs under the lock is one step.
pub mod Registry
use server_vps.Prelude.{
  ℕ, ◌+◌, Bool, true, false, not, Option, none, some, List, [], ◌∷◌, ◌++◌, length, leb, ltb, ◌==◌,
  if◌then◌else◌, select, find, exists, delete,
}

-- The two dictionaries as (task id, value); `set_events` are the events that have been set.
pub record Events : Type 0 where
  pub node_task_events : List (ℕ × ℕ)
  pub event_created_at : List (ℕ × ℕ)
  pub set_events : List ℕ
  pub next_event : ℕ
  pub last_gc_at : ℕ

unfoldable pub pop : ℕ → List (ℕ × ℕ) → List (ℕ × ℕ)
pop task_id = delete (λ (row : ℕ × ℕ). row.0 == task_id)

unfoldable pub release_node_task_event : ℕ → Events → Events
unfolding pop
release_node_task_event task_id r = record r {
  node_task_events = pop task_id r.node_task_events;
  event_created_at = pop task_id r.event_created_at;
}

unfoldable pub pop_each : List (ℕ × ℕ) → Events → Events
unfolding release_node_task_event
pop_each [] r = r
pop_each (row ∷ rows) r = pop_each rows (release_node_task_event row.0 r)

-- At most every 30 seconds; an entry is an orphan after 120 seconds.
unfoldable pub gc_orphan_events : ℕ → Events → Events
unfolding pop_each
gc_orphan_events now r =
    let expired = select (λ (row : ℕ × ℕ). ltb (row.1 + 120000) now) r.event_created_at in
    if ltb now (r.last_gc_at + 30000) then r else pop_each expired (record r { last_gc_at = now })

-- The event, which is not registered where 256 tasks are waited for already.
unfoldable pub register_event : ℕ → ℕ → Events → ℕ × Events
register_event now task_id r =
    let fresh = record r { next_event = r.next_event + 1 } in
    elim (find (λ (row : ℕ × ℕ). row.0 == task_id) r.node_task_events) [
      | some row ↦ (row.1, r)
      | none ↦ if leb 256 (length r.node_task_events) then (r.next_event, fresh) else (
        r.next_event,
        record fresh {
          node_task_events = r.node_task_events ++ (task_id, r.next_event) ∷ [];
          event_created_at = r.event_created_at ++ (task_id, now) ∷ [];
        },
      )
    ]

unfoldable pub get_node_task_event : ℕ → ℕ → Events → ℕ × Events
unfolding gc_orphan_events register_event
get_node_task_event now task_id r = register_event now task_id (gc_orphan_events now r)

unfoldable pub signal_node_task_done : ℕ → Events → Events
signal_node_task_done task_id r =
    elim (find (λ (row : ℕ × ℕ). row.0 == task_id) r.node_task_events) [
      | none ↦ r
      | some row ↦ record r { set_events = row.1 ∷ r.set_events }
    ]
