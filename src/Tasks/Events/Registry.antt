-- ===== src/Tasks/Events/Registry.antt =====
-- The size and the keys of the registry of backend/app/agent/tasks.py, over sequences of steps.
use server_vps.Prelude.{
  ℕ, suc, ◌+◌, ◌≤◌, ◌≡◌, refl, inl, inr, not, List, [], ◌∷◌, ◌++◌, length, leb, ltb, ◌==◌, arith,
  select, find, delete, length-select, Option-cases, Bool-cases,
}
use server_vps.Tasks.Events.{
  Events, pop, release_node_task_event, pop_each, gc_orphan_events, register_event,
  signal_node_task_done,
}

abbrev pub keys : List (ℕ × ℕ) → List ℕ
keys [] = []
keys (row ∷ rows) = row.0 ∷ keys rows

pub record IsBounded (r : Events) : Type 0 where
  pub bound : length r.node_task_events ≤ 256
  pub same : keys r.node_task_events ≡ keys r.event_created_at

keys-pop :
    (task_id : ℕ) (rows : List (ℕ × ℕ))
    → keys (pop task_id rows) ≡ delete (λ k. k == task_id) (keys rows)
unfolding pop delete select
keys-pop task_id [] = refl
keys-pop task_id (row ∷ rows) = ground (arith, keys-pop task_id rows)

keys-append :
    (rows : List (ℕ × ℕ)) (row : ℕ × ℕ) → keys (rows ++ row ∷ []) ≡ keys rows ++ row.0 ∷ []
keys-append [] row = refl
keys-append (x ∷ rows) row = rw (keys-append rows row) refl

length-pop : (task_id : ℕ) (rows : List (ℕ × ℕ)) → length (pop task_id rows) ≤ length rows
unfolding pop delete
length-pop task_id rows = length-select (λ (row : ℕ × ℕ). not (row.0 == task_id)) rows

length-append_one :
    (rows : List (ℕ × ℕ)) (row : ℕ × ℕ) → length (rows ++ row ∷ []) ≡ suc (length rows)
length-append_one [] row = refl
length-append_one (x ∷ rows) row = rw (length-append_one rows row) refl

release-IsBounded :
    (task_id : ℕ) (r : Events) → IsBounded r → IsBounded (release_node_task_event task_id r)
unfolding release_node_task_event
release-IsBounded task_id r h = record {
  bound = omega (arith, h.bound, length-pop task_id r.node_task_events);
  same = rw (keys-pop task_id r.node_task_events, keys-pop task_id r.event_created_at, h.same) refl;
}

pop_each-IsBounded : (rows : List (ℕ × ℕ)) (r : Events) → IsBounded r → IsBounded (pop_each rows r)
unfolding pop_each
pop_each-IsBounded [] r h = h
pop_each-IsBounded (row ∷ rows) r h =
    pop_each-IsBounded rows (release_node_task_event row.0 r) (release-IsBounded row.0 r h)

gc-IsBounded : (now : ℕ) (r : Events) → IsBounded r → IsBounded (gc_orphan_events now r)
unfolding gc_orphan_events
gc-IsBounded now r h =
    let swept : IsBounded (record r { last_gc_at = now }) = record {
      bound = h.bound;
      same = h.same;
    } in
    elim (Bool-cases (ltb now (r.last_gc_at + 30000))) [
      | inl e ↦ rw (e, gc_orphan_events) h
      | inr e ↦
          rw (e, gc_orphan_events)
            (pop_each-IsBounded
              (select (λ (row : ℕ × ℕ). ltb (row.1 + 120000) now) r.event_created_at)
              (record r { last_gc_at = now }) swept)
    ]

register-IsBounded :
    (now task_id : ℕ) (r : Events) → IsBounded r → IsBounded (register_event now task_id r).1
unfolding register_event
register-IsBounded now task_id r h =
    elim (Option-cases (find (λ (row : ℕ × ℕ). row.0 == task_id) r.node_task_events)) [
      | inr (row, e) ↦ rw (e, register_event) h
      | inl e ↦ elim (Bool-cases (leb 256 (length r.node_task_events))) [
        | inl f ↦ rw (e, f, register_event) (record { bound = h.bound; same = h.same })
        | inr f ↦
            rw (e, f, register_event)
              (record {
                bound =
                    rw (length-append_one r.node_task_events (task_id, r.next_event))
                      (ground (arith, f));
                same =
                    rw
                      (
                        keys-append r.node_task_events (task_id, r.next_event),
                        keys-append r.event_created_at (task_id, now),
                        h.same,
                      )
                      refl;
              })
      ]
    ]

signal-IsBounded :
    (task_id : ℕ) (r : Events) → IsBounded r → IsBounded (signal_node_task_done task_id r)
unfolding signal_node_task_done
signal-IsBounded task_id r h =
    elim (Option-cases (find (λ (row : ℕ × ℕ). row.0 == task_id) r.node_task_events)) [
      | inl e ↦ rw (e, signal_node_task_done) h
      | inr (row, e) ↦ rw (e, signal_node_task_done) (record { bound = h.bound; same = h.same })
    ]

-- What a thread does under the lock; a sweep and the registration after it are two steps.
pub data Step : Type 0 where
  sweep : (now : ℕ) → Step
  register : (now task_id : ℕ) → Step
  signal : (task_id : ℕ) → Step
  release : (task_id : ℕ) → Step

unfoldable pub step : Step → Events → Events
step (sweep now) r = gc_orphan_events now r
step (register now task_id) r = (register_event now task_id r).1
step (signal task_id) r = signal_node_task_done task_id r
step (release task_id) r = release_node_task_event task_id r

unfoldable pub steps : List Step → Events → Events
unfolding step
steps [] r = r
steps (s ∷ rest) r = steps rest (step s r)

step-IsBounded : (s : Step) (r : Events) → IsBounded r → IsBounded (step s r)
unfolding step
step-IsBounded (sweep now) r h = gc-IsBounded now r h
step-IsBounded (register now task_id) r h = register-IsBounded now task_id r h
step-IsBounded (signal task_id) r h = signal-IsBounded task_id r h
step-IsBounded (release task_id) r h = release-IsBounded task_id r h

-- However the threads interleave, at most 256 tasks are registered, and the dictionary of events and that of
-- times have the same keys in the same order.
pub steps-IsBounded : (ss : List Step) (r : Events) → IsBounded r → IsBounded (steps ss r)
unfolding steps
steps-IsBounded [] r h = h
steps-IsBounded (s ∷ ss) r h = steps-IsBounded ss (step s r) (step-IsBounded s r h)
