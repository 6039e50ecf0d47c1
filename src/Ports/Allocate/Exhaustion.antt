-- ===== src/Ports/Allocate/Exhaustion.antt =====
-- The ports that `allocate_port_from_pool` returns, and its errors.
use Prim.Native.Nat.{min}
use native.Mathlib.Nat.{add-zero}
use server_vps.Prelude.{
  ℕ, zero, suc, ◌+◌, ◌-◌, ◌≤◌, ◌<◌, String, ◌≡◌, ◌⊎◌, ◌↔◌, inl, inr, Bool, true, false, not, ◌&&◌,
  Option, none, some, List, [], ◌∷◌, arith, eq_iff, leb, select, ok, http_error, Bool-cases,
  Option-cases, Result-cases,
}
use server_vps.Database.{ContainerPort}
use server_vps.Ports.Allocate.{
  used_ports, is_used, try_random, least, gap_ends, first_free, draw_or_search,
  allocate_port_from_pool,
}

-- A port that the random loop returns is in the range and free.
try_random_sound :
    (draw : ℕ → ℕ → ℕ) (used : List ℕ) (start size i rounds : ℕ) (p : ℕ)
    → ((j : ℕ) → draw j size < size)
    → try_random draw used start size i rounds ≡ some p
    → (start ≤ p) × (p < start + size) × (is_used used p ≡ false)
unfolding try_random
try_random_sound draw used start size i zero p fair h = ground arith
try_random_sound draw used start size i (suc rounds) p fair h =
    ground (arith, fair i, try_random_sound draw used start size (i + 1) rounds p fair)

-- The least of the selected values is selected.
least-select : (q : ℕ → Bool) (xs : List ℕ) (m : ℕ) → least (select q xs) ≡ some m → q m ≡ true
unfolding least select
least-select q [] m h = ground arith
least-select q (x ∷ xs) m h = elim (Option-cases (least (select q xs))) [
  | inl e ↦ ground (arith, e)
  | inr (n, e) ↦ ground (arith, e, least-select q xs n e)
]

abbrev AtMost : Option ℕ → ℕ → Type 0
AtMost none v = ⊥
AtMost (some m) v = m ≤ v

-- A selected value bounds the least one from above.
least-AtMost :
    (q : ℕ → Bool) (xs : List ℕ) (v : ℕ)
    → is_used xs v ≡ true
    → q v ≡ true
    → AtMost (least (select q xs)) v
unfolding least select is_used
least-AtMost q [] v h k = ground arith
least-AtMost q (x ∷ xs) v h k = ground (arith, least-AtMost q xs v)

first_free_sound :
    (used : List ℕ) (start end p : ℕ)
    → start ≤ end
    → first_free used start end ≡ ok p
    → (start ≤ p) × (p ≤ end) × (is_used used p ≡ false)
unfolding first_free gap_ends
first_free_sound used start end p h e =
    let q : ℕ → Bool = λ v. leb start v && leb v end && not (is_used used (v + 1)) in
    elim (Option-cases (least (select q used))) [
      | inl n ↦ ground (arith, n)
      | inr (m, s) ↦ ground (arith, s, least-select q used m s)
    ]

first_free_start :
    (used : List ℕ) (start end : ℕ)
    → first_free used start end ≡ http_error 409
    → is_used used start ≡ true
unfolding first_free
first_free_start used start end h = ground arith

-- A used port below `end` has a used successor, if the search fails.
first_free_next :
    (used : List ℕ) (start end v : ℕ)
    → first_free used start end ≡ http_error 409
    → start ≤ v
    → v < end
    → is_used used v ≡ true
    → is_used used (v + 1) ≡ true
unfolding first_free gap_ends
first_free_next used start end v h b c u =
    let q : ℕ → Bool = λ w. leb start w && leb w end && not (is_used used (w + 1)) in
    elim (Bool-cases (is_used used (v + 1))) [
      | inl t ↦ t
      | inr f ↦ ground (arith, f, least-AtMost q used v u (ground (arith, f)))
    ]

first_free_full :
    (used : List ℕ) (start end k : ℕ)
    → first_free used start end ≡ http_error 409
    → start + k ≤ end
    → is_used used (start + k) ≡ true
first_free_full used start end zero h b = rw add-zero (first_free_start used start end h)
first_free_full used start end (suc k) h b =
    let ih = first_free_full used start end k h (omega arith) in
    let next = first_free_next used start end (start + k) h (omega arith) (omega arith) ih in
    let e : start + suc k ≡ start + k + 1 = omega arith in rw e next

draw_or_search_sound :
    (draw : ℕ → ℕ → ℕ) (used : List ℕ) (start end p : ℕ)
    → ((j n : ℕ) → 0 < n → draw j n < n)
    → start ≤ end
    → draw_or_search draw used start end ≡ ok p
    → (start ≤ p) × (p ≤ end) × (is_used used p ≡ false)
unfolding draw_or_search
draw_or_search_sound draw used start end p fair h e =
    let size = end - start + 1 in
    let rounds = min size 2000 in
    elim (Option-cases (try_random draw used start size 0 rounds)) [
      | inl n ↦ first_free_sound used start end p h (rw (n, draw_or_search) at e)
      | inr (c, s) ↦
          let (low, high, free) =
            try_random_sound draw used start size 0 rounds c (λ j. fair j size (omega arith)) s in
          ground (arith, s, low, high, free)
    ]

draw_or_search_full :
    (draw : ℕ → ℕ → ℕ) (used : List ℕ) (start end v : ℕ)
    → draw_or_search draw used start end ≡ http_error 409
    → start ≤ v
    → v ≤ end
    → is_used used v ≡ true
unfolding draw_or_search
draw_or_search_full draw used start end v h low high =
    let size = end - start + 1 in
    elim (Option-cases (try_random draw used start size 0 (min size 2000))) [
      | inl n ↦
          let full =
            first_free_full used start end (v - start) (rw (n, draw_or_search) at h)
              (omega arith) in
          let e : start + (v - start) ≡ v = omega arith in rw e at full
      | inr (c, s) ↦ ground (arith, s)
    ]

-- The search has no other error than 409.
draw_or_search_error :
    (draw : ℕ → ℕ → ℕ) (used : List ℕ) (start end n : ℕ)
    → draw_or_search draw used start end ≡ http_error n
    → n ≡ 409
unfolding draw_or_search first_free
draw_or_search_error draw used start end n h = ground arith

-- With a known column and a legal range the checks pass.
allocate_legal :
    (draw : ℕ → ℕ → ℕ) (ports : List ContainerPort) (column : String) (start end : ℕ)
    → ((column ≡ "host_port") ⊎ (column ≡ "node_port"))
    → 1 ≤ start
    → end ≤ 65535
    → start ≤ end
    → allocate_port_from_pool draw ports column start end
      ≡ draw_or_search draw (used_ports column ports) start end
unfolding allocate_port_from_pool
allocate_legal draw ports column start end known low high order =
    ground (arith, eq_iff column "host_port", eq_iff column "node_port")

module _ (draw : ℕ → ℕ → ℕ) (ports : List ContainerPort) (column : String) (start end : ℕ) where
  -- A port that the allocator returns lies in the range and no row of the table has it in the
  -- column, if `secrets.randbelow` returns a number below its argument.
  pub allocate_port_from_pool_sound :
      ((j n : ℕ) → 0 < n → draw j n < n)
      → (p : ℕ) → allocate_port_from_pool draw ports column start end ≡ ok p
      → (start ≤ p)
        × (p ≤ end)
        × (1 ≤ p)
        × (p ≤ 65535)
        × (is_used (used_ports column ports) p ≡ false)
  unfolding allocate_port_from_pool
  allocate_port_from_pool_sound fair p h =
      ground (arith, draw_or_search_sound draw (used_ports column ports) start end p fair)

  -- In a legal range the allocator raises 409 exactly when every port of the range is used, and it raises no other
  -- error: else it returns a port.
  pub allocate_port_from_pool_exhausted :
      ((j n : ℕ) → 0 < n → draw j n < n)
      → ((column ≡ "host_port") ⊎ (column ≡ "node_port"))
      → 1 ≤ start
      → end ≤ 65535
      → start ≤ end
      → ((allocate_port_from_pool draw ports column start end ≡ http_error 409)
          ↔ ((v : ℕ) → start ≤ v → v ≤ end → is_used (used_ports column ports) v ≡ true))
        × ((allocate_port_from_pool draw ports column start end ≡ http_error 409)
            ⊎ ((p : ℕ) × (allocate_port_from_pool draw ports column start end ≡ ok p)))
  allocate_port_from_pool_exhausted fair known low high order =
      rw (allocate_legal draw ports column start end known low high order) (
        (
          (λ h v a b. draw_or_search_full draw (used_ports column ports) start end v h a b),
          λ full. elim (Result-cases (draw_or_search draw (used_ports column ports) start end)) [
            | inr (n, e) ↦
                rw (← draw_or_search_error draw (used_ports column ports) start end n e) e
            | inl (p, e) ↦
                let (a, b, free) =
                  draw_or_search_sound draw (used_ports column ports) start end p fair order e in
                ground (arith, full p a b, free)
          ],
        ),
        elim (Result-cases (draw_or_search draw (used_ports column ports) start end)) [
          | inl (p, e) ↦ inr (p, e)
          | inr (n, e) ↦
              inl (rw (← draw_or_search_error draw (used_ports column ports) start end n e) e)
        ],
      )
