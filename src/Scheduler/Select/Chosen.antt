-- ===== src/Scheduler/Select/Chosen.antt =====
-- What the chosen node meets, and when none is chosen.
use mathlib.Core.List.{head?}
use server_vps.Prelude.{
  ℕ, Option, eq_iff, pos, ◌≤ℤ◌, take_ℤ, ◌≡◌, refl, ◌⊎◌, inl, inr, true, false, none, some, List, [],
  ◌∷◌, length, arith, select, order_by, insert_by, IsIn, IsIn-select, IsIn-order_by, All,
  Option-cases, Bool-cases,
}
use server_vps.Database.{Node}
use server_vps.Scheduler.Gpus.{Fleet, CountedGpu}
use server_vps.Scheduler.Select.Conditions.{
  Suits, HasRoom, Offers, IsUsable, policy_reason-Suits, Suits-policy_reason, limit_reason-HasRoom,
  HasRoom-limit_reason, offered_gpus-Offers, Offers-offered_gpus, Offers-IsUsable,
}
use server_vps.Scheduler.Select.{
  Request, Reason, policy_reason, limit_reason, offered_gpus, examine, Candidate, candidate,
  candidate_before, is_online, candidates, select_node_and_gpus,
}

-- Either side of a sum.
side : {A B : Type 0} (x : A ⊎ B) → ((a : A) × (x ≡ inl a)) ⊎ ((b : B) × (x ≡ inr b))
side (inl a) = inl (a, refl)
side (inr b) = inr (b, refl)

examine-cases :
    (f : Fleet) (r : Request) (n : Node)
    → ((reason : Reason) × (examine f r n ≡ inl reason))
      ⊎ ((gpus : List CountedGpu) × (examine f r n ≡ inr gpus))
examine-cases f r n = side (examine f r n)

candidates_sound :
    (f : Fleet) (r : Request) (nodes : List Node) (c : Candidate)
    → IsIn c (candidates f r nodes)
    → (n : Node) × (gpus : List CountedGpu) × IsIn n nodes
      × (examine f r n ≡ inr gpus)
      × (c ≡ candidate r n gpus)
unfolding candidates
candidates_sound f r [] c h = absurd h
candidates_sound f r (n ∷ nodes) c h = elim (examine-cases f r n) [
  | inl (reason, e) ↦
      let (x, gpus, i, k, l) = candidates_sound f r nodes c (rw (e, candidates) at h) in
      (x, gpus, inr i, k, l)
  | inr (gpus, e) ↦ elim (rw (e, candidates) at h) [
    | inl same ↦ (n, gpus, inl refl, e, same)
    | inr later ↦
        let (x, others, i, k, l) = candidates_sound f r nodes c later in (x, others, inr i, k, l)
  ]
]

IsIn-of_head? : (c : Candidate) (cs : List Candidate) → head? cs ≡ some c → IsIn c cs
IsIn-of_head? c [] h = ground arith
IsIn-of_head? c (x ∷ cs) h = inl (ground arith)

abbrev pub IsAsked : Option ℕ → ℕ → Type 0
IsAsked none id = Unit
IsAsked (some asked) id = id ≡ asked

-- The node takes new containers, and is the one asked for where one is.
abbrev pub IsOpen : Request → Node → Type 0
IsOpen r n =
    (n.status ≡ "online")
    × (n.maintenance ≡ false)
    × (n.schedulable ≡ true)
    × IsAsked r.node_id n.id

is_online-IsOpen : (r : Request) (n : Node) → is_online r n ≡ true → IsOpen r n
unfolding is_online
is_online-IsOpen r n h =
    let online : n.status ≡ "online" = ground (arith, h, eq_iff n.status "online") in
    elim (Option-cases r.node_id) [
      | inl e ↦ (online, ground (arith, h), ground (arith, h), rw e tt)
      | inr (id, e) ↦
          let same : n.id ≡ id = ground (arith, h, e) in
          (online, ground (arith, h), ground (arith, h), rw e same)
    ]

IsOpen-is_online : (r : Request) (n : Node) → IsOpen r n → is_online r n ≡ true
unfolding is_online
IsOpen-is_online r n (online, kept, schedulable, asked) =
    let named = eq_iff n.status "online" in
    elim (Option-cases r.node_id) [
      | inl e ↦ ground (arith, named, online, kept, schedulable, e)
      | inr (id, e) ↦
          let same : n.id ≡ id = rw e at asked in
          ground (arith, named, online, kept, schedulable, e, same)
    ]

-- A node and GPUs on offer there, enough of them, that meet the request.
abbrev pub Fits : Fleet → Request → Node → List CountedGpu → Type 0
Fits f r n gpus =
    Suits f r n × HasRoom f r n × Offers f r n gpus × (r.gpu_count ≤ℤ pos (length gpus))

examine_sound :
    (f : Fleet) (r : Request) (n : Node) (gpus : List CountedGpu)
    → examine f r n ≡ inr gpus
    → Fits f r n gpus
unfolding examine
examine_sound f r n gpus h = elim (Option-cases (policy_reason f r n)) [
  | inr (reason, e) ↦ absurd (ground (arith, e, h))
  | inl e ↦ elim (Option-cases (limit_reason f r n)) [
    | inr (reason, k) ↦ absurd (ground (arith, e, k, h))
    | inl k ↦ elim (side (offered_gpus f r n)) [
      | inl (reason, l) ↦ absurd (ground (arith, e, k, l, h))
      | inr (offered, l) ↦
          let same : offered ≡ gpus = ground (arith, e, k, l, h) in
          let enough : r.gpu_count ≤ℤ pos (length offered) = ground (arith, e, k, l, h) in
          (
            policy_reason-Suits f r n e,
            limit_reason-HasRoom f r n k,
            offered_gpus-Offers f r n gpus (rw same at l),
            rw same at enough,
          )
    ]
  ]
]

Fits-examine :
    (f : Fleet) (r : Request) (n : Node) (gpus : List CountedGpu)
    → Fits f r n gpus
    → examine f r n ≡ inr gpus
unfolding examine
Fits-examine f r n gpus (suits, room, offers, enough) =
    let policy = Suits-policy_reason f r n suits in
    let limits = HasRoom-limit_reason f r n room in
    let offered = Offers-offered_gpus f r n gpus offers in
    ground (arith, policy, limits, offered, enough)

-- A chosen candidate is a node of the table that is online, out of maintenance, schedulable and the one asked for where one
-- is; it meets every condition of the policy, has room for one more container, its ports, cores, memory and disk, and
-- offers enough GPUs, each of the node, and unused or shared by fewer containers than the node allows; the GPUs chosen
-- are the first of these, as many as asked for.
pub select_node_and_gpus_sound :
    (f : Fleet) (r : Request) (c : Candidate)
    → select_node_and_gpus f r ≡ some c
    → (gpus : List CountedGpu) × IsIn c.node f.db.nodes
      × IsOpen r c.node
      × Fits f r c.node gpus
      × All (IsUsable c.node) gpus
      × (c.gpus ≡ take_ℤ r.gpu_count gpus)
unfolding select_node_and_gpus candidate
select_node_and_gpus_sound f r c h =
    let online = select (is_online r) f.db.nodes in
    let found = candidates f r online in
    let first =
      IsIn-order_by candidate_before c found
        (IsIn-of_head? c (order_by candidate_before found) h) in
    let (n, gpus, i, e, same) = candidates_sound f r online c first in
    let (test, row) = IsIn-select (is_online r) f.db.nodes n i in
    let fits = examine_sound f r n gpus e in
    let (suits, room, offers, enough) = fits in
    rw same (gpus, row, is_online-IsOpen r n test, fits, Offers-IsUsable f r n gpus offers, refl)

-- A node that is closed, does not suit, has no room or offers too few GPUs: the conditions are not met together.
abbrev pub IsRefused : Fleet → Request → Node → Type 0
IsRefused f r n = IsOpen r n → (gpus : List CountedGpu) → Fits f r n gpus → ⊥

candidates-empty :
    (f : Fleet) (r : Request) (nodes : List Node)
    → candidates f r (select (is_online r) nodes) ≡ []
    → All (IsRefused f r) nodes
unfolding candidates select
candidates-empty f r [] h = tt
candidates-empty f r (n ∷ nodes) h = elim (Bool-cases (is_online r n)) [
  | inr e ↦ (
    λ opened gpus fits. ground (arith, e, IsOpen-is_online r n opened),
    candidates-empty f r nodes (rw (e, select) at h),
  )
  | inl e ↦ elim (examine-cases f r n) [
    | inl (reason, k) ↦ (
      λ opened gpus fits. ground (arith, k, Fits-examine f r n gpus fits),
      candidates-empty f r nodes (ground (arith, e, k, h)),
    )
    | inr (gpus, k) ↦ absurd (ground (arith, e, k, h))
  ]
]

insert_by-full :
    (c : Candidate) (cs : List Candidate) → head? (insert_by candidate_before c cs) ≡ none → ⊥
unfolding insert_by
insert_by-full c [] h = ground (arith, h)
insert_by-full c (x ∷ cs) h = elim (Bool-cases (candidate_before c x)) [
  | inl e ↦ ground (arith, e, h)
  | inr e ↦ ground (arith, e, h)
]

order_by-empty : (cs : List Candidate) → head? (order_by candidate_before cs) ≡ none → cs ≡ []
unfolding order_by insert_by
order_by-empty [] h = refl
order_by-empty (c ∷ cs) h = absurd (insert_by-full c (order_by candidate_before cs) h)

-- Where no node is chosen, no node of the table meets the conditions: none is open, meets the policy, has room and
-- offers enough GPUs.
pub select_node_and_gpus-none :
    (f : Fleet) (r : Request) → select_node_and_gpus f r ≡ none → All (IsRefused f r) f.db.nodes
unfolding select_node_and_gpus
select_node_and_gpus-none f r h =
    candidates-empty f r f.db.nodes
      (order_by-empty (candidates f r (select (is_online r) f.db.nodes)) h)
