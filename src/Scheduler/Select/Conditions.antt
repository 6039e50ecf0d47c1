-- ===== src/Scheduler/Select/Conditions.antt =====
-- The conditions that a node meets to be a candidate, apart from the order in which the loop tests them.
use Prim.Native.Nat.{max}
use server_vps.Prelude.{
  ℕ, ◌+◌, ◌*◌, ◌≤◌, ◌<◌, ◌≡◌, refl, sym, ◌∙◌, ◌⊎◌, inl, inr, str_eq, Bool, true, false, not, ◌&&◌,
  ◌||◌, Option, none, some, List, [], ◌∷◌, Text, text_eq, lower, strip, is_empty, length, arith,
  ltb, ◌==◌, if◌then◌else◌, select, exists, order_by, map, IsIn, IsIn-order_by, IsIn-select, All,
  All-of_IsIn, Option-cases, Bool-cases, FitsIn, find, find_sound,
}
use server_vps.Database.{Node}
use server_vps.Scheduler.Gpus.{
  Fleet, Gpu, CountedGpu, is_resource_status, is_running_status, count_node_containers, contains,
  counted, by_load, by_slot, matching_gpus, schedulable_gpus_for_node, requested_gpus_for_node,
}
use server_vps.Scheduler.Select.{
  Request, effective_limit, is_in, storage_enabled, has_capability, has_cache, is_blocked,
  distinct_ids, policy_reason, limit_reason, offered_gpus,
}

abbrev pub IsAllowed : Option (List ℕ) → ℕ → Type 0
IsAllowed none id = Unit
IsAllowed (some ids) id = is_in id ids ≡ true

-- The node is one that the user may use, runs Incus, is not a storage node, has a driver pool of the image, can mount
-- what the container needs, holds or reaches every resource, and has or can get the image.
abbrev pub Suits : Fleet → Request → Node → Type 0
Suits f r n =
    IsAllowed r.allowed_node_ids n.id
    × (str_eq n.incus_status "unavailable" ≡ false)
    × (str_eq n.incus_status "" ≡ false)
    × (str_eq n.node_type "storage" ≡ false)
    × (exists (text_eq n.driver_pool) r.compatible_pools ≡ true)
    × ((storage_enabled n r ≡ false) ⊎ (has_capability n "per_user_nfs_exports_v1" ≡ true))
    × (((storage_enabled n r ≡ false) × (is_empty r.resources ≡ true))
        ⊎ (has_capability n "managed_nfs_mounts_v1" ≡ true))
    × (exists (λ id. not (has_cache f n id) && not (storage_enabled n r)) r.resources ≡ false)
    × ((r.has_incus_image n.id ≡ true) ⊎ (r.storage_image_available ≡ true))

-- The node has room for one more container, for the ports, the cores, the memory and the disk, under the limits on
-- one container and beside what is used and reserved; of the disk 15%, and at least 100 GB, stay reserved.
abbrev pub HasRoom : Fleet → Request → Node → Type 0
HasRoom f r n =
    (count_node_containers f.db n.id is_resource_status < n.max_containers)
    × (count_node_containers f.db n.id is_running_status < n.max_running_containers)
    × ((r.port_count ≡ 0) ⊎ (n.allow_port_mapping ≡ true))
    × (r.port_count ≤ n.max_ports_per_container)
    × FitsIn (effective_limit n.max_cpu_per_container n.cpu_total) 1 r.cpu_cores 0
    × FitsIn (effective_limit n.max_memory_gb_per_container n.memory_total_gb) 1 r.memory_gb 0
    × FitsIn (effective_limit (n.max_disk_gb_per_container * 1000) n.disk_total_mb) 1000 r.disk_gb 0
    × FitsIn n.cpu_total 1 r.cpu_cores n.cpu_used
    × FitsIn n.memory_total_gb 1 r.memory_gb (n.reserved_memory_gb + n.memory_used_gb)
    × FitsIn (n.disk_total_mb * 100) 100000 r.disk_gb (
        max (n.reserved_disk_gb * 100000) (max (n.disk_total_mb * 15) 10000000)
        + n.disk_used_mb * 100)

-- Whether a GPU can take one more container: an unused one, or on a node that shares GPUs one below the limit.
unfoldable pub can_take : Node → CountedGpu → Bool
can_take n g =
    if n.allow_gpu_sharing then ltb g.active n.max_gpu_shared_containers else g.active == 0

-- The GPUs on offer: without ids the schedulable ones, and else those of the ids, which are all of the node, of the
-- model and free.
abbrev pub Offers : Fleet → Request → Node → List CountedGpu → Type 0
Offers f r n gpus =
    ((is_empty (distinct_ids r.gpu_ids) ≡ true)
      × (gpus ≡ schedulable_gpus_for_node f n (strip r.gpu_model)))
    ⊎ ((is_empty (distinct_ids r.gpu_ids) ≡ false)
        × (gpus ≡ requested_gpus_for_node f n (distinct_ids r.gpu_ids))
        × (length gpus ≡ length (distinct_ids r.gpu_ids))
        × ((is_empty (strip r.gpu_model) ≡ true)
            ⊎ (exists
                  (λ (g : CountedGpu).
                    not (contains (lower g.gpu.model) (lower (strip r.gpu_model))))
                  gpus
                ≡ false))
        × (exists (λ g. not (can_take n g)) gpus ≡ false))

pub policy_reason-Suits :
    (f : Fleet) (r : Request) (n : Node) → policy_reason f r n ≡ none → Suits f r n
unfolding policy_reason
policy_reason-Suits f r n h = elim (Option-cases r.allowed_node_ids) [
  | inl e ↦ (
    rw e tt,
    ground (arith, e, h),
    ground (arith, e, h),
    ground (arith, e, h),
    ground (arith, e, h),
    ground (arith, e, h),
    ground (arith, e, h),
    ground (arith, e, h),
    ground (arith, e, h),
  )
  | inr (ids, e) ↦
      let known : is_in n.id ids ≡ true = ground (arith, e, h) in
      (
        rw e known,
        ground (arith, e, h),
        ground (arith, e, h),
        ground (arith, e, h),
        ground (arith, e, h),
        ground (arith, e, h),
        ground (arith, e, h),
        ground (arith, e, h),
        ground (arith, e, h),
      )
]

pub Suits-policy_reason :
    (f : Fleet) (r : Request) (n : Node) → Suits f r n → policy_reason f r n ≡ none
unfolding policy_reason
Suits-policy_reason f r n h = elim (Option-cases r.allowed_node_ids) [
  | inl e ↦ ground (arith, e, h)
  | inr (ids, e) ↦ let known : is_in n.id ids ≡ true = rw e at h.0 in ground (arith, e, known, h)
]

pub limit_reason-HasRoom :
    (f : Fleet) (r : Request) (n : Node) → limit_reason f r n ≡ none → HasRoom f r n
unfolding limit_reason
limit_reason-HasRoom f r n h = (
  ground (arith, h),
  ground (arith, h),
  ground (arith, h),
  ground (arith, h),
  ground (arith, h),
  ground (arith, h),
  ground (arith, h),
  ground (arith, h),
  ground (arith, h),
  ground (arith, h),
)

pub HasRoom-limit_reason :
    (f : Fleet) (r : Request) (n : Node) → HasRoom f r n → limit_reason f r n ≡ none
unfolding limit_reason
HasRoom-limit_reason f r n h = ground (arith, h)

is_blocked-can_take : (n : Node) (g : CountedGpu) → is_blocked n g ≡ not (can_take n g)
unfolding is_blocked can_take
is_blocked-can_take n g = ground arith

exists-blocked :
    (n : Node) (gpus : List CountedGpu)
    → exists (is_blocked n) gpus ≡ exists (λ g. not (can_take n g)) gpus
unfolding exists
exists-blocked n [] = refl
exists-blocked n (g ∷ gpus) = ground (arith, is_blocked-can_take n g, exists-blocked n gpus)

pub offered_gpus-Offers :
    (f : Fleet) (r : Request) (n : Node) (gpus : List CountedGpu)
    → offered_gpus f r n ≡ inr gpus
    → Offers f r n gpus
unfolding offered_gpus
offered_gpus-Offers f r n gpus h =
    let ids = distinct_ids r.gpu_ids in
    let free = exists-blocked n (requested_gpus_for_node f n ids) in
    elim (Bool-cases (is_empty ids)) [
      | inl e ↦ inl (e, ground (arith, e, h))
      | inr e ↦
          let same : gpus ≡ requested_gpus_for_node f n ids = ground (arith, e, h) in
          inr (
            e,
            same,
            rw same (ground (arith, e, h)),
            rw same (ground (arith, e, h)),
            rw same (ground (arith, e, h, free)),
          )
    ]

pub Offers-offered_gpus :
    (f : Fleet) (r : Request) (n : Node) (gpus : List CountedGpu)
    → Offers f r n gpus
    → offered_gpus f r n ≡ inr gpus
unfolding offered_gpus
Offers-offered_gpus f r n gpus (inl (e, same)) = ground (arith, e, same)
Offers-offered_gpus f r n gpus (inr (e, same, all, model, free)) =
    let ids = distinct_ids r.gpu_ids in
    let requested = requested_gpus_for_node f n ids in
    let blocked : exists (is_blocked n) requested ≡ false =
      exists-blocked n requested ∙ (rw same at free) in
    let every : length requested ≡ length ids = rw same at all in
    let models = rw same at model in ground (arith, e, blocked, every, models, sym same)

-- A GPU of the node that can take one more container.
abbrev pub IsUsable : Node → CountedGpu → Type 0
IsUsable n g = (g.gpu.node_id ≡ n.id) × (can_take n g ≡ true)

IsIn-counted :
    (f : Fleet) (g : CountedGpu) (gpus : List Gpu)
    → IsIn g (map (counted f) gpus)
    → (x : Gpu) × IsIn x gpus × (g ≡ counted f x)
IsIn-counted f g [] h = absurd h
IsIn-counted f g (x ∷ gpus) (inl e) = (x, inl refl, e)
IsIn-counted f g (x ∷ gpus) (inr i) = let (y, j, e) = IsIn-counted f g gpus i in (y, inr j, e)

IsIn-matching_gpus :
    (f : Fleet) (n : Node) (model : Text) (g : CountedGpu)
    → IsIn g (matching_gpus f n model)
    → g.gpu.node_id ≡ n.id
unfolding matching_gpus counted
IsIn-matching_gpus f n model g i =
    let p : Gpu → Bool =
      λ x. x.node_id == n.id && (is_empty model || contains (lower x.model) (lower model)) in
    let (x, j, e) = IsIn-counted f g (select p f.gpus) i in
    let (test, row) = IsIn-select p f.gpus x j in
    let own : x.node_id ≡ n.id = ground (arith, test) in rw e own

one_schedulable :
    (f : Fleet) (n : Node) (model : Text) (g : CountedGpu)
    → IsIn g (schedulable_gpus_for_node f n model)
    → IsUsable n g
unfolding schedulable_gpus_for_node can_take matching_gpus
one_schedulable f n model g i = elim (Bool-cases n.allow_gpu_sharing) [
  | inl e ↦
      let p : CountedGpu → Bool = λ x. ltb x.active n.max_gpu_shared_containers in
      let j : IsIn g (order_by by_load (select p (matching_gpus f n model))) = rw e at i in
      let (test, row) =
        IsIn-select p (matching_gpus f n model) g
          (IsIn-order_by by_load g (select p (matching_gpus f n model)) j) in
      (IsIn-matching_gpus f n model g row, rw e test)
  | inr e ↦
      let p : CountedGpu → Bool = λ x. x.active == 0 in
      let j : IsIn g (order_by by_slot (select p (matching_gpus f n model))) = rw e at i in
      let (test, row) =
        IsIn-select p (matching_gpus f n model) g
          (IsIn-order_by by_slot g (select p (matching_gpus f n model)) j) in
      (IsIn-matching_gpus f n model g row, rw e test)
]

schedulable-IsUsable :
    (f : Fleet) (n : Node) (model : Text) → All (IsUsable n) (schedulable_gpus_for_node f n model)
schedulable-IsUsable f n model =
    All-of_IsIn (IsUsable n) (schedulable_gpus_for_node f n model) (one_schedulable f n model)

requested-IsOwn :
    (f : Fleet) (n : Node) (ids : List ℕ)
    → All (λ g. g.gpu.node_id ≡ n.id) (requested_gpus_for_node f n ids)
unfolding requested_gpus_for_node counted
requested-IsOwn f n [] = tt
requested-IsOwn f n (id ∷ ids) =
    let rest = requested-IsOwn f n ids in
    elim (Option-cases (find (λ (g : Gpu). g.id == id && g.node_id == n.id) f.gpus)) [
      | inl e ↦ rw (e, requested_gpus_for_node) rest
      | inr (g, e) ↦
          let (test, row) = find_sound (λ (x : Gpu). x.id == id && x.node_id == n.id) f.gpus g e in
          rw (e, requested_gpus_for_node) (ground (arith, test), rest)
    ]

both :
    (n : Node) (gpus : List CountedGpu)
    → All (λ g. g.gpu.node_id ≡ n.id) gpus
    → exists (λ g. not (can_take n g)) gpus ≡ false
    → All (IsUsable n) gpus
unfolding exists
both n [] h k = tt
both n (g ∷ gpus) h k = ((h.0, ground (arith, k)), both n gpus h.1 (ground (arith, k)))

pub Offers-IsUsable :
    (f : Fleet) (r : Request) (n : Node) (gpus : List CountedGpu)
    → Offers f r n gpus
    → All (IsUsable n) gpus
Offers-IsUsable f r n gpus (inl (e, same)) = rw same (schedulable-IsUsable f n (strip r.gpu_model))
Offers-IsUsable f r n gpus (inr (e, same, all, model, free)) =
    both n gpus (rw same (requested-IsOwn f n (distinct_ids r.gpu_ids))) free
