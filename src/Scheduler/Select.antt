-- ===== src/Scheduler/Select.antt =====
-- `effective_limit` and `select_node_and_gpus`. What the two queries of images answer is part of the request;
-- `scheduler_weight`, which is at least -1000, is counted from there; disk sizes are in thousandths of a GB,
-- and the rounding of floating point numbers is left out.
pub mod Chosen
pub mod Conditions
use Prim.Native.Nat.{max}
use mathlib.Core.List.{head?}
use server_vps.Prelude.{
  ℕ, suc, ◌+◌, ◌*◌, ◌-◌, String, str_eq, Bool, true, false, not, ◌&&◌, ◌||◌, Option, none, some,
  List, [], ◌∷◌, map, Text, codes, length, take_ℤ, ℤ, pos, ltb_ℤ, exceeds, is_empty, text_eq, lower,
  strip, ltb, leb, ◌==◌, if◌then◌else◌, select, find, exists, order_by, ◌⊎◌, inl, inr,
}
use server_vps.Database.{Db, Node}
use server_vps.Scheduler.Gpus.{
  Fleet, Gpu, CountedGpu, ResourceCache, is_resource_status, is_running_status,
  count_node_containers, contains, schedulable_gpus_for_node, requested_gpus_for_node,
}

-- The fields of ContainerCreate that the scheduler reads, with the other arguments of the call. An id in `gpu_ids`
-- below 0 is dropped as 0 is, and stands here as 0.
pub record Request : Type 0 where
  pub node_id : Option ℕ
  pub cpu_cores : ℤ
  pub memory_gb : ℤ
  pub disk_gb : ℤ
  pub gpu_count : ℤ
  pub gpu_ids : List ℕ
  pub gpu_model : Text
  pub resources : List ℕ
  pub port_count : ℕ
  pub compatible_pools : List Text
  pub allowed_node_ids : Option (List ℕ)
  pub shared_storage_mode : String
  pub canary_user_ids : List ℕ
  pub user_id : Option ℕ
  pub has_incus_image : ℕ → Bool
  pub storage_image_available : Bool

-- Why a node is not a candidate, in the order of the tests.
pub data Reason : Type 0 where
  not_allowed no_incus is_storage wrong_pool no_managed_mounts no_user_exports no_resource
        no_image :
      Reason
  too_many_containers too_many_running no_port_mapping too_many_ports : Reason
  over_cpu_limit over_memory_limit over_disk_limit no_cpu no_memory no_disk : Reason
  foreign_gpu wrong_model gpu_taken too_few_gpus : Reason

unfoldable pub effective_limit : ℕ → ℕ → ℕ
effective_limit value fallback = if ltb 0 value then value else fallback

unfoldable pub is_in : ℕ → List ℕ → Bool
is_in x xs = exists (λ y. y == x) xs

-- `effective_node_shared_storage_mode`, whose answer is "enabled" or "disabled"; the column is checked to hold one of
-- three words in lower case.
unfoldable pub storage_enabled : Node → Request → Bool
storage_enabled node r =
    if str_eq node.shared_storage_mode "disabled"
    then false
    else if str_eq node.shared_storage_mode "enabled" || str_eq r.shared_storage_mode "enabled"
    then true
    else if str_eq r.shared_storage_mode "canary"
    then elim r.user_id [
      | none ↦ not (is_empty r.canary_user_ids)
      | some u ↦ is_in u r.canary_user_ids
    ]
    else false

unfoldable pub has_capability : Node → String → Bool
has_capability node name = exists (λ c. str_eq c name) node.capabilities

unfoldable pub has_cache : Fleet → Node → ℕ → Bool
has_cache f node resource_id =
    exists
      (λ (c : ResourceCache).
        c.node_id == node.id
        && c.resource_id == resource_id
        && str_eq c.status "ready"
        && not (is_empty c.local_path))
      f.node_resource_cache

-- GPU {slot} is in use, or shared by as many containers as the node allows.
unfoldable pub is_blocked : Node → CountedGpu → Bool
is_blocked node g =
    (not node.allow_gpu_sharing && ltb 0 g.active)
    || (node.allow_gpu_sharing && leb node.max_gpu_shared_containers g.active)

-- list(dict.fromkeys(gpu_id for gpu_id in payload.gpu_ids if gpu_id > 0)), from the last one on.
unfoldable pub distinct_ids : List ℕ → List ℕ
distinct_ids [] = []
distinct_ids (x ∷ xs) =
    let rest = distinct_ids xs in if x == 0 then rest else x ∷ select (λ y. not (y == x)) rest

-- The tests before the resources of the node.
unfoldable pub policy_reason : Fleet → Request → Node → Option Reason
policy_reason f r node =
    if elim r.allowed_node_ids [ none ↦ false | some ids ↦ not (is_in node.id ids) ]
    then some not_allowed
    else if str_eq node.incus_status "unavailable" || str_eq node.incus_status ""
    then some no_incus
    else if str_eq node.node_type "storage"
    then some is_storage
    else if not (exists (text_eq node.driver_pool) r.compatible_pools)
    then some wrong_pool
    else if (storage_enabled node r || not (is_empty r.resources))
        && not (has_capability node "managed_nfs_mounts_v1")
    then some no_managed_mounts
    else if storage_enabled node r && not (has_capability node "per_user_nfs_exports_v1")
    then some no_user_exports
    else if exists (λ id. not (has_cache f node id) && not (storage_enabled node r)) r.resources
    then some no_resource
    else if not (r.has_incus_image node.id) && not r.storage_image_available
    then some no_image
    else none

-- The limits of the node and what it has left. 15% of the disk, and at least 100 GB, stay reserved; the comparison
-- is in hundredths of a thousandth.
unfoldable pub limit_reason : Fleet → Request → Node → Option Reason
limit_reason f r node =
    if leb node.max_containers (count_node_containers f.db node.id is_resource_status)
    then some too_many_containers
    else if leb node.max_running_containers (count_node_containers f.db node.id is_running_status)
    then some too_many_running
    else if not (r.port_count == 0) && not node.allow_port_mapping
    then some no_port_mapping
    else if ltb node.max_ports_per_container r.port_count
    then some too_many_ports
    else if exceeds (effective_limit node.max_cpu_per_container node.cpu_total) 1 r.cpu_cores 0
    then some over_cpu_limit
    else if exceeds (effective_limit node.max_memory_gb_per_container node.memory_total_gb) 1
        r.memory_gb 0
    then some over_memory_limit
    else if exceeds (effective_limit (node.max_disk_gb_per_container * 1000) node.disk_total_mb)
        1000 r.disk_gb 0
    then some over_disk_limit
    else if exceeds node.cpu_total 1 r.cpu_cores node.cpu_used
    then some no_cpu
    else if exceeds node.memory_total_gb 1 r.memory_gb
        (node.reserved_memory_gb + node.memory_used_gb)
    then some no_memory
    else if exceeds (node.disk_total_mb * 100) 100000 r.disk_gb (
        max (node.reserved_disk_gb * 100000) (max (node.disk_total_mb * 15) 10000000)
        + node.disk_used_mb * 100)
    then some no_disk
    else none

-- The GPUs that the node offers, or why it cannot.
unfoldable pub offered_gpus : Fleet → Request → Node → Reason ⊎ List CountedGpu
offered_gpus f r node =
    let ids = distinct_ids r.gpu_ids in
    let preference = strip r.gpu_model in
    let requested = requested_gpus_for_node f node ids in
    if is_empty ids
    then inr (schedulable_gpus_for_node f node preference)
    else if not (length requested == length ids)
    then inl foreign_gpu
    else if not (is_empty preference)
        && exists (λ (g : CountedGpu). not (contains (lower g.gpu.model) (lower preference)))
            requested
    then inl wrong_model
    else if exists (is_blocked node) requested
    then inl gpu_taken
    else inr requested

-- One turn of the loop over the nodes: a reason, or the GPUs on offer.
unfoldable pub examine : Fleet → Request → Node → Reason ⊎ List CountedGpu
examine f r node = elim (policy_reason f r node) [
  | some reason ↦ inl reason
  | none ↦ elim (limit_reason f r node) [
    | some reason ↦ inl reason
    | none ↦ elim (offered_gpus f r node) [
      | inl reason ↦ inl reason
      | inr gpus ↦ if ltb_ℤ (pos (length gpus)) r.gpu_count then inl too_few_gpus else inr gpus
    ]
  ]
]

-- A candidate; its score is old_card_score + premium_penalty, counted from -10.
pub record Candidate : Type 0 where
  pub gpu_share_pressure : ℕ
  pub gpu_total : ℕ
  pub card_score : ℕ
  pub node : Node
  pub gpus : List CountedGpu

unfoldable pub pressure : List CountedGpu → ℕ
pressure [] = 0
pressure (g ∷ gpus) = g.active + pressure gpus

unfoldable pub has_model : String → List CountedGpu → Bool
has_model name = exists (λ g. contains g.gpu.model (codes name))

unfoldable pub candidate : Request → Node → List CountedGpu → Candidate
candidate r node gpus =
    let chosen = take_ℤ r.gpu_count gpus in
    let old = if has_model "TITAN XP" gpus then 30 else 10 in
    let premium = if has_model "4090" gpus || has_model "A6000" gpus then 10 else 0 in
    record {
      gpu_share_pressure = pressure chosen;
      gpu_total = length gpus;
      card_score = old - premium;
      node = node;
      gpus = chosen;
    }

-- Code points in the order of Python's comparison of strings.
unfoldable pub text_before : Text → Text → Bool
text_before [] t = true
text_before (c ∷ s) [] = false
text_before (c ∷ s) (d ∷ t) = ltb c d || (c == d && text_before s t)

-- The key: shares, then more GPUs, then the score, then the weight, then the used part of the disk, then the name.
unfoldable pub candidate_before : Candidate → Candidate → Bool
candidate_before a b =
    let left = a.node.disk_used_mb * max b.node.disk_total_mb 1000 in
    let right = b.node.disk_used_mb * max a.node.disk_total_mb 1000 in
    ltb a.gpu_share_pressure b.gpu_share_pressure
    || (a.gpu_share_pressure == b.gpu_share_pressure
        && (ltb b.gpu_total a.gpu_total
            || (a.gpu_total == b.gpu_total
                && (ltb b.card_score a.card_score
                    || (a.card_score == b.card_score
                        && (ltb b.node.scheduler_weight a.node.scheduler_weight
                            || (a.node.scheduler_weight == b.node.scheduler_weight
                                && (ltb left right
                                    || (left == right
                                        && text_before (codes a.node.hostname)
                                            (codes b.node.hostname))))))))))

-- The first query: nodes that are online, not in maintenance, schedulable, and the one asked for.
unfoldable pub is_online : Request → Node → Bool
is_online r node =
    str_eq node.status "online"
    && not node.maintenance
    && node.schedulable
    && elim r.node_id [ none ↦ true | some id ↦ node.id == id ]

unfoldable pub candidates : Fleet → Request → List Node → List Candidate
candidates f r [] = []
candidates f r (node ∷ nodes) =
    let rest = candidates f r nodes in
    elim (examine f r node) [ inl reason ↦ rest | inr gpus ↦ candidate r node gpus ∷ rest ]

unfoldable pub select_node_and_gpus : Fleet → Request → Option Candidate
select_node_and_gpus f r =
    head? (order_by candidate_before (candidates f r (select (is_online r) f.db.nodes)))
