-- ===== src/Scheduler/Gpus.antt =====
-- The queries of backend/app/containers/scheduler.py: `count_node_containers`, `schedulable_gpus_for_node` and
-- `requested_gpus_for_node`. The wildcards that LIKE knows are taken as plain characters of the model preference.
use server_vps.Prelude.{
  ℕ, String, str_eq, Bool, ◌&&◌, ◌||◌, none, some, List, [], ◌∷◌, map, Text, length, is_empty,
  starts_with, lower, ltb, leb, ◌==◌, if◌then◌else◌, select, find, exists, order_by,
}
use server_vps.Database.{Db, Node, Container}

-- gpus
pub record Gpu : Type 0 where
  pub id : ℕ
  pub node_id : ℕ
  pub slot : ℕ
  pub model : Text

-- container_gpus
pub record ContainerGpu : Type 0 where
  pub container_id : ℕ
  pub gpu_id : ℕ

-- node_resource_cache
pub record ResourceCache : Type 0 where
  pub node_id : ℕ
  pub resource_id : ℕ
  pub status : String
  pub local_path : Text

-- The tables that the scheduler reads beside those of `Db`.
pub record Fleet : Type 0 where
  pub db : Db
  pub gpus : List Gpu
  pub container_gpus : List ContainerGpu
  pub node_resource_cache : List ResourceCache

-- A GPU with its column `active_container_count`.
pub record CountedGpu : Type 0 where
  pub gpu : Gpu
  pub active : ℕ

unfoldable pub is_resource_status : String → Bool
is_resource_status status =
    str_eq status "provisioning"
    || str_eq status "starting"
    || str_eq status "running"
    || str_eq status "stopping"
    || str_eq status "restarting"
    || str_eq status "stopped"
    || str_eq status "deleting"

unfoldable pub is_running_status : String → Bool
is_running_status status =
    str_eq status "provisioning"
    || str_eq status "starting"
    || str_eq status "running"
    || str_eq status "restarting"
    || str_eq status "deleting"

unfoldable pub count_node_containers : Db → ℕ → (String → Bool) → ℕ
count_node_containers d node_id counts =
    length (
      select (λ c. c.node_id == node_id && counts c.status && str_eq c.system_role "") d.containers)

-- COUNT(c.id) over the joined rows of the GPU.
unfoldable pub active_count : Fleet → Gpu → ℕ
active_count f g = length (
    select
      (λ (cg : ContainerGpu).
        cg.gpu_id == g.id
        && exists (λ (c : Container). c.id == cg.container_id && is_resource_status c.status)
            f.db.containers)
      f.container_gpus)

unfoldable pub counted : Fleet → Gpu → CountedGpu
counted f g = record { gpu = g; active = active_count f g }

-- sub in s
unfoldable pub contains : Text → Text → Bool
contains [] sub = is_empty sub
contains (c ∷ s) sub = starts_with (c ∷ s) sub || contains s sub

unfoldable pub by_slot : CountedGpu → CountedGpu → Bool
by_slot a b = leb a.gpu.slot b.gpu.slot

unfoldable pub by_load : CountedGpu → CountedGpu → Bool
by_load a b = ltb a.active b.active || (a.active == b.active && leb a.gpu.slot b.gpu.slot)

unfoldable pub matching_gpus : Fleet → Node → Text → List CountedGpu
matching_gpus f node preference = map (counted f) (
    select
      (λ g.
        g.node_id == node.id
        && (is_empty preference || contains (lower g.model) (lower preference)))
      f.gpus)

unfoldable pub schedulable_gpus_for_node : Fleet → Node → Text → List CountedGpu
schedulable_gpus_for_node f node preference =
    if node.allow_gpu_sharing
    then order_by by_load (
        select (λ g. ltb g.active node.max_gpu_shared_containers) (matching_gpus f node preference))
    else order_by by_slot (select (λ g. g.active == 0) (matching_gpus f node preference))

-- The requested GPUs that the node has, in the order of the request.
unfoldable pub requested_gpus_for_node : Fleet → Node → List ℕ → List CountedGpu
requested_gpus_for_node f node [] = []
requested_gpus_for_node f node (id ∷ ids) =
    let rest = requested_gpus_for_node f node ids in
    elim (find (λ g. g.id == id && g.node_id == node.id) f.gpus) [
      | none ↦ rest
      | some g ↦ counted f g ∷ rest
    ]
