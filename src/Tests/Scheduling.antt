-- ===== src/Tests/Scheduling.antt =====
-- A fleet of one node without GPUs.
use server_vps.Prelude.{
  ℕ, true, false, none, some, List, [], ◌∷◌, ◌≡◌, refl, ◌⊎◌, inl, inr, All, IsIn, take_ℤ, pos,
  codes,
}
use server_vps.Scheduler.Gpus.{Fleet, CountedGpu}
use server_vps.Scheduler.Select.{
  Request, Candidate, candidate, is_online, examine, select_node_and_gpus,
}
use server_vps.Scheduler.Select.Chosen.{
  IsOpen, Fits, IsRefused, select_node_and_gpus_sound, select_node_and_gpus-none,
}
use server_vps.Scheduler.Select.Conditions.{IsUsable}
use server_vps.Tests.Data.{node, database}

abbrev fleet : Fleet
fleet = record { db = database "running"; gpus = []; container_gpus = []; node_resource_cache = [] }

-- Two cores, 4 GB and some GPUs.
abbrev request : ℕ → Request
request gpu_count = record {
  node_id = none;
  cpu_cores = pos 2;
  memory_gb = pos 4;
  disk_gb = pos 20;
  gpu_count = pos gpu_count;
  gpu_ids = [];
  gpu_model = [];
  resources = [];
  port_count = 1;
  compatible_pools = [] ∷ [];
  allowed_node_ids = none;
  shared_storage_mode = "disabled";
  canary_user_ids = [];
  user_id = some 1;
  has_incus_image = λ id. true;
  storage_image_available = false;
}

abbrev chosen : Candidate
chosen = record { gpu_share_pressure = 0; gpu_total = 0; card_score = 10; node = node; gpus = [] }

select_node_and_gpus_sound_example :
    (gpus : List CountedGpu) × IsIn node (node ∷ [])
    × IsOpen (request 0) node
    × Fits fleet (request 0) node gpus
    × All (IsUsable node) gpus
    × (chosen.gpus ≡ take_ℤ (pos 0) gpus)
unfolding select_node_and_gpus server_vps.Scheduler.Select.candidates
    server_vps.Scheduler.Select.candidate_before server_vps.Scheduler.Select.policy_reason
    server_vps.Scheduler.Select.limit_reason server_vps.Scheduler.Select.offered_gpus
    server_vps.Scheduler.Select.effective_limit server_vps.Scheduler.Select.is_in
    server_vps.Scheduler.Select.storage_enabled server_vps.Scheduler.Select.has_capability
    server_vps.Scheduler.Select.has_cache server_vps.Scheduler.Select.is_blocked
    server_vps.Scheduler.Select.distinct_ids server_vps.Scheduler.Select.pressure
    server_vps.Scheduler.Select.has_model server_vps.Scheduler.Select.text_before candidate
    is_online examine server_vps.Scheduler.Gpus.is_resource_status
    server_vps.Scheduler.Gpus.is_running_status server_vps.Scheduler.Gpus.count_node_containers
    server_vps.Scheduler.Gpus.active_count server_vps.Scheduler.Gpus.counted
    server_vps.Scheduler.Gpus.contains server_vps.Scheduler.Gpus.by_slot
    server_vps.Scheduler.Gpus.by_load server_vps.Scheduler.Gpus.matching_gpus
    server_vps.Scheduler.Gpus.schedulable_gpus_for_node
    server_vps.Scheduler.Gpus.requested_gpus_for_node server_vps.Prelude.select
    server_vps.Prelude.find server_vps.Prelude.exists server_vps.Prelude.order_by
    server_vps.Prelude.insert_by server_vps.Prelude.strip server_vps.Prelude.lstrip
    server_vps.Prelude.lower server_vps.Prelude.text_eq
select_node_and_gpus_sound_example = select_node_and_gpus_sound fleet (request 0) chosen refl

select_node_and_gpus-none_example : All (IsRefused fleet (request 1)) (node ∷ [])
unfolding select_node_and_gpus server_vps.Scheduler.Select.candidates
    server_vps.Scheduler.Select.candidate_before server_vps.Scheduler.Select.policy_reason
    server_vps.Scheduler.Select.limit_reason server_vps.Scheduler.Select.offered_gpus
    server_vps.Scheduler.Select.effective_limit server_vps.Scheduler.Select.is_in
    server_vps.Scheduler.Select.storage_enabled server_vps.Scheduler.Select.has_capability
    server_vps.Scheduler.Select.has_cache server_vps.Scheduler.Select.is_blocked
    server_vps.Scheduler.Select.distinct_ids server_vps.Scheduler.Select.pressure
    server_vps.Scheduler.Select.has_model server_vps.Scheduler.Select.text_before candidate
    is_online examine server_vps.Scheduler.Gpus.is_resource_status
    server_vps.Scheduler.Gpus.is_running_status server_vps.Scheduler.Gpus.count_node_containers
    server_vps.Scheduler.Gpus.active_count server_vps.Scheduler.Gpus.counted
    server_vps.Scheduler.Gpus.contains server_vps.Scheduler.Gpus.by_slot
    server_vps.Scheduler.Gpus.by_load server_vps.Scheduler.Gpus.matching_gpus
    server_vps.Scheduler.Gpus.schedulable_gpus_for_node
    server_vps.Scheduler.Gpus.requested_gpus_for_node server_vps.Prelude.select
    server_vps.Prelude.find server_vps.Prelude.exists server_vps.Prelude.order_by
    server_vps.Prelude.insert_by server_vps.Prelude.strip server_vps.Prelude.lstrip
    server_vps.Prelude.lower server_vps.Prelude.text_eq
select_node_and_gpus-none_example = select_node_and_gpus-none fleet (request 1) refl
