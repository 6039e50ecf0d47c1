-- ===== src/Tests/Creation.antt =====
-- Two creations, the second one over the quota.
use server_vps.Prelude.{
  ℕ, pos, String, Bool, true, false, Option, none, some, List, [], ◌∷◌, ◌++◌, ◌≡◌, refl, Text,
  codes, find, ◌==◌, Result, ok, http_error, All, is_empty, if◌then◌else◌,
}
use server_vps.Database.{User, Container}
use server_vps.Containers.Creation.{Site, Quota, Image, ContainerCreate, ImageAnswers}
use server_vps.Containers.Creation.Paths.{validate_container_path}
use server_vps.Containers.Creation.Usage.{usage_for_user, allowed_node_ids_for_user}
use server_vps.Users.Access.{normalize_node_ids, has_node, validate_node_ids, replace_user_node_ids}
use server_vps.Users.Access.Allowed.{allowed_node_ids_for_user-replace_user_node_ids}
use server_vps.Containers.Creation.Create.{create_container}
use server_vps.Containers.Creation.Bounds.{WithinQuota, create_container-WithinQuota}
use server_vps.Tests.Data.{alice, container, database, draws, ranges}

abbrev quota : Quota
quota = record {
  user_id = 1;
  cpu_cores = pos 4;
  memory_gb = pos 8;
  gpu_count = pos 0;
  container_count = pos 2;
  container_disk_limit_gb = 50;
}

abbrev image : Image
image = record {
  id = "ubuntu";
  owner = "admin";
  enabled = true;
  incus_ref = "";
  compatible_pools = [] ∷ [];
}

abbrev site : Site
site = record {
  db = database "running";
  gpus = [];
  container_gpus = [];
  node_resource_cache = [];
  quotas = quota ∷ [];
  images = image ∷ [];
  user_ssh_keys = [];
  datasets = [];
  resources = [];
  container_resources = [];
  user_nodes = [];
  group_nodes = [];
}

abbrev answers : ImageAnswers
answers = record { has_incus_image = λ id. true; storage_image = none }

abbrev wish : ContainerCreate
wish = record {
  name = "second";
  image_id = "ubuntu";
  node_id = none;
  cpu_cores = pos 2;
  memory_gb = pos 4;
  disk_gb = pos 20;
  gpu_count = pos 0;
  gpu_ids = [];
  gpu_model = [];
  ssh_username = [];
  ssh_key = codes "key";
  resources = [];
  mounts = [];
  ports = [];
  expires_at = 0;
}

abbrev no_env : Text → Option Text
no_env key = none

abbrev create : ContainerCreate → Site → Result (Container × Site)
create = create_container answers (λ k. draws) ranges 30 no_env (some alice) 9

-- The outcome of a creation, or the site as it was.
abbrev made : Result (Container × Site) → Container × Site
made (ok outcome) = outcome
made (http_error code) = (container "failed", site)

abbrev outcome : Container × Site
outcome = made (create wish site)

create_container-WithinQuota_example :
    (user : User) × (q : Quota) × (some alice ≡ some user)
    × (find (λ x. x.user_id == user.id) site.quotas ≡ some q)
    × (outcome.1.db.containers ≡ site.db.containers ++ outcome.0 ∷ [])
    × (outcome.0.owner_id ≡ user.id)
    × (outcome.0.cpu_cores ≡ wish.cpu_cores)
    × (outcome.0.memory_gb ≡ wish.memory_gb)
    × WithinQuota (usage_for_user outcome.1 user.id) q
unfolding server_vps.Prelude.select server_vps.Prelude.find server_vps.Prelude.exists
    server_vps.Prelude.update server_vps.Prelude.delete server_vps.Prelude.text_eq
    server_vps.Prelude.starts_with server_vps.Prelude.drop server_vps.Prelude.is_space
    server_vps.Prelude.lstrip server_vps.Prelude.strip server_vps.Prelude.lower
    server_vps.Prelude.split_first server_vps.Prelude.insert_by server_vps.Prelude.order_by
    server_vps.Prelude.◌+ℤ◌ server_vps.Prelude.at_least server_vps.Prelude.digits
    server_vps.Prelude.print server_vps.Prelude.is_digit server_vps.Prelude.scan
    server_vps.Prelude.negated server_vps.Prelude.signed server_vps.Prelude.parse_int
    server_vps.Prelude.print_int server_vps.Prelude.split server_vps.Prelude.join
    server_vps.Prelude.lstrip_of server_vps.Prelude.rstrip_of server_vps.Prelude.upper
    server_vps.Prelude.lookup server_vps.Prelude.insert server_vps.Auth.is_admin_group
    server_vps.Auth.role_for_group server_vps.Auth.is_admin_user server_vps.Auth.require_user
    server_vps.Auth.require_admin server_vps.Auth.enabled_user
    server_vps.Ports.Allocate.column_value server_vps.Ports.Allocate.is_used
    server_vps.Ports.Allocate.try_random server_vps.Ports.Allocate.least
    server_vps.Ports.Allocate.gap_ends server_vps.Ports.Allocate.first_free
    server_vps.Ports.Allocate.draw_or_search server_vps.Ports.Allocate.allocate_port_from_pool
    server_vps.Ports.Allocate.allocate_host_port server_vps.Ports.Allocate.allocate_node_port
    server_vps.Ports.Mappings.normalize_port_payload server_vps.Ports.Mappings.same_mapping
    server_vps.Ports.Mappings.add_container_port server_vps.Ports.Mappings.set_node_port
    server_vps.Ports.Mappings.public_port_payload server_vps.Ports.Mappings.port_before
    server_vps.Ports.Mappings.list_container_ports server_vps.Ports.Keys.is_line_break
    server_vps.Ports.Keys.lines_from server_vps.Ports.Keys.splitlines server_vps.Ports.Keys.add_key
    server_vps.Ports.Keys.add_keys server_vps.Ports.Keys.join_lines
    server_vps.Ports.Keys.managed_ssh_keys server_vps.Tasks.Queue.insert_task
    server_vps.Tasks.Queue.enqueue_node_task server_vps.Tasks.Queue.holds_lease
    server_vps.Tasks.Queue.renew_lease server_vps.Scheduler.Gpus.is_resource_status
    server_vps.Scheduler.Gpus.is_running_status server_vps.Scheduler.Gpus.count_node_containers
    server_vps.Scheduler.Gpus.active_count server_vps.Scheduler.Gpus.counted
    server_vps.Scheduler.Gpus.contains server_vps.Scheduler.Gpus.by_slot
    server_vps.Scheduler.Gpus.by_load server_vps.Scheduler.Gpus.matching_gpus
    server_vps.Scheduler.Gpus.schedulable_gpus_for_node
    server_vps.Scheduler.Gpus.requested_gpus_for_node server_vps.Scheduler.Select.effective_limit
    server_vps.Scheduler.Select.is_in server_vps.Scheduler.Select.storage_enabled
    server_vps.Scheduler.Select.has_capability server_vps.Scheduler.Select.has_cache
    server_vps.Scheduler.Select.is_blocked server_vps.Scheduler.Select.distinct_ids
    server_vps.Scheduler.Select.policy_reason server_vps.Scheduler.Select.limit_reason
    server_vps.Scheduler.Select.offered_gpus server_vps.Scheduler.Select.examine
    server_vps.Scheduler.Select.pressure server_vps.Scheduler.Select.has_model
    server_vps.Scheduler.Select.candidate server_vps.Scheduler.Select.text_before
    server_vps.Scheduler.Select.candidate_before server_vps.Scheduler.Select.is_online
    server_vps.Scheduler.Select.candidates server_vps.Scheduler.Select.select_node_and_gpus
    server_vps.Settings.bool_to_setting server_vps.Settings.setting_to_bool
    server_vps.Settings.or_text server_vps.Settings.one_of
    server_vps.Settings.platform_setting_defaults server_vps.Settings.get_env
    server_vps.Settings.first_item server_vps.Settings.provider_parts
    server_vps.Settings.cas_settings server_vps.Settings.oidc_settings
    server_vps.Settings.legacy_sso_defaults server_vps.Settings.Read.raw_setting
    server_vps.Settings.Read.add_canary_id server_vps.Settings.Read.canary_ids
    server_vps.Settings.Read.int_setting server_vps.Settings.Read.cas_version
    server_vps.Settings.Read.settings_of server_vps.Settings.Read.get_platform_settings
    server_vps.Settings.Read.get_agent_collection_config server_vps.Settings.Checks.is_lower_letter
    server_vps.Settings.Checks.is_alphanumeric server_vps.Settings.Checks.fullmatch
    server_vps.Containers.Lifecycle.require_container_access
    server_vps.Containers.Lifecycle.find_container server_vps.Containers.Lifecycle.is_busy
    server_vps.Containers.Lifecycle.set_status server_vps.Containers.Creation.Paths.ends_up
    server_vps.Containers.Creation.Paths.dropped server_vps.Containers.Creation.Paths.norm_parts
    server_vps.Containers.Creation.Paths.leading_slashes
    server_vps.Containers.Creation.Paths.normpath
    server_vps.Containers.Creation.Paths.ends_in_parent
    server_vps.Containers.Creation.Paths.validate_container_path
    server_vps.Containers.Creation.Usage.is_counted server_vps.Containers.Creation.Usage.sum
    server_vps.Containers.Creation.Usage.gpus_of_user
    server_vps.Containers.Creation.Usage.usage_for_user
    server_vps.Containers.Creation.Usage.check_quota
    server_vps.Containers.Creation.Usage.image_available_to_user
    server_vps.Containers.Creation.Usage.allowed_node_ids_for_user
    server_vps.Containers.Creation.Usage.is_forbidden
    server_vps.Containers.Creation.Checks.is_label_char
    server_vps.Containers.Creation.Checks.check_names
    server_vps.Containers.Creation.Checks.with_gpu_ids
    server_vps.Containers.Creation.Checks.valid_keys
    server_vps.Containers.Creation.Checks.effective_key
    server_vps.Containers.Creation.Checks.node_disk_available
    server_vps.Containers.Creation.Checks.root_disk_size
    server_vps.Containers.Creation.Checks.workspace_size
    server_vps.Containers.Creation.Checks.disk_sizes server_vps.Containers.Creation.Mounts.lacks_nfs
    server_vps.Containers.Creation.Mounts.check_shared_home
    server_vps.Containers.Creation.Mounts.home_mounts
    server_vps.Containers.Creation.Mounts.provider_of
    server_vps.Containers.Creation.Mounts.nfs_source
    server_vps.Containers.Creation.Mounts.find_resource
    server_vps.Containers.Creation.Mounts.chosen_path
    server_vps.Containers.Creation.Mounts.resource_source
    server_vps.Containers.Creation.Mounts.resource_mount
    server_vps.Containers.Creation.Mounts.resource_mounts
    server_vps.Containers.Creation.Mounts.managed_mounts_for
    server_vps.Containers.Creation.Mounts.mount_text
    server_vps.Containers.Creation.Inserts.mode_word
    server_vps.Containers.Creation.Inserts.request_of
    server_vps.Containers.Creation.Inserts.upsert_workspace
    server_vps.Containers.Creation.Inserts.new_container
    server_vps.Containers.Creation.Inserts.insert_container
    server_vps.Containers.Creation.Inserts.insert_resources
    server_vps.Containers.Creation.Inserts.gpu_row
    server_vps.Containers.Creation.Inserts.insert_gpus
    server_vps.Containers.Creation.Inserts.add_ports
    server_vps.Containers.Creation.Inserts.import_image
    server_vps.Containers.Creation.Inserts.incus_create_payload
    server_vps.Containers.Creation.Create.admit server_vps.Containers.Creation.Create.furnish
    server_vps.Containers.Creation.Create.place server_vps.Containers.Creation.Create.settle
    server_vps.Containers.Creation.Create.create_container
create_container-WithinQuota_example =
    create_container-WithinQuota answers (λ k. draws) ranges 30 no_env (some alice) 9 wish outcome.0
      site outcome.1 refl

abbrev allowed : Site
allowed = record site { user_nodes = (1, 7) ∷ [] }

allowed_node_ids_for_user-replace_user_node_ids_example :
    All (λ id. has_node site id ≡ true) (normalize_node_ids (7 ∷ 0 ∷ 7 ∷ []))
    × (allowed_node_ids_for_user allowed alice ≡ (
        if is_empty (normalize_node_ids (7 ∷ 0 ∷ 7 ∷ []))
        then allowed_node_ids_for_user (record site { user_nodes = [] }) alice
        else some (normalize_node_ids (7 ∷ 0 ∷ 7 ∷ []))))
unfolding replace_user_node_ids validate_node_ids normalize_node_ids has_node
    server_vps.Scheduler.Select.distinct_ids server_vps.Prelude.exists server_vps.Prelude.delete
    server_vps.Prelude.select
allowed_node_ids_for_user-replace_user_node_ids_example =
    allowed_node_ids_for_user-replace_user_node_ids alice (7 ∷ 0 ∷ 7 ∷ []) site allowed refl

-- The root by two slashes is let through.
double_slash : validate_container_path (codes "//") ≡ ok (codes "//")
unfolding server_vps.Prelude.select server_vps.Prelude.find server_vps.Prelude.exists
    server_vps.Prelude.update server_vps.Prelude.delete server_vps.Prelude.text_eq
    server_vps.Prelude.starts_with server_vps.Prelude.drop server_vps.Prelude.is_space
    server_vps.Prelude.lstrip server_vps.Prelude.strip server_vps.Prelude.lower
    server_vps.Prelude.split_first server_vps.Prelude.insert_by server_vps.Prelude.order_by
    server_vps.Prelude.◌+ℤ◌ server_vps.Prelude.at_least server_vps.Prelude.digits
    server_vps.Prelude.print server_vps.Prelude.is_digit server_vps.Prelude.scan
    server_vps.Prelude.negated server_vps.Prelude.signed server_vps.Prelude.parse_int
    server_vps.Prelude.print_int server_vps.Prelude.split server_vps.Prelude.join
    server_vps.Prelude.lstrip_of server_vps.Prelude.rstrip_of server_vps.Prelude.upper
    server_vps.Prelude.lookup server_vps.Prelude.insert server_vps.Containers.Creation.Paths.ends_up
    server_vps.Containers.Creation.Paths.dropped server_vps.Containers.Creation.Paths.norm_parts
    server_vps.Containers.Creation.Paths.leading_slashes
    server_vps.Containers.Creation.Paths.normpath
    server_vps.Containers.Creation.Paths.ends_in_parent
    server_vps.Containers.Creation.Paths.validate_container_path server_vps.Scheduler.Gpus.contains
double_slash = refl
