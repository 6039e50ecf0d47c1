-- ===== src/Containers/Creation/Usage.antt =====
-- `usage_for_user` of backend/app/containers/services.py and the comparison with the user's quota in `create_container`;
-- `allowed_node_ids_for_user` of backend/app/nodes/services.py and `image_available_to_user` of
-- backend/app/images/policy.py.
use server_vps.Prelude.{
  ℕ, ◌+◌, ℤ, pos, ◌+ℤ◌, ltb_ℤ, String, str_eq, Bool, false, not, ◌&&◌, ◌||◌, Option, none, some,
  List, [], ◌∷◌, map, length, is_empty, select, exists, ◌==◌, if◌then◌else◌, Result, raise_if, ◌>>◌,
}
use server_vps.Database.{Db, Container, User}
use server_vps.Auth.{is_admin_user}
use server_vps.Scheduler.Gpus.{ContainerGpu, is_resource_status}
use server_vps.Scheduler.Select.{is_in}
use server_vps.Containers.Creation.{Site, Image, Quota, ContainerCreate}

pub record Usage : Type 0 where
  pub cpu_cores : ℤ
  pub memory_gb : ℤ
  pub gpu_count : ℕ
  pub container_count : ℕ

-- WHERE owner_id = ... AND status = ANY(...) AND system_role = ''
unfoldable pub is_counted : ℕ → Container → Bool
is_counted user_id c =
    c.owner_id == user_id && is_resource_status c.status && str_eq c.system_role ""

-- COALESCE(SUM(column), 0)
unfoldable pub sum : (Container → ℤ) → List Container → ℤ
sum column [] = pos 0
sum column (c ∷ cs) = column c +ℤ sum column cs

unfoldable pub gpus_of_user : Db → List ContainerGpu → ℕ → ℕ
gpus_of_user d container_gpus user_id = length (
    select
      (λ (cg : ContainerGpu).
        exists
          (λ (c : Container).
            c.id == cg.container_id && c.owner_id == user_id && is_resource_status c.status)
          d.containers)
      container_gpus)

unfoldable pub usage_for_user : Site → ℕ → Usage
usage_for_user s user_id =
    let rows = select (is_counted user_id) s.db.containers in
    record {
      cpu_cores = sum (λ c. c.cpu_cores) rows;
      memory_gb = sum (λ c. c.memory_gb) rows;
      gpu_count = gpus_of_user s.db s.container_gpus user_id;
      container_count = length rows;
    }

-- usage[key] + requested > quota[key], key after key
unfoldable pub check_quota : Usage → Quota → ContainerCreate → Result {0} Unit
check_quota usage quota payload = do
  raise_if (ltb_ℤ quota.cpu_cores (usage.cpu_cores +ℤ payload.cpu_cores)) 400
  raise_if (ltb_ℤ quota.memory_gb (usage.memory_gb +ℤ payload.memory_gb)) 400
  raise_if (ltb_ℤ quota.gpu_count (pos usage.gpu_count +ℤ payload.gpu_count)) 400
  raise_if (ltb_ℤ quota.container_count (pos (usage.container_count + 1))) 400

unfoldable pub image_available_to_user : Image → User → Bool
image_available_to_user image user = not (str_eq image.owner "system") || is_admin_user (some user)

unfoldable pub allowed_node_ids_for_user : Site → User → Option (List ℕ)
allowed_node_ids_for_user s user =
    let own = select (λ (r : ℕ × ℕ). r.0 == user.id) s.user_nodes in
    let group = if str_eq user.group_name "" then "member" else user.group_name in
    let shared = select (λ (r : String × ℕ). str_eq r.0 group) s.group_nodes in
    if not (is_empty own)
    then some (map (λ (r : ℕ × ℕ). r.1) own)
    else if not (is_empty shared)
    then some (map (λ (r : String × ℕ). r.1) shared)
    else none

-- payload.node_id is not None and allowed_node_ids is not None and payload.node_id not in allowed_node_ids
unfoldable pub is_forbidden : Option ℕ → Option (List ℕ) → Bool
is_forbidden none allowed = false
is_forbidden (some id) none = false
is_forbidden (some id) (some ids) = not (is_in id ids)
