-- ===== src/Containers/Creation/Create.antt =====
-- `create_container` and `retry_container` of backend/app/containers/routes.py. The answers on images, the random draws,
-- the port ranges, the default size of a root disk and the environment are parameters. A violated
-- constraint of the tables is answered with 500.
use server_vps.Prelude.{
  ℕ, zero, str_eq, not, ◌&&◌, Option, some, List, [], map, Text, is_empty, find, exists, ◌==◌,
  or_raise,
}
use server_vps.Scheduler.Gpus.{CountedGpu}
use server_vps.Database.{Container, ManagedMount, Node, User, raise_when, audit}
use server_vps.Auth.{require_user, is_admin_user}
use server_vps.Ports.Allocate.{Ranges}
use server_vps.Ports.Mappings.{Draws, public_port_payload, list_container_ports}
use server_vps.Tasks.Queue.{enqueue_node_task}
use server_vps.Scheduler.Select.{storage_enabled, select_node_and_gpus}
use server_vps.Settings.Read.{get_platform_settings}
use server_vps.Containers.Lifecycle.{require_container_access, find_container}
use server_vps.Tasks.Results.Success.{update_container}
use server_vps.Containers.Creation.{
  Sx, Quota, Image, ContainerCreate, ImageAnswers, fleet_of, pure, query, modify, lift, on_db,
  ◌>>=◌, ◌>>◌,
}
use server_vps.Containers.Creation.Usage.{
  usage_for_user, check_quota, image_available_to_user, allowed_node_ids_for_user, is_forbidden,
}
use server_vps.Containers.Creation.Checks.{check_names, with_gpu_ids, effective_key, disk_sizes}
use server_vps.Containers.Creation.Mounts.{check_shared_home, managed_mounts_for}
use server_vps.Containers.Creation.Inserts.{
  request_of, upsert_workspace, new_container, insert_container, insert_resources, insert_gpus,
  add_ports, import_image, incus_create_payload,
}

-- What `create_container` has chosen when it starts to write. The mounts, which the code collects after it has stored the
-- workspace, do not depend on that row.
pub record Placement : Type 0 where
  pub image : Image
  pub node : Node
  pub gpus : List CountedGpu
  pub root_disk : ℕ
  pub workspace : ℕ
  pub managed : List ManagedMount

module _ (answers : ImageAnswers) (draws : ℕ → Draws) (ranges : Ranges) (default_root_disk : ℕ)
    (env : Text → Option Text) (request : Option User) (ts : ℕ) where
  -- From the user to the request with its key, within the quota.
  unfoldable pub admit : ContainerCreate → Sx (User × (Quota × ContainerCreate))
  admit payload = do
    named ← lift (check_names payload)
    user ← on_db (require_user request)
    on_db (raise_when (not (is_empty named.mounts) && not (is_admin_user (some user))) 403)
    s ← query (λ s. s)
    let key = effective_key s user ts named
    on_db (raise_when (is_empty key) 400)
    quota ← lift (or_raise (find (λ (q : Quota). q.user_id == user.id) s.quotas) 500)
    let full = record (with_gpu_ids named) { ssh_key = key }
    checked ← lift (check_quota (usage_for_user s user.id) quota full)
    pure (user, (quota, full))

  -- What comes after the row of the container is there.
  unfoldable pub furnish : Image → Node → User → Container → ContainerCreate → Sx Unit
  furnish image node user c payload = do
    ports ← add_ports draws ranges ts zero c.id payload.ports
    on_db (import_image answers ts node c.id)
    task ← on_db (
        enqueue_node_task ts node.id c.id "incus_create_container"
          (incus_create_payload c (map public_port_payload ports) c.managed_mounts) 0 0)
    on_db (audit user.username "create" "container" c.id ts)

  -- From the image to the node, the sizes of the disks and the mounts.
  unfoldable pub place : User → Quota → ContainerCreate → Sx Placement
  place user quota full = do
    s ← query (λ s. s)
    image ←
        lift (or_raise (find (λ (i : Image). str_eq i.id full.image_id && i.enabled) s.images) 400)
    on_db (raise_when (not (image_available_to_user image user)) 403)
    let allowed = allowed_node_ids_for_user s user
    on_db (raise_when (is_forbidden full.node_id allowed) 403)
    settings ← lift (get_platform_settings env s.db.system_settings)
    let wanted = request_of answers settings image user allowed full
    candidate ← lift (or_raise (select_node_and_gpus (fleet_of s) wanted) 400)
    let node = candidate.node
    let shared = storage_enabled node wanted
    shareable ← lift (check_shared_home shared node settings)
    sizes ← lift (disk_sizes default_root_disk settings node quota)
    managed ← lift (managed_mounts_for shared s user node settings full)
    pure record {
      image = image;
      node = node;
      gpus = candidate.gpus;
      root_disk = sizes.0;
      workspace = sizes.1;
      managed = managed;
    }

  -- The rows of a container that has been admitted and placed; the name is UNIQUE.
  unfoldable pub settle : User → ContainerCreate → Placement → Sx Container
  settle user full p = do
    s ← query (λ s. s)
    let c = new_container s.db.next_container_id ts user p.node p.image p.root_disk p.managed full
    modify (λ s. record s { db = upsert_workspace user.id p.node.id p.workspace ts s.db })
    on_db (raise_when (exists (λ (x : Container). str_eq x.name full.name) s.db.containers) 500)
    modify (insert_container c)
    insert_resources c.id full.resources
    modify (insert_gpus c.id p.gpus)
    furnish p.image p.node user c full
    pure c

  unfoldable pub create_container : ContainerCreate → Sx Container
  create_container payload = do
    admitted ← admit payload
    placed ← place admitted.0 admitted.1.0 admitted.1.1
    settle admitted.0 admitted.1.1 placed

  -- The container goes back to its first status, and its creation is enqueued again.
  unfoldable pub retry_container : ℕ → Sx Unit
  retry_container container_id = do
    user ← on_db (require_user request)
    c ← on_db (find_container container_id)
    on_db (require_container_access user c)
    on_db (raise_when (not (str_eq c.system_role "")) 409)
    on_db (raise_when (not (str_eq c.status "failed")) 409)
    s ← query (λ s. s)
    node ← lift (or_raise (find (λ (n : Node). n.id == c.node_id) s.db.nodes) 400)
    image ← lift (or_raise (find (λ (i : Image). str_eq i.id c.image_id) s.images) 400)
    modify (λ s. record s {
      db =
          update_container container_id
            (λ x. record x {
              status = "provisioning";
              access_status = "pending";
              access_error = [];
              updated_at = ts;
            })
            s.db;
    })
    on_db (import_image answers ts node container_id)
    settings ← lift (get_platform_settings env s.db.system_settings)
    task ← on_db (
        enqueue_node_task ts node.id container_id "incus_create_container"
          (incus_create_payload c (list_container_ports container_id s.db) c.managed_mounts) 0 0)
    on_db (audit user.username "retry" "container" container_id ts)
