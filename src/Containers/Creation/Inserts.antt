-- ===== src/Containers/Creation/Inserts.antt =====
-- The statements of `create_container` in backend/app/containers/routes.py, with `enqueue_incus_image_import_task` of
-- backend/app/storage/services.py and `incus_create_payload` of backend/app/containers/services.py.
use Prim.Native.Nat.{◌%◌}
use server_vps.Prelude.{
  ℕ, ◌+◌, String, Bool, true, false, ◌&&◌, Option, none, some, List, [], ◌∷◌, ◌++◌, map, Text,
  codes, text_eq, length, print, find, exists, update, ◌==◌, if◌then◌else◌, ok, http_error,
  or_raise, raise_if,
}
use server_vps.Database.{
  Db, Container, ContainerPort, Node, User, ManagedMount, Payload, empty_payload, PublicPort,
  WorkspaceVolume, Tx,
}
use server_vps.Ports.Allocate.{Ranges}
use server_vps.Ports.Keys.{managed_ssh_keys}
use server_vps.Ports.Mappings.{PortInput, Draws, add_container_port}
use server_vps.Tasks.Queue.{enqueue_node_task}
use server_vps.Scheduler.Gpus.{ContainerGpu, CountedGpu}
use server_vps.Scheduler.Select.{Request}
use server_vps.Settings.{naturals, PlatformSettings}
use server_vps.Containers.Creation.{
  Site, Sx, Image, ContainerCreate, ResourceInput, ContainerResource, ImageAnswers, pure, query,
  modify, lift, on_db, ◌>>=◌, ◌>>◌,
}
use server_vps.Containers.Creation.Mounts.{mount_text, find_resource, chosen_path}

-- The three words of the setting.
unfoldable pub mode_word : Text → String
mode_word mode =
    if text_eq mode (codes "enabled")
    then "enabled"
    else if text_eq mode (codes "canary")
    then "canary"
    else "disabled"

unfoldable pub request_of :
    ImageAnswers → PlatformSettings → Image → User → Option (List ℕ) → ContainerCreate → Request
request_of answers settings image user allowed payload = record {
  node_id = payload.node_id;
  cpu_cores = payload.cpu_cores;
  memory_gb = payload.memory_gb;
  disk_gb = payload.disk_gb;
  gpu_count = payload.gpu_count;
  gpu_ids = payload.gpu_ids;
  gpu_model = payload.gpu_model;
  resources = map (λ (r : ResourceInput). r.resource_id) payload.resources;
  port_count = length payload.ports;
  compatible_pools = image.compatible_pools;
  allowed_node_ids = allowed;
  shared_storage_mode = mode_word settings.shared_storage_mode;
  canary_user_ids = naturals settings.shared_storage_canary_user_ids;
  user_id = some user.id;
  has_incus_image = answers.has_incus_image;
  storage_image_available = elim answers.storage_image [ none ↦ false | some id ↦ true ];
}

-- INSERT INTO user_workspace_volumes ... ON CONFLICT (user_id, node_id) DO UPDATE
unfoldable pub upsert_workspace : ℕ → ℕ → ℕ → ℕ → Db → Db
upsert_workspace user_id node_id size ts d =
    let name = codes "user-" ++ (print user_id ++ codes "-ws") in
    let own : WorkspaceVolume → Bool = λ v. v.user_id == user_id && v.node_id == node_id in
    if exists own d.workspace_volumes
    then record d {
      workspace_volumes =
          update own
            (λ v. record v {
              volume_name = name;
              quota_gb = size;
              status = "active";
              updated_at = ts;
            })
            d.workspace_volumes;
    }
    else record d {
      workspace_volumes =
          d.workspace_volumes
          ++ record {
            user_id = user_id;
            node_id = node_id;
            volume_name = name;
            quota_gb = size;
            status = "active";
            lifecycle = "temporary";
            last_used_at = ts;
            cleanup_after = 0;
            updated_at = ts;
          }
            ∷ [];
    }

unfoldable pub new_container :
    ℕ → ℕ → User → Node → Image → ℕ → List ManagedMount → ContainerCreate → Container
new_container id ts user node image root_disk managed payload = record {
  id = id;
  name = payload.name;
  owner_id = user.id;
  node_id = node.id;
  image_id = image.id;
  status = "provisioning";
  cpu_cores = payload.cpu_cores;
  memory_gb = payload.memory_gb;
  disk_gb = root_disk;
  ssh_username = payload.ssh_username;
  ssh_key = payload.ssh_key;
  mounts = payload.mounts ++ map mount_text managed;
  managed_mounts = managed;
  ip = codes "10.99." ++ (print node.id ++ 46 ∷ print (100 + ts % 100));
  access_status = "pending";
  access_error = [];
  system_role = "";
  expires_at = payload.expires_at;
  updated_at = ts;
}

unfoldable pub insert_container : Container → Site → Site
insert_container c s = record s {
  db = record s.db {
    containers = s.db.containers ++ c ∷ [];
    next_container_id = s.db.next_container_id + 1;
  };
}

-- INSERT INTO container_resources, for each resource of the request; the key is the pair of ids
unfoldable pub insert_resources : ℕ → List ResourceInput → Sx Unit
insert_resources container_id [] = pure tt
insert_resources container_id (selected ∷ rest) = do
  s ← query (λ s. s)
  r ← lift (or_raise (find_resource s selected.resource_id) 400)
  lift (
      raise_if
        (exists (λ (x : ContainerResource). x.container_id == container_id && x.resource_id == r.id)
          s.container_resources)
        500)
  modify (λ s. record s {
    container_resources =
        s.container_resources
        ++ record {
          container_id = container_id;
          resource_id = r.id;
          mount_path = chosen_path selected r;
        }
          ∷ [];
  })
  insert_resources container_id rest

unfoldable pub gpu_row : ℕ → CountedGpu → ContainerGpu
gpu_row container_id g = record { container_id = container_id; gpu_id = g.gpu.id }

unfoldable pub insert_gpus : ℕ → List CountedGpu → Site → Site
insert_gpus container_id gpus s = record s {
  container_gpus = s.container_gpus ++ map (gpu_row container_id) gpus;
}

-- Each port draws anew: round k draws from `draws k`.
unfoldable pub add_ports :
    (ℕ → Draws) → Ranges → ℕ → ℕ → ℕ → List PortInput → Sx (List ContainerPort)
add_ports draws ranges ts k container_id [] = pure []
add_ports draws ranges ts k container_id (port ∷ ports) = do
  row ← on_db (add_container_port (draws k) ranges ts container_id port)
  rows ← add_ports draws ranges ts (k + 1) container_id ports
  pure (row ∷ rows)

-- `enqueue_incus_image_import_task`: only where the node lacks the image and a known storage node has a file of it.
unfoldable pub import_image : ImageAnswers → ℕ → Node → ℕ → Tx Unit
import_image answers ts node container_id d =
    let source : Option Node = elim answers.storage_image [
      | none ↦ none
      | some id ↦ find (λ n. n.id == id) d.nodes
    ] in
    if answers.has_incus_image node.id then ok (tt, d) else elim source [
      | none ↦ ok (tt, d)
      | some n ↦
          elim (enqueue_node_task ts node.id container_id "incus_image_import" empty_payload 0 0
            d) [ ok (task, d') ↦ ok (tt, d') | http_error code ↦ http_error code ]
    ]

unfoldable pub incus_create_payload : Container → List PublicPort → List ManagedMount → Payload
incus_create_payload c ports managed = record empty_payload {
  container_id = c.id;
  name = c.name;
  ssh_username = c.ssh_username;
  ssh_key = managed_ssh_keys c.ssh_key;
  mounts = c.mounts;
  managed_mounts = managed;
  ports = ports;
}
