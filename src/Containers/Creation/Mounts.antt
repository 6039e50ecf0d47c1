-- ===== src/Containers/Creation/Mounts.antt =====
-- `create_container`, step by step: the demands of shared storage and the managed mounts of a new container. The export
-- of a user's dataset, which only the node's agent reads, is left out.
use server_vps.Prelude.{
  ℕ, String, str_eq, Bool, true, false, not, ◌&&◌, ◌||◌, Option, none, some, List, [], ◌∷◌, ◌++◌,
  Text, codes, strip, is_empty, find, exists, ◌==◌, if◌then◌else◌, rstrip_of, lstrip_of, Result, ok,
  http_error, raise_if, or_raise, ◌>>=◌, ◌>>◌,
}
use server_vps.Database.{Node, User, ManagedMount}
use server_vps.Scheduler.Gpus.{ResourceCache}
use server_vps.Scheduler.Select.{has_capability}
use server_vps.Settings.{PlatformSettings}
use server_vps.Containers.Creation.{Site, Resource, StorageDataset, ResourceInput, ContainerCreate}
use server_vps.Containers.Creation.Paths.{validate_container_path}

-- not settings["nfs_server"] or not settings["nfs_sentinel_signature"]
unfoldable pub lacks_nfs : PlatformSettings → Bool
lacks_nfs settings = is_empty settings.nfs_server || is_empty settings.nfs_sentinel_signature

unfoldable pub check_shared_home : Bool → Node → PlatformSettings → Result {0} Unit
check_shared_home shared node settings = do
  raise_if (shared && not (has_capability node "managed_nfs_mounts_v1")) 409
  raise_if (shared && not (has_capability node "per_user_nfs_exports_v1")) 409
  raise_if (shared && lacks_nfs settings) 409

-- The home directory of the user, on shared storage.
unfoldable pub home_mounts : Bool → Site → User → Text → Result (List ManagedMount)
home_mounts shared s user ssh_username =
    if not shared
    then ok []
    else if not (
        exists (λ (x : StorageDataset). x.user_id == user.id && str_eq x.status "applied")
          s.datasets)
    then http_error 409
    else ok (
        record {
          kind = "user_home";
          source = codes "/var/lib/server-vps/nfs/user-datasets/" ++ codes user.username;
          target = codes "/home/" ++ ssh_username;
          readonly = false;
          required = true;
        }
        ∷ [])

-- str(resource["version"] or "default").strip("/")
unfoldable pub provider_of : Resource → Text
provider_of r =
    lstrip_of 47 (rstrip_of 47 (if is_empty r.version then codes "default" else r.version))

unfoldable pub nfs_source : Resource → Text
nfs_source r =
    let base = if str_eq r.resource_type "dataset" then codes "datasets" else codes "models" in
    codes "/var/lib/server-vps/nfs/" ++ (base ++ 47 ∷ (provider_of r ++ 47 ∷ r.name))

unfoldable pub find_resource : Site → ℕ → Option Resource
find_resource s id = find (λ (r : Resource). r.id == id && r.enabled) s.resources

-- selection.mount_path.strip() or resource["mount_path"]
unfoldable pub chosen_path : ResourceInput → Resource → Text
chosen_path selection r =
    let path = strip selection.mount_path in if is_empty path then r.mount_path else path

-- The local copy on the node where it is ready, and else the shared one.
unfoldable pub resource_source :
    Bool → Site → Node → PlatformSettings → Resource → Result (Text × String)
resource_source shared s node settings r =
    let shared_source : Result (Text × String) = (do
      raise_if (not r.nfs_available) 409
      raise_if (not shared || lacks_nfs settings) 409
      ok (nfs_source r, "shared_resource")) in
    let cached : Option ResourceCache =
      find (λ (c : ResourceCache). c.node_id == node.id && c.resource_id == r.id)
        s.node_resource_cache in
    elim cached [
      | none ↦ shared_source
      | some c ↦
          if str_eq c.status "ready" && not (is_empty c.local_path)
          then ok (c.local_path, "node_cache")
          else shared_source
    ]

unfoldable pub resource_mount :
    Bool → Site → Node → PlatformSettings → ResourceInput → Result ManagedMount
resource_mount shared s node settings selection = do
  r ← or_raise (find_resource s selection.resource_id) 400
  target ← validate_container_path (chosen_path selection r)
  found ← resource_source shared s node settings r
  ok (record {
    kind = found.1;
    source = found.0;
    target = target;
    readonly = true;
    required = true;
  })

unfoldable pub resource_mounts :
    Bool → Site → Node → PlatformSettings → List ResourceInput → Result (List ManagedMount)
resource_mounts shared s node settings [] = ok []
resource_mounts shared s node settings (selection ∷ selections) = do
  m ← resource_mount shared s node settings selection
  rest ← resource_mounts shared s node settings selections
  ok (m ∷ rest)

-- The managed mounts, which the node's agent has to know of.
unfoldable pub managed_mounts_for :
    Bool → Site → User → Node → PlatformSettings → ContainerCreate → Result (List ManagedMount)
managed_mounts_for shared s user node settings payload = do
  home ← home_mounts shared s user payload.ssh_username
  rest ← resource_mounts shared s node settings payload.resources
  raise_if (not (is_empty (home ++ rest)) && not (has_capability node "managed_nfs_mounts_v1")) 409
  ok (home ++ rest)

-- f"{source}:{target}{':ro' if readonly else ':rw'}"
unfoldable pub mount_text : ManagedMount → Text
mount_text m = m.source ++ 58 ∷ (m.target ++ (if m.readonly then codes ":ro" else codes ":rw"))
