-- ===== src/Containers/Creation/Checks.antt =====
-- `create_container`, step by step: the request, the SSH key, and the sizes of the root disk and the workspace.
use Prim.Native.Nat.{max, min, ◌/◌}
use server_vps.Prelude.{
  ℕ, pos, ◌*◌, ◌-◌, str_eq, Bool, not, ◌&&◌, ◌||◌, List, map, Text, codes, strip, join, is_empty,
  length, select, order_by, ltb, leb, ◌==◌, if◌then◌else◌, Result, ok, raise_if, ◌>>◌,
}
use server_vps.Database.{Node, User}
use server_vps.Scheduler.Select.{distinct_ids}
use server_vps.Settings.{PlatformSettings}
use server_vps.Settings.Checks.{fullmatch, is_lower_letter}
use server_vps.Containers.Creation.{Site, Quota, UserSshKey, ContainerCreate}

-- [a-z0-9-]
unfoldable pub is_label_char : ℕ → Bool
is_label_char c = is_lower_letter c || (leb 48 c && leb c 57) || c == 45

-- The tests before the transaction; the user name stands in the request from here on.
unfoldable pub check_names : ContainerCreate → Result ContainerCreate
check_names payload =
    let stripped = strip payload.ssh_username in
    let username = if is_empty stripped then codes "ubuntu" else stripped in
    do
      raise_if (not (fullmatch is_lower_letter is_label_char 2 30 (codes payload.name))) 400
      raise_if (str_eq payload.name "cluster-resource-downloader") 400
      raise_if
          (not (
            fullmatch (λ c. is_lower_letter c || c == 95) (λ c. is_label_char c || c == 95) 0 31
              username))
          400
      ok (record payload { ssh_username = username })

-- if payload.gpu_ids: the distinct positive ids, and their count
unfoldable pub with_gpu_ids : ContainerCreate → ContainerCreate
with_gpu_ids payload = if is_empty payload.gpu_ids then payload else record payload {
  gpu_ids = distinct_ids payload.gpu_ids;
  gpu_count = pos (length (distinct_ids payload.gpu_ids));
}

-- WHERE user_id = ... AND (expires_at = 0 OR expires_at > now) ORDER BY created_at
unfoldable pub valid_keys : Site → ℕ → ℕ → List UserSshKey
valid_keys s user_id now =
    order_by (λ a b. leb a.created_at b.created_at)
      (select (λ k. k.user_id == user_id && (k.expires_at == 0 || ltb now k.expires_at))
        s.user_ssh_keys)

-- The key of the request, or all valid keys of the user, or the one of the account.
unfoldable pub effective_key : Site → User → ℕ → ContainerCreate → Text
effective_key s user now payload =
    let own = strip payload.ssh_key in
    let keys = valid_keys s user.id now in
    if not (is_empty own)
    then own
    else if is_empty keys
    then strip user.ssh_key
    else join 10 (map (λ k. k.public_key) keys)

-- What stays free of the node's disk: at least 15% of it and at least 100 GB are kept.
unfoldable pub node_disk_available : Node → ℕ
node_disk_available node =
    let total = node.disk_total_mb / 1000 in
    let floor = max (total * 15 / 100) 100 in
    total - max node.reserved_disk_gb floor - node.disk_used_mb / 1000

-- int(node.get("root_disk_gb") or CONTAINER_ROOT_DISK_GB)
unfoldable pub root_disk_size : ℕ → Node → ℕ
root_disk_size default node = if node.root_disk_gb == 0 then default else node.root_disk_gb

unfoldable pub workspace_size : PlatformSettings → Node → Quota → ℕ
workspace_size settings node quota =
    let limit = node.max_disk_gb_per_container in
    let user_limit = quota.container_disk_limit_gb in
    let free = node_disk_available node in
    let size = settings.workspace_default_gb in
    if ltb 0 limit && ltb 0 user_limit
    then min (min (min size limit) user_limit) free
    else if ltb 0 limit
    then min (min size limit) free
    else if ltb 0 user_limit
    then min (min size user_limit) free
    else min size free

-- The root disk and the workspace of the new container.
unfoldable pub disk_sizes : ℕ → PlatformSettings → Node → Quota → Result (ℕ × ℕ)
disk_sizes default settings node quota =
    let root_disk = root_disk_size default node in
    let workspace = workspace_size settings node quota in
    do
      raise_if
          (ltb 0 node.max_disk_gb_per_container && ltb node.max_disk_gb_per_container root_disk) 400
      raise_if (ltb (node_disk_available node) root_disk) 400
      raise_if (ltb workspace 1) 400
      ok (root_disk, workspace)
