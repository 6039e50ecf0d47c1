-- ===== src/Nodes/Reports.antt =====
-- `mark_stale_nodes`, `normalize_reported_container_status` and `sync_node_containers` of
-- backend/app/nodes/services.py. The image of the system's downloader is in the table from the start.
pub mod Pass
pub mod Rule
use server_vps.Prelude.{
  ℕ, pos, ◌+◌, ◌-◌, String, str_eq, Bool, not, ◌&&◌, ◌||◌, Option, none, some, List, [], ◌∷◌, ◌++◌,
  Text, codes, text_eq, strip, lower, is_empty, ltb, leb, ◌==◌, if◌then◌else◌, select, find, exists,
  update, order_by, Dict, lookup, insert,
}
use server_vps.Database.{Db, Node, Container, User}
use server_vps.Containers.Lifecycle.{is_busy}

-- STALE_AFTER_SECONDS is a parameter.
unfoldable pub mark_stale_nodes : ℕ → ℕ → Db → Db
mark_stale_nodes stale_after now d = record d {
  nodes =
      update
        (λ n.
          ltb n.last_seen (now - stale_after)
          && str_eq n.status "online"
          && not (str_eq n.agent_version "demo-seed"))
        (λ n. record n { status = "offline" }) d.nodes;
}

-- ContainerStateReport
pub record ContainerStateReport : Type 0 where
  pub name : String
  pub status : Text
  pub ip : Text
  pub role : String

-- "running", "stopped", or "" for a status that says nothing.
unfoldable pub normalize_reported_container_status : Text → String
normalize_reported_container_status status =
    let value = lower (strip status) in
    if text_eq value (codes "running")
    then "running"
    else if text_eq value (codes "stopped")
        || text_eq value (codes "stopping")
        || text_eq value (codes "frozen")
        || text_eq value (codes "error")
    then "stopped"
    else ""

-- {report.name: report for report in reports if report.name}
unfoldable pub by_name :
    List ContainerStateReport → Dict String ContainerStateReport → Dict String ContainerStateReport
by_name [] reports = reports
by_name (r ∷ rs) reports =
    by_name rs (if str_eq r.name "" then reports else insert str_eq r.name r reports)

unfoldable pub is_downloader : ContainerStateReport → Bool
is_downloader r = str_eq r.role "resource_downloader" && not (str_eq r.name "")

-- The status and the address of a reported downloader.
unfoldable pub downloader_status : ContainerStateReport → String
downloader_status r =
    let status = normalize_reported_container_status r.status in
    if str_eq status "" then "stopped" else status

unfoldable pub downloader_ip : ContainerStateReport → Text
downloader_ip r = if str_eq (downloader_status r) "running" then r.ip else []

-- INSERT INTO containers ... ON CONFLICT (name) DO UPDATE
unfoldable pub upsert_downloader : ℕ → ℕ → ℕ → ContainerStateReport → Db → Db
upsert_downloader node_id ts admin_id r d =
    if exists (λ (c : Container). str_eq c.name r.name) d.containers
    then record d {
      containers =
          update (λ c. str_eq c.name r.name)
            (λ c. record c {
              node_id = node_id;
              status = downloader_status r;
              ip = downloader_ip r;
              access_status = "ready";
              access_error = [];
              system_role = "resource_downloader";
              updated_at = ts;
            })
            d.containers;
    }
    else record d {
      containers =
          d.containers
          ++ record {
            id = d.next_container_id;
            name = r.name;
            owner_id = admin_id;
            node_id = node_id;
            image_id = "system/resource-downloader";
            status = downloader_status r;
            cpu_cores = pos 1;
            memory_gb = pos 2;
            disk_gb = 20;
            ssh_username = codes "root";
            ssh_key = [];
            mounts = [];
            managed_mounts = [];
            ip = downloader_ip r;
            access_status = "ready";
            access_error = [];
            system_role = "resource_downloader";
            expires_at = 0;
            updated_at = ts;
          }
            ∷ [];
      next_container_id = d.next_container_id + 1;
    }

-- SELECT id FROM users WHERE username = 'admin' ORDER BY id LIMIT 1
unfoldable pub find_admin : Db → Option User
find_admin d =
    find (λ (u : User). str_eq u.username "admin") (order_by (λ a b. leb a.id b.id) d.users)

unfoldable pub sync_downloaders : ℕ → ℕ → List ContainerStateReport → Db → Db
sync_downloaders node_id ts [] d = d
sync_downloaders node_id ts (r ∷ rs) d =
    let added : Db = elim (find_admin d) [
      | none ↦ d
      | some admin ↦ upsert_downloader node_id ts admin.id r d
    ] in
    sync_downloaders node_id ts rs (if is_downloader r then added else d)

-- What a report changes in the row of a container: its status and its address, or nothing.
unfoldable pub verdict : Dict String ContainerStateReport → Container → Option (String × Text)
verdict reports c =
    let reported : Option (String × Text) = elim (lookup str_eq c.name reports) [
      | none ↦ if str_eq c.status "missing" then none else some ("missing", [])
      | some r ↦
          let next_status = normalize_reported_container_status r.status in
          let next_ip = if str_eq next_status "running" then r.ip else [] in
          if str_eq next_status ""
          then none
          else if str_eq c.status next_status && text_eq c.ip next_ip
          then none
          else some (next_status, next_ip)
    ] in
    if is_busy c.status || str_eq c.status "failed" then none else reported

-- UPDATE containers SET status, ip, updated_at
unfoldable pub apply_verdict : ℕ → Option (String × Text) → Container → Container
apply_verdict ts none c = c
apply_verdict ts (some (status, ip)) c = record c { status = status; ip = ip; updated_at = ts }

-- The second loop, over the rows that were read before it.
unfoldable pub sync_rows :
    ℕ → Dict String ContainerStateReport → List Container → List Container → List Container
sync_rows ts reports [] containers = containers
sync_rows ts reports (row ∷ rows) containers =
    sync_rows ts reports rows
      (update (λ c. c.id == row.id) (apply_verdict ts (verdict reports row)) containers)

unfoldable pub rows_of_node : ℕ → List Container → List Container
rows_of_node node_id containers =
    order_by (λ a b. leb a.id b.id) (select (λ c. c.node_id == node_id) containers)

unfoldable pub sync_node_containers : ℕ → ℕ → List ContainerStateReport → String → Db → Db
sync_node_containers node_id ts reports incus_status d =
    let d' = sync_downloaders node_id ts reports d in
    let rows = rows_of_node node_id d'.containers in
    if str_eq incus_status "unavailable" || str_eq incus_status ""
    then d
    else record d' { containers = sync_rows ts (by_name reports []) rows d'.containers }
