-- ===== src/Containers/Expiry.antt =====
-- One round of `container_expiry_loop` and of `workspace_cleanup_loop` of backend/app/containers/routes.py. No
-- statement of a round fails in the model, so the handlers that log an exception have nothing to do.
pub mod Sweeps
pub mod Workspaces
use server_vps.Prelude.{
  ◌++◌, ℕ, ◌+◌, ◌-◌, String, str_eq, Bool, true, false, not, ◌&&◌, ◌||◌, List, [], ◌∷◌, ltb, leb,
  ◌==◌, if◌then◌else◌, select, exists, update,
}
use server_vps.Database.{Db, Container, WorkspaceVolume, Payload, empty_payload}
use server_vps.Tasks.Queue.{insert_task}
use server_vps.Tasks.Results.Success.{audit_log}
use server_vps.Containers.Lifecycle.{set_status}

-- expires_at > 0 AND expires_at <= ts AND status IN ('running', 'stopped', 'provisioning')
unfoldable pub is_expired : ℕ → Container → Bool
is_expired ts c =
    ltb 0 c.expires_at
    && leb c.expires_at ts
    && (str_eq c.status "running" || str_eq c.status "stopped" || str_eq c.status "provisioning")

unfoldable pub stop_payload : Container → Payload
stop_payload c = record empty_payload {
  container_id = c.id;
  name = c.name;
  operation = "stop";
  previous_status = "running";
}

unfoldable pub stop_expired : ℕ → Container → Db → Db
stop_expired ts c d =
    audit_log "system" "auto-stop-expired" "container" c.id ts
      (insert_task ts c.node_id c.id "incus_stop_container" (stop_payload c) 0 0
        (set_status c.id "stopping" ts d)).1

unfoldable pub delete_expired : ℕ → Container → Db → Db
delete_expired ts c d =
    audit_log "system" "auto-delete-expired" "container" c.id ts
      (insert_task ts c.node_id c.id "incus_delete_container"
        (record empty_payload { container_id = c.id; name = c.name }) 0 0
        (set_status c.id "deleting" ts d)).1

-- A stopped container is deleted a day after it expired; `ts - 86400` stops at 0, which no expiry time that counts
-- is at or below.
unfoldable pub expire_container : ℕ → Container → Db → Db
unfolding stop_expired delete_expired
expire_container ts c d =
    if str_eq c.status "running"
    then stop_expired ts c d
    else if str_eq c.status "stopped" && leb c.expires_at (ts - 86400)
    then delete_expired ts c d
    else d

unfoldable pub expire_containers : ℕ → List Container → Db → Db
unfolding expire_container
expire_containers ts [] d = d
expire_containers ts (c ∷ cs) d = expire_containers ts cs (expire_container ts c d)

unfoldable pub container_expiry_round : ℕ → Db → Db
unfolding is_expired expire_containers
container_expiry_round ts d = expire_containers ts (select (is_expired ts) d.containers) d

-- A temporary workspace that is due, with no container of its user left on its node.
unfoldable pub is_due : ℕ → List Container → WorkspaceVolume → Bool
is_due ts containers v =
    str_eq v.lifecycle "temporary"
    && str_eq v.status "active"
    && ltb 0 v.cleanup_after
    && leb v.cleanup_after ts
    && not (exists (λ c. c.owner_id == v.user_id && c.node_id == v.node_id) containers)

unfoldable pub set_removing : WorkspaceVolume → ℕ → List WorkspaceVolume → List WorkspaceVolume
set_removing v ts =
    update (λ x. x.user_id == v.user_id && x.node_id == v.node_id)
      (λ x. record x { status = "removing"; updated_at = ts })

-- audit(conn, "system", "expire-workspace", f"workspace:{volume_name}", ...)
unfoldable pub audit_workspace : WorkspaceVolume → ℕ → Db → Db
audit_workspace v ts d = record d {
  audit_logs =
      d.audit_logs
      ++ record {
        actor = "system";
        action = "expire-workspace";
        target_kind = "workspace";
        target_id = 0;
        target_name = v.volume_name;
        created_at = ts;
      }
        ∷ [];
}

unfoldable pub remove_workspace : ℕ → WorkspaceVolume → Db → Db
unfolding set_removing audit_workspace
remove_workspace ts v d =
    let (task, queued) =
      insert_task ts v.node_id 0 "remove_user_workspace_volume"
        (record empty_payload {
          user_id = v.user_id;
          node_id = v.node_id;
          volume_name = v.volume_name;
        })
        0 0 d in
    audit_workspace v ts
      (record queued { workspace_volumes = set_removing v ts queued.workspace_volumes })

unfoldable pub remove_workspaces : ℕ → List WorkspaceVolume → Db → Db
unfolding remove_workspace
remove_workspaces ts [] d = d
remove_workspaces ts (v ∷ vs) d = remove_workspaces ts vs (remove_workspace ts v d)

unfoldable pub workspace_cleanup_round : ℕ → Db → Db
unfolding is_due remove_workspaces
workspace_cleanup_round ts d =
    remove_workspaces ts (select (is_due ts d.containers) d.workspace_volumes) d
