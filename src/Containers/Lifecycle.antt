-- ===== src/Containers/Lifecycle.antt =====
-- `enqueue_container_lifecycle` with the routes `start_container`, `stop_container` and
-- `restart_container`, and `delete_container`, of backend/app/containers/routes.py; `incus_lifecycle_payload` of
-- backend/app/containers/services.py, less the shared storage settings that it passes to the agent as they are.
-- A route's answer, a view of the row, is left out.
pub mod Guards
pub mod Waiting
pub mod Results
use server_vps.Prelude.{
  ℕ, String, str_eq, Bool, true, false, not, ◌&&◌, ◌||◌, Option, none, some, List, [], ◌∷◌, ◌==◌,
  if◌then◌else◌, find,
}
use server_vps.Database.{
  Db, Container, User, Payload, empty_payload, NodeTask, Tx, pure, query, modify, raise_when,
  found_or, audit, ◌>>=◌, ◌>>◌,
}
use server_vps.Auth.{require_user, is_admin_user}
use server_vps.Tasks.Queue.{enqueue_node_task}
use server_vps.Tasks.Results.Success.{update_container, delete_container_row}

unfoldable pub require_container_access : User → Container → Tx Unit
unfolding is_admin_user
require_container_access user c =
    raise_when (not (is_admin_user (some user)) && not (c.owner_id == user.id)) 403

-- SELECT * FROM containers WHERE id = ..., or 404
unfoldable pub find_container : ℕ → Tx Container
find_container container_id = do
  containers ← query (λ d. d.containers)
  found_or 404 (find (λ c. c.id == container_id) containers)

-- ("provisioning", "starting", "stopping", "restarting", "deleting")
unfoldable pub is_busy : String → Bool
is_busy status =
    str_eq status "provisioning"
    || str_eq status "starting"
    || str_eq status "stopping"
    || str_eq status "restarting"
    || str_eq status "deleting"

unfoldable pub set_status : ℕ → String → ℕ → Db → Db
set_status container_id status ts =
    update_container container_id (λ c. record c { status = status; updated_at = ts })

unfoldable pub incus_lifecycle_payload : Container → String → Payload
incus_lifecycle_payload c operation = record empty_payload {
  container_id = c.id;
  name = c.name;
  operation = operation;
  previous_status = c.status;
  managed_mounts = c.managed_mounts;
}

-- The three routes; each gives an operation and the status that the container waits in.
pub data Operation : Type 0 where
  start_container stop_container restart_container : Operation

unfoldable pub operation_name : Operation → String
operation_name start_container = "start"
operation_name stop_container = "stop"
operation_name restart_container = "restart"

unfoldable pub pending_status : Operation → String
pending_status start_container = "starting"
pending_status stop_container = "stopping"
pending_status restart_container = "restarting"

-- f"incus_{operation}_container"
unfoldable pub operation_task_type : Operation → String
operation_task_type start_container = "incus_start_container"
operation_task_type stop_container = "incus_stop_container"
operation_task_type restart_container = "incus_restart_container"

unfoldable pub enqueue_container_lifecycle : Option User → ℕ → ℕ → Operation → Tx NodeTask
enqueue_container_lifecycle request ts container_id operation = do
  user ← require_user request
  container ← find_container container_id
  require_container_access user container
  raise_when (not (str_eq container.system_role "")) 409
  raise_when (is_busy container.status) 409
  modify (set_status container_id (pending_status operation) ts)
  task ←
      enqueue_node_task ts container.node_id container_id (operation_task_type operation)
        (incus_lifecycle_payload container (operation_name operation)) 0 0
  audit user.username (operation_name operation) "container" container_id ts
  pure task

-- `name` and `force` are the fields of ContainerDeleteRequest.
unfoldable pub delete_container : Option User → ℕ → ℕ → String → Bool → Tx Unit
delete_container request ts container_id name force = do
  user ← require_user request
  container ← find_container container_id
  require_container_access user container
  raise_when (not (str_eq container.system_role "")) 409
  raise_when (force && not (is_admin_user (some user))) 403
  raise_when (not (str_eq name container.name)) 400
  if is_busy container.status
      then (do
        raise_when (not force) 409
        modify (delete_container_row container_id)
        audit "admin" "force-delete-record" "container" container_id ts)
      else (do
        modify (set_status container_id "deleting" ts)
        task ←
            enqueue_node_task ts container.node_id container_id "incus_delete_container"
              (incus_lifecycle_payload container "delete") 0 0
        audit "admin" "delete" "container" container_id ts)
