-- ===== src/Database/Rows.antt =====
-- The rows of the tables that the modelled code reads and writes (backend/app/database.py), and the
-- JSON payloads of node tasks. Columns that only the interface shows are left out. Ids, times and
-- sizes are natural numbers; a nullable id is 0 when NULL, as `or 0` reads it.
use server_vps.Prelude.{ℕ, ℤ, String, Text, List, [], Bool, Option, none, Dict}

-- container_ports
pub record ContainerPort : Type 0 where
  pub id : ℕ
  pub container_id : ℕ
  pub name : Text
  pub protocol : Text
  pub container_port : ℕ
  pub host_port : ℕ
  pub node_port : ℕ
  pub created_at : ℕ
  pub updated_at : ℕ

-- What `public_port_payload` returns.
pub record PublicPort : Type 0 where
  pub id : ℕ
  pub name : Text
  pub protocol : Text
  pub container_port : ℕ
  pub host_port : ℕ
  pub node_port : ℕ
  pub public_port : ℕ
  pub node_listen_port : ℕ

-- An entry of the column `managed_mounts`.
pub record ManagedMount : Type 0 where
  pub kind : String
  pub source : Text
  pub target : Text
  pub readonly : Bool
  pub required : Bool

-- containers
pub record Container : Type 0 where
  pub id : ℕ
  pub name : String
  pub owner_id : ℕ
  pub node_id : ℕ
  pub image_id : String
  pub status : String
  pub cpu_cores : ℤ
  pub memory_gb : ℤ
  pub disk_gb : ℕ
  pub ssh_username : Text
  pub ssh_key : Text
  pub mounts : List Text
  pub managed_mounts : List ManagedMount
  pub ip : Text
  pub access_status : String
  pub access_error : Text
  pub system_role : String
  pub expires_at : ℕ
  pub updated_at : ℕ

-- The JSON object of a node task: the keys that the backend itself reads back. A key that a task
-- lacks holds the value that `payload.get(key) or default` gives.
pub record Payload : Type 0 where
  pub container_id : ℕ
  pub name : String
  pub ssh_username : Text
  pub ssh_key : Text
  pub mounts : List Text
  pub managed_mounts : List ManagedMount
  pub ports : List PublicPort
  pub operation : String
  pub previous_status : String
  pub sync_key_id : String
  pub sync_pubkey : String
  pub sync_storage_node_id : ℕ
  pub user_id : ℕ
  pub node_id : ℕ
  pub volume_name : Text
  pub resource_id : ℕ
  pub managed_mount : Option ManagedMount

abbrev pub empty_payload : Payload
empty_payload = record {
  container_id = 0;
  name = "";
  ssh_username = [];
  ssh_key = [];
  mounts = [];
  managed_mounts = [];
  ports = [];
  operation = "";
  previous_status = "";
  sync_key_id = "";
  sync_pubkey = "";
  sync_storage_node_id = 0;
  user_id = 0;
  node_id = 0;
  volume_name = [];
  resource_id = 0;
  managed_mount = none;
}

-- node_tasks
pub record NodeTask : Type 0 where
  pub id : ℕ
  pub node_id : ℕ
  pub container_id : ℕ
  pub data_sync_task_id : ℕ
  pub task_type : String
  pub payload : Payload
  pub status : String
  pub attempts : ℕ
  pub last_error : Text
  pub created_at : ℕ
  pub claimed_at : ℕ
  pub finished_at : ℕ
  pub available_at : ℕ
  pub updated_at : ℕ

-- The progress object that an agent reports: two keys that the backend fills in, and the rest as it
-- came.
pub record Progress : Type 0 where
  pub content : Text
  pub task_id : Option ℕ
  pub node : Option String

-- data_sync_tasks; of the JSON detail the error and the retry keys are kept, absent ones
-- as 0.
pub record DataSyncTask : Type 0 where
  pub id : ℕ
  pub task_type : String
  pub resource_id : ℕ
  pub target_node_id : ℕ
  pub target_path : Text
  pub status : String
  pub error : Text
  pub retry_count : ℕ
  pub max_retries : ℕ
  pub retry_backoff_seconds : ℕ
  pub progress : Progress
  pub updated_at : ℕ
  pub finished_at : ℕ

-- node_cache_inventory
pub record CacheInventory : Type 0 where
  pub resource_id : ℕ
  pub node_id : ℕ
  pub path : Text
  pub status : String
  pub last_error : Text
  pub updated_at : ℕ

-- shared_resources
pub record SharedResource : Type 0 where
  pub id : ℕ
  pub request_status : String
  pub check_status : String
  pub check_error : Text
  pub download_progress : Progress
  pub updated_at : ℕ

-- user_workspace_volumes
pub record WorkspaceVolume : Type 0 where
  pub user_id : ℕ
  pub node_id : ℕ
  pub volume_name : Text
  pub quota_gb : ℕ
  pub status : String
  pub lifecycle : String
  pub last_used_at : ℕ
  pub cleanup_after : ℕ
  pub updated_at : ℕ

-- nodes. Disk sizes, REAL columns in GB, are counted in thousandths of a GB; `scheduler_weight`, which the
-- platform keeps at or above -1000, is counted from there.
pub record Node : Type 0 where
  pub id : ℕ
  pub hostname : String
  pub ip : Text
  pub node_type : String
  pub driver_pool : Text
  pub status : String
  pub schedulable : Bool
  pub maintenance : Bool
  pub max_containers : ℕ
  pub max_running_containers : ℕ
  pub max_gpu_shared_containers : ℕ
  pub allow_gpu_sharing : Bool
  pub max_cpu_per_container : ℕ
  pub max_memory_gb_per_container : ℕ
  pub max_disk_gb_per_container : ℕ
  pub reserved_memory_gb : ℕ
  pub reserved_disk_gb : ℕ
  pub root_disk_gb : ℕ
  pub allow_port_mapping : Bool
  pub max_ports_per_container : ℕ
  pub scheduler_weight : ℕ
  pub shared_storage_mode : String
  pub cpu_total : ℕ
  pub memory_total_gb : ℕ
  pub disk_total_mb : ℕ
  pub cpu_used : ℕ
  pub memory_used_gb : ℕ
  pub disk_used_mb : ℕ
  pub last_seen : ℕ
  pub incus_status : String
  pub agent_version : String
  pub node_token : String
  pub capabilities : List String

-- users, as `request_user` holds the signed-in one.
pub record User : Type 0 where
  pub id : ℕ
  pub username : String
  pub role : String
  pub group_name : String
  pub enabled : Bool
  pub ssh_key : Text
  pub password_hash : Text

-- auth_sessions
pub record AuthSession : Type 0 where
  pub token_hash : String
  pub user_id : ℕ
  pub created_at : ℕ
  pub expires_at : ℕ
  pub last_seen_at : ℕ

-- api_tokens
pub record ApiToken : Type 0 where
  pub token_hash : String
  pub user_id : ℕ
  pub expires_at : ℕ
  pub last_used_at : ℕ

-- audit_logs; the target `kind:id` is a pair, the JSON detail is left out.
pub record AuditLog : Type 0 where
  pub actor : String
  pub action : String
  pub target_kind : String
  pub target_id : ℕ
  pub target_name : Text
  pub created_at : ℕ

-- What one transaction sees; the counters are the sequences of the serial ids, and `system_settings` holds its
-- values by their keys.
pub record Db : Type 0 where
  pub users : List User
  pub auth_sessions : List AuthSession
  pub api_tokens : List ApiToken
  pub nodes : List Node
  pub containers : List Container
  pub container_ports : List ContainerPort
  pub node_tasks : List NodeTask
  pub data_sync_tasks : List DataSyncTask
  pub node_cache_inventory : List CacheInventory
  pub shared_resources : List SharedResource
  pub workspace_volumes : List WorkspaceVolume
  pub audit_logs : List AuditLog
  pub system_settings : Dict String Text
  pub next_container_id : ℕ
  pub next_port_id : ℕ
  pub next_task_id : ℕ
