-- ===== src/Tests/Data.antt =====
-- One user, one administrator, one node, one container and its SSH port.
use server_vps.Prelude.{ℕ, pos, String, Bool, true, false, [], ◌∷◌, Text, codes}
use server_vps.Database.{
  User, Node, Container, ContainerPort, NodeTask, empty_payload, AuthSession, Db,
}
use server_vps.Ports.Allocate.{Ranges}
use server_vps.Ports.Mappings.{Draws, PortInput}
use server_vps.Tasks.Results.Complete.{TaskResult, OtherTypes}

abbrev pub alice : User
alice = record {
  id = 1;
  username = "alice";
  role = "member";
  group_name = "member";
  enabled = true;
  ssh_key = codes "key";
  password_hash = codes "old";
}

abbrev pub root : User
root = record {
  id = 2;
  username = "root";
  role = "admin";
  group_name = "admin";
  enabled = true;
  ssh_key = [];
  password_hash = [];
}

abbrev pub hash : Text → String
hash token = "h"

abbrev pub node : Node
node = record {
  id = 7;
  hostname = "gpu7";
  ip = [];
  node_type = "gpu";
  driver_pool = [];
  status = "online";
  schedulable = true;
  maintenance = false;
  max_containers = 4;
  max_running_containers = 4;
  max_gpu_shared_containers = 1;
  allow_gpu_sharing = false;
  max_cpu_per_container = 8;
  max_memory_gb_per_container = 32;
  max_disk_gb_per_container = 100;
  reserved_memory_gb = 4;
  reserved_disk_gb = 50;
  root_disk_gb = 0;
  allow_port_mapping = true;
  max_ports_per_container = 3;
  scheduler_weight = 1;
  shared_storage_mode = "inherit";
  cpu_total = 32;
  memory_total_gb = 128;
  disk_total_mb = 1000000;
  cpu_used = 0;
  memory_used_gb = 0;
  disk_used_mb = 0;
  last_seen = 0;
  incus_status = "available";
  agent_version = "1";
  node_token = "h";
  capabilities = [];
}

abbrev pub container : String → Container
container status = record {
  id = 3;
  name = "lab";
  owner_id = 1;
  node_id = 7;
  image_id = "ubuntu";
  status = status;
  cpu_cores = pos 2;
  memory_gb = pos 4;
  disk_gb = 20;
  ssh_username = codes "alice";
  ssh_key = codes "key";
  mounts = [];
  managed_mounts = [];
  ip = [];
  access_status = "ready";
  access_error = [];
  system_role = "";
  expires_at = 0;
  updated_at = 0;
}

abbrev pub ssh_port : ContainerPort
ssh_port = record {
  id = 1;
  container_id = 3;
  name = codes "ssh";
  protocol = codes "tcp";
  container_port = 22;
  host_port = 100;
  node_port = 200;
  created_at = 0;
  updated_at = 0;
}

abbrev pub task : NodeTask
task = record {
  id = 1;
  node_id = 7;
  container_id = 3;
  data_sync_task_id = 0;
  task_type = "incus_start_container";
  payload = empty_payload;
  status = "pending";
  attempts = 0;
  last_error = [];
  created_at = 5;
  claimed_at = 0;
  finished_at = 0;
  available_at = 0;
  updated_at = 5;
}

abbrev pub session : AuthSession
session = record {
  token_hash = "h";
  user_id = 1;
  created_at = 0;
  expires_at = 50;
  last_seen_at = 0;
}

abbrev pub database : String → Db
database status = record {
  users = alice ∷ root ∷ [];
  auth_sessions = session ∷ [];
  api_tokens = [];
  nodes = node ∷ [];
  containers = container status ∷ [];
  container_ports = ssh_port ∷ [];
  node_tasks = task ∷ [];
  data_sync_tasks = [];
  node_cache_inventory = [];
  shared_resources = [];
  workspace_volumes = [];
  audit_logs = [];
  system_settings = [];
  next_container_id = 4;
  next_port_id = 2;
  next_task_id = 2;
}

abbrev pub ranges : Ranges
ranges = record { host_start = 100; host_end = 103; node_start = 200; node_end = 203 }

abbrev pub draws : Draws
draws = record { host = λ j n. 0; node = λ j n. 0 }

abbrev pub web_port : PortInput
web_port = record { name = codes "web"; protocol = codes "TCP"; container_port = 80 }

abbrev pub result : TaskResult
result = record { succeeded = true; ip = codes "10.0.0.9"; error = []; blocked = [] }

abbrev pub no_others : OtherTypes
no_others = record { on_success = λ ts r t d. d; on_failure = λ ts e t d. d }

abbrev pub nobody : ℕ → Bool
nobody id = false
