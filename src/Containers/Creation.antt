-- ===== src/Containers/Creation.antt =====
-- The creation of containers in backend/app/containers/routes.py: the tables and requests that `create_container` and
-- `retry_container` work on, and the transactions over those tables.
pub mod Paths
pub mod Checks
pub mod Mounts
pub mod Inserts
pub mod Create
pub mod Usage
pub mod Bounds
use server_vps.Prelude.{
  ℕ, ℤ, String, Bool, Option, none, some, List, Text, Dict, Result, ok, http_error,
}
use server_vps.Database.{Db, Tx, ManagedMount}
use server_vps.Ports.Mappings.{PortInput}
use server_vps.Scheduler.Gpus.{Fleet, Gpu, ContainerGpu, ResourceCache}

-- quotas
pub record Quota : Type 0 where
  pub user_id : ℕ
  pub cpu_cores : ℤ
  pub memory_gb : ℤ
  pub gpu_count : ℤ
  pub container_count : ℤ
  pub container_disk_limit_gb : ℕ

-- images
pub record Image : Type 0 where
  pub id : String
  pub owner : String
  pub enabled : Bool
  pub incus_ref : String
  pub compatible_pools : List Text

-- user_ssh_keys
pub record UserSshKey : Type 0 where
  pub user_id : ℕ
  pub public_key : Text
  pub expires_at : ℕ
  pub created_at : ℕ

-- user_storage_datasets
pub record StorageDataset : Type 0 where
  pub user_id : ℕ
  pub status : String

-- The columns of shared_resources that a creation reads.
pub record Resource : Type 0 where
  pub id : ℕ
  pub name : Text
  pub resource_type : String
  pub version : Text
  pub mount_path : Text
  pub enabled : Bool
  pub nfs_available : Bool

-- container_resources
pub record ContainerResource : Type 0 where
  pub container_id : ℕ
  pub resource_id : ℕ
  pub mount_path : Text

-- user_node_access and quota_profile_node_access are pairs.
pub record Site : Type 0 where
  pub db : Db
  pub gpus : List Gpu
  pub container_gpus : List ContainerGpu
  pub node_resource_cache : List ResourceCache
  pub quotas : List Quota
  pub images : List Image
  pub user_ssh_keys : List UserSshKey
  pub datasets : List StorageDataset
  pub resources : List Resource
  pub container_resources : List ContainerResource
  pub user_nodes : List (ℕ × ℕ)
  pub group_nodes : List (String × ℕ)

-- What the scheduler sees.
abbrev pub fleet_of : Site → Fleet
fleet_of s = record {
  db = s.db;
  gpus = s.gpus;
  container_gpus = s.container_gpus;
  node_resource_cache = s.node_resource_cache;
}

-- ContainerResourceInput
pub record ResourceInput : Type 0 where
  pub resource_id : ℕ
  pub mount_path : Text

-- ContainerCreate
pub record ContainerCreate : Type 0 where
  pub name : String
  pub image_id : String
  pub node_id : Option ℕ
  pub cpu_cores : ℤ
  pub memory_gb : ℤ
  pub disk_gb : ℤ
  pub gpu_count : ℤ
  pub gpu_ids : List ℕ
  pub gpu_model : Text
  pub ssh_username : Text
  pub ssh_key : Text
  pub resources : List ResourceInput
  pub mounts : List Text
  pub ports : List PortInput
  pub expires_at : ℕ

-- What storage services answer on an image: whether a node has it, and which file of it the storage node with this id
-- holds.
pub record ImageAnswers : Type 0 where
  pub has_incus_image : ℕ → Bool
  pub storage_image : Option ℕ

abbrev pub Sx : Type 0 → Type 0
Sx A = Site → Result (A × Site)

infixl 5 ◌>>=◌ ◌>>◌
abbrev pub ◌>>=◌ : {A B : Type 0} → Sx A → (A → Sx B) → Sx B
◌>>=◌ m f s = elim (m s) [ ok (a, s') ↦ f a s' | http_error code ↦ http_error code ]

abbrev pub ◌>>◌ : {B : Type 0} → Sx Unit → Sx B → Sx B
m >> k = m >>= λ _. k

abbrev pub pure : {A : Type 0} → A → Sx A
pure a s = ok (a, s)

abbrev pub query : {A : Type 0} → (Site → A) → Sx A
query f s = ok (f s, s)

abbrev pub modify : (Site → Site) → Sx Unit
modify f s = ok (tt, f s)

-- What does not touch the tables but may raise.
abbrev pub lift : {A : Type 0} → Result A → Sx A
lift (ok a) s = ok (a, s)
lift (http_error code) s = http_error code

-- A transaction on the tables of `Db`.
abbrev pub on_db : {A : Type 0} → Tx A → Sx A
on_db m s = elim (m s.db) [
  | ok (a, d) ↦ ok (a, record s { db = d })
  | http_error code ↦ http_error code
]
