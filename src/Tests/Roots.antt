-- ===== src/Tests/Roots.antt =====
-- Storage roots of a node, and paths on them.
use server_vps.Prelude.{◌≡◌, ◌≤◌, refl, inr, true, List, [], ◌∷◌, Text, codes, length, ok}
use server_vps.Storage.Roots.{StorageVolume, storage_root_for_node, source_path_for_node}
use server_vps.Storage.Roots.Absolute.{
  IsAbsolute, IsRoot, storage_root_for_node-IsAbsolute, source_path_for_node-IsAbsolute,
}

abbrev volumes : List StorageVolume
volumes =
    record { node_id = 3; volume_name = codes "root"; path = codes " /tank/data/ "; present = true }
    ∷ []

tank : storage_root_for_node volumes 3 ≡ ok (codes "/tank/data")
unfolding server_vps.Storage.Roots.storage_root_for_node server_vps.Storage.Roots.trim_root
    server_vps.Storage.Roots.ends_in_dots server_vps.Storage.Roots.is_root_of
    server_vps.Prelude.strip server_vps.Prelude.lstrip server_vps.Prelude.is_space
    server_vps.Prelude.starts_with server_vps.Prelude.rstrip_of server_vps.Prelude.lstrip_of
    server_vps.Prelude.find server_vps.Prelude.text_eq server_vps.Prelude.drop
    server_vps.Scheduler.Gpus.contains
tank = refl

storage_root_for_node-IsAbsolute_example :
    IsAbsolute (codes "/tank/data") × (length (codes "/tank/data") ≤ 240)
storage_root_for_node-IsAbsolute_example =
    storage_root_for_node-IsAbsolute volumes 3 (codes "/tank/data") tank

moved : source_path_for_node (codes "/data/sets//a") (codes "/tank/") ≡ ok (codes "/tank/sets/a")
unfolding server_vps.Storage.Roots.source_path_for_node server_vps.Storage.Roots.trim_root
    server_vps.Storage.Roots.squeeze server_vps.Storage.Roots.or_else
    server_vps.Storage.Roots.root_of_node server_vps.Prelude.strip server_vps.Prelude.lstrip
    server_vps.Prelude.is_space server_vps.Prelude.starts_with server_vps.Prelude.rstrip_of
    server_vps.Prelude.lstrip_of server_vps.Prelude.find server_vps.Prelude.text_eq
    server_vps.Prelude.drop server_vps.Scheduler.Gpus.contains
moved = refl

rooted : IsRoot (codes "/tank/")
unfolding server_vps.Prelude.strip server_vps.Prelude.lstrip server_vps.Prelude.is_space
    server_vps.Prelude.starts_with server_vps.Prelude.rstrip_of server_vps.Prelude.lstrip_of
    server_vps.Prelude.find server_vps.Prelude.text_eq server_vps.Prelude.drop
    server_vps.Scheduler.Gpus.contains
rooted = inr refl

source_path_for_node-IsAbsolute_example : IsAbsolute (codes "/tank/sets/a")
source_path_for_node-IsAbsolute_example =
    source_path_for_node-IsAbsolute (codes "/data/sets//a") (codes "/tank/") (codes "/tank/sets/a")
      rooted moved
