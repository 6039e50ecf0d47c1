-- ===== src/Storage/Roots.antt =====
-- The storage root of a node and the place of a platform path on it: `storage_root_for_node`,
-- `storage_root_for_node_from_row` and `source_path_for_node` of backend/app/storage/services.py.
pub mod Absolute
use mathlib.Core.List.{reverse}
use server_vps.Prelude.{
  ℕ, Bool, true, not, ◌&&◌, ◌||◌, none, some, List, [], ◌∷◌, ◌++◌, Text, codes, text_eq, strip,
  is_empty, starts_with, drop, rstrip_of, length, ltb, ◌==◌, if◌then◌else◌, find, Result, ok,
  http_error, ◌>>=◌, ◌>>◌, raise_if,
}
use server_vps.Scheduler.Gpus.{contains}

-- storage_volume_reports; the column `exists` is named `present`.
pub record StorageVolume : Type 0 where
  pub node_id : ℕ
  pub volume_name : Text
  pub path : Text
  pub present : Bool

-- root.rstrip("/") or "/"
unfoldable pub trim_root : Text → Text
trim_root root =
    let trimmed = rstrip_of b'/' root in if is_empty trimmed then codes "/" else trimmed

-- path.endswith("/..")
unfoldable pub ends_in_dots : Text → Bool
ends_in_dots path = starts_with (reverse path) (codes "../")

unfoldable pub is_root_of : ℕ → StorageVolume → Bool
is_root_of node_id row =
    row.node_id == node_id && text_eq row.volume_name (codes "root") && row.present

unfoldable pub storage_root_for_node : List StorageVolume → ℕ → Result Text
storage_root_for_node volumes node_id = elim (find (is_root_of node_id) volumes) [
  | none ↦ ok (codes "/data")
  | some row ↦
      let path = strip row.path in
      raise_if (not (starts_with path (codes "/"))) 400
      >> raise_if (contains path (0 ∷ []) || contains path (codes "/../") || ends_in_dots path) 400
      >> raise_if (ltb 240 (length path)) 400
      >> ok (trim_root path)
]

unfoldable pub storage_root_for_node_from_row : Text → Text
storage_root_for_node_from_row storage_root =
    let root = strip storage_root in if starts_with root (codes "/") then trim_root root else []

-- s.replace("//", "/")
unfoldable pub squeeze : Text → Text
squeeze [] = []
squeeze (c ∷ []) = c ∷ []
squeeze (c ∷ d ∷ s) =
    let past = squeeze s in
    let rest = squeeze (d ∷ s) in if c == b'/' && d == b'/' then b'/' ∷ past else c ∷ rest

-- s or t
unfoldable pub or_else : Text → Text → Text
or_else s t = if is_empty s then t else s

-- The trimmed storage root of a node; the column may hold "".
unfoldable pub root_of_node : Text → Text
root_of_node storage_root =
    let root =
      or_else (or_else storage_root (storage_root_for_node_from_row storage_root))
        (codes "/data") in
    trim_root (or_else (strip root) (codes "/data"))

unfoldable pub source_path_for_node : Text → Text → Result Text
source_path_for_node platform_path storage_root =
    let path = strip platform_path in
    let root = root_of_node storage_root in
    raise_if (not (starts_with path (codes "/"))) 400
    >> (if text_eq path root || starts_with path (root ++ codes "/")
        then ok path
        else if text_eq path (codes "/data")
        then ok root
        else if starts_with path (codes "/data/")
        then ok (squeeze (root ++ codes "/" ++ drop 6 path))
        else ok path)
