-- ===== src/Users/Access.antt =====
-- `normalize_node_ids`, `validate_node_ids`, `user_node_ids`, `profile_node_ids`, `replace_user_node_ids` and
-- `replace_profile_node_ids` of backend/app/users/routes.py.
pub mod Allowed
use server_vps.Prelude.{
  ℕ, String, str_eq, Bool, not, List, [], ◌∷◌, ◌++◌, map, is_empty, select, exists, delete,
  order_by, leb, ◌==◌, Result, raise_if,
}
use server_vps.Database.{Node}
use server_vps.Scheduler.Select.{distinct_ids}
use server_vps.Containers.Creation.{Site, Sx, query, modify, lift, ◌>>=◌, ◌>>◌}

unfoldable pub normalize_node_ids : List ℕ → List ℕ
normalize_node_ids node_ids = distinct_ids node_ids

unfoldable pub has_node : Site → ℕ → Bool
has_node s id = exists (λ (n : Node). n.id == id) s.db.nodes

-- `节点不存在` for the first id without a node
unfoldable pub validate_node_ids : Site → List ℕ → Result {0} Unit
validate_node_ids s node_ids = raise_if (exists (λ id. not (has_node s id)) node_ids) 400

unfoldable pub user_node_ids : Site → ℕ → List ℕ
user_node_ids s user_id =
    order_by leb (map (λ (r : ℕ × ℕ). r.1) (select (λ (r : ℕ × ℕ). r.0 == user_id) s.user_nodes))

unfoldable pub profile_node_ids : Site → String → List ℕ
profile_node_ids s group_name = order_by leb (
    map (λ (r : String × ℕ). r.1)
      (select (λ (r : String × ℕ). str_eq r.0 group_name) s.group_nodes))

abbrev pub keyed : {K : Type 0} → K → List ℕ → List (K × ℕ)
keyed key [] = []
keyed key (id ∷ ids) = (key, id) ∷ keyed key ids

unfoldable pub replace_user_node_ids : ℕ → List ℕ → Sx Unit
replace_user_node_ids user_id node_ids = do
  s ← query (λ s. s)
  valid ← lift (validate_node_ids s (normalize_node_ids node_ids))
  modify (λ s. record s {
    user_nodes =
        delete (λ (r : ℕ × ℕ). r.0 == user_id) s.user_nodes
        ++ keyed user_id (normalize_node_ids node_ids);
  })

unfoldable pub replace_profile_node_ids : String → List ℕ → Sx Unit
replace_profile_node_ids group_name node_ids = do
  s ← query (λ s. s)
  valid ← lift (validate_node_ids s (normalize_node_ids node_ids))
  modify (λ s. record s {
    group_nodes =
        delete (λ (r : String × ℕ). str_eq r.0 group_name) s.group_nodes
        ++ keyed group_name (normalize_node_ids node_ids);
  })
