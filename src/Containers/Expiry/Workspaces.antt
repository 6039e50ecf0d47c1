-- ===== src/Containers/Expiry/Workspaces.antt =====
-- What a round of the workspace loop leaves over.
use server_vps.Prelude.{
  ℕ, ◌≡◌, refl, inl, inr, true, false, ◌&&◌, List, [], ◌∷◌, ◌==◌, arith, select, exists, update,
  All, All-of_IsIn, IsIn, Bool-cases,
}
use server_vps.Database.{Db, Container, WorkspaceVolume}
use server_vps.Tasks.Queue.{insert_task}
use server_vps.Containers.Expiry.{
  audit_workspace, is_due, set_removing, remove_workspace, remove_workspaces,
  workspace_cleanup_round,
}

module _ (ts : ℕ) (cs : List Container) where
  -- A due volume that the rest of the round still comes to.
  abbrev IsHandled : List WorkspaceVolume → WorkspaceVolume → Type 0
  IsHandled rest x =
      is_due ts cs x ≡ true
      → exists (λ (v : WorkspaceVolume). x.user_id == v.user_id && x.node_id == v.node_id) rest
        ≡ true

  set_removing-IsHandled :
      (v : WorkspaceVolume) (rest vs : List WorkspaceVolume)
      → All (IsHandled (v ∷ rest)) vs
      → All (IsHandled rest) (set_removing v ts vs)
  unfolding set_removing update exists is_due
  set_removing-IsHandled v rest [] h = tt
  set_removing-IsHandled v rest (x ∷ vs) h =
      let others = set_removing-IsHandled v rest vs h.1 in
      elim (Bool-cases (x.user_id == v.user_id && x.node_id == v.node_id)) [
        | inl f ↦ rw (f, update) (λ o. absurd (ground (arith, o)), others)
        | inr f ↦ rw (f, update) (λ o. ground (arith, f, h.0 o), others)
      ]

  remove_workspaces-IsHandled :
      (vs : List WorkspaceVolume) (d : Db)
      → All (IsHandled vs) d.workspace_volumes
      → All (IsHandled []) (remove_workspaces ts vs d).workspace_volumes
  unfolding remove_workspaces remove_workspace audit_workspace insert_task
  remove_workspaces-IsHandled [] d h = h
  remove_workspaces-IsHandled (v ∷ vs) d h =
      remove_workspaces-IsHandled vs (remove_workspace ts v d)
        (set_removing-IsHandled v vs d.workspace_volumes h)

  remove_workspaces-containers :
      (vs : List WorkspaceVolume) (d : Db) → (remove_workspaces ts vs d).containers ≡ d.containers
  unfolding remove_workspaces remove_workspace audit_workspace insert_task
  remove_workspaces-containers [] d = refl
  remove_workspaces-containers (v ∷ vs) d =
      remove_workspaces-containers vs (remove_workspace ts v d)

  exists-select :
      (x : WorkspaceVolume) (vs : List WorkspaceVolume)
      → is_due ts cs x ≡ true
      → IsIn x vs
      → exists
          (λ (v : WorkspaceVolume). x.user_id == v.user_id && x.node_id == v.node_id)
          (select (is_due ts cs) vs)
        ≡ true
  unfolding select exists
  exists-select x [] o i = absurd i
  exists-select x (v ∷ vs) o i = ground (arith, i, o, exists-select x vs o)

  none-due :
      (vs : List WorkspaceVolume) → All (IsHandled []) vs → All (λ v. is_due ts cs v ≡ false) vs
  unfolding exists
  none-due [] h = tt
  none-due (x ∷ vs) h = (ground (arith, h.0), none-due vs h.1)

-- After a round of the cleanup loop no temporary workspace is still active that is due and whose user has no container
-- left on its node, and the round has removed no container.
pub workspace_cleanup_round-is_due :
    (ts : ℕ) (d : Db)
    → All
        (λ v. is_due ts (workspace_cleanup_round ts d).containers v ≡ false)
        (workspace_cleanup_round ts d).workspace_volumes
      × ((workspace_cleanup_round ts d).containers ≡ d.containers)
unfolding workspace_cleanup_round
workspace_cleanup_round-is_due ts d =
    let cs = d.containers in
    let due = select (is_due ts cs) d.workspace_volumes in
    let start : All (IsHandled ts cs due) d.workspace_volumes =
      All-of_IsIn (IsHandled ts cs due) d.workspace_volumes
        (λ x i o. exists-select ts cs x d.workspace_volumes o i) in
    let same = remove_workspaces-containers ts cs due d in
    let swept = remove_workspaces ts due d in
    (
      rw same
          (none-due ts cs swept.workspace_volumes (remove_workspaces-IsHandled ts cs due d start)),
      same,
    )
