-- ===== src/Containers/Creation/Bounds.antt =====
-- The quota of a user and the containers after a creation.
use server_vps.Prelude.{
  ℕ, zero, ℤ, pos, sym, ◌+ℤ◌, ◌≤ℤ◌, +ℤ_comm, +ℤ_assoc, Bool-cases, ◌+◌, ◌≡◌, ap, ◌∙◌, inl, inr,
  Bool, true, Option, some, List, [], ◌∷◌, ◌++◌, Text, arith, length, select, find, ◌==◌, ==_iff,
  Result-cases, ok, or_raise,
}
use server_vps.Database.{Db, Container, User, Node, ContainerPort, ManagedMount}
use server_vps.Auth.{require_user}
use server_vps.Ports.Allocate.{Ranges}
use server_vps.Ports.Mappings.{Draws, PortInput, add_container_port}
use server_vps.Ports.Mappings.Unique.{add_container_port_inv}
use server_vps.Tasks.Queue.{enqueue_node_task, insert_task}
use server_vps.Scheduler.Gpus.{is_resource_status}
use server_vps.Containers.Creation.{
  Site, Quota, Image, ContainerCreate, ContainerResource, ResourceInput, ImageAnswers,
}
use server_vps.Containers.Creation.Usage.{Usage, is_counted, sum, usage_for_user, check_quota}
use server_vps.Containers.Creation.Inserts.{
  upsert_workspace, new_container, insert_container, insert_resources, insert_gpus, add_ports,
  import_image,
}
use server_vps.Containers.Creation.Mounts.{find_resource, chosen_path}
use server_vps.Containers.Creation.Checks.{check_names, with_gpu_ids}
use server_vps.Containers.Creation.Create.{
  Placement, admit, place, settle, furnish, create_container,
}

insert_resources-db :
    (id : ℕ) (resources : List ResourceInput) (s s' : Site)
    → insert_resources id resources s ≡ ok (tt, s')
    → s'.db ≡ s.db
unfolding insert_resources
insert_resources-db id [] s s' h = ground (arith, h)
insert_resources-db id (r ∷ rs) s s' h =
    elim (Result-cases (or_raise (find_resource s r.resource_id) 400)) [
      | inr (code, e) ↦ absurd (ground (arith, e, h))
      | inl (found, e) ↦
          let row : ContainerResource = record {
            container_id = id;
            resource_id = found.id;
            mount_path = chosen_path r found;
          } in
          let added = record s { container_resources = s.container_resources ++ row ∷ [] } in
          ground (arith, e, h, insert_resources-db id rs added s')
    ]

add_ports-containers :
    (draws : ℕ → Draws) (ranges : Ranges) (ts k id : ℕ) (ports : List PortInput) (s s' : Site)
    (rows : List ContainerPort)
    → add_ports draws ranges ts k id ports s ≡ ok (rows, s')
    → s'.db.containers ≡ s.db.containers
unfolding add_ports
add_ports-containers draws ranges ts k id [] s s' rows h = ground (arith, h)
add_ports-containers draws ranges ts k id (p ∷ ports) s s' rows h =
    elim (Result-cases (add_container_port (draws k) ranges ts id p s.db)) [
      | inr (code, e) ↦ absurd (ground (arith, e, h))
      | inl ((row, d), e) ↦
          let kept : d.containers ≡ s.db.containers =
            let (_, _, _, _, _, _, _, _, _, _, _, rest) =
              add_container_port_inv (draws k) ranges ts id p s.db d row e in
            ap (λ (x : Db). x.containers) rest in
          elim (Result-cases (add_ports draws ranges ts (k + 1) id ports (record s { db = d }))) [
            | inr (code, f) ↦ absurd (ground (arith, e, f, h))
            | inl ((more, t), f) ↦
                let later =
                  add_ports-containers draws ranges ts (k + 1) id ports (record s { db = d }) t more
                    f in
                ground (arith, e, f, h, kept, later)
          ]
    ]

sum-insert :
    (column : Container → ℤ) (p : Container → Bool) (cs : List Container) (c : Container)
    → p c ≡ true
    → sum column (select p (cs ++ c ∷ [])) ≡ sum column (select p cs) +ℤ column c
unfolding select sum
sum-insert column p [] c h = rw h (+ℤ_comm (column c) (pos 0))
sum-insert column p (x ∷ cs) c h =
    let rest = sum-insert column p cs c h in
    elim (Bool-cases (p x)) [
      | inr e ↦ rw e rest
      | inl e ↦ rw e (
          ap (λ y. column x +ℤ y) rest
          ∙ sym (+ℤ_assoc (column x) (sum column (select p cs)) (column c)))
    ]

length-insert :
    (p : Container → Bool) (cs : List Container) (c : Container)
    → p c ≡ true
    → length (select p (cs ++ c ∷ [])) ≡ length (select p cs) + 1
unfolding select
length-insert p [] c h = ground (arith, h)
length-insert p (x ∷ cs) c h = ground (arith, length-insert p cs c h)

check_quota_inv :
    (u : Usage) (q : Quota) (payload : ContainerCreate)
    → check_quota u q payload ≡ ok tt
    → (u.cpu_cores +ℤ payload.cpu_cores ≤ℤ q.cpu_cores)
      × (u.memory_gb +ℤ payload.memory_gb ≤ℤ q.memory_gb)
      × (pos u.gpu_count +ℤ payload.gpu_count ≤ℤ q.gpu_count)
      × (pos (u.container_count + 1) ≤ℤ q.container_count)
unfolding check_quota
check_quota_inv u q payload h = ground (arith, h)

new_container-is_counted :
    (id ts : ℕ) (user : User) (node : Node) (image : Image) (root_disk : ℕ)
    (managed : List ManagedMount) (payload : ContainerCreate)
    → is_counted user.id (new_container id ts user node image root_disk managed payload) ≡ true
unfolding is_counted new_container is_resource_status
new_container-is_counted id ts user node image root_disk managed payload =
    ground (arith, ==_iff user.id user.id)

-- The user's cores, memory and containers stay within the quota.
abbrev pub WithinQuota : Usage → Quota → Type 0
WithinQuota u q =
    (u.cpu_cores ≤ℤ q.cpu_cores)
    × (u.memory_gb ≤ℤ q.memory_gb)
    × (pos u.container_count ≤ℤ q.container_count)

WithinQuota-insert :
    (user : User) (q : Quota) (full : ContainerCreate) (c : Container) (s s' : Site)
    → check_quota (usage_for_user s user.id) q full ≡ ok tt
    → is_counted user.id c ≡ true
    → c.cpu_cores ≡ full.cpu_cores
    → c.memory_gb ≡ full.memory_gb
    → s'.db.containers ≡ s.db.containers ++ c ∷ []
    → WithinQuota (usage_for_user s' user.id) q
unfolding usage_for_user
WithinQuota-insert user q full c s s' checked counted cpu memory rows =
    let (cores, gigabytes, _, number) = check_quota_inv (usage_for_user s user.id) q full checked in
    let p = is_counted user.id in
    (
      rw rows (rw (sum-insert (λ x. x.cpu_cores) p s.db.containers c counted) (rw cpu cores)),
      rw rows
          (rw (sum-insert (λ x. x.memory_gb) p s.db.containers c counted) (rw memory gigabytes)),
      rw rows (rw (length-insert p s.db.containers c counted) number),
    )

module _ (answers : ImageAnswers) (draws : ℕ → Draws) (ranges : Ranges) (default_root_disk : ℕ)
    (env : Text → Option Text) (request : Option User) (ts : ℕ) where
  admit_inv :
      (payload full : ContainerCreate) (user : User) (q : Quota) (s s' : Site)
      → admit answers draws ranges default_root_disk env request ts payload s
        ≡ ok ((user, (q, full)), s')
      → (s' ≡ s)
        × (request ≡ some user)
        × (find (λ x. x.user_id == user.id) s.quotas ≡ some q)
        × (check_quota (usage_for_user s user.id) q full ≡ ok tt)
        × (full.cpu_cores ≡ payload.cpu_cores)
        × (full.memory_gb ≡ payload.memory_gb)
  unfolding admit require_user check_names with_gpu_ids
  admit_inv payload full user q s s' h = ground (arith, h)

  place_keeps :
      (user : User) (q : Quota) (full : ContainerCreate) (p : Placement) (s s' : Site)
      → place answers draws ranges default_root_disk env request ts user q full s ≡ ok (p, s')
      → s' ≡ s
  unfolding place
  place_keeps user q full p s s' h = ground (arith, h)

  import_image-containers :
      (node : Node) (id : ℕ) (d d' : Db)
      → import_image answers ts node id d ≡ ok (tt, d')
      → d'.containers ≡ d.containers
  unfolding import_image enqueue_node_task insert_task
  import_image-containers node id d d' h = ground (arith, h)

  furnish-containers :
      (image : Image) (node : Node) (user : User) (c : Container) (full : ContainerCreate)
      (s s' : Site)
      → furnish answers draws ranges default_root_disk env request ts image node user c full s
        ≡ ok (tt, s')
      → s'.db.containers ≡ s.db.containers
  unfolding furnish enqueue_node_task insert_task
  furnish-containers image node user c full s s' h =
      elim (Result-cases (add_ports draws ranges ts zero c.id full.ports s)) [
        | inr (code, e) ↦ absurd (ground (arith, e, h))
        | inl ((rows, t), e) ↦ elim (Result-cases (import_image answers ts node c.id t.db)) [
          | inr (code, f) ↦ absurd (ground (arith, e, f, h))
          | inl ((u, d), f) ↦
              let first = add_ports-containers draws ranges ts zero c.id full.ports s t rows e in
              let second = import_image-containers node c.id t.db d f in
              ground (arith, e, f, h, first, second)
        ]
      ]

  upsert-insert :
      (s : Site) (c : Container) (user_id node_id size : ℕ)
      → (insert_container c
          (record s { db = upsert_workspace user_id node_id size ts s.db })).db.containers
        ≡ s.db.containers ++ c ∷ []
  unfolding insert_container upsert_workspace
  upsert-insert s c user_id node_id size = ground arith

  settle-containers :
      (user : User) (full : ContainerCreate) (p : Placement) (c : Container) (s s' : Site)
      → settle answers draws ranges default_root_disk env request ts user full p s ≡ ok (c, s')
      → (c ≡ new_container s.db.next_container_id ts user p.node p.image p.root_disk p.managed full)
        × (s'.db.containers ≡ s.db.containers ++ c ∷ [])
  unfolding settle insert_gpus
  settle-containers user full p c s s' h =
      let made =
        new_container s.db.next_container_id ts user p.node p.image p.root_disk p.managed full in
      let s1 =
        insert_container made
          (record s { db = upsert_workspace user.id p.node.id p.workspace ts s.db }) in
      let start : s1.db.containers ≡ s.db.containers ++ made ∷ [] =
        upsert-insert s made user.id p.node.id p.workspace in
      elim (Result-cases (insert_resources made.id full.resources s1)) [
        | inr (code, e) ↦ absurd (ground (arith, e, h))
        | inl ((u, s2), e) ↦
            let s3 = insert_gpus made.id p.gpus s2 in
            let rows = insert_resources-db made.id full.resources s1 s2 e in
            elim (Result-cases (
              furnish answers draws ranges default_root_disk env request ts p.image p.node user made
                full s3)) [
                  | inr (code, f) ↦ absurd (ground (arith, e, f, h))
                  | inl ((v, s4), f) ↦
                      let last = furnish-containers p.image p.node user made full s3 s4 f in
                      ground (arith, e, f, h, rows, last, start)
                ]
      ]

  -- A creation that succeeds was asked for by a signed-in user with a quota, adds one container of that user, with the
  -- cores and the memory of the request, and leaves the user's cores, memory and number of containers within the
  -- quota.
  pub create_container-WithinQuota :
      (payload : ContainerCreate) (c : Container) (s s' : Site)
      → create_container answers draws ranges default_root_disk env request ts payload s
        ≡ ok (c, s')
      → (user : User) × (q : Quota) × (request ≡ some user)
        × (find (λ x. x.user_id == user.id) s.quotas ≡ some q)
        × (s'.db.containers ≡ s.db.containers ++ c ∷ [])
        × (c.owner_id ≡ user.id)
        × (c.cpu_cores ≡ payload.cpu_cores)
        × (c.memory_gb ≡ payload.memory_gb)
        × WithinQuota (usage_for_user s' user.id) q
  unfolding create_container new_container
  create_container-WithinQuota payload c s s' h =
      elim (Result-cases (admit answers draws ranges default_root_disk env request ts payload s)) [
        | inr (code, e) ↦ absurd (ground (arith, e, h))
        | inl (((user, (q, full)), s1), e) ↦
            let (same, who, found, checked, cores, memory) = admit_inv payload full user q s s1 e in
            elim (Result-cases
              (place answers draws ranges default_root_disk env request ts user q full s1)) [
                | inr (code, f) ↦ absurd (ground (arith, e, f, h))
                | inl ((p, s2), f) ↦
                    let settled : settle answers draws ranges default_root_disk env request ts user
                          full p s2
                        ≡ ok (c, s') =
                      ground (arith, e, f, h) in
                    let (made, rows) = settle-containers user full p c s2 s' settled in
                    let back : s2 ≡ s = place_keeps user q full p s1 s2 f ∙ same in
                    let rows' : s'.db.containers ≡ s.db.containers ++ c ∷ [] =
                      rows ∙ ap (λ (x : Site). x.db.containers ++ c ∷ []) back in
                    let counted : is_counted user.id c ≡ true = rw made (
                      new_container-is_counted s2.db.next_container_id ts user p.node p.image
                        p.root_disk p.managed full) in
                    let cpu : c.cpu_cores ≡ full.cpu_cores =
                      ap (λ (x : Container). x.cpu_cores) made in
                    let ram : c.memory_gb ≡ full.memory_gb =
                      ap (λ (x : Container). x.memory_gb) made in
                    (
                      user,
                      q,
                      who,
                      found,
                      rows',
                      ap (λ (x : Container). x.owner_id) made,
                      cpu ∙ cores,
                      ram ∙ memory,
                      WithinQuota-insert user q full c s s' checked counted cpu ram rows',
                    )
              ]
      ]
