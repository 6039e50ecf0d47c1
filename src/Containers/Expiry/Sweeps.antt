-- ===== src/Containers/Expiry/Sweeps.antt =====
-- What a round leaves over.
use server_vps.Prelude.{
  ℕ, ◌-◌, String, str_eq, ◌≡◌, refl, inl, inr, Bool, true, false, ◌&&◌, List, [], ◌∷◌, ltb, leb,
  ◌==◌, arith, select, exists, update, All, All-of_IsIn, IsIn, Bool-cases,
}
use server_vps.Database.{Db, Container}
use server_vps.Tasks.Queue.{insert_task}
use server_vps.Tasks.Results.Success.{audit_log, update_container}
use server_vps.Containers.Lifecycle.{set_status}
use server_vps.Containers.Expiry.{
  is_expired, stop_expired, delete_expired, expire_container, expire_containers,
  container_expiry_round,
}

-- A running container past its time.
abbrev pub overran : ℕ → Container → Bool
overran ts c = str_eq c.status "running" && ltb 0 c.expires_at && leb c.expires_at ts

-- One that the rest of the round still comes to.
abbrev IsHandled : ℕ → List Container → Container → Type 0
IsHandled ts rest x =
    overran ts x ≡ true
    → exists (λ (c : Container). c.id == x.id && str_eq c.status "running") rest ≡ true

-- Marking the rows of a container that is handled leaves the others to the rest.
marked-IsHandled :
    (ts : ℕ) (status : String) (c : Container) (rest cs : List Container)
    → str_eq status "running" ≡ false
    → All (IsHandled ts (c ∷ rest)) cs
    → All
        (IsHandled ts rest)
        (update (λ x. x.id == c.id) (λ x. record x { status = status; updated_at = ts }) cs)
unfolding update exists
marked-IsHandled ts status c rest [] e h = tt
marked-IsHandled ts status c rest (x ∷ cs) e h =
    let others = marked-IsHandled ts status c rest cs e h.1 in
    elim (Bool-cases (x.id == c.id)) [
      | inl f ↦ rw (f, update) (λ o. absurd (ground (arith, e, o)), others)
      | inr f ↦ rw (f, update) (λ o. ground (arith, f, h.0 o), others)
    ]

skipped-IsHandled :
    (ts : ℕ) (c : Container) (rest cs : List Container)
    → str_eq c.status "running" ≡ false
    → All (IsHandled ts (c ∷ rest)) cs
    → All (IsHandled ts rest) cs
unfolding exists
skipped-IsHandled ts c rest [] e h = tt
skipped-IsHandled ts c rest (x ∷ cs) e h =
    (λ o. ground (arith, e, h.0 o), skipped-IsHandled ts c rest cs e h.1)

expire_container-IsHandled :
    (ts : ℕ) (c : Container) (rest : List Container) (d : Db)
    → All (IsHandled ts (c ∷ rest)) d.containers
    → All (IsHandled ts rest) (expire_container ts c d).containers
unfolding expire_container stop_expired delete_expired set_status update_container audit_log
    insert_task
expire_container-IsHandled ts c rest d h =
    let stopped = marked-IsHandled ts "stopping" c rest d.containers refl h in
    let gone = marked-IsHandled ts "deleting" c rest d.containers refl h in
    elim (Bool-cases (str_eq c.status "running")) [
      | inl e ↦ rw (e, expire_container) stopped
      | inr e ↦ elim (Bool-cases (str_eq c.status "stopped" && leb c.expires_at (ts - 86400))) [
        | inl f ↦ rw (e, f, expire_container) gone
        | inr f ↦ rw (e, f, expire_container) (skipped-IsHandled ts c rest d.containers e h)
      ]
    ]

expire_containers-IsHandled :
    (ts : ℕ) (cs : List Container) (d : Db)
    → All (IsHandled ts cs) d.containers
    → All (IsHandled ts []) (expire_containers ts cs d).containers
unfolding expire_containers
expire_containers-IsHandled ts [] d h = h
expire_containers-IsHandled ts (c ∷ cs) d h =
    expire_containers-IsHandled ts cs (expire_container ts c d)
      (expire_container-IsHandled ts c cs d h)

IsIn-of_select :
    (ts : ℕ) (x : Container) (cs : List Container)
    → overran ts x ≡ true
    → IsIn x cs
    → exists
        (λ (c : Container). c.id == x.id && str_eq c.status "running")
        (select (is_expired ts) cs)
      ≡ true
unfolding select exists is_expired
IsIn-of_select ts x [] o i = absurd i
IsIn-of_select ts x (c ∷ cs) o i = ground (arith, i, o, IsIn-of_select ts x cs o)

none-overran :
    (ts : ℕ) (cs : List Container) → All (IsHandled ts []) cs → All (λ x. overran ts x ≡ false) cs
unfolding exists
none-overran ts [] h = tt
none-overran ts (x ∷ cs) h = (ground (arith, h.0), none-overran ts cs h.1)

-- After a round of the expiry loop no container runs past its expiry time.
pub container_expiry_round-overran :
    (ts : ℕ) (d : Db) → All (λ c. overran ts c ≡ false) (container_expiry_round ts d).containers
unfolding container_expiry_round
container_expiry_round-overran ts d =
    let expired = select (is_expired ts) d.containers in
    let start : All (IsHandled ts expired) d.containers =
      All-of_IsIn (IsHandled ts expired) d.containers
        (λ x i o. IsIn-of_select ts x d.containers o i) in
    none-overran ts (expire_containers ts expired d).containers
      (expire_containers-IsHandled ts expired d start)
