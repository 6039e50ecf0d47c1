-- ===== src/Nodes/Reports/Rule.antt =====
-- What a report does to one container, written out apart from the code, and that the code does this.
use server_vps.Prelude.{
  true, eq_iff, lookup-insert, ℕ, String, str_eq, eq_iff, ◌&&◌, lookup, lookup-insert, Option-cases,
  ◌≡◌, refl, ap, ◌∙◌, inl, inr, false, ◌||◌, Option, none, some, List, [], ◌∷◌, Text, arith, ◌==◌,
  if◌then◌else◌, exists, Dict, Bool-cases,
}
use server_vps.Database.{Container}
use server_vps.Containers.Lifecycle.{is_busy}
use server_vps.Nodes.Reports.{
  normalize_reported_container_status, strip, lower, normalize_reported_container_status, insert,
  text_eq, is_busy, lookup, codes, not, ContainerStateReport, by_name, verdict, apply_verdict,
}

-- The last report of a container's name among the reports, or `before`.
unfoldable pub last_named :
    String → List ContainerStateReport → Option ContainerStateReport → Option ContainerStateReport
last_named name [] before = before
last_named name (r ∷ rs) before =
    let here = not (str_eq r.name "") && str_eq name r.name in
    last_named name rs (if here then some r else before)

abbrev kept_statuses : List String
kept_statuses = "provisioning" ∷ "starting" ∷ "stopping" ∷ "restarting" ∷ "deleting" ∷ "failed" ∷ []

abbrev stopped_words : List Text
stopped_words = codes "stopped" ∷ codes "stopping" ∷ codes "frozen" ∷ codes "error" ∷ []

-- A container takes the status and the address, unless it has both.
unfoldable pub moved_to : ℕ → String → Text → Container → Container
moved_to ts status ip c =
    if str_eq c.status status && text_eq c.ip ip
    then c
    else record c { status = status; ip = ip; updated_at = ts }

-- A container of the node that is not waiting or failed is running, at the address reported, where the last report of
-- its name says so, stopped where that says one of four words, and as it was where it says something else; without a
-- report it is missing.
unfoldable pub reported : ℕ → ℕ → List ContainerStateReport → Container → Container
reported node_id ts reports c =
    if not (c.node_id == node_id) || exists (str_eq c.status) kept_statuses
    then c
    else elim (last_named c.name reports none) [
      | none ↦
          if str_eq c.status "missing"
          then c
          else record c { status = "missing"; ip = []; updated_at = ts }
      | some r ↦
          if text_eq (lower (strip r.status)) (codes "running")
          then moved_to ts "running" r.ip c
          else if exists (text_eq (lower (strip r.status))) stopped_words
          then moved_to ts "stopped" [] c
          else c
    ]

lookup-by_name :
    (name : String) (rs : List ContainerStateReport) (table : Dict String ContainerStateReport)
    → lookup str_eq name (by_name rs table) ≡ last_named name rs (lookup str_eq name table)
unfolding by_name last_named
lookup-by_name name [] table = refl
lookup-by_name name (r ∷ rs) table = elim (Bool-cases (str_eq r.name "")) [
  | inl e ↦ rw e (lookup-by_name name rs table)
  | inr e ↦ rw e (
      lookup-by_name name rs (insert str_eq r.name r table)
      ∙ ap (last_named name rs) (lookup-insert str_eq eq_iff name r.name r table))
]

lookup-by_name_empty :
    (name : String) (rs : List ContainerStateReport)
    → lookup str_eq name (by_name rs []) ≡ last_named name rs none
unfolding lookup
lookup-by_name_empty name rs = lookup-by_name name rs []

-- What the code does to one container on its own.
unfoldable pub passed : ℕ → ℕ → Dict String ContainerStateReport → Container → Container
passed node_id ts table c = if c.node_id == node_id then apply_verdict ts (verdict table c) c else c

module _ (status : Text) where
  normalize-running :
      text_eq (lower (strip status)) (codes "running") ≡ true
      → normalize_reported_container_status status ≡ "running"
  unfolding normalize_reported_container_status
  normalize-running h = ground (arith, h)

  normalize-stopped :
      text_eq (lower (strip status)) (codes "running") ≡ false
      → exists (text_eq (lower (strip status))) stopped_words ≡ true
      → normalize_reported_container_status status ≡ "stopped"
  unfolding normalize_reported_container_status exists
  normalize-stopped h k = ground (arith, h, k)

  normalize-silent :
      text_eq (lower (strip status)) (codes "running") ≡ false
      → exists (text_eq (lower (strip status))) stopped_words ≡ false
      → normalize_reported_container_status status ≡ ""
  unfolding normalize_reported_container_status exists
  normalize-silent h k = ground (arith, h, k)

kept-is_busy :
    (status : String)
    → exists (str_eq status) kept_statuses ≡ (is_busy status || str_eq status "failed")
unfolding exists is_busy
kept-is_busy status = ground arith

pub passed-reported :
    (node_id ts : ℕ) (reports : List ContainerStateReport) (c : Container)
    → passed node_id ts (by_name reports []) c ≡ reported node_id ts reports c
unfolding passed reported verdict apply_verdict moved_to
passed-reported node_id ts reports c =
    let said : lookup str_eq c.name (by_name reports []) ≡ last_named c.name reports none =
      lookup-by_name_empty c.name reports in
    let kept = kept-is_busy c.status in
    elim (Option-cases (last_named c.name reports none)) [
      | inl e ↦ ground (arith, said, kept, e)
      | inr (r, e) ↦
          let word = lower (strip r.status) in
          let next = normalize_reported_container_status r.status in
          elim (Bool-cases (text_eq word (codes "running"))) [
            | inl running ↦
                let known : next ≡ "running" = normalize-running r.status running in
                let blank : str_eq next "" ≡ false = rw known refl in
                let up : str_eq next "running" ≡ true = rw known refl in
                let same : str_eq c.status next ≡ str_eq c.status "running" = rw known refl in
                ground (arith, said, kept, e, running, known, blank, up, same)
            | inr other ↦ elim (Bool-cases (exists (text_eq word) stopped_words)) [
              | inl stopped ↦
                  let known : next ≡ "stopped" = normalize-stopped r.status other stopped in
                  let blank : str_eq next "" ≡ false = rw known refl in
                  let up : str_eq next "running" ≡ false = rw known refl in
                  let same : str_eq c.status next ≡ str_eq c.status "stopped" = rw known refl in
                  ground (arith, said, kept, e, other, stopped, known, blank, up, same)
              | inr silent ↦
                  let known : next ≡ "" = normalize-silent r.status other silent in
                  let blank : str_eq next "" ≡ true = rw known refl in
                  ground (arith, said, kept, e, other, silent, blank)
            ]
          ]
    ]
