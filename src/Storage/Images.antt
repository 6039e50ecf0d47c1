-- ===== src/Storage/Images.antt =====
-- Which Incus images a node has: the reports of the nodes (`sync_node_images` of
-- backend/app/nodes/services.py) and the searches of backend/app/storage/services.py.
pub mod Found
pub mod Keys
pub mod Synced
use server_vps.Prelude.{
  ℕ, String, str_eq, Bool, true, false, not, ◌&&◌, ◌||◌, Option, none, some, List, [], ◌∷◌, ◌++◌,
  map, Text, codes, text_eq, strip, is_empty, starts_with, split, split_first, ltb, leb, ◌==◌,
  if◌then◌else◌, select, find, exists, update, delete, order_by,
}
use server_vps.Database.{Node}

-- node_incus_images
pub record IncusImage : Type 0 where
  pub node_id : ℕ
  pub fingerprint : Text
  pub aliases : Text
  pub description : Text
  pub architecture : Text
  pub updated_at : ℕ

-- IncusImageReport
pub record IncusImageReport : Type 0 where
  pub fingerprint : Text
  pub aliases : Text
  pub description : Text
  pub architecture : Text

-- storage_image_files
pub record StorageImageFile : Type 0 where
  pub id : ℕ
  pub source_node_id : ℕ
  pub fingerprint : Text
  pub aliases : Text
  pub description : Text
  pub status : String
  pub exported_at : ℕ
  pub updated_at : ℕ

unfoldable pub is_some {ℓ} : {A : Type ℓ} → Option A → Bool
is_some none = false
is_some (some x) = true

-- x in texts
unfoldable pub is_among : Text → List Text → Bool
unfolding exists
is_among x texts = exists (λ t. text_eq t x) texts

unfoldable pub is_remote_incus_ref : Text → Bool
is_remote_incus_ref image_ref = elim (split_first b':' image_ref) [
  | none ↦ false
  | some (remote, value) ↦
      not (is_empty remote) && not (is_empty value) && exists (λ c. c == b'/') value
]

-- [alias.strip() for alias in aliases.split(",") if alias.strip()]
unfoldable pub alias_list : Text → List Text
alias_list aliases = select (λ a. not (is_empty a)) (map strip (split b',' aliases))

unfoldable pub fingerprint_matches : Text → Text → Bool
fingerprint_matches fingerprint image_ref =
    not (is_empty fingerprint)
    && (starts_with fingerprint image_ref || starts_with image_ref fingerprint)

-- The body of the loop, on one row.
unfoldable pub row_has : Text → IncusImage → Bool
row_has image_ref row =
    if fingerprint_matches (strip row.fingerprint) image_ref
    then true
    else if is_among image_ref (alias_list row.aliases)
    then true
    else text_eq image_ref (strip row.description)

unfoldable pub node_has_incus_image : List IncusImage → ℕ → Text → Bool
node_has_incus_image images node_id image_ref =
    let image_ref = strip image_ref in
    if is_empty image_ref || is_remote_incus_ref image_ref
    then true
    else exists (row_has image_ref) (select (λ row. row.node_id == node_id) images)

-- The columns that the test reads: fingerprint, aliases, description.
unfoldable pub incus_image_ref_matches : Text → Text → Text → Text → Bool
incus_image_ref_matches fingerprint aliases description image_ref =
    let image_ref = strip image_ref in
    if is_empty image_ref
    then false
    else if fingerprint_matches (strip fingerprint) image_ref
    then true
    else if is_among image_ref (alias_list aliases)
    then true
    else text_eq image_ref (strip description)

unfoldable pub row_matches : Text → IncusImage → Bool
row_matches image_ref row =
    incus_image_ref_matches row.fingerprint row.aliases row.description image_ref

-- ORDER BY aliases, description, fingerprint, with the collation of the database.
unfoldable pub image_before : (Text → Text → Bool) → IncusImage → IncusImage → Bool
image_before less a b =
    less a.aliases b.aliases
    || (text_eq a.aliases b.aliases
        && (less a.description b.description
            || (text_eq a.description b.description && not (less b.fingerprint a.fingerprint))))

unfoldable pub find_node_incus_image :
    (Text → Text → Bool) → List IncusImage → ℕ → Text → Option IncusImage
find_node_incus_image less images node_id image_ref =
    find (row_matches image_ref)
      (order_by (image_before less) (select (λ row. row.node_id == node_id) images))

-- ORDER BY exported_at DESC, updated_at DESC
unfoldable pub file_before : StorageImageFile → StorageImageFile → Bool
file_before a b =
    ltb b.exported_at a.exported_at
    || (a.exported_at == b.exported_at && leb b.updated_at a.updated_at)

-- The WHERE clause on the joined rows.
unfoldable pub is_offered : List Node → StorageImageFile → Bool
is_offered nodes file =
    str_eq file.status "exported"
    && exists (λ n. n.id == file.source_node_id && str_eq n.status "online") nodes

unfoldable pub select_storage_image_file :
    List Node → List StorageImageFile → Text → Option StorageImageFile
select_storage_image_file nodes files image_ref =
    find (λ file. incus_image_ref_matches file.fingerprint file.aliases file.description image_ref)
      (order_by file_before (select (is_offered nodes) files))

unfoldable pub storage_image_available : List Node → List StorageImageFile → Text → Bool
storage_image_available nodes files image_ref =
    is_some (select_storage_image_file nodes files image_ref)

-- The row that a report inserts.
unfoldable pub image_row : ℕ → ℕ → Text → IncusImageReport → IncusImage
image_row node_id ts fingerprint report = record {
  node_id = node_id;
  fingerprint = fingerprint;
  aliases = report.aliases;
  description = report.description;
  architecture = report.architecture;
  updated_at = ts;
}

unfoldable pub has_key : ℕ → Text → IncusImage → Bool
has_key node_id fingerprint row = row.node_id == node_id && text_eq row.fingerprint fingerprint

-- INSERT ... ON CONFLICT (node_id, fingerprint) DO UPDATE
unfoldable pub upsert_image : ℕ → ℕ → Text → IncusImageReport → List IncusImage → List IncusImage
upsert_image node_id ts fingerprint report images =
    if exists (has_key node_id fingerprint) images
    then update (has_key node_id fingerprint)
        (λ row. record row {
          aliases = report.aliases;
          description = report.description;
          architecture = report.architecture;
          updated_at = ts;
        })
        images
    else images ++ image_row node_id ts fingerprint report ∷ []

unfoldable pub upsert_images : ℕ → ℕ → List IncusImageReport → List IncusImage → List IncusImage
upsert_images node_id ts [] images = images
upsert_images node_id ts (report ∷ reports) images =
    let fingerprint = strip report.fingerprint in
    upsert_images node_id ts reports
      (if is_empty fingerprint then images else upsert_image node_id ts fingerprint report images)

unfoldable pub seen_fingerprints : List IncusImageReport → List Text
seen_fingerprints [] = []
seen_fingerprints (report ∷ reports) =
    let fingerprint = strip report.fingerprint in
    let seen = seen_fingerprints reports in
    if is_empty fingerprint then seen else fingerprint ∷ seen

unfoldable pub sync_node_images :
    ℕ → ℕ → List IncusImageReport → String → List IncusImage → List IncusImage
sync_node_images node_id ts reports incus_status images =
    if str_eq incus_status "unavailable" || str_eq incus_status ""
    then images
    else let seen = seen_fingerprints reports in
      let images = upsert_images node_id ts reports images in
      if not (is_empty seen)
      then delete (λ row. row.node_id == node_id && not (is_among row.fingerprint seen)) images
      else delete (λ row. row.node_id == node_id) images
