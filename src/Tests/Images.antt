-- ===== src/Tests/Images.antt =====
-- Reports and searches of Incus images.
use server_vps.Prelude.{
  ◌≡◌, refl, Bool, true, false, ◌||◌, none, if◌then◌else◌, List, [], ◌∷◌, Text, codes, strip,
  is_empty, ◌==◌,
}
use server_vps.Storage.Images.{
  IncusImage, IncusImageReport, is_some, is_remote_incus_ref, sync_node_images,
  node_has_incus_image, find_node_incus_image,
}
use server_vps.Storage.Images.Synced.{reported_at, sync_node_images-row_at}
use server_vps.Storage.Images.Keys.{row_at}
use server_vps.Storage.Images.Found.{node_has_incus_image-find_node_incus_image}

abbrev ubuntu : IncusImage
ubuntu = record {
  node_id = 7;
  fingerprint = codes "4f2a";
  aliases = codes "ubuntu, jammy";
  description = codes "Ubuntu 22.04";
  architecture = codes "x86_64";
  updated_at = 1;
}

abbrev images : List IncusImage
images = ubuntu ∷ record ubuntu { node_id = 8 } ∷ []

abbrev debian : IncusImageReport
debian = record {
  fingerprint = codes " 9c1e ";
  aliases = codes "debian";
  description = [];
  architecture = codes "x86_64";
}

sync_node_images-row_at_example :
    row_at 7 (codes "4f2a") (sync_node_images 7 5 (debian ∷ []) "available" images) ≡ (
      if 7 == 7
      then reported_at 7 5 (codes "4f2a") (debian ∷ []) none
      else row_at 7 (codes "4f2a") images)
sync_node_images-row_at_example =
    sync_node_images-row_at 7 5 7 (codes "4f2a") (debian ∷ []) "available" images refl

abbrev shorter : Text → Text → Bool
shorter [] [] = false
shorter [] (d ∷ t) = true
shorter (c ∷ s) [] = false
shorter (c ∷ s) (d ∷ t) = shorter s t

node_has_incus_image-find_node_incus_image_example :
    node_has_incus_image images 7 (codes " jammy ") ≡ (
      is_empty (strip (codes " jammy "))
      || is_remote_incus_ref (strip (codes " jammy "))
      || is_some (find_node_incus_image shorter images 7 (codes " jammy ")))
node_has_incus_image-find_node_incus_image_example =
    node_has_incus_image-find_node_incus_image shorter images 7 (codes " jammy ")
