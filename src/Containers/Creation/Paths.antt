-- ===== src/Containers/Creation/Paths.antt =====
-- `validate_container_path` of backend/app/containers/routes.py, with `posixpath.normpath`.
use mathlib.Core.List.{reverse}
use server_vps.Prelude.{
  Bool, false, not, ◌&&◌, ◌||◌, List, [], ◌∷◌, ◌++◌, Text, codes, text_eq, strip, split, join,
  starts_with, is_empty, length, exists, ltb, ◌==◌, if◌then◌else◌, Result, ok, raise_if, ◌>>◌,
}
use server_vps.Scheduler.Gpus.{contains}

-- Whether the last component that was kept, the first of the reversed list, is "..".
unfoldable pub ends_up : List Text → Bool
ends_up [] = false
ends_up (c ∷ cs) = text_eq c (codes "..")

unfoldable pub dropped : List Text → List Text
dropped [] = []
dropped (c ∷ cs) = cs

-- The loop of `normpath` over the components; `kept` is reversed.
unfoldable pub norm_parts : Bool → List Text → List Text → List Text
norm_parts absolute kept [] = reverse kept
norm_parts absolute kept (c ∷ cs) =
    let same = norm_parts absolute kept cs in
    let longer = norm_parts absolute (c ∷ kept) cs in
    let shorter = norm_parts absolute (dropped kept) cs in
    if is_empty c || text_eq c (codes ".")
    then same
    else if not (text_eq c (codes "..")) || (not absolute && is_empty kept) || ends_up kept
    then longer
    else shorter

-- The slashes that stay in front: two where there are exactly two.
unfoldable pub leading_slashes : Text → Text
leading_slashes path =
    if not (starts_with path (codes "/"))
    then []
    else if starts_with path (codes "//") && not (starts_with path (codes "///"))
    then codes "//"
    else codes "/"

unfoldable pub normpath : Text → Text
normpath path =
    let slashes = leading_slashes path in
    let value = slashes ++ join 47 (norm_parts (not (is_empty slashes)) [] (split 47 path)) in
    if is_empty path || is_empty value then codes "." else value

-- value.endswith("/..")
unfoldable pub ends_in_parent : Text → Bool
ends_in_parent value = starts_with (reverse value) (codes "../")

unfoldable pub validate_container_path : Text → Result Text
validate_container_path path =
    let value = normpath (strip path) in
    do
      raise_if
          (not (starts_with value (codes "/"))
            || text_eq value (codes "/")
            || text_eq value (codes "/.")
            || exists (λ c. c == 0) value)
          400
      raise_if (contains value (codes "/../") || ends_in_parent value) 400
      raise_if (ltb 240 (length value)) 400
      ok value
