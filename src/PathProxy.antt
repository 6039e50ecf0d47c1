-- ===== src/PathProxy.antt =====
-- `_extract_route_key` and `_rewrite_path` of backend/app/http_path_proxy.py, on bytes. PATH_PREFIX comes from the
-- environment and is a parameter.
pub mod Routes
use server_vps.Prelude.{
  ℕ, zero, suc, Bool, true, false, not, ◌&&◌, ◌||◌, Option, none, some, List, [], ◌∷◌, ◌++◌, Text,
  length, drop, starts_with, split_first, is_empty, ltb, leb, ◌==◌, if◌then◌else◌, exists,
}

unfoldable pub is_lower : ℕ → Bool
is_lower c = leb 97 c && leb c 122

-- [a-z0-9-]
unfoldable pub is_name_char : ℕ → Bool
is_name_char c = is_lower c || (leb 48 c && leb c 57) || c == 45

-- At most n name characters up to the end, where `$` also matches before a final newline.
unfoldable pub name_rest : ℕ → Text → Bool
name_rest n [] = true
name_rest zero (c ∷ s) = c == 10 && is_empty s
name_rest (suc n) (c ∷ s) =
    let rest = name_rest n s in (is_name_char c && rest) || (c == 10 && is_empty s)

-- ^[a-z][a-z0-9-]{0,n}$
unfoldable pub is_name : ℕ → Text → Bool
is_name n [] = false
is_name n (c ∷ s) = is_lower c && name_rest n s

-- bytes.decode("ascii") succeeds
unfoldable pub is_ascii : Text → Bool
is_ascii s = not (exists (λ c. leb 128 c) s)

-- rest2[:rest2.find(b"/")], or all of it
unfoldable pub before_slash : Text → Text
before_slash s = elim (split_first 47 s) [ none ↦ s | some (before, after) ↦ before ]

unfoldable pub checked_key : Text → Text → Option (Text × Text)
checked_key container port_name =
    if is_ascii container && is_ascii port_name && is_name 61 container && is_name 29 port_name
    then some (container, port_name)
    else none

-- `none` stands for the pair of empty strings.
unfoldable pub extract_route_key : Text → Text → Option (Text × Text)
extract_route_key prefix path =
    let found : Option (Text × Text) = elim (split_first 47 (drop (length prefix) path)) [
      | none ↦ none
      | some (container, rest) ↦ checked_key container (before_slash rest)
    ] in
    if starts_with path prefix then found else none

unfoldable pub rewrite_path : Text → Text → Text → Text → Text
rewrite_path prefix path container port_name =
    let full = prefix ++ container ++ 47 ∷ port_name in
    let rest = drop (length full) path in
    if not (starts_with path full) then path else if is_empty rest then 47 ∷ [] else rest
