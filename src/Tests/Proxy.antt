-- ===== src/Tests/Proxy.antt =====
-- One path through the proxy.
use server_vps.Prelude.{true, some, List, ◌∷◌, ◌++◌, ◌≡◌, refl, Text, codes}
use server_vps.PathProxy.{extract_route_key, is_name, rewrite_path}
use server_vps.PathProxy.Routes.{IsTail, seen, rewrite_path-extract_route_key}

abbrev path : Text
path = codes "/c/alice/web/x"

rewrite_path-extract_route_key_example :
    (tail : Text) × (path ≡ (codes "/c/" ++ codes "alice" ++ 47 ∷ codes "web") ++ tail)
    × IsTail tail
    × (is_name 61 (codes "alice") ≡ true)
    × (is_name 29 (codes "web") ≡ true)
    × (rewrite_path (codes "/c/") path (codes "alice") (codes "web") ≡ seen tail)
    × ((more : Text) × (rewrite_path (codes "/c/") path (codes "alice") (codes "web") ≡ 47 ∷ more))
unfolding extract_route_key is_name server_vps.PathProxy.checked_key
    server_vps.PathProxy.before_slash server_vps.PathProxy.is_ascii server_vps.PathProxy.name_rest
    server_vps.PathProxy.is_name_char server_vps.PathProxy.is_lower server_vps.Prelude.split_first
    server_vps.Prelude.drop server_vps.Prelude.starts_with server_vps.Prelude.exists
rewrite_path-extract_route_key_example =
    rewrite_path-extract_route_key (codes "/c/") path (codes "alice") (codes "web") refl
