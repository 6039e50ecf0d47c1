-- ===== src/Auth/Policy.antt =====
-- Who counts as an administrator.
use server_vps.Prelude.{◌≡◌, ◌⊎◌, ◌↔◌, true, none, some, arith, eq_iff, str_eq, ok, http_error}
use server_vps.Database.{User, Db}
use server_vps.Auth.{is_admin_group, is_admin_user, normalize_user_role, require_admin}

-- After `normalize_user_role` the role alone decides: it is "admin" exactly for the users that
-- `is_admin_user` accepts, before and after, and normalising twice changes nothing.
pub normalize_user_role_decides :
    (u : User)
    → (is_admin_user (some (normalize_user_role u)) ≡ is_admin_user (some u))
      × (str_eq (normalize_user_role u).role "admin" ≡ is_admin_user (some u))
      × (normalize_user_role (normalize_user_role u) ≡ normalize_user_role u)
unfolding is_admin_user normalize_user_role
normalize_user_role_decides u =
    ground (arith, eq_iff (normalize_user_role u).role "admin", eq_iff u.role "admin")

-- Users with the role of an administrator, or in one of three groups.
abbrev pub IsAdministrator : User → Type 0
IsAdministrator u =
    (u.role ≡ "admin")
    ⊎ (u.group_name ≡ "platform_admin")
    ⊎ (u.group_name ≡ "admin")
    ⊎ (u.group_name ≡ "teacher")

pub is_admin_user-IsAdministrator : (u : User) → (is_admin_user (some u) ≡ true) ↔ IsAdministrator u
unfolding is_admin_user is_admin_group
is_admin_user-IsAdministrator u =
    let role = eq_iff u.role "admin" in
    let first = eq_iff u.group_name "platform_admin" in
    let second = eq_iff u.group_name "admin" in
    let third = eq_iff u.group_name "teacher" in
    (
      λ h. ground (arith, h, role, first, second, third),
      λ h. ground (arith, h, role, first, second, third),
    )

-- Of the signed-in users `require_admin` lets through, changing nothing, exactly those whose role is "admin" or whose
-- group is "platform_admin", "admin" or "teacher", and it raises 403 for every other and 401 if nobody is signed in;
-- `normalize_user_role` gives the role "admin" to exactly the same users.
pub require_admin_lem :
    (u : User) (d : Db)
    → ((require_admin (some u) d ≡ ok (u, d)) ↔ IsAdministrator u)
      × ((require_admin (some u) d ≡ ok (u, d)) ⊎ (require_admin (some u) d ≡ http_error 403))
      × (require_admin none d ≡ http_error 401)
      × (((normalize_user_role u).role ≡ "admin") ↔ IsAdministrator u)
unfolding require_admin is_admin_user normalize_user_role
require_admin_lem u d =
    let admin = is_admin_user-IsAdministrator u in
    let role = eq_iff u.role "admin" in
    let normal = normalize_user_role_decides u in
    let written = eq_iff (normalize_user_role u).role "admin" in
    (
      (λ h. admin.0 (ground (arith, h)), λ h. ground (arith, admin.1 h)),
      ground arith,
      ground arith,
      (
        λ h. admin.0 (ground (arith, h, normal, written)),
        λ h. ground (arith, admin.1 h, normal, written),
      ),
    )
