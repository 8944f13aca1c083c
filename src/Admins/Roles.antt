-- ===== src/Admins/Roles.antt =====
-- backend/app/routers/admin.py: the roles of a user after a grant and after its withdrawal.
use employed.Base.{
  Bool, Option, String, contains, false, list_eq, nat_eq, none, option_eq, some, string_eq, ℕ,
}
use employed.Base.Dict.{Dict, lookup}
use employed.Models.{User}
use employed.Rbac.{get_user_roles}

pub has_role : String → Option User → Bool
has_role role none = false
has_role role (some u) = contains role (get_user_roles u.roles)

-- Whether the user stored under a key has a role.
abbrev pub stored_role : String → ℕ → Dict ℕ User → Bool
stored_role role k users = has_role role (lookup k users)
