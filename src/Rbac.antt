-- ===== src/Rbac.antt =====
-- backend/app/services/rbac.py, with `get_user_roles` of backend/app/auth/dependencies.py. A set
-- of permissions is a list that is read by membership only. Catalog and bundles are in `Catalog`.
mod Catalog
pub mod Decision
pub mod Tenancy
unfoldable pub use Catalog.*
use employed.Base.{
  Bool, List, Option, String, [], contains, first, if◌then◌else◌, list_eq, nat_eq, none, option_eq,
  some, string_eq, ℕ, ◌&&◌, ◌++◌, ◌==◌, ◌∷◌,
}
use employed.Enums.{
  active, country_eq, job_status_eq, job_type_eq, market_key_eq, membership_status_eq,
  payment_provider_key_eq, payment_status_eq, platform_role, verification_state_eq,
}
use employed.Models.{Membership, RolesAttr, User, many, single, unset}
use employed.Base.Dict.{Dict, lookup}
use employed.Base.Outcome.{Outcome, ok, raised}
use employed.Rbac.Catalog.{platform_role_permissions, tenant_role_permissions}

unfoldable pub get_user_roles : RolesAttr → List String
get_user_roles unset = []
get_user_roles (single r) = if r == "" then [] else r ∷ []
get_user_roles (many rs) = rs

-- Permissions of one role name; a name that is no platform role grants none.
unfoldable pub role_name_permissions : String → List String
unfolding platform_role platform_role_permissions
role_name_permissions name = elim (platform_role name) [
  | none ↦ []
  | some role ↦ platform_role_permissions role
]

-- The loop of `_platform_permissions` over the role names.
unfoldable pub collect_permissions : List String → List String → List String
unfolding role_name_permissions
collect_permissions perms [] = perms
collect_permissions perms (name ∷ names) =
    collect_permissions (perms ++ role_name_permissions name) names

unfoldable pub platform_permissions : User → List String
unfolding collect_permissions get_user_roles
platform_permissions user = collect_permissions [] (get_user_roles user.roles)

-- The filter of the membership query.
unfoldable pub is_active_in : User → ℕ → Membership → Bool
is_active_in user company_id m =
    m.user_id == user.id && (m.company_id == company_id && m.status == active)

unfoldable pub tenant_permissions : List Membership → User → ℕ → List String
unfolding is_active_in tenant_role_permissions
tenant_permissions rows user company_id = elim (first (is_active_in user company_id) rows) [
  | none ↦ []
  | some m ↦ tenant_role_permissions m.role
]

unfoldable pub effective_permissions : List Membership → User → Option ℕ → List String
unfolding platform_permissions
effective_permissions rows user none = platform_permissions user
effective_permissions rows user (some company_id) =
    platform_permissions user ++ tenant_permissions rows user company_id

unfoldable pub has_permission : List Membership → User → String → Option ℕ → Bool
unfolding effective_permissions
has_permission rows user permission company_id =
    contains permission (effective_permissions rows user company_id)

-- What a request offers for a parameter. A value of the JSON body that is not null counts by its
-- `str()`; the body is `none` where it is absent, not JSON or not an object.
pub record Request : Type 0 where
  pub path_params : Dict String String
  pub query_params : Dict String String
  pub body : Option (Dict String (Option String))

unfoldable pub body_value : String → Option (Dict String (Option String)) → Option String
body_value name none = none
body_value name (some fields) = elim (lookup name fields) [ none ↦ none | some v ↦ v ]

pub data HttpError : Type 0 where
  forbidden : HttpError

-- `tenant_param or "company_id"`
unfoldable pub param_name : Option String → String
param_name none = "company_id"
param_name (some name) = if name == "" then "company_id" else name

-- `UUID(text)` of the standard library is a parameter; `none` is its ValueError.
module _ (parse_uuid : String → Option ℕ) where
  unfoldable pub coerce_uuid : Option String → Option ℕ
  coerce_uuid none = none
  coerce_uuid (some value) = parse_uuid value

  unfoldable pub resolve_company_id : Request → String → Option ℕ
  unfolding coerce_uuid body_value
  resolve_company_id request name = coerce_uuid (elim (lookup name request.path_params) [
    | some v ↦ some v
    | none ↦ elim (lookup name request.query_params) [
      | some v ↦ some v
      | none ↦ body_value name request.body
    ]
  ])

  -- The dependency that `require_permission` makes.
  unfoldable pub require_permission :
      String → Option String → Request → User → List Membership → Outcome HttpError User
  unfolding resolve_company_id param_name
  require_permission permission tenant_param request user rows =
      let company_id = resolve_company_id request (param_name tenant_param) in
      if has_permission rows user permission company_id then ok user else raised forbidden
