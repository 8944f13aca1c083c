-- ===== src/Rbac/Catalog.antt =====
-- The permission catalog and the bundles of the roles: static data of backend/app/services/rbac.py.
use employed.Base.{List, String, [], list_eq, nat_eq, option_eq, string_eq, ◌∷◌}
use employed.Enums.{
  PlatformRole, TenantRole, country_eq, job_status_eq, job_type_eq, market_key_eq, member,
  membership_status_eq, org_admin, org_owner, payment_provider_key_eq, payment_status_eq,
  platform_moderator, platform_super_admin, platform_support, recruiter, verification_state_eq,
}

abbrev pub permission_catalog : List String
permission_catalog =
    "job:moderate" ∷ "job:block" ∷ "job:unpublish" ∷ "job:mark_review" ∷ "job:verify"
    ∷ "company:verify" ∷ "profile:verify" ∷ "user:suspend" ∷ "platform_user:create"
    ∷ "platform_role:assign" ∷ "job:post" ∷ "company:manage" ∷ "company:manage_members"
    ∷ "company:verify_domain" ∷ "application:review" ∷ "application:advance" ∷ []

unfoldable pub platform_role_permissions : PlatformRole → List String
platform_role_permissions platform_super_admin = permission_catalog
platform_role_permissions platform_moderator =
    "job:moderate" ∷ "job:block" ∷ "job:unpublish" ∷ "job:mark_review" ∷ "job:verify"
    ∷ "company:verify" ∷ "profile:verify" ∷ "user:suspend" ∷ []
platform_role_permissions platform_support = []

unfoldable pub tenant_role_permissions : TenantRole → List String
tenant_role_permissions org_owner =
    "company:manage" ∷ "company:manage_members" ∷ "company:verify_domain" ∷ "job:post"
    ∷ "application:review" ∷ "application:advance" ∷ []
tenant_role_permissions org_admin =
    "company:manage_members" ∷ "company:verify_domain" ∷ "job:post" ∷ "application:review"
    ∷ "application:advance" ∷ []
tenant_role_permissions recruiter = "job:post" ∷ "application:review" ∷ "application:advance" ∷ []
tenant_role_permissions member = []
