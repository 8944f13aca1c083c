-- ===== src/Rbac/Tenancy.antt =====
-- backend/app/services/rbac.py: the catalog, the tenant and the status of the membership in a
-- decision.
use employed.Base.{
  Bool, Bool-cases, In, List, Option, Option-cases, String, [], any, arith, contains,
  contains-append, false, false≢true, filter, first, first-filter, inl, inr, list_eq, nat_eq, none,
  option_eq, refl, some, string_eq, subset_sound, true, ℕ, ◌&&◌, ◌==◌, ◌∷◌, ◌≡◌,
}
use employed.Enums.{
  PlatformRole, TenantRole, active, country_eq, job_status_eq, job_type_eq, market_key_eq, member,
  membership_status_eq, org_admin, org_owner, payment_provider_key_eq, payment_status_eq,
  platform_moderator, platform_role, platform_super_admin, platform_support, recruiter,
  verification_state_eq,
}
use employed.Models.{Membership, User}
use employed.Rbac.{
  Request, forbidden, get_user_roles, has_permission, is_active_in, param_name, permission_catalog,
  platform_permissions, platform_role_permissions, require_permission, resolve_company_id,
  tenant_permissions, tenant_role_permissions,
}
use employed.Rbac.Decision.{platform_permissions_iff}
use employed.Base.Outcome.{raised}

platform_bundle_bound :
    (p : String) (role : PlatformRole)
    → contains p (platform_role_permissions role) ≡ true
    → contains p permission_catalog ≡ true
unfolding platform_role_permissions
platform_bundle_bound p platform_super_admin h = h
platform_bundle_bound p platform_moderator h =
    subset_sound p (platform_role_permissions platform_moderator) permission_catalog refl h
platform_bundle_bound p platform_support h = absurd (false≢true h)

tenant_bundle_bound :
    (p : String) (role : TenantRole)
    → contains p (tenant_role_permissions role) ≡ true
    → contains p permission_catalog ≡ true
unfolding tenant_role_permissions
tenant_bundle_bound p org_owner h =
    subset_sound p (tenant_role_permissions org_owner) permission_catalog refl h
tenant_bundle_bound p org_admin h =
    subset_sound p (tenant_role_permissions org_admin) permission_catalog refl h
tenant_bundle_bound p recruiter h =
    subset_sound p (tenant_role_permissions recruiter) permission_catalog refl h
tenant_bundle_bound p member h = absurd (false≢true h)

tenant_permissions_bound :
    (rows : List Membership) (user : User) (p : String) (c : ℕ)
    → contains p (tenant_permissions rows user c) ≡ true
    → contains p permission_catalog ≡ true
unfolding tenant_permissions
tenant_permissions_bound rows user p c h = elim (Option-cases (first (is_active_in user c) rows)) [
  | inl e ↦ absurd (cc (e, h))
  | inr (m, e) ↦ tenant_bundle_bound p m.role (ground (arith, e, h))
]

platform_permissions_bound :
    (user : User) (p : String)
    → contains p (platform_permissions user) ≡ true
    → contains p permission_catalog ≡ true
platform_permissions_bound user p h =
    let (name, i, role, e, g) = (platform_permissions_iff user p).0 h in
    platform_bundle_bound p role g

-- Whatever the rows, the user and the company, only permissions of the catalog are granted.
has_permission-in_catalog :
    (rows : List Membership) (user : User) (p : String) (company : Option ℕ)
    → has_permission rows user p company ≡ true
    → contains p permission_catalog ≡ true
unfolding has_permission
has_permission-in_catalog rows user p none h = platform_permissions_bound user p h
has_permission-in_catalog rows user p (some c) h =
    elim (Bool-cases (contains p (platform_permissions user))) [
      | inl e ↦ platform_permissions_bound user p e
      | inr e ↦ tenant_permissions_bound rows user p c (
          ground (
            arith,
            e,
            contains-append p (platform_permissions user) (tenant_permissions rows user c),
          ))
    ]

-- The rows that the query of one user and one company can see.
abbrev pub of_tenant : User → ℕ → Membership → Bool
of_tenant user c m = (m.user_id == user.id && m.company_id == c) && m.status == active

active-of_tenant :
    (user : User) (c : ℕ) (m : Membership)
    → is_active_in user c m ≡ true
    → of_tenant user c m ≡ true
unfolding is_active_in
active-of_tenant user c m h = ground arith

-- A decision about a company depends on the user's own active rows in that company alone: all other
-- rows of the table, of other companies, other users, invited or suspended, can be left out.
has_permission-filter :
    (rows : List Membership) (user : User) (p : String) (c : ℕ)
    → has_permission (filter (of_tenant user c) rows) user p (some c)
      ≡ has_permission rows user p (some c)
unfolding has_permission tenant_permissions
has_permission-filter rows user p c =
    ground
      (arith, first-filter (is_active_in user c) (of_tenant user c) rows (active-of_tenant user c))

pub no_platform_permission :
    (user : User) (p : String)
    → ((name : String) → In name (get_user_roles user.roles) → platform_role name ≡ none)
    → contains p (platform_permissions user) ≡ false
no_platform_permission user p h = elim (Bool-cases (contains p (platform_permissions user))) [
  | inl e ↦
      let (name, i, role, r, g) = (platform_permissions_iff user p).0 e in
      absurd (ground (arith, h name i))
  | inr e ↦ e
]

first-none :
    (f : Membership → Bool) (rows : List Membership) → any f rows ≡ false → first f rows ≡ none
first-none f [] h = refl
first-none f (m ∷ rows) h = ground (arith, first-none f rows)

pub no_tenant_permission :
    (rows : List Membership) (user : User) (c : ℕ)
    → any (is_active_in user c) rows ≡ false
    → tenant_permissions rows user c ≡ []
unfolding tenant_permissions
no_tenant_permission rows user c h = ground (arith, first-none (is_active_in user c) rows h)

has_permission_denied :
    (rows : List Membership) (user : User) (p : String) (company : Option ℕ)
    → ((name : String) → In name (get_user_roles user.roles) → platform_role name ≡ none)
    → ((c : ℕ) → company ≡ some c → any (is_active_in user c) rows ≡ false)
    → has_permission rows user p company ≡ false
unfolding has_permission
has_permission_denied rows user p none no_role no_row = no_platform_permission user p no_role
has_permission_denied rows user p (some c) no_role no_row = ground (
  arith,
  no_platform_permission user p no_role,
  no_tenant_permission rows user c (no_row c refl),
  contains-append p (platform_permissions user) (tenant_permissions rows user c),
)

-- If no role name of the user is a platform role, and the user has no active membership in the
-- company that the request resolves to, if it resolves to one, then the dependency answers 403,
-- whatever permission it guards.
require_permission-forbidden :
    (parse_uuid : String → Option ℕ) (p : String) (param : Option String) (request : Request)
    (user : User) (rows : List Membership)
    → ((name : String) → In name (get_user_roles user.roles) → platform_role name ≡ none)
    → ((c : ℕ)
        → resolve_company_id parse_uuid request (param_name param) ≡ some c
        → any (is_active_in user c) rows ≡ false)
    → require_permission parse_uuid p param request user rows ≡ raised forbidden
unfolding require_permission
require_permission-forbidden parse_uuid p param request user rows no_role no_row =
    rw
      (has_permission_denied rows user p (resolve_company_id parse_uuid request (param_name param))
        no_role no_row)
      refl
