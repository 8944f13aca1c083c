-- ===== src/Publication/Guard.antt =====
-- backend/app/routers/verification.py with backend/app/services/rbac.py: who may moderate.
use employed.Base.{
  In, List, Option, Option-cases, String, arith, contains, contains-append, false, first, inl, inr,
  list_eq, nat_eq, none, option_eq, refl, some, string_eq, ℕ, ◌∙◌, ◌≡◌,
}
use employed.Enums.{
  TenantRole, country_eq, job_status_eq, job_type_eq, market_key_eq, member, membership_status_eq,
  org_admin, org_owner, payment_provider_key_eq, payment_status_eq, platform_role, recruiter,
  verification_state_eq,
}
use employed.Rbac.{
  Request, get_user_roles, has_permission, is_active_in, param_name, platform_permissions,
  require_permission, resolve_company_id, tenant_permissions, tenant_role_permissions,
}
use employed.Publication.{
  ModerationAction, PublicationTables, block_job, mark_job_under_review, moderate, no_permission,
  permission_of, unpublish_job, verify_company, verify_job, verify_profile,
}
use employed.Base.Outcome.{raised}
use employed.Models.{Membership, User}
use employed.Rbac.Tenancy.{no_platform_permission}

by_role :
    (p : String)
    → contains p (tenant_role_permissions org_owner) ≡ false
    → contains p (tenant_role_permissions org_admin) ≡ false
    → contains p (tenant_role_permissions recruiter) ≡ false
    → (role : TenantRole) → contains p (tenant_role_permissions role) ≡ false
unfolding tenant_role_permissions
by_role p a b c org_owner = a
by_role p a b c org_admin = b
by_role p a b c recruiter = c
by_role p a b c member = refl

-- No role in a company has a permission that a moderators' route asks for.
no_tenant_role :
    (action : ModerationAction) (role : TenantRole)
    → contains (permission_of action) (tenant_role_permissions role) ≡ false
unfolding permission_of tenant_role_permissions
no_tenant_role (block_job id reason) = by_role "job:block" refl refl refl
no_tenant_role (unpublish_job id reason) = by_role "job:unpublish" refl refl refl
no_tenant_role (mark_job_under_review id reason) = by_role "job:mark_review" refl refl refl
no_tenant_role (verify_job id reason) = by_role "job:verify" refl refl refl
no_tenant_role (verify_company id reason) = by_role "company:verify" refl refl refl
no_tenant_role (verify_profile id reason) = by_role "profile:verify" refl refl refl

no_tenant_grant :
    (action : ModerationAction) (rows : List Membership) (actor : User) (c : ℕ)
    → contains (permission_of action) (tenant_permissions rows actor c) ≡ false
unfolding tenant_permissions
no_tenant_grant action rows actor c = elim (Option-cases (first (is_active_in actor c) rows)) [
  | inl e ↦ ground (arith, e)
  | inr (m, e) ↦ ground (arith, e, no_tenant_role action m.role)
]

not_granted :
    (action : ModerationAction) (rows : List Membership) (actor : User) (company_id : Option ℕ)
    → ((name : String) → In name (get_user_roles actor.roles) → platform_role name ≡ none)
    → has_permission rows actor (permission_of action) company_id ≡ false
unfolding has_permission
not_granted action rows actor none no_role =
    no_platform_permission actor (permission_of action) no_role
not_granted action rows actor (some c) no_role =
    contains-append (permission_of action) (platform_permissions actor)
      (tenant_permissions rows actor c)
    ∙ rw
        (
          no_platform_permission actor (permission_of action) no_role,
          no_tenant_grant action rows actor c,
        )
        refl

-- A user with no platform role moderates nothing: whatever memberships there are, in whatever roles,
-- and whatever company the request names, every route answers that the permission is missing and
-- leaves all rows and the audit trail as they were.
pub moderate-no_permission :
    (parse_uuid : String → Option ℕ) (request : Request) (actor : User) (rows : List Membership)
    (action : ModerationAction) (t : PublicationTables)
    → ((name : String) → In name (get_user_roles actor.roles) → platform_role name ≡ none)
    → moderate parse_uuid request actor rows action t ≡ (raised no_permission, t)
unfolding require_permission moderate
moderate-no_permission parse_uuid request actor rows action t no_role =
    let denied =
      not_granted action rows actor (resolve_company_id parse_uuid request (param_name none))
        no_role in
    rw (denied, moderate) refl
