-- ===== src/Tests/Access.antt =====
-- Examples on permissions.
use employed.Base.{
  In, String, [], any, false, inl, inr, list_eq, nat_eq, none, option_eq, refl, some, string_eq,
  true, ℕ, ◌↔◌, ◌∷◌, ◌≡◌, ◌⊎◌,
}
use employed.Tests.{ana, ana_at_acme, staff}
use employed.Enums.{
  country_eq, job_status_eq, job_type_eq, market_key_eq, membership_status_eq, org_owner,
  payment_provider_key_eq, payment_status_eq, platform_role, verification_state_eq,
}
use employed.Rbac.{
  Request, get_user_roles, has_permission, is_active_in, param_name, resolve_company_id,
}
use employed.Rbac.Decision.{ByPlatform, ByTenant, has_permission_iff}
use employed.Memberships.{invite_member, suspend_member}
use employed.Memberships.Access.{has_permission-invite_member, has_permission-suspend_member}

abbrev for_nine : Request
for_nine = record { path_params = ("company_id", "9") ∷ []; query_params = []; body = none }

ana_no_platform_role :
    (name : String) → In name (get_user_roles ana.roles) → platform_role name ≡ none
unfolding get_user_roles platform_role
ana_no_platform_role name (inl e) = rw (← e) refl
ana_no_platform_role name (inr e) = absurd e

ana_not_in_nine :
    (c : ℕ)
    → resolve_company_id (λ s. some 9) for_nine (param_name none) ≡ some c
    → any (is_active_in ana c) staff ≡ false
unfolding resolve_company_id is_active_in param_name
ana_not_in_nine c h = let q : 9 ≡ c = cc h in rw (← q) refl

has_permission_iff_example :
    (has_permission staff ana "job:post" (some 7) ≡ true)
    ↔ (ByPlatform ana "job:post" ⊎ ByTenant staff ana "job:post" 7)
has_permission_iff_example = has_permission_iff staff ana "job:post" 7 (refl, (refl, tt))

has_permission-invite_member_example :
    has_permission (invite_member 13 8 1 org_owner 2 staff).1 ana "job:post" (some 8)
    ≡ has_permission staff ana "job:post" (some 8)
has_permission-invite_member_example =
    has_permission-invite_member 13 8 1 2 org_owner staff ana "job:post" (some 8)

has_permission-suspend_member_example :
    has_permission (suspend_member ana_at_acme staff).1 ana "job:post" (some ana_at_acme.company_id)
    ≡ has_permission staff ana "job:post" none
has_permission-suspend_member_example =
    has_permission-suspend_member staff ana_at_acme ana "job:post" (refl, (refl, tt)) (inl refl)
      refl
