-- ===== src/Tests/Publication.antt =====
-- Examples on the moderators' routes.
use employed.Base.{
  In, String, [], inl, inr, list_eq, nat_eq, none, option_eq, refl, some, string_eq, true, ◌∷◌, ◌≡◌,
}
use employed.Tests.{ana, listing, listings, staff}
use employed.Enums.{
  country_eq, job_status_eq, job_type_eq, market_key_eq, membership_status_eq, mozambique,
  payment_provider_key_eq, payment_status_eq, platform_role, verification_state_eq,
}
use employed.Models.{User, many}
use employed.Rbac.{
  Request, get_user_roles, has_permission, is_active_in, param_name, platform_permissions,
  platform_role_permissions, resolve_company_id, tenant_permissions,
}
use employed.Publication.{
  ModerationAction, PublicationTables, block_job, moderate, no_permission, permission_of,
}
use employed.Publication.Guard.{moderate-no_permission}
use employed.Publication.Hidden.{IsWithdrawn, Withdraws, moderate-get_job, target_of}
use employed.Base.Outcome.{raised}

abbrev for_acme : Request
for_acme = record { path_params = []; query_params = ("company_id", "7") ∷ []; body = none }

abbrev block_clerk : ModerationAction
block_clerk = block_job 3 (some "spam")

abbrev published : PublicationTables
published = record { jobs = listings; companies = []; profiles = []; trail = [] }

ana_no_role : (name : String) → In name (get_user_roles ana.roles) → platform_role name ≡ none
unfolding get_user_roles platform_role
ana_no_role name (inl e) = rw (← e) refl
ana_no_role name (inr e) = absurd e

abbrev marta : User
marta = record ana { id = 8; roles = many ("platform_moderator" ∷ []) }

marta_may :
    has_permission staff marta
      (permission_of block_clerk)
      (resolve_company_id (λ s. some 7) for_acme (param_name none))
    ≡ true
unfolding has_permission platform_permissions get_user_roles permission_of resolve_company_id
    param_name platform_role platform_role_permissions tenant_permissions is_active_in
marta_may = refl

moderate-no_permission_example :
    moderate (λ s. some 7) for_acme ana staff block_clerk published
    ≡ (raised no_permission, published)
moderate-no_permission_example =
    moderate-no_permission (λ s. some 7) for_acme ana staff block_clerk published ana_no_role

moderate-get_job_example :
    IsWithdrawn mozambique
      (target_of block_clerk)
      published
      (moderate (λ s. some 7) for_acme marta staff block_clerk published)
unfolding Withdraws target_of
moderate-get_job_example =
    moderate-get_job (λ s. some 7) for_acme marta staff block_clerk published mozambique listing tt
      marta_may refl refl
