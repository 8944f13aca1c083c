-- ===== src/Companies/Ownership.antt =====
-- backend/app/services/companies.py with services/rbac.py: what the creator of a company may do.
use mathlib.Core.Path.{subst}
use employed.Base.{
  Bool, In, List, String, [], contains, inl, inr, list_eq, nat_eq, none, option_eq, refl, some,
  string_eq, sym, true, ℕ, ◌++◌, ◌∷◌, ◌≡◌,
}
use employed.Enums.{
  MarketKey, MembershipStatus, TenantRole, country_eq, job_status_eq, job_type_eq, market_key_eq,
  membership_status_eq, payment_provider_key_eq, payment_status_eq, verification_state_eq,
}
use employed.Models.{Company, Membership, User}
use employed.Rbac.{has_permission, tenant_role_permissions}
use employed.Rbac.Decision.{has_permission_iff}
use employed.Companies.{CompanyError, CompanyFields, CompanyTables, create_company}
use employed.Companies.Creation.{
  Created, IsConsistent, create_company-IsConsistent, create_company_total,
}
use employed.Base.Text.{Text}
use employed.Base.Outcome.{Outcome, ok, raised}

In-last : {A : Type 0} (x : A) (xs : List A) → In x (xs ++ x ∷ [])
In-last x [] = inl refl
In-last x (y ∷ xs) = inr (In-last x xs)

-- The membership of the owner that a creation adds.
abbrev owner_row : ℕ → ℕ → ℕ → Membership
owner_row mid company_id user_id = record {
  id = mid;
  user_id = user_id;
  company_id = company_id;
  role = TenantRole.org_owner;
  status = MembershipStatus.active;
  invited_by = none;
}

owner_inserted :
    (mid user_id : ℕ) (t : CompanyTables) (r : Outcome CompanyError Company × CompanyTables)
    (c : Company)
    → Created mid user_id t r
    → r.0 ≡ ok c
    → In (owner_row mid c.id user_id) r.1.memberships
owner_inserted mid user_id t (raised e, t') c made h = absurd (cc h)
owner_inserted mid user_id t (ok c', t') c (_, b, _, _, _, _) h =
    let same : c' ≡ c = cc h in
    subst (λ x. In (owner_row mid x.id user_id) t'.memberships) same
      (subst (In (owner_row mid c'.id user_id)) (sym b)
        (In-last (owner_row mid c'.id user_id) t.memberships))

owner_grants :
    (p : String)
    → contains p (
        "company:manage" ∷ "company:manage_members" ∷ "company:verify_domain" ∷ "job:post"
        ∷ "application:review" ∷ "application:advance" ∷ [])
      ≡ true
    → contains p (tenant_role_permissions TenantRole.org_owner) ≡ true
unfolding tenant_role_permissions
owner_grants p h = h

-- In tables that meet their unique constraints: once a creation of a company returns, the decision
-- gives its creator every one of the six permissions of an owner in that company, whatever platform
-- roles the creator has.
pub create_company-has_permission :
    (slugify : Text → Text) (company_fails membership_fails : Bool) (id mid : ℕ) (name : Text)
    (market : MarketKey) (user : User) (fields : CompanyFields) (t : CompanyTables) (c : Company)
    (p : String)
    → IsConsistent t
    → contains p (
        "company:manage" ∷ "company:manage_members" ∷ "company:verify_domain" ∷ "job:post"
        ∷ "application:review" ∷ "application:advance" ∷ [])
      ≡ true
    → (create_company slugify company_fails membership_fails id mid name market user.id fields t).0
      ≡ ok c
    → has_permission
        (create_company slugify company_fails membership_fails id mid name market user.id fields
          t).1.memberships
        user
        p
        (some c.id)
      ≡ true
create_company-has_permission slugify company_fails membership_fails id mid name market user fields
      t c p consistent owners created =
    let r =
      create_company slugify company_fails membership_fails id mid name market user.id fields t in
    let made =
      create_company_total slugify company_fails membership_fails id mid name market user.id fields
        t in
    let after =
      create_company-IsConsistent slugify company_fails membership_fails id mid name market user.id
        fields t consistent in
    (has_permission_iff r.1.memberships user p c.id after.1).1 (
      inr (
        owner_row mid c.id user.id,
        owner_inserted mid user.id t r c made created,
        refl,
        refl,
        refl,
        owner_grants p owners,
      ))
