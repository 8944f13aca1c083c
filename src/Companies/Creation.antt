-- ===== src/Companies/Creation.antt =====
-- backend/app/services/companies.py: the creation of a company with its owner.
use employed.Base.{
  Bool, Bool-cases, [], any, arith, false, inl, inr, is_empty, list_eq, nat_eq, none, not,
  option_eq, refl, some, string_eq, true, ℕ, ◌++◌, ◌||◌, ◌∷◌, ◌≡◌,
}
use employed.Enums.{
  MarketKey, MembershipStatus, TenantRole, VerificationState, country_eq, job_status_eq,
  job_type_eq, market_key_eq, membership_status_eq, payment_provider_key_eq, payment_status_eq,
  verification_state_eq,
}
use employed.Models.{Company, Membership}
use employed.Models.Keys.{
  UniquePairs, UniquePairs-append, UniqueSlugs, UniqueSlugs-append, same_pair,
}
use employed.Companies.{
  CompanyError, CompanyFields, CompanyTables, create_company, create_from, generate_unique_slug,
  insert_both, new_company, owner_membership, slug_exists,
}
use employed.Base.Text.{Text}
use employed.Base.Outcome.{Outcome, Outcome-cases, ok, raised}
use employed.Memberships.{insert_membership}

-- What an answer of `insert_both` says of the tables.
abbrev pub Inserted :
    Company → Membership → CompanyTables → Outcome CompanyError CompanyTables → Type 0
Inserted c m t (raised e) = Unit
Inserted c m t (ok t') =
    (t'.companies ≡ t.companies ++ c ∷ [])
    × (t'.memberships ≡ t.memberships ++ m ∷ [])
    × (slug_exists t.companies c.market c.slug ≡ false)
    × (any (same_pair m.user_id m.company_id) t.memberships ≡ false)

insert_both-Inserted :
    (company_fails membership_fails : Bool) (c : Company) (m : Membership) (t : CompanyTables)
    → Inserted c m t (insert_both company_fails membership_fails c m t)
unfolding insert_both insert_membership
insert_both-Inserted company_fails membership_fails c m t =
    elim (Bool-cases (company_fails || slug_exists t.companies c.market c.slug)) [
      | inl e ↦ rw (e, insert_both) tt
      | inr e ↦ elim (Bool-cases (any (same_pair m.user_id m.company_id) t.memberships)) [
        | inl f ↦ rw (e, f, insert_both) tt
        | inr f ↦ elim (Bool-cases membership_fails) [
          | inl g ↦ rw (e, f, g, insert_both) tt
          | inr g ↦ rw (e, f, g, insert_both) (refl, refl, ground arith, f)
        ]
      ]
    ]

-- What an answer of `create_company` says of the tables before and after.
abbrev pub Created : ℕ → ℕ → CompanyTables → Outcome CompanyError Company × CompanyTables → Type 0
Created mid created_by t (raised e, t') = t' ≡ t
Created mid created_by t (ok c, t') =
    (t'.companies ≡ t.companies ++ c ∷ [])
    × (t'.memberships
        ≡ t.memberships
          ++ (record {
            id = mid;
            user_id = created_by;
            company_id = c.id;
            role = TenantRole.org_owner;
            status = MembershipStatus.active;
            invited_by = none;
          })
            ∷ [])
    × (slug_exists t.companies c.market c.slug ≡ false)
    × (any (same_pair created_by c.id) t.memberships ≡ false)
    × (c.created_by ≡ some created_by)
    × (c.verification_status ≡ VerificationState.unverified)

create_from-Created :
    (unknown : Bool) (chosen : Outcome CompanyError Text) (company_fails membership_fails : Bool)
    (id mid : ℕ) (name : Text) (market : MarketKey) (created_by : ℕ) (fields : CompanyFields)
    (t : CompanyTables)
    → Created mid created_by t (
        create_from unknown chosen company_fails membership_fails id mid name market created_by
          fields t)
unfolding create_from owner_membership new_company
create_from-Created true chosen company_fails membership_fails id mid name market created_by fields
      t =
    refl
create_from-Created false (raised e) company_fails membership_fails id mid name market created_by
      fields t =
    refl
create_from-Created false (ok slug) company_fails membership_fails id mid name market created_by
      fields t =
    let c = new_company id name slug market created_by fields in
    let m = owner_membership mid id created_by in
    elim (Outcome-cases (insert_both company_fails membership_fails c m t)) [
      | inr (x, r) ↦ rw (r, create_from) refl
      | inl (t', r) ↦
          (let made = insert_both-Inserted company_fails membership_fails c m t in
            let (a, b, f, g) = rw r at made in rw (r, create_from) (a, b, f, g, refl, refl))
    ]

-- A creation that raises writes nothing. One that returns adds the returned company at the end, and
-- beside it one membership, its creator's, active and with the owner's role; the company has a slug
-- that was free in its market, records its creator and is unverified.
pub create_company_total :
    (slugify : Text → Text) (company_fails membership_fails : Bool) (id mid : ℕ) (name : Text)
    (market : MarketKey) (created_by : ℕ) (fields : CompanyFields) (t : CompanyTables)
    → Created mid created_by t (
        create_company slugify company_fails membership_fails id mid name market created_by fields
          t)
unfolding create_company
create_company_total slugify company_fails membership_fails id mid name market created_by fields t =
    create_from-Created (not (is_empty fields.unknown))
      (generate_unique_slug slugify t.companies name market) company_fails membership_fails id mid
      name market created_by fields t

-- The unique constraints of both tables.
abbrev pub IsConsistent : CompanyTables → Type 0
IsConsistent t = UniqueSlugs t.companies × UniquePairs t.memberships

Created-IsConsistent :
    (mid created_by : ℕ) (t : CompanyTables) (r : Outcome CompanyError Company × CompanyTables)
    → Created mid created_by t r
    → IsConsistent t
    → IsConsistent r.1
unfolding owner_membership slug_exists
Created-IsConsistent mid created_by t (raised e, t') same h = rw same h
Created-IsConsistent mid created_by t (ok c, t') (a, b, free, new, u, v) h =
    rw (a, b)
      (
        UniqueSlugs-append t.companies c h.0 free,
        UniquePairs-append t.memberships (owner_membership mid c.id created_by) h.1 new,
      )

-- Creating a company, whatever fails on the way, keeps slugs unique in their market and memberships
-- unique for their user and company.
pub create_company-IsConsistent :
    (slugify : Text → Text) (company_fails membership_fails : Bool) (id mid : ℕ) (name : Text)
    (market : MarketKey) (created_by : ℕ) (fields : CompanyFields) (t : CompanyTables)
    → IsConsistent t
    → IsConsistent
        (create_company slugify company_fails membership_fails id mid name market created_by fields
          t).1
create_company-IsConsistent slugify company_fails membership_fails id mid name market created_by
      fields t h =
    Created-IsConsistent mid created_by t
      (create_company slugify company_fails membership_fails id mid name market created_by fields t)
      (create_company_total slugify company_fails membership_fails id mid name market created_by
        fields t)
      h
