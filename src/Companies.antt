-- ===== src/Companies.antt =====
-- backend/app/services/companies.py: slugs and the creation of a company with its owner. `slugify`
-- is a parameter.
pub mod Slug
pub mod Suffix
pub mod Creation
pub mod Ownership
pub mod Attach
pub mod Domain
use employed.Base.{
  Bool, List, Option, String, [], any, false, if◌then◌else◌, is_empty, list_eq, ltb, nat_eq, none,
  not, option_eq, or_else, some, string_eq, suc, true, zero, ℕ, ◌%◌, ◌++◌, ◌+◌, ◌/◌, ◌||◌, ◌∷◌,
}
use employed.Enums.{
  MarketKey, MembershipStatus, TenantRole, VerificationState, active, country_eq, job_status_eq,
  job_type_eq, market_key_eq, membership_status_eq, org_owner, payment_provider_key_eq,
  payment_status_eq, unverified, verification_state_eq,
}
use employed.Json.{Json}
use employed.Models.{Company, Membership}
use employed.Models.Keys.{same_slug}
use employed.Trust.{company}
use employed.Memberships.{MembershipError, insert_membership}
use employed.Base.Dict.{Dict}
use employed.Base.Text.{Text, codes}
use employed.Base.Outcome.{Outcome, ok, raise_if, raised, ◌>>◌}

pub data CompanyError : Type 0 where
  type_error runtime_error database_error : CompanyError

-- `_slug_exists`
unfoldable pub slug_exists : List Company → MarketKey → Text → Bool
slug_exists rows market slug = any (same_slug market slug) rows

-- `str(n)`: the digits of n, on as much fuel as n has, which is enough since each step divides by ten.
unfoldable pub digits_from : ℕ → ℕ → Text
digits_from zero n = []
digits_from (suc fuel) n =
    let front = digits_from fuel (n / 10) in
    if ltb n 10 then (b'0' + n) ∷ [] else front ++ (b'0' + n % 10) ∷ []

unfoldable pub str : ℕ → Text
unfolding digits_from
str n = digits_from (suc n) n

-- `f"{base}-{suffix}"`
unfoldable pub candidate : Text → ℕ → Text
unfolding str
candidate base suffix = base ++ b'-' ∷ str suffix

abbrev pub max_slug_attempts : ℕ
max_slug_attempts = 10000

-- The loop over the suffixes, `attempts` of them left.
unfoldable pub find_slug : List Company → MarketKey → Text → ℕ → ℕ → Outcome CompanyError Text
unfolding candidate slug_exists
find_slug rows market base zero suffix = raised runtime_error
find_slug rows market base (suc attempts) suffix =
    let rest = find_slug rows market base attempts (suffix + 1) in
    if slug_exists rows market (candidate base suffix) then rest else ok (candidate base suffix)

-- `slugify(name) or _EMPTY_SLUG_FALLBACK`
unfoldable pub slug_base : Text → Text
slug_base slug = if is_empty slug then codes "company" else slug

-- The base where it is free, otherwise the loop, with its number of attempts.
unfoldable pub choose_slug : List Company → MarketKey → Text → ℕ → Outcome CompanyError Text
unfolding slug_exists find_slug
choose_slug rows market base attempts =
    if slug_exists rows market base then find_slug rows market base attempts 2 else ok base

unfoldable pub generate_unique_slug :
    (Text → Text) → List Company → Text → MarketKey → Outcome CompanyError Text
unfolding slug_base choose_slug
generate_unique_slug slugify rows name market =
    choose_slug rows market (slug_base (slugify name)) max_slug_attempts

-- The keyword arguments that a caller may seed, and the names of those that it may not.
pub record CompanyFields : Type 0 where
  pub description : Option String
  pub logo_url : Option String
  pub website : Option String
  pub verified_email_domains : Option (List Text)
  pub external_refs : Option (Dict String Json)
  pub unknown : List String

pub record CompanyTables : Type 0 where
  pub companies : List Company
  pub memberships : List Membership

unfoldable pub new_company : ℕ → Text → Text → MarketKey → ℕ → CompanyFields → Company
new_company id name slug market created_by fields = record {
  id = id;
  name = name;
  slug = slug;
  market = market;
  description = fields.description;
  logo_url = fields.logo_url;
  website = fields.website;
  verification_status = VerificationState.unverified;
  created_by = some created_by;
  verified_email_domains = or_else fields.verified_email_domains [];
  trust_badges = [];
  external_refs = some (or_else fields.external_refs []);
}

unfoldable pub owner_membership : ℕ → ℕ → ℕ → Membership
owner_membership id company_id user_id = record {
  id = id;
  user_id = user_id;
  company_id = company_id;
  role = TenantRole.org_owner;
  status = MembershipStatus.active;
  invited_by = none;
}

-- What the flush of the membership leaves.
unfoldable pub insert_owner :
    Bool
    → Outcome MembershipError Membership × List Membership
    → List Company
    → Outcome CompanyError CompanyTables
insert_owner membership_fails (raised e, rows) companies = raised database_error
insert_owner membership_fails (ok row, rows) companies =
    raise_if membership_fails database_error
    >> ok (record { companies = companies; memberships = rows })

-- Both inserts under one SAVEPOINT: the flush of the company fails if the database says so or its
-- slug is taken, that of the membership if the database says so or its pair is taken.
unfoldable pub insert_both :
    Bool → Bool → Company → Membership → CompanyTables → Outcome CompanyError CompanyTables
unfolding insert_membership slug_exists insert_owner
insert_both company_fails membership_fails c m t =
    raise_if (company_fails || slug_exists t.companies c.market c.slug) database_error
    >> insert_owner membership_fails (insert_membership m t.memberships) (t.companies ++ c ∷ [])

-- `create_company` once its guard is decided and a slug is sought. An exception leaves the
-- SAVEPOINT rolled back.
unfoldable pub create_from :
    Bool
    → Outcome CompanyError Text
    → Bool
    → Bool
    → ℕ
    → ℕ
    → Text
    → MarketKey
    → ℕ
    → CompanyFields
    → CompanyTables
    → Outcome CompanyError Company × CompanyTables
unfolding insert_both new_company owner_membership
create_from true chosen company_fails membership_fails id mid name market created_by fields t =
    (raised type_error, t)
create_from false (raised e) company_fails membership_fails id mid name market created_by fields t =
    (raised e, t)
create_from false (ok slug) company_fails membership_fails id mid name market created_by fields t =
    let c = new_company id name slug market created_by fields in
    elim (insert_both company_fails membership_fails c (owner_membership mid id created_by) t) [
      | ok t' ↦ (ok c, t')
      | raised e ↦ (raised e, t)
    ]

-- `create_company`; `id` and `mid` are the ids that the flushes assign.
unfoldable pub create_company :
    (Text → Text)
    → Bool
    → Bool
    → ℕ
    → ℕ
    → Text
    → MarketKey
    → ℕ
    → CompanyFields
    → CompanyTables
    → Outcome CompanyError Company × CompanyTables
unfolding generate_unique_slug create_from
create_company slugify company_fails membership_fails id mid name market created_by fields t =
    create_from (not (is_empty fields.unknown))
      (generate_unique_slug slugify t.companies name market) company_fails membership_fails id mid
      name market created_by fields t
