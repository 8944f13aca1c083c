-- ===== src/Listings.antt =====
-- backend/app/routers/jobs.py: who may post a job, and posting it. The market of a request
-- is its country. Mail is not modelled, and the name of the poster is no column of the table.
pub mod Editing
pub mod Reading
pub mod Search
pub mod Pages
pub mod Admin
pub mod Bulk
pub mod Moderation
pub mod Visibility
pub mod Like
pub mod Paging
pub mod Walk
use employed.Base.{
  Bool, List, Option, String, [], contains, if◌then◌else◌, list_eq, nat_eq, none, option_eq, some,
  string_eq, ℕ, ◌==◌,
}
use employed.Enums.{
  Country, JobStatus, JobType, VerificationState, country_eq, job_status_eq, job_type_eq,
  market_key_eq, membership_status_eq, parse_job_type, payment_provider_key_eq, payment_status_eq,
  pending, unverified, verification_state_eq,
}
use employed.Models.{JobPost, Membership, User}
use employed.Rbac.{get_user_roles, has_permission}
use employed.Base.Dict.{Dict, insert}
use employed.Base.Text.{Text}
use employed.Base.Outcome.{Outcome, ok, raised, ◌>>=◌}

pub data ListingError : Type 0 where
  invalid_job_type email_unverified recaptcha_failed invalid_company : ListingError
  not_authorized job_not_found not_owner only_active invalid_status : ListingError
  unprocessable : ListingError

-- `is_admin_user`
unfoldable pub is_admin_user : User → Bool
unfolding get_user_roles
is_admin_user user = contains "admin" (get_user_roles user.roles)

-- The values of a `JobCreate`, those that were left out with their defaults.
pub record JobCreate : Type 0 where
  pub title : Text
  pub company : Option Text
  pub location : Option Text
  pub url : Option String
  pub contact : String
  pub apply_whatsapp : Option String
  pub jobtype : String
  pub description : String
  pub remote : Bool
  pub salary_min : Option ℕ
  pub salary_max : Option ℕ
  pub salary_currency : Option String
  pub salary_period : Option String
  pub company_id : Option String

-- The values of a `JobUpdate` that were set: `none` is a field that was left out. A null for a
-- column that takes none fails at the flush and is left aside.
pub record JobUpdate : Type 0 where
  pub title : Option Text
  pub company : Option (Option Text)
  pub location : Option (Option Text)
  pub url : Option (Option String)
  pub contact : Option String
  pub apply_whatsapp : Option (Option String)
  pub job_type : Option JobType
  pub description : Option String
  pub remote : Option Bool
  pub salary_min : Option (Option ℕ)
  pub salary_max : Option (Option ℕ)
  pub salary_currency : Option (Option String)
  pub salary_period : Option (Option String)

-- `_coerce_company_id`: no identifier, or what `UUID` makes of it.
unfoldable pub coerce_company_id :
    (String → Option ℕ) → Option String → Outcome ListingError (Option ℕ)
coerce_company_id parse_uuid none = ok none
coerce_company_id parse_uuid (some value) =
    if value == ""
    then ok none
    else (elim (parse_uuid value) [ none ↦ raised invalid_company | some id ↦ ok (some id) ])

-- The decision of `_authorize_company_post`, the identifier coerced.
unfoldable pub authorize_company :
    List Membership → Option User → Option ℕ → Outcome ListingError (Option ℕ)
unfolding has_permission
authorize_company rows user none = ok none
authorize_company rows none (some id) = raised not_authorized
authorize_company rows (some user) (some id) =
    if has_permission rows user "job:post" (some id) then ok (some id) else raised not_authorized

-- `_authorize_company_post`
unfoldable pub authorize_company_post :
    (String → Option ℕ)
    → List Membership
    → JobCreate
    → Option User
    → Outcome ListingError (Option ℕ)
unfolding coerce_company_id authorize_company
authorize_company_post parse_uuid rows payload user =
    coerce_company_id parse_uuid payload.company_id >>= authorize_company rows user

unfoldable pub user_id_of : Option User → Option ℕ
user_id_of none = none
user_id_of (some user) = some user.id

-- The row that `create_job` saves; `sanitize_html` is the library's cleaning.
unfoldable pub new_job :
    (String → String) → ℕ → ℕ → Country → JobType → Option ℕ → Option User → JobCreate → JobPost
unfolding user_id_of
new_job sanitize_html id now country type company_id user payload = record {
  id = id;
  user_id = user_id_of user;
  company_id = company_id;
  title = payload.title;
  company = payload.company;
  country = country;
  location = payload.location;
  url = payload.url;
  contact = payload.contact;
  apply_whatsapp = payload.apply_whatsapp;
  job_type = type;
  remote = payload.remote;
  description = payload.description;
  html_description = some (sanitize_html payload.description);
  salary_min = payload.salary_min;
  salary_max = payload.salary_max;
  salary_currency = payload.salary_currency;
  salary_period = payload.salary_period;
  status = JobStatus.pending;
  featured_through = none;
  featured_charge_history = [];
  status_history = [];
  published_at = none;
  expired_at = none;
  created_at = now;
  updated_at = now;
  verification_status = VerificationState.unverified;
  external_refs = some [];
}

-- The guards of `create_job` that come before the company's: the type, the address of a user, the
-- answer of reCAPTCHA for anybody else.
unfoldable pub may_post : Bool → Option User → String → Outcome ListingError JobType
unfolding parse_job_type
may_post recaptcha_ok user jobtype = elim (parse_job_type jobtype) [
  | none ↦ raised invalid_job_type
  | some type ↦ elim user [
    | none ↦ if recaptcha_ok then ok type else raised recaptcha_failed
    | some u ↦ if u.email_verified then ok type else raised email_unverified
  ]
]

-- A row that passed the guards is saved, and is the answer.
unfoldable pub save_new :
    ℕ
    → Dict ℕ JobPost
    → Outcome ListingError JobPost
    → Outcome ListingError JobPost × Dict ℕ JobPost
save_new id jobs (ok job) = (ok job, insert id job jobs)
save_new id jobs (raised e) = (raised e, jobs)

-- `create_job`
unfoldable pub create_job :
    (String → String)
    → (String → Option ℕ)
    → Bool
    → ℕ
    → ℕ
    → Country
    → JobCreate
    → Option User
    → List Membership
    → Dict ℕ JobPost
    → Outcome ListingError JobPost × Dict ℕ JobPost
unfolding may_post authorize_company_post new_job save_new
create_job sanitize_html parse_uuid recaptcha_ok id now country payload user rows jobs =
    save_new id jobs (
      may_post recaptcha_ok user payload.jobtype >>= λ type.
      authorize_company_post parse_uuid rows payload user >>= λ company_id.
      ok (new_job sanitize_html id now country type company_id user payload))
