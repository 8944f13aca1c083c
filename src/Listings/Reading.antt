-- ===== src/Listings/Reading.antt =====
-- backend/app/routers/jobs.py: reading one job.
use employed.Base.{
  Bool, Option, false, is_some, list_eq, nat_eq, none, not, option_eq, some, string_eq, ℕ, ◌&&◌,
  ◌==◌, ◌||◌,
}
use employed.Enums.{
  Country, JobStatus, country_eq, job_status_eq, job_type_eq, market_key_eq, membership_status_eq,
  payment_provider_key_eq, payment_status_eq, verification_state_eq,
}
use employed.Models.{JobPost, User}
use employed.Listings.{ListingError, is_admin_user, job_not_found}
use employed.Base.Dict.{Dict, lookup}
use employed.Base.Outcome.{Outcome, ok, raise_if, raised, ◌>>◌}

-- What a reader sees of a job: the row, and whether its contact is shown.
pub record JobRead : Type 0 where
  pub job : JobPost
  pub include_contact : Bool

unfoldable pub admin_reader : Option User → Bool
unfolding is_admin_user
admin_reader none = false
admin_reader (some user) = is_admin_user user

unfoldable pub owner_reader : Option User → JobPost → Bool
owner_reader none job = false
owner_reader (some user) job = job.user_id == some user.id

-- `get_job`
unfoldable pub get_job : Country → Option User → ℕ → Dict ℕ JobPost → Outcome ListingError JobRead
unfolding admin_reader owner_reader
get_job country user id jobs = elim (lookup id jobs) [
  | none ↦ raised job_not_found
  | some job ↦
      raise_if (not (job.country == country) && not (admin_reader user)) job_not_found
      >> (raise_if
            (not (job.status == JobStatus.active)
              && not (owner_reader user job || admin_reader user))
            job_not_found
          >> ok (record { job = job; include_contact = is_some user }))
]
