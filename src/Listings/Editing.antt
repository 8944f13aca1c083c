-- ===== src/Listings/Editing.antt =====
-- backend/app/routers/jobs.py: editing, closing and removing a job.
use employed.Base.{
  Bool, List, String, [], if◌then◌else◌, keep_last, list_eq, nat_eq, none, not, option_eq, or_else,
  some, string_eq, ℕ, ◌&&◌, ◌++◌, ◌==◌, ◌||◌, ◌∷◌,
}
use employed.Enums.{
  Country, JobStatus, country_eq, job_status_eq, job_type_eq, market_key_eq, membership_status_eq,
  payment_provider_key_eq, payment_status_eq, verification_state_eq,
}
use employed.Models.{JobPost, StatusChange, User, by_user}
use employed.Listings.{
  JobUpdate, ListingError, email_unverified, is_admin_user, job_not_found, not_owner, only_active,
}
use employed.Base.Dict.{Dict, erase, insert, lookup}
use employed.Base.Outcome.{Outcome, ok, raise_if, raised, ◌>>=◌, ◌>>◌}

-- `_set_job_fields` on a job that exists: it is stamped with the market and with the user.
unfoldable pub set_job_fields :
    (String → String) → ℕ → Country → User → JobUpdate → JobPost → JobPost
set_job_fields sanitize_html now country user p job = record job {
  title = or_else p.title job.title;
  company = or_else p.company job.company;
  location = or_else p.location job.location;
  url = or_else p.url job.url;
  contact = or_else p.contact job.contact;
  apply_whatsapp = or_else p.apply_whatsapp job.apply_whatsapp;
  job_type = or_else p.job_type job.job_type;
  remote = or_else p.remote job.remote;
  description = or_else p.description job.description;
  html_description = elim p.description [
    | none ↦ job.html_description
    | some d ↦ some (sanitize_html d)
  ];
  salary_min = or_else p.salary_min job.salary_min;
  salary_max = or_else p.salary_max job.salary_max;
  salary_currency = or_else p.salary_currency job.salary_currency;
  salary_period = or_else p.salary_period job.salary_period;
  country = country;
  updated_at = now;
  user_id = some user.id;
}

-- The history with a change more, cut to its last hundred.
unfoldable pub add_change : List StatusChange → StatusChange → List StatusChange
add_change history change = keep_last 100 (history ++ change ∷ [])

-- What `update_job` does to an active job that somebody other than an admin edits.
unfoldable pub back_to_moderation : ℕ → User → JobPost → JobPost
unfolding add_change
back_to_moderation now user job = record job {
  status = JobStatus.pending;
  status_history = add_change job.status_history (record {
    changed_at = now;
    changed_by = by_user user.id;
    from_status = JobStatus.active;
    to_status = JobStatus.pending;
    reason = some "owner edit requires re-moderation";
  });
}

-- `_assert_job_owner_or_admin`, as a test
unfoldable pub may_modify : User → JobPost → Bool
unfolding is_admin_user
may_modify user job = job.user_id == some user.id || is_admin_user user

-- The edit, both its steps.
unfoldable pub edited_job : (String → String) → ℕ → Country → User → JobUpdate → JobPost → JobPost
unfolding set_job_fields is_admin_user back_to_moderation
edited_job sanitize_html now country user payload job =
    let changed = set_job_fields sanitize_html now country user payload job in
    if job.status == JobStatus.active && not (is_admin_user user)
    then back_to_moderation now user changed
    else changed

-- `get_by_id`, its 404, and `_assert_job_owner_or_admin`
unfoldable pub find_own_job : User → ℕ → Dict ℕ JobPost → Outcome ListingError JobPost
unfolding may_modify
find_own_job user id jobs = elim (lookup id jobs) [
  | none ↦ raised job_not_found
  | some job ↦ if may_modify user job then ok job else raised not_owner
]

-- The row that passed the guards is changed, saved and the answer.
unfoldable pub save_changed :
    ℕ
    → Dict ℕ JobPost
    → (JobPost → JobPost)
    → Outcome ListingError JobPost
    → Outcome ListingError JobPost × Dict ℕ JobPost
save_changed id jobs change (ok job) = (ok (change job), insert id (change job) jobs)
save_changed id jobs change (raised e) = (raised e, jobs)

-- `update_job`
unfoldable pub update_job :
    (String → String)
    → ℕ
    → Country
    → User
    → ℕ
    → JobUpdate
    → Dict ℕ JobPost
    → Outcome ListingError JobPost × Dict ℕ JobPost
unfolding edited_job find_own_job save_changed
update_job sanitize_html now country user id payload jobs =
    save_changed id jobs (edited_job sanitize_html now country user payload)
      (raise_if (not user.email_verified) email_unverified >> find_own_job user id jobs)

-- The row that passed the guards goes.
unfoldable pub erase_found :
    ℕ
    → Dict ℕ JobPost
    → Outcome ListingError JobPost
    → Outcome ListingError (Unit {0}) × Dict ℕ JobPost
erase_found id jobs (ok job) = (ok tt, erase id jobs)
erase_found id jobs (raised e) = (raised e, jobs)

-- `delete_job`
unfoldable pub delete_job :
    User → ℕ → Dict ℕ JobPost → Outcome ListingError (Unit {0}) × Dict ℕ JobPost
unfolding find_own_job erase_found
delete_job user id jobs = erase_found id jobs (find_own_job user id jobs)

unfoldable pub deactivated_job : ℕ → Bool → JobPost → JobPost
deactivated_job now was_filled job = record job {
  status = if was_filled then JobStatus.filled else JobStatus.inactive;
  updated_at = now;
}

-- `deactivate_job`
unfoldable pub deactivate_job :
    ℕ → User → ℕ → Bool → Dict ℕ JobPost → Outcome ListingError JobPost × Dict ℕ JobPost
unfolding find_own_job deactivated_job save_changed
deactivate_job now user id was_filled jobs = save_changed id jobs (deactivated_job now was_filled) (
    find_own_job user id jobs >>= λ job.
    raise_if (not (job.status == JobStatus.active)) only_active >> ok job)
