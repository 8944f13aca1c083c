-- ===== src/Listings/Visibility.antt =====
-- backend/app/routers/jobs.py: who is shown a job, and whose it is after an edit.
use employed.Base.{
  ==_iff, ==_refl, Bool, Bool-cases, Option, Option-cases, String, ap, arith, false, if◌then◌else◌,
  inl, inr, is_some, list_eq, nat_eq, none, not, option_eq, or-true_right, refl, some, string_eq,
  sym, true, ℕ, ◌&&◌, ◌==◌, ◌||◌, ◌↔◌, ◌∙◌, ◌≡◌, ◌≢◌,
}
use employed.Base.Dict.{Dict, insert, lookup, lookup-insert}
use employed.Base.Outcome.{Outcome, ok, raise_if, raised, ◌>>◌}
use employed.Enums.{
  Country, JobStatus, country_eq, job_status_eq, job_type_eq, market_key_eq, membership_status_eq,
  payment_provider_key_eq, payment_status_eq, verification_state_eq,
}
use employed.Models.{JobPost, User}
use employed.Listings.{JobUpdate, ListingError, is_admin_user, job_not_found, not_owner}
use employed.Listings.Reading.{JobRead, admin_reader, get_job, owner_reader}
use employed.Listings.Editing.{
  back_to_moderation, edited_job, find_own_job, may_modify, save_changed, set_job_fields,
  update_job,
}

-- The two tests of `get_job`, the reader's rights as Booleans.
checked : Bool → Bool → Bool → Bool → JobRead → Outcome ListingError JobRead
checked here admin listed owner shown =
    raise_if (not here && not admin) job_not_found
    >> (raise_if (not listed && not (owner || admin)) job_not_found >> ok shown)

checked_sound :
    (here admin listed owner : Bool) (shown read : JobRead)
    → checked here admin listed owner shown ≡ ok read
    → ((here || admin) ≡ true) × ((listed || (owner || admin)) ≡ true) × (shown ≡ read)
unfolding checked
checked_sound here admin listed owner shown read h = ground arith

checked_complete :
    (here admin listed owner : Bool) (shown : JobRead)
    → (here || admin) ≡ true
    → (listed || (owner || admin)) ≡ true
    → checked here admin listed owner shown ≡ ok shown
unfolding checked
checked_complete here admin listed owner shown h l = ground arith

shown_to : Option User → JobPost → JobRead
shown_to user job = record { job = job; include_contact = is_some user }

-- `get_job` on the row that was found.
answer : Country → Option User → Option JobPost → Outcome ListingError JobRead
unfolding checked shown_to
answer country user none = raised job_not_found
answer country user (some job) =
    checked (job.country == country) (admin_reader user) (job.status == JobStatus.active)
      (owner_reader user job) (shown_to user job)

get_job-answer :
    (country : Country) (user : Option User) (id : ℕ) (jobs : Dict ℕ JobPost)
    → get_job country user id jobs ≡ answer country user (lookup id jobs)
unfolding answer checked shown_to get_job
get_job-answer country user id jobs = elim (Option-cases (lookup id jobs)) [
  | inl e ↦ rw (e, get_job) refl
  | inr (job, e) ↦ rw (e, get_job) refl
]

answer_sound :
    (country : Country) (user : Option User) (found : Option JobPost) (read : JobRead)
    → answer country user found ≡ ok read
    → (found ≡ some read.job)
      × ((read.job.country == country || admin_reader user) ≡ true)
      × ((read.job.status == JobStatus.active || (owner_reader user read.job || admin_reader user))
          ≡ true)
      × (read.include_contact ≡ is_some user)
unfolding answer shown_to
answer_sound country user none read h = absurd (cc h)
answer_sound country user (some job) read h =
    let (c, l, q) =
      checked_sound (job.country == country) (admin_reader user) (job.status == JobStatus.active)
        (owner_reader user job) (shown_to user job) read h in
    rw (← q) (refl, c, l, refl)

-- A job is shown exactly when it is there, is of the market or its reader is an admin, and is active
-- or its reader is its owner or an admin; its contact is shown to those who have signed in.
pub get_job_iff :
    (country : Country) (user : Option User) (id : ℕ) (jobs : Dict ℕ JobPost) (read : JobRead)
    → (get_job country user id jobs ≡ ok read) ↔ (
        (lookup id jobs ≡ some read.job)
        × ((read.job.country == country || admin_reader user) ≡ true)
        × ((read.job.status == JobStatus.active
              || (owner_reader user read.job || admin_reader user))
            ≡ true)
        × (read.include_contact ≡ is_some user))
unfolding answer shown_to
get_job_iff country user id jobs read = rw (get_job-answer country user id jobs) (
  answer_sound country user (lookup id jobs) read,
  λ (found, c, l, contact). rw found (
      checked_complete (read.job.country == country) (admin_reader user)
        (read.job.status == JobStatus.active) (owner_reader user read.job) (shown_to user read.job)
        c l
      ∙ ap (λ b. ok (record { job = read.job; include_contact = b })) (sym contact)),
)

find_own_job-found :
    (user : User) (id : ℕ) (job : JobPost) (jobs : Dict ℕ JobPost)
    → lookup id jobs ≡ some job
    → find_own_job user id jobs ≡ (if may_modify user job then ok job else raised not_owner)
unfolding find_own_job
find_own_job-found user id job jobs h = rw (h, find_own_job) refl

update_job-found :
    (sanitize_html : String → String) (now : ℕ) (country : Country) (user : User) (id : ℕ)
    (payload : JobUpdate) (job : JobPost) (jobs : Dict ℕ JobPost)
    → user.email_verified ≡ true
    → find_own_job user id jobs ≡ ok job
    → (update_job sanitize_html now country user id payload jobs).1
      ≡ insert id (edited_job sanitize_html now country user payload job) jobs
unfolding update_job save_changed
update_job-found sanitize_html now country user id payload job jobs v h = rw (h, v) refl

edited-owner :
    (sanitize_html : String → String) (now : ℕ) (country : Country) (user : User)
    (payload : JobUpdate) (job : JobPost)
    → (edited_job sanitize_html now country user payload job).user_id ≡ some user.id
unfolding edited_job set_job_fields back_to_moderation
edited-owner sanitize_html now country user payload job =
    elim (Bool-cases (job.status == JobStatus.active && not (is_admin_user user))) [
      | inl e ↦ rw e refl
      | inr e ↦ rw e refl
    ]

edited-country :
    (sanitize_html : String → String) (now : ℕ) (country : Country) (user : User)
    (payload : JobUpdate) (job : JobPost)
    → (edited_job sanitize_html now country user payload job).country ≡ country
unfolding edited_job set_job_fields back_to_moderation
edited-country sanitize_html now country user payload job =
    elim (Bool-cases (job.status == JobStatus.active && not (is_admin_user user))) [
      | inl e ↦ rw e refl
      | inr e ↦ rw e refl
    ]

-- An admin with a confirmed address may edit a job of another user. The row that is stored then
-- names the admin as its user and the market of the request as its country, and the user who posted
-- it, no admin, is refused from then on.
pub update_job-old_owner :
    (sanitize_html : String → String) (now : ℕ) (country : Country) (admin owner : User) (id : ℕ)
    (payload : JobUpdate) (job : JobPost) (jobs : Dict ℕ JobPost)
    → lookup id jobs ≡ some job
    → is_admin_user admin ≡ true
    → admin.email_verified ≡ true
    → is_admin_user owner ≡ false
    → owner.id ≢ admin.id
    → let after = (update_job sanitize_html now country admin id payload jobs).1 in
      (stored : JobPost) × (lookup id after ≡ some stored)
      × (stored.user_id ≡ some admin.id)
      × (stored.country ≡ country)
      × (find_own_job owner id after ≡ raised not_owner)
unfolding may_modify
update_job-old_owner sanitize_html now country admin owner id payload job jobs h a v o d =
    let edited = edited_job sanitize_html now country admin payload job in
    let ours : may_modify admin job ≡ true =
      or-true_right (job.user_id == some admin.id) (is_admin_user admin) a in
    let kept : find_own_job admin id jobs ≡ ok job =
      find_own_job-found admin id job jobs h
      ∙ ap (λ b. if b then ok job else raised not_owner) ours in
    let stored : lookup id (insert id edited jobs) ≡ some edited =
      lookup-insert id id edited jobs
      ∙ ap (λ b. if b then some edited else lookup id jobs) (==_refl id) in
    let other : may_modify owner edited ≡ false =
      rw (edited-owner sanitize_html now country admin payload job, o)
        (ground (arith, ==_iff admin.id owner.id, d)) in
    rw (update_job-found sanitize_html now country admin id payload job jobs v kept) (
      edited,
      stored,
      edited-owner sanitize_html now country admin payload job,
      edited-country sanitize_html now country admin payload job,
      find_own_job-found owner id edited (insert id edited jobs) stored
          ∙ ap (λ b. if b then ok edited else raised not_owner) other,
    )
