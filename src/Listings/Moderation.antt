-- ===== src/Listings/Moderation.antt =====
-- backend/app/routers/jobs.py: what requests of users who are no admins do to the listed jobs.
use employed.Base.{
  ==_iff, All, Bool, Bool-cases, List, Option, String, [], ap, false, false≢true, inl, inr, list_eq,
  nat_eq, none, not, option_eq, some, string_eq, sym, true, ℕ, ◌==◌, ◌∙◌, ◌∷◌, ◌≡◌, ◌≢◌,
}
use employed.Base.Dict.{Dict, insert, lookup, lookup-erase, lookup-insert}
use employed.Enums.{
  Country, JobStatus, JobType, country_eq, job_status_eq, job_type_eq, market_key_eq,
  membership_status_eq, payment_provider_key_eq, payment_status_eq, verification_state_eq,
}
use employed.Models.{JobPost, Membership, User}
use employed.Listings.{
  JobCreate, JobUpdate, ListingError, authorize_company_post, create_job, email_unverified,
  is_admin_user, may_post, new_job, only_active, save_new,
}
use employed.Listings.Editing.{
  back_to_moderation, deactivate_job, deactivated_job, delete_job, edited_job, erase_found,
  find_own_job, save_changed, set_job_fields, update_job,
}
use employed.Base.Outcome.{Outcome, ok, raise_if, raised, ◌>>=◌, ◌>>◌}

-- A request to the routes that write jobs, with the time and the market that it comes at.
pub data JobRequest : Type 0 where
  post : Bool → ℕ → JobCreate → Option User → List Membership → JobRequest
  edit : User → ℕ → JobUpdate → JobRequest
  remove_job : User → ℕ → JobRequest
  close_job : User → ℕ → Bool → JobRequest

-- Nobody, or a user who is no admin.
unfoldable pub NoAdmin : Option User → Type 0
unfolding is_admin_user
NoAdmin none = Unit
NoAdmin (some user) = is_admin_user user ≡ false

unfoldable pub ByNoAdmin : JobRequest → Type 0
unfolding NoAdmin
ByNoAdmin (post recaptcha_ok id payload user rows) = NoAdmin user
ByNoAdmin (edit user id payload) = NoAdmin (some user)
ByNoAdmin (remove_job user id) = NoAdmin (some user)
ByNoAdmin (close_job user id was_filled) = NoAdmin (some user)

some-injective : {A : Type 0} {x y : A} → some x ≡ some y → x ≡ y
some-injective q = cc q

module _ (sanitize_html : String → String) (parse_uuid : String → Option ℕ) (country : Country)
    (now : ℕ) where
  -- The jobs after a request.
  unfoldable pub serve : JobRequest → Dict ℕ JobPost → Dict ℕ JobPost
  unfolding create_job update_job delete_job deactivate_job
  serve (post recaptcha_ok id payload user rows) jobs =
      (create_job sanitize_html parse_uuid recaptcha_ok id now country payload user rows jobs).1
  serve (edit user id payload) jobs = (update_job sanitize_html now country user id payload jobs).1
  serve (remove_job user id) jobs = (delete_job user id jobs).1
  serve (close_job user id was_filled) jobs = (deactivate_job now user id was_filled jobs).1

  -- Storing a job that is not active shows no job that was not shown.
  insert_hidden :
      (id j : ℕ) (stored job : JobPost) (jobs : Dict ℕ JobPost)
      → stored.status ≢ JobStatus.active
      → lookup j (insert id stored jobs) ≡ some job
      → job.status ≡ JobStatus.active
      → lookup j jobs ≡ some job
  insert_hidden id j stored job jobs hidden h shown =
      let m = rw (lookup-insert id j stored jobs) at h in
      elim (Bool-cases (id == j)) [
        | inl e ↦
            (let q : some stored ≡ some job = rw e at m in
              absurd (hidden (ap JobPost.status (some-injective q) ∙ shown)))
        | inr e ↦ rw e at m
      ]

  edited-status :
      (user : User) (payload : JobUpdate) (job : JobPost)
      → is_admin_user user ≡ false
      → (edited_job sanitize_html now country user payload job).status ≢ JobStatus.active
  unfolding edited_job set_job_fields back_to_moderation
  edited-status user payload job no_admin h = elim (Bool-cases (job.status == JobStatus.active)) [
    | inl e ↦
        (let q : JobStatus.pending ≡ JobStatus.active = rw (e, no_admin) at h in absurd (cc q))
    | inr e ↦
        (let q : job.status ≡ JobStatus.active = rw e at h in
          absurd (false≢true (sym e ∙ (==_iff job.status JobStatus.active).1 q)))
  ]

  new_job-status :
      (id : ℕ) (type : JobType) (company_id : Option ℕ) (user : Option User) (payload : JobCreate)
      → (new_job sanitize_html id now country type company_id user payload).status
        ≢ JobStatus.active
  unfolding new_job
  new_job-status id type company_id user payload h = cc h

  deactivated-status :
      (was_filled : Bool) (job : JobPost)
      → (deactivated_job now was_filled job).status ≢ JobStatus.active
  unfolding deactivated_job
  deactivated-status true job h = cc h
  deactivated-status false job h = cc h

  posted-active :
      (m : Outcome ListingError JobType) (a : Outcome ListingError (Option ℕ)) (id : ℕ)
      (user : Option User) (payload : JobCreate) (jobs : Dict ℕ JobPost) (j : ℕ) (job : JobPost)
      → lookup j
          (save_new id jobs (
            m >>= λ type. a >>= λ company_id.
            ok (new_job sanitize_html id now country type company_id user payload))).1
        ≡ some job
      → job.status ≡ JobStatus.active
      → lookup j jobs ≡ some job
  unfolding save_new
  posted-active (raised e) a id user payload jobs j job h shown = h
  posted-active (ok type) (raised e) id user payload jobs j job h shown = h
  posted-active (ok type) (ok company_id) id user payload jobs j job h shown =
      insert_hidden id j (new_job sanitize_html id now country type company_id user payload) job
        jobs (new_job-status id type company_id user payload) h shown

  saved-active :
      (found : Outcome ListingError JobPost) (change : JobPost → JobPost)
      → ((row : JobPost) → (change row).status ≢ JobStatus.active)
      → (id : ℕ) (jobs : Dict ℕ JobPost) (j : ℕ) (job : JobPost)
      → lookup j (save_changed id jobs change found).1 ≡ some job
      → job.status ≡ JobStatus.active
      → lookup j jobs ≡ some job
  unfolding save_changed
  saved-active (raised e) change hidden id jobs j job h shown = h
  saved-active (ok row) change hidden id jobs j job h shown =
      insert_hidden id j (change row) job jobs (hidden row) h shown

  erased-active :
      (found : Outcome ListingError JobPost) (id : ℕ) (jobs : Dict ℕ JobPost) (j : ℕ)
      (job : JobPost)
      → lookup j (erase_found id jobs found).1 ≡ some job
      → lookup j jobs ≡ some job
  unfolding erase_found
  erased-active (raised e) id jobs j job h = h
  erased-active (ok row) id jobs j job h =
      let m = rw (lookup-erase id j jobs) at h in
      elim (Bool-cases (id == j)) [
        | inl e ↦ (let q : none ≡ some job = rw e at m in absurd (cc q))
        | inr e ↦ rw e at m
      ]

  serve-active :
      (r : JobRequest) (jobs : Dict ℕ JobPost) (j : ℕ) (job : JobPost)
      → ByNoAdmin r
      → lookup j (serve r jobs) ≡ some job
      → job.status ≡ JobStatus.active
      → lookup j jobs ≡ some job
  unfolding serve ByNoAdmin NoAdmin create_job update_job delete_job deactivate_job
  serve-active (post recaptcha_ok id payload user rows) jobs j job no_admin h shown =
      posted-active (may_post recaptcha_ok user payload.jobtype)
        (authorize_company_post parse_uuid rows payload user) id user payload jobs j job h shown
  serve-active (edit user id payload) jobs j job no_admin h shown =
      saved-active
        (raise_if (not user.email_verified) email_unverified >> find_own_job user id jobs)
        (edited_job sanitize_html now country user payload)
        (λ row. edited-status user payload row no_admin) id jobs j job h shown
  serve-active (remove_job user id) jobs j job no_admin h shown =
      erased-active (find_own_job user id jobs) id jobs j job h
  serve-active (close_job user id was_filled) jobs j job no_admin h shown =
      saved-active
        (find_own_job user id jobs >>= λ row.
          raise_if (not (row.status == JobStatus.active)) only_active >> ok row)
        (deactivated_job now was_filled) (deactivated-status was_filled) id jobs j job h shown

-- A request with its moment and its market.
pub record Visit : Type 0 where
  pub at : ℕ
  pub market : Country
  pub request : JobRequest

module _ (sanitize_html : String → String) (parse_uuid : String → Option ℕ) where
  unfoldable pub serve_all : List Visit → Dict ℕ JobPost → Dict ℕ JobPost
  unfolding serve
  serve_all [] jobs = jobs
  serve_all (v ∷ visits) jobs =
      serve_all visits (serve sanitize_html parse_uuid v.market v.at v.request jobs)

  -- However many requests to the routes of backend/app/routers/jobs.py that post, edit, close and
  -- remove jobs are served, of nobody or of users who are no admins, and nothing else runs between
  -- them: a job that is active after them was active before them, with the same row. They make no job
  -- active, and change none that stays active.
  pub serve_all-active :
      (visits : List Visit) (jobs : Dict ℕ JobPost) (j : ℕ) (job : JobPost)
      → All (λ v. ByNoAdmin v.request) visits
      → lookup j (serve_all visits jobs) ≡ some job
      → job.status ≡ JobStatus.active
      → lookup j jobs ≡ some job
  unfolding serve_all
  serve_all-active [] jobs j job no_admin h shown = h
  serve_all-active (v ∷ visits) jobs j job no_admin h shown =
      serve-active sanitize_html parse_uuid v.market v.at v.request jobs j job no_admin.0
        (serve_all-active visits (serve sanitize_html parse_uuid v.market v.at v.request jobs) j job
          no_admin.1 h shown)
        shown
