-- ===== src/Publication/Hidden.antt =====
-- backend/app/routers/verification.py with `get_job` of backend/app/routers/jobs.py: a job that was
-- taken out of publication.
use employed.Base.{
  ==_refl, Bool-cases, List, Option, String, false, inl, inr, length, length-append, list_eq,
  nat_eq, none, option_eq, refl, some, string_eq, true, ℕ, ◌+◌, ◌==◌, ◌∙◌, ◌≡◌,
}
use employed.Base.Dict.{Dict, insert, lookup, lookup-insert}
use employed.Base.Outcome.{Outcome, is_ok, raised}
use employed.Models.{JobPost, Membership, User}
use employed.Enums.{
  Country, JobStatus, country_eq, job_status_eq, job_type_eq, market_key_eq, membership_status_eq,
  payment_provider_key_eq, payment_status_eq, verification_state_eq,
}
use employed.Listings.{job_not_found}
use employed.Listings.Reading.{admin_reader, get_job, owner_reader}
use employed.Publication.{
  ModerationAction, PublicationError, PublicationTables, block_job, job_answer,
  mark_job_under_review, moderate, on_job, permission_of, serve_action, set_publication_status,
  unpublish_job, verify_company, verify_job, verify_profile,
}
use employed.Audit.{lacks_actor, write_audit}
use employed.Trust.{Entity}
use employed.Rbac.{Request, has_permission, param_name, require_permission, resolve_company_id}

-- The actions that take a job out of publication.
unfoldable pub Withdraws : ModerationAction → Type 0
Withdraws (block_job id reason) = Unit
Withdraws (unpublish_job id reason) = Unit
Withdraws _ = ⊥

unfoldable pub target_of : ModerationAction → ℕ
target_of (block_job id reason) = id
target_of (unpublish_job id reason) = id
target_of (mark_job_under_review id reason) = id
target_of (verify_job id reason) = id
target_of (verify_company id reason) = id
target_of (verify_profile id reason) = id

-- A stored job that is not active is shown to nobody who has not signed in.
hidden :
    (country : Country) (id : ℕ) (row : JobPost) (jobs : Dict ℕ JobPost)
    → lookup id jobs ≡ some row
    → (row.status == JobStatus.active) ≡ false
    → get_job country none id jobs ≡ raised job_not_found
unfolding get_job admin_reader owner_reader
hidden country id row jobs h s = elim (Bool-cases (row.country == country)) [
  | inl e ↦ rw (h, get_job, e, s) refl
  | inr e ↦ rw (h, get_job, e) refl
]

-- What a body leaves: an answer, a job that the public is not shown, one entry more in the trail.
unfoldable pub IsWithdrawn :
    Country → ℕ → PublicationTables → Outcome PublicationError Entity × PublicationTables → Type 0
IsWithdrawn country id t done =
    (is_ok done.0 ≡ true)
    × (get_job country none id done.1.jobs ≡ raised job_not_found)
    × (length done.1.trail ≡ length t.trail + 1)

withdrawn :
    (country : Country) (id : ℕ) (row : JobPost) (status : JobStatus) (actor : User) (name : String)
    (reason : Option String) (t : PublicationTables)
    → lookup id t.jobs ≡ some row
    → row.id ≡ id
    → (status == JobStatus.active) ≡ false
    → IsWithdrawn country id t
        (on_job id t (λ j. job_answer (set_publication_status j status actor name reason t)))
unfolding IsWithdrawn set_publication_status write_audit lacks_actor job_answer on_job
withdrawn country id row status actor name reason t h own s =
    let saved : JobPost = record row { status = status } in
    rw (h, on_job)
      (
        refl,
        hidden country id saved (insert row.id saved t.jobs)
            (lookup-insert row.id id saved t.jobs ∙ rw (own, ==_refl id) refl) s,
        length-append t.trail _,
      )

-- A user who has the permission, and a job that is there: blocking it or taking it out of
-- publication is answered, leaves one audit entry, and from then on the job is shown to nobody who
-- has not signed in, in any market.
pub moderate-get_job :
    (parse_uuid : String → Option ℕ) (request : Request) (actor : User) (rows : List Membership)
    (action : ModerationAction) (t : PublicationTables) (country : Country) (row : JobPost)
    → Withdraws action
    → has_permission rows actor
        (permission_of action)
        (resolve_company_id parse_uuid request (param_name none))
      ≡ true
    → lookup (target_of action) t.jobs ≡ some row
    → row.id ≡ target_of action
    → IsWithdrawn country (target_of action) t (moderate parse_uuid request actor rows action t)
unfolding require_permission moderate serve_action target_of permission_of Withdraws
moderate-get_job parse_uuid request actor rows (block_job id reason) t country row w allowed h own =
    rw (allowed, moderate)
      (withdrawn country id row JobStatus.flagged actor "job.block" reason t h own refl)
moderate-get_job parse_uuid request actor rows (unpublish_job id reason) t country row w allowed h
      own =
    rw (allowed, moderate)
      (withdrawn country id row JobStatus.inactive actor "job.unpublish" reason t h own refl)
moderate-get_job parse_uuid request actor rows (mark_job_under_review id reason) t country row w
      allowed h own =
    absurd w
moderate-get_job parse_uuid request actor rows (verify_job id reason) t country row w allowed h
      own =
    absurd w
moderate-get_job parse_uuid request actor rows (verify_company id reason) t country row w allowed h
      own =
    absurd w
moderate-get_job parse_uuid request actor rows (verify_profile id reason) t country row w allowed h
      own =
    absurd w
