-- ===== src/Publication.antt =====
-- backend/app/routers/verification.py: the moderators' routes on jobs, companies and profiles. An
-- identifier is the UUID that the framework read.
pub mod Guard
pub mod Hidden
use employed.Base.{
  List, Option, String, [], list_eq, nat_eq, none, option_eq, some, string_eq, ℕ, ◌∷◌,
}
use employed.Base.Dict.{Dict, insert, lookup}
use employed.Base.Outcome.{Outcome, ok, raised}
use employed.Json.{Json, text}
use employed.Models.{Company, JobPost, Membership, Profile, User}
use employed.Enums.{
  JobStatus, VerificationState, country_eq, flagged, inactive, job_status_eq, job_status_value,
  job_type_eq, market_key_eq, membership_status_eq, payment_provider_key_eq, payment_status_eq,
  verification_state_eq, verified,
}
use employed.Rbac.{Request, require_permission}
use employed.Audit.{AuditLog, write_audit}
use employed.Trust.{Entity, company, job, profile, user}
use employed.Verification.{transition}

pub data PublicationError : Type 0 where
  no_permission target_not_found conflict : PublicationError

-- The rows that the routes read and write.
pub record PublicationTables : Type 0 where
  pub jobs : Dict ℕ JobPost
  pub companies : Dict ℕ Company
  pub profiles : Dict ℕ Profile
  pub trail : List AuditLog

-- The `after` of `_set_publication_status`
unfoldable pub status_after : JobStatus → Option String → Dict String Json
unfolding job_status_value
status_after status none = ("status", text (job_status_value status)) ∷ []
status_after status (some reason) =
    ("status", text (job_status_value status)) ∷ ("reason", text reason) ∷ []

-- `_set_publication_status`; its call of `write_audit` names an actor.
unfoldable pub set_publication_status :
    JobPost
    → JobStatus
    → User
    → String
    → Option String
    → PublicationTables
    → Outcome PublicationError JobPost × PublicationTables
unfolding status_after
set_publication_status row new_status actor action reason t =
    let saved = record row { status = new_status } in
    elim (write_audit (some actor.id) none action "Job" row.id
      (some (("status", text (job_status_value row.status)) ∷ []))
      (some (status_after new_status reason)) t.trail) [
        | ok (entry, trail) ↦
            (ok saved, record t { jobs = insert row.id saved t.jobs; trail = trail })
        | raised e ↦ (raised conflict, t)
      ]

-- The row of an entity goes back into its table. No route here has a user as its target.
unfoldable pub put_entity : Entity → PublicationTables → PublicationTables
put_entity (company c) t = record t { companies = insert c.id c t.companies }
put_entity (job j) t = record t { jobs = insert j.id j t.jobs }
put_entity (profile p) t = record t { profiles = insert p.id p t.profiles }
put_entity (user u) t = t

-- `_verify_entity`
unfoldable pub verify_entity :
    Entity
    → VerificationState
    → User
    → Option String
    → PublicationTables
    → Outcome PublicationError Entity × PublicationTables
unfolding put_entity
verify_entity entity target actor reason t =
    elim (transition entity target actor.id reason t.trail) [
      | ok (moved, trail) ↦ (ok moved, put_entity moved (record t { trail = trail }))
      | raised e ↦ (raised conflict, t)
    ]

-- What the six routes do, the target's identifier first.
pub data ModerationAction : Type 0 where
  block_job unpublish_job mark_job_under_review verify_job verify_company verify_profile :
      ℕ → Option String → ModerationAction

-- The permission that each route asks for.
unfoldable pub permission_of : ModerationAction → String
permission_of (block_job id reason) = "job:block"
permission_of (unpublish_job id reason) = "job:unpublish"
permission_of (mark_job_under_review id reason) = "job:mark_review"
permission_of (verify_job id reason) = "job:verify"
permission_of (verify_company id reason) = "company:verify"
permission_of (verify_profile id reason) = "profile:verify"

-- `_load_job`, and what the route does with the job
unfoldable pub on_job :
    ℕ
    → PublicationTables
    → (JobPost → Outcome PublicationError Entity × PublicationTables)
    → Outcome PublicationError Entity × PublicationTables
on_job id t act = elim (lookup id t.jobs) [ none ↦ (raised target_not_found, t) | some j ↦ act j ]

-- An answer on a job, as an answer on an entity.
unfoldable pub job_answer :
    Outcome PublicationError JobPost × PublicationTables
    → Outcome PublicationError Entity × PublicationTables
job_answer (ok j, t) = (ok (job j), t)
job_answer (raised e, t) = (raised e, t)

-- The bodies of the six routes, for the user that their guard lets through.
unfoldable pub serve_action :
    ModerationAction
    → User
    → PublicationTables
    → Outcome PublicationError Entity × PublicationTables
unfolding on_job job_answer set_publication_status verify_entity
serve_action (block_job id reason) actor t =
    on_job id t
      (λ j. job_answer (set_publication_status j JobStatus.flagged actor "job.block" reason t))
serve_action (unpublish_job id reason) actor t =
    on_job id t
      (λ j. job_answer (set_publication_status j JobStatus.inactive actor "job.unpublish" reason t))
serve_action (mark_job_under_review id reason) actor t =
    on_job id t (λ j. verify_entity (job j) VerificationState.flagged actor reason t)
serve_action (verify_job id reason) actor t =
    on_job id t (λ j. verify_entity (job j) VerificationState.verified actor reason t)
serve_action (verify_company id reason) actor t = elim (lookup id t.companies) [
  | none ↦ (raised target_not_found, t)
  | some c ↦ verify_entity (company c) VerificationState.verified actor reason t
]
serve_action (verify_profile id reason) actor t = elim (lookup id t.profiles) [
  | none ↦ (raised target_not_found, t)
  | some p ↦ verify_entity (profile p) VerificationState.verified actor reason t
]

-- A route: the dependency `require_permission`, then its body.
unfoldable pub moderate :
    (String → Option ℕ)
    → Request
    → User
    → List Membership
    → ModerationAction
    → PublicationTables
    → Outcome PublicationError Entity × PublicationTables
unfolding serve_action permission_of
moderate parse_uuid request actor rows action t =
    elim (require_permission parse_uuid (permission_of action) none request actor rows) [
      | ok allowed ↦ serve_action action allowed t
      | raised e ↦ (raised no_permission, t)
    ]
