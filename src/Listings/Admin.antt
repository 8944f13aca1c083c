-- ===== src/Listings/Admin.antt =====
-- backend/app/routers/admin.py: moderation of jobs, and the admins. A route runs for an admin, as
-- `require_admin` sees to. An identifier that is no UUID, which the database refuses, is left aside.
use employed.Base.{
  Bool, List, Option, String, [], contains, filter, if◌then◌else◌, is_some, leb, length, list_eq,
  map, nat_eq, none, not, option_eq, some, string_eq, suc, take, true, ℕ, ◌&&◌, ◌==◌, ◌||◌, ◌∷◌,
}
use employed.Base.Text.{Text}
use employed.Base.Dict.{Dict, insert, lookup}
use employed.Base.Outcome.{Outcome, ok, raised}
use employed.Enums.{
  JobStatus, country_eq, country_value, job_published, job_status_eq, job_status_value, job_type_eq,
  market_key_eq, membership_status_eq, payment_provider_key_eq, payment_status_eq,
  verification_state_eq,
}
use employed.Models.{JobPost, User, by_user}
use employed.Json.{Json, null, num, text}
use employed.Webhooks.{WebhookTables}
use employed.Applications.{EmitWorld, guarded_emit, optional_id}
use employed.Listings.{
  ListingError, invalid_status, is_admin_user, job_not_found, not_authorized, unprocessable,
}
use employed.Listings.Search.{Database}
use employed.Listings.Editing.{add_change}
use employed.Listings.Pages.{JobListResponse, job_to_read, page_of}

-- `require_admin`
unfoldable pub require_admin : User → Outcome ListingError User
unfolding is_admin_user
require_admin user = if is_admin_user user then ok user else raised not_authorized

-- `payload.status in VALID_STATUSES`, with the status of that text
unfoldable pub valid_status : String → Option JobStatus
valid_status given =
    if given == "pending"
    then some JobStatus.pending
    else if given == "active"
    then some JobStatus.active
    else if given == "flagged"
    then some JobStatus.flagged
    else if given == "inactive"
    then some JobStatus.inactive
    else if given == "filled"
    then some JobStatus.filled
    else none

-- What moderation writes, the webhook service, and how Python writes a title and a time as text.
pub record Moderation : Type 0 where
  pub jobs : Dict ℕ JobPost
  pub webhooks : WebhookTables

pub record Texts : Type 0 where
  pub of_title : Text → String
  pub isoformat : ℕ → String

unfoldable pub optional_time : Texts → Option ℕ → Json
optional_time texts none = null
optional_time texts (some at) = text (texts.isoformat at)

unfoldable pub published_payload : Texts → JobPost → Dict String Json
unfolding optional_id optional_time
published_payload texts job =
    ("id", num job.id)
    ∷ ("company_id", optional_id job.company_id)
    ∷ ("title", text (texts.of_title job.title))
    ∷ ("status", text (job_status_value job.status))
    ∷ ("country", text (country_value job.country))
    ∷ ("published_at", optional_time texts job.published_at)
    ∷ []

-- `_emit_job_published`
unfoldable pub emit_job_published : Texts → EmitWorld → JobPost → WebhookTables → WebhookTables
unfolding guarded_emit published_payload
emit_job_published texts w job = guarded_emit w job_published (published_payload texts job)

-- The row that both routes save.
unfoldable pub moderated_job : ℕ → User → JobStatus → Option String → JobPost → JobPost
unfolding add_change
moderated_job now admin status reason job = record job {
  status = status;
  status_history = add_change job.status_history (record {
    changed_at = now;
    changed_by = by_user admin.id;
    from_status = job.status;
    to_status = status;
    reason = reason;
  });
  published_at =
      if status == JobStatus.active && not (is_some job.published_at)
      then some now
      else job.published_at;
  updated_at = now;
}

-- Saving it, and the event when the job becomes active.
unfoldable pub save_moderated :
    Texts → EmitWorld → ℕ → User → JobStatus → Option String → ℕ → JobPost → Moderation → Moderation
unfolding moderated_job emit_job_published
save_moderated texts w now admin status reason id job t =
    let saved = moderated_job now admin status reason job in
    let becomes_published = status == JobStatus.active && not (job.status == JobStatus.active) in
    record {
      jobs = insert id saved t.jobs;
      webhooks =
          if becomes_published then emit_job_published texts w saved t.webhooks else t.webhooks;
    }

-- `set_job_status`
unfoldable pub set_job_status :
    Texts
    → EmitWorld
    → ℕ
    → User
    → ℕ
    → String
    → Option String
    → Moderation
    → Outcome ListingError JobStatus × Moderation
unfolding valid_status save_moderated
set_job_status texts w now admin id status reason t = elim (lookup id t.jobs) [
  | none ↦ (raised job_not_found, t)
  | some job ↦ elim (valid_status status) [
    | none ↦ (raised invalid_status, t)
    | some s ↦ (ok s, save_moderated texts w now admin s reason id job t)
  ]
]

-- `list(dict.fromkeys(job_ids))`: each text where it stands first.
unfoldable pub without_repeats : List String → List String → List String
without_repeats seen [] = []
without_repeats seen (id ∷ ids) =
    let rest = without_repeats (id ∷ seen) ids in
    let kept = without_repeats seen ids in if contains id seen then kept else id ∷ rest

-- The loop of `bulk_set_status`; `world` is the webhook service at each identifier.
unfoldable pub bulk_each :
    Texts
    → (ℕ → EmitWorld)
    → (String → ℕ)
    → ℕ
    → User
    → JobStatus
    → Option String
    → List String
    → Moderation
    → ℕ × Moderation
unfolding save_moderated
bulk_each texts world uuid_of now admin status reason [] t = (0, t)
bulk_each texts world uuid_of now admin status reason (given ∷ ids) t =
    let id = uuid_of given in
    elim (lookup id t.jobs) [
      | none ↦ bulk_each texts world uuid_of now admin status reason ids t
      | some job ↦
          (let (updated, t') =
              bulk_each texts world uuid_of now admin status reason ids
                (save_moderated texts (world id) now admin status reason id job t) in
            (suc updated, t'))
    ]

-- A `BulkStatusResult`
pub record BulkStatusResult : Type 0 where
  pub requested : ℕ
  pub updated : ℕ

-- `BulkStatusUpdate` takes from one to two hundred identifiers.
unfoldable pub fits_bulk : List String → Bool
fits_bulk job_ids = leb 1 (length job_ids) && leb (length job_ids) 200

-- `bulk_set_status`, its payload checked first
unfoldable pub bulk_set_status :
    Texts
    → (ℕ → EmitWorld)
    → (String → ℕ)
    → ℕ
    → User
    → List String
    → String
    → Option String
    → Moderation
    → Outcome ListingError BulkStatusResult × Moderation
unfolding valid_status without_repeats bulk_each fits_bulk
bulk_set_status texts world uuid_of now admin job_ids status reason t =
    if fits_bulk job_ids
    then elim (valid_status status) [
      | none ↦ (raised invalid_status, t)
      | some s ↦
          (let distinct = without_repeats [] job_ids in
            let (updated, t') =
              bulk_each texts world uuid_of now admin s reason (take 200 distinct) t in
            (ok (record { requested = length distinct; updated = updated }), t'))
    ]
    else (raised unprocessable, t)

-- `_pushdown_admin_jobs`, where the model has its columns
unfoldable pub admin_rows : Database → Option String → List JobPost → List JobPost
unfolding job_status_value
admin_rows db none rows = db.newest_first 0 rows
admin_rows db (some status) rows =
    db.newest_first 0 (filter (λ job. status == "" || job_status_value job.status == status) rows)

-- `admin_jobs`
unfoldable pub admin_jobs : Database → Option String → ℕ → ℕ → List JobPost → JobListResponse
unfolding admin_rows page_of job_to_read
admin_jobs db status page size rows =
    let items = admin_rows db status rows in
    record {
      items = map (job_to_read true) (page_of page size items);
      total = length items;
      page = page;
      page_size = size;
    }
