-- ===== src/Applications.antt =====
-- backend/app/services/applications.py: applications for jobs. `id` is the id that the flush
-- assigns; the arguments of `emit` after the event and the payload are those of Webhooks.
pub mod Pipeline
use employed.Base.{
  Bool, List, Option, String, [], if◌then◌else◌, is_some, list_eq, nat_eq, none, not, option_eq,
  some, string_eq, ℕ, ◌∷◌,
}
use employed.Enums.{
  ApplicationStatus, WebhookEvent, application_created, application_status_changed,
  application_status_value, applied, country_eq, job_status_eq, job_type_eq, market_key_eq,
  membership_status_eq, payment_provider_key_eq, payment_status_eq, verification_state_eq,
  webhook_event_value,
}
use employed.Json.{Fields, Json, null, num, obj, text}
use employed.Audit.{AuditError, AuditLog, write_audit}
use employed.Webhooks.{WebhookTables, emit}
use employed.Base.Dict.{Dict, insert}
use employed.Base.Outcome.{Outcome, ok, raised}

pub record Application : Type 0 where
  pub id : ℕ
  pub job_id : ℕ
  pub candidate_user_id : Option ℕ
  pub candidate_snapshot : Option Fields
  pub company_id : Option ℕ
  pub status : ApplicationStatus
  pub resume_version_id : Option ℕ
  pub cover_note : Option String
  pub source : String

-- The tables that the service writes.
pub record ApplicationTables : Type 0 where
  pub applications : Dict ℕ Application
  pub trail : List AuditLog
  pub webhooks : WebhookTables

-- How the webhook service answers: whether it can be imported, the ids of its flush, whether that
-- flush fails, and whether the queue takes a task.
pub record EmitWorld : Type 0 where
  pub available : Bool
  pub ids : ℕ → ℕ
  pub flush_fails : Bool
  pub accepts : ℕ → Bool

pub data ApplicationError : Type 0 where
  candidate_error flush_error : ApplicationError

unfoldable pub optional_id : Option ℕ → Json
optional_id none = null
optional_id (some n) = num n

unfoldable pub optional_object : Option Fields → Json
optional_object none = null
optional_object (some f) = obj f

unfoldable pub created_payload : Application → Dict String Json
unfolding optional_id optional_object
created_payload a =
    ("id", num a.id)
    ∷ ("job_id", num a.job_id)
    ∷ ("company_id", optional_id a.company_id)
    ∷ ("candidate_user_id", optional_id a.candidate_user_id)
    ∷ ("candidate_snapshot", optional_object a.candidate_snapshot)
    ∷ ("resume_version_id", optional_id a.resume_version_id)
    ∷ ("status", text (application_status_value a.status))
    ∷ ("source", text a.source)
    ∷ []

unfoldable pub status_changed_payload : ApplicationStatus → Application → Dict String Json
unfolding optional_id
status_changed_payload previous a =
    ("id", num a.id)
    ∷ ("job_id", num a.job_id)
    ∷ ("company_id", optional_id a.company_id)
    ∷ ("candidate_user_id", optional_id a.candidate_user_id)
    ∷ ("previous_status", text (application_status_value previous))
    ∷ ("status", text (application_status_value a.status))
    ∷ []

-- The guarded call of `emit`: an exception is logged and swallowed.
unfoldable pub guarded_emit :
    EmitWorld → WebhookEvent → Dict String Json → WebhookTables → WebhookTables
guarded_emit w event payload t =
    if w.available
    then elim (emit w.ids w.flush_fails w.accepts event payload t) [
      | ok (new, t') ↦ t'
      | raised e ↦ t
    ]
    else t

-- `_emit_application_created`
unfoldable pub emit_application_created : EmitWorld → Application → WebhookTables → WebhookTables
unfolding guarded_emit created_payload
emit_application_created w a = guarded_emit w application_created (created_payload a)

-- `_emit_application_status_changed`
unfoldable pub emit_application_status_changed :
    EmitWorld → Application → ApplicationStatus → WebhookTables → WebhookTables
unfolding guarded_emit status_changed_payload
emit_application_status_changed w a previous =
    guarded_emit w application_status_changed (status_changed_payload previous a)

-- `has_user == has_snapshot`
unfoldable pub both_or_neither : Bool → Bool → Bool
both_or_neither has_user has_snapshot = if has_user then has_snapshot else not has_snapshot

-- `create_application`, the row that is to be added given whole: its status is overwritten.
unfoldable pub create_application :
    Bool
    → EmitWorld
    → Application
    → ApplicationTables
    → Outcome ApplicationError Application × ApplicationTables
unfolding emit_application_created both_or_neither
create_application insert_fails w given t =
    let a = record given { status = ApplicationStatus.applied } in
    if both_or_neither (is_some given.candidate_user_id) (is_some given.candidate_snapshot)
    then (raised candidate_error, t)
    else if insert_fails
    then (raised flush_error, t)
    else (
      ok a,
      record t {
        applications = insert a.id a t.applications;
        webhooks = emit_application_created w a t.webhooks;
      },
    )

-- The flushes of `change_status` done, its audit entry and its event.
unfoldable pub change_status :
    EmitWorld
    → Application
    → ApplicationStatus
    → ℕ
    → ApplicationTables
    → Outcome AuditError Application × ApplicationTables
unfolding emit_application_status_changed
change_status w application new_status actor t =
    let previous = application.status in
    let a = record application { status = new_status } in
    let stored = insert a.id a t.applications in
    elim (write_audit (some actor) none (webhook_event_value application_status_changed)
      "application" a.id (some (("status", text (application_status_value previous)) ∷ []))
      (some (("status", text (application_status_value new_status)) ∷ [])) t.trail) [
        | raised e ↦ (raised e, record t { applications = stored })
        | ok (entry, trail) ↦ (
          ok a,
          record {
            applications = stored;
            trail = trail;
            webhooks = emit_application_status_changed w a previous t.webhooks;
          },
        )
      ]
