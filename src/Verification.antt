-- ===== src/Verification.antt =====
-- backend/app/services/verification.py: one state machine for every verifiable entity.
pub mod Machine
pub mod History
use employed.Base.{
  Bool, List, Option, String, [], contains, if◌then◌else◌, list_eq, nat_eq, none, option_eq, some,
  string_eq, ℕ, ◌∷◌,
}
use employed.Enums.{
  VerificationState, country_eq, flagged, job_status_eq, job_type_eq, market_key_eq,
  membership_status_eq, payment_provider_key_eq, payment_status_eq, pending, rejected, revoked,
  unverified, verification_state_eq, verification_state_value, verified,
}
use employed.Models.{Company, Profile, User}
use employed.Json.{Json, text}
use employed.Base.Dict.{Dict, insert}
use employed.Base.Outcome.{Outcome, ok, raised}
use employed.Audit.{AuditLog, audit_entry, write_audit}
use employed.Trust.{Entity, company, job, profile, reconcile_badges, user}

unfoldable pub allowed_transitions : VerificationState → List VerificationState
allowed_transitions VerificationState.unverified =
    VerificationState.pending ∷ VerificationState.flagged ∷ []
allowed_transitions VerificationState.pending =
    VerificationState.verified ∷ VerificationState.rejected ∷ VerificationState.flagged ∷ []
allowed_transitions VerificationState.verified =
    VerificationState.revoked ∷ VerificationState.flagged ∷ []
allowed_transitions VerificationState.rejected = VerificationState.pending ∷ []
allowed_transitions VerificationState.revoked = VerificationState.pending ∷ []
allowed_transitions VerificationState.flagged = VerificationState.pending ∷ []

unfoldable pub is_allowed : VerificationState → VerificationState → Bool
unfolding allowed_transitions
is_allowed current target = contains target (allowed_transitions current)

pub data TransitionError : Type 0 where
  illegal_transition : VerificationState → VerificationState → TransitionError
  value_error : TransitionError

unfoldable pub status_of : Entity → VerificationState
status_of (company c) = c.verification_status
status_of (job j) = j.verification_status
status_of (profile p) = p.verification_status
status_of (user u) = u.verification_status

-- `entity.verification_status = target_state`
unfoldable pub with_status : VerificationState → Entity → Entity
with_status s (company c) = company (record c { verification_status = s })
with_status s (job j) = job (record j { verification_status = s })
with_status s (profile p) = profile (record p { verification_status = s })
with_status s (user u) = user (record u { verification_status = s })

-- `entity.__class__.__name__`
unfoldable pub class_name : Entity → String
class_name (company c) = "Company"
class_name (job j) = "Job"
class_name (profile p) = "Profile"
class_name (user u) = "User"

unfoldable pub entity_id : Entity → ℕ
entity_id (company c) = c.id
entity_id (job j) = j.id
entity_id (profile p) = p.id
entity_id (user u) = u.id

unfoldable pub status_object : VerificationState → Dict String Json
status_object s = ("verification_status", text (verification_state_value s)) ∷ []

unfoldable pub transition_after : VerificationState → Option String → Dict String Json
unfolding status_object
transition_after target none = status_object target
transition_after target (some reason) = insert "reason" (text reason) (status_object target)

-- The audit entry of a transition by the user with the id `actor`.
unfoldable pub transition_entry :
    Entity → VerificationState → VerificationState → ℕ → Option String → AuditLog
unfolding audit_entry class_name entity_id transition_after
transition_entry entity current target actor reason =
    audit_entry (some actor) none "verification.transition" (class_name entity) (entity_id entity)
      (some (status_object current)) (some (transition_after target reason))

-- `transition`: the entity and the trail that it leaves, or the exception, before which nothing
-- is written.
unfoldable pub transition :
    Entity
    → VerificationState
    → ℕ
    → Option String
    → List AuditLog
    → Outcome TransitionError (Entity × List AuditLog)
unfolding is_allowed status_of with_status class_name entity_id transition_after write_audit
transition entity target actor reason trail =
    let current = status_of entity in
    if is_allowed current target
    then (let moved = reconcile_badges (with_status target entity) in
        elim (write_audit (some actor) none "verification.transition" (class_name moved)
          (entity_id moved) (some (status_object current)) (some (transition_after target reason))
          trail) [ ok (entry, trail') ↦ ok (moved, trail') | raised e ↦ raised value_error ])
    else raised (illegal_transition current target)
