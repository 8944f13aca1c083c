-- ===== src/Verification/Machine.antt =====
-- backend/app/services/verification.py: the machine's table, and the paths of one transition.
use employed.Base.{
  Bool-cases, List, Option, String, [], ap, arith, false, inl, inr, list_eq, nat_eq, option_eq,
  refl, string_eq, true, ℕ, ◌++◌, ◌∙◌, ◌∷◌, ◌≡◌, ◌⊎◌,
}
use employed.Enums.{
  VerificationState, country_eq, job_status_eq, job_type_eq, market_key_eq, membership_status_eq,
  payment_provider_key_eq, payment_status_eq, verification_state_eq,
}
use employed.Base.Outcome.{ok, raised}
use employed.Audit.{AuditLog}
use employed.Trust.{Entity, company, job, profile, reconcile_badges, user}
use employed.Trust.Reconcile.{reconcile_badges_idem}
use employed.Verification.{
  entity_id, illegal_transition, is_allowed, status_of, transition, transition_entry, with_status,
}

-- `verified` is entered from `pending` alone, whatever the current state.
pub is_allowed-verified :
    (s : VerificationState)
    → is_allowed s VerificationState.verified ≡ true
    → s ≡ VerificationState.pending
unfolding is_allowed
is_allowed-verified s h = ground arith

status_of-reconcile : (e : Entity) → status_of (reconcile_badges e) ≡ status_of e
unfolding reconcile_badges status_of
status_of-reconcile (company c) = refl
status_of-reconcile (job j) = refl
status_of-reconcile (profile p) = refl
status_of-reconcile (user u) = refl

status_of-with_status : (s : VerificationState) (e : Entity) → status_of (with_status s e) ≡ s
unfolding status_of with_status
status_of-with_status s (company c) = refl
status_of-with_status s (job j) = refl
status_of-with_status s (profile p) = refl
status_of-with_status s (user u) = refl

entity_id-moved :
    (s : VerificationState) (e : Entity)
    → entity_id (reconcile_badges (with_status s e)) ≡ entity_id e
unfolding reconcile_badges entity_id with_status
entity_id-moved s (company c) = refl
entity_id-moved s (job j) = refl
entity_id-moved s (profile p) = refl
entity_id-moved s (user u) = refl

entry-moved :
    (e : Entity) (t current : VerificationState) (target : VerificationState) (actor : ℕ)
    (reason : Option String)
    → transition_entry (reconcile_badges (with_status t e)) current target actor reason
      ≡ transition_entry e current target actor reason
unfolding transition_entry with_status reconcile_badges
entry-moved (company c) t current target actor reason = refl
entry-moved (job j) t current target actor reason = refl
entry-moved (profile p) t current target actor reason = refl
entry-moved (user u) t current target actor reason = refl

-- A transition that the table does not allow raises; one that it allows sets the target state on
-- the entity, reconciles the badges of the result and appends one audit entry, which names the
-- entity, the actor, the state before and the state after.
pub transition_total :
    (e : Entity) (target : VerificationState) (actor : ℕ) (reason : Option String)
    (trail : List AuditLog)
    → ((is_allowed (status_of e) target ≡ false)
        × (transition e target actor reason trail
            ≡ raised (illegal_transition (status_of e) target)))
      ⊎ ((is_allowed (status_of e) target ≡ true)
          × (moved : Entity) × (transition e target actor reason trail
              ≡ ok (moved, trail ++ transition_entry e (status_of e) target actor reason ∷ []))
          × (status_of moved ≡ target)
          × (entity_id moved ≡ entity_id e)
          × (reconcile_badges moved ≡ moved))
unfolding transition transition_entry
transition_total e target actor reason trail = elim (Bool-cases (is_allowed (status_of e) target)) [
  | inr h ↦ inl (h, rw h refl)
  | inl h ↦ inr (
    h,
    reconcile_badges (with_status target e),
    rw h (
        ap (λ (x : AuditLog). ok (reconcile_badges (with_status target e), trail ++ x ∷ []))
          (entry-moved e target (status_of e) target actor reason)),
    status_of-reconcile (with_status target e) ∙ status_of-with_status target e,
    entity_id-moved target e,
    reconcile_badges_idem (with_status target e),
  )
]
