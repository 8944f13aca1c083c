-- ===== src/Verification/History.antt =====
-- backend/app/services/verification.py: what the audit trail tells of an entity's way through the machine.
use mathlib.Core.Path.{subst, subst₂}
use employed.Base.{
  In, List, Option, String, [], ap, inl, inr, list_eq, nat_eq, option_eq, refl, string_eq, sym,
  true, ℕ, ◌++◌, ◌∙◌, ◌∷◌, ◌≡◌,
}
use employed.Enums.{
  VerificationState, country_eq, job_status_eq, job_type_eq, market_key_eq, membership_status_eq,
  payment_provider_key_eq, payment_status_eq, verification_state_eq,
}
use employed.Base.Outcome.{ok}
use employed.Audit.{AuditLog}
use employed.Trust.{Entity}
use employed.Verification.{entity_id, is_allowed, status_of, transition, transition_entry}
use employed.Verification.Machine.{is_allowed-verified, transition_total}

-- Transitions that succeed, one after another, on one entity and the trail.
pub data Run (e : Entity) (trail : List AuditLog) : Entity → List AuditLog → Type 0 where
  start : Run e trail e trail
  move :
      {e' e'' : Entity} {trail' trail'' : List AuditLog} (target : VerificationState) (actor : ℕ)
      (reason : Option String)
      → Run e trail e' trail'
      → transition e' target actor reason trail' ≡ ok (e'', trail'')
      → Run e trail e'' trail''

-- A move, read back: it was allowed, and it appended one entry for the state before.
move_facts :
    (e : Entity) (target : VerificationState) (actor : ℕ) (reason : Option String)
    (trail : List AuditLog) (e' : Entity) (trail' : List AuditLog)
    → transition e target actor reason trail ≡ ok (e', trail')
    → (is_allowed (status_of e) target ≡ true)
      × (status_of e' ≡ target)
      × (entity_id e' ≡ entity_id e)
      × (trail' ≡ trail ++ transition_entry e (status_of e) target actor reason ∷ [])
move_facts e target actor reason trail e' trail' h =
    elim (transition_total e target actor reason trail) [
      | inl (denied, q) ↦ absurd (cc (q, h))
      | inr (allowed, moved, q, s, i, _) ↦
          let same : moved ≡ e' = cc (q, h) in
          (allowed, ap status_of (sym same) ∙ s, ap entity_id (sym same) ∙ i, cc (q, h))
    ]

Run-entity_id :
    {e : Entity} {trail : List AuditLog} {e' : Entity} {trail' : List AuditLog}
    → Run e trail e' trail'
    → entity_id e' ≡ entity_id e
Run-entity_id start = refl
Run-entity_id (move {e'} {e''} {trail'} {trail''} target actor reason r q) =
    (move_facts e' target actor reason trail' e'' trail'' q).2 ∙ Run-entity_id r

In-last : {A : Type 0} (xs : List A) (x : A) → In x (xs ++ x ∷ [])
In-last [] x = inl refl
In-last (y ∷ xs) x = inr (In-last xs x)

-- An entity that began unverified and is verified after some successful transitions has in the
-- trail the audit entry of a transition of the entity of its id out of `pending` into `verified`.
pub Run-verified :
    {e : Entity} {trail : List AuditLog} {e' : Entity} {trail' : List AuditLog}
    → status_of e ≡ VerificationState.unverified
    → Run e trail e' trail'
    → status_of e' ≡ VerificationState.verified
    → (mid : Entity) × (actor : ℕ) × (reason : Option String) × (entity_id mid ≡ entity_id e)
      × In
          (transition_entry mid VerificationState.pending VerificationState.verified actor reason)
          trail'
Run-verified u start v = absurd (cc (u, v))
Run-verified u (move {e'} {e''} {trail'} {trail''} target actor reason r q) v =
    let (allowed, s, i, grown) = move_facts e' target actor reason trail' e'' trail'' q in
    let to_verified : target ≡ VerificationState.verified = sym s ∙ v in
    let was_pending : status_of e' ≡ VerificationState.pending =
      is_allowed-verified (status_of e')
        (subst (λ x. is_allowed (status_of e') x ≡ true) to_verified allowed) in
    (
      e',
      actor,
      reason,
      Run-entity_id r,
      subst₂ (λ a b. In (transition_entry e' a b actor reason) trail'') was_pending to_verified
          (subst (λ l. In (transition_entry e' (status_of e') target actor reason) l) (sym grown)
            (In-last trail' (transition_entry e' (status_of e') target actor reason))),
    )
