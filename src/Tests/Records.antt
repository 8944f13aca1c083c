-- ===== src/Tests/Records.antt =====
-- Examples on verified entities, badges, applications, jobs and the audit trail.
use employed.Base.{
  In, List, Option, String, [], contains, false, if◌then◌else◌, list_eq, max, nat_eq, none,
  option_eq, refl, some, string_eq, true, ℕ, ◌++◌, ◌∷◌, ◌≡◌, ◌⊎◌,
}
use employed.Tests.{acme, listing, listings}
use employed.Enums.{
  VerificationState, country_eq, job_status_eq, job_type_eq, market_key_eq, membership_status_eq,
  payment_provider_key_eq, payment_status_eq, verification_state_eq,
}
use employed.Audit.{AuditLog}
use employed.Trust.{
  Entity, company, company_badges, derive_badges, flag, reconcile_badges, reconcile_names,
}
use employed.Trust.Reconcile.{count, count-reconcile_names}
use employed.Verification.{
  entity_id, illegal_transition, is_allowed, status_of, transition, transition_entry,
}
use employed.Verification.Machine.{transition_total}
use employed.Verification.History.{Run, Run-verified, move, start}
use employed.Jobs.{expire_old_jobs}
use employed.Jobs.Expiry.{count_over, expire_old_jobs_total, is_over, taken_down}
use employed.Base.Dict.{lookup}
use employed.Base.Outcome.{ok, raised}

abbrev acme_pending : Entity
acme_pending =
    company (record acme { verification_status = VerificationState.pending; trust_badges = [] })

abbrev acme_verified : Entity
acme_verified = company (record acme {
  verification_status = VerificationState.verified;
  trust_badges = "business-document verified" ∷ [];
})

abbrev acme_trail : List AuditLog
acme_trail =
    transition_entry (company acme) VerificationState.unverified VerificationState.pending 9 none
    ∷ transition_entry acme_pending VerificationState.pending VerificationState.verified 9 none
    ∷ []

acme_moves : Run (company acme) [] acme_verified acme_trail
unfolding transition transition_entry reconcile_badges derive_badges company_badges flag
acme_moves =
    move VerificationState.verified 9 none
      (move {e' = company acme} {e'' = acme_pending} VerificationState.pending 9 none start refl)
      refl

Run-verified_example :
    (mid : Entity) × (actor : ℕ) × (reason : Option String) × (entity_id mid
      ≡ entity_id (company acme))
    × In
        (transition_entry mid VerificationState.pending VerificationState.verified actor reason)
        acme_trail
unfolding status_of
Run-verified_example = Run-verified refl acme_moves refl

transition_total_example :
    ((is_allowed (status_of (company acme)) VerificationState.pending ≡ false)
      × (transition (company acme) VerificationState.pending 9 (some "docs") []
          ≡ raised (illegal_transition (status_of (company acme)) VerificationState.pending)))
    ⊎ ((is_allowed (status_of (company acme)) VerificationState.pending ≡ true)
        × (moved : Entity) × (transition (company acme) VerificationState.pending 9 (some "docs") []
            ≡ ok (
              moved,
              []
                  ++ transition_entry
                      (company acme)
                      (status_of (company acme))
                      VerificationState.pending
                      9
                      (some "docs")
                    ∷ [],
            ))
        × (status_of moved ≡ VerificationState.pending)
        × (entity_id moved ≡ entity_id (company acme))
        × (reconcile_badges moved ≡ moved))
transition_total_example =
    transition_total (company acme) VerificationState.pending 9 (some "docs") []

count-reconcile_names_example :
    count "activity" (reconcile_names ("domain verified" ∷ []) ("activity" ∷ [])) ≡ (
      if contains {A = String} "activity" ("domain verified" ∷ [])
      then max 1 (count "activity" ("activity" ∷ []))
      else 0)
count-reconcile_names_example =
    count-reconcile_names "activity" ("domain verified" ∷ []) ("activity" ∷ [])

expire_old_jobs_total_example :
    let after = (expire_old_jobs 8000000 listings).1 in
    ((expire_old_jobs 8000000 listings).0 ≡ count_over 8000000 listings)
    × (lookup 3 after
        ≡ some (if is_over 8000000 listing then taken_down 8000000 listing else listing))
    × (expire_old_jobs 8000000 after ≡ (0, after))
expire_old_jobs_total_example = expire_old_jobs_total 8000000 3 listings listing refl
