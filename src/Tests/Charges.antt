-- ===== src/Tests/Charges.antt =====
-- Examples on payments.
use mathlib.Core.Option
use employed.Base.{
  ==_iff, String, arith, false≢true, if◌then◌else◌, length, list_eq, nat_eq, none, option_eq, refl,
  some, string_eq, ℕ, ◌+◌, ◌==◌, ◌≡◌, ◌≢◌, ◌⊎◌,
}
use employed.Tests.{charge, ledger, listing}
use employed.Enums.{
  PaymentStatus, country_eq, job_status_eq, job_type_eq, market_key_eq, membership_status_eq,
  payment_provider_key_eq, payment_status_eq, verification_state_eq,
}
use employed.Models.{JobPost, PaymentIntent}
use employed.Payments.{settle_intent, settle_simulated_intent}
use employed.Payments.Settlement.{paid_intent, paid_job, settle_intent_idem, settle_intent_total}
use employed.Payments.Outcomes.{failed_after_completed}
use employed.Base.Dict.{lookup}

charge_open : charge.status ≢ PaymentStatus.completed
charge_open e = ground arith

timeout_not_completed : ◌≢◌ {A = String} "timeout" "completed"
timeout_not_completed e = false≢true ((==_iff "timeout" "completed").1 e)

settle_intent_total_example :
    ((lookup 5 ledger.intents ≡ none) × (settle_intent 1000 5 (some "r-1") ledger ≡ (none, ledger)))
    ⊎ ((i : PaymentIntent) × (lookup 5 ledger.intents ≡ some i)
        × (i.status ≡ PaymentStatus.completed)
        × (settle_intent 1000 5 (some "r-1") ledger ≡ (some i, ledger)))
    ⊎ ((i : PaymentIntent) × (lookup 5 ledger.intents ≡ some i)
        × (i.status ≢ PaymentStatus.completed)
        × ((settle_intent 1000 5 (some "r-1") ledger).0 ≡ some (paid_intent 1000 (some "r-1") i))
        × ((k : ℕ)
            → lookup k (settle_intent 1000 5 (some "r-1") ledger).1.intents ≡ (
                if 5 == k then some (paid_intent 1000 (some "r-1") i) else lookup k ledger.intents))
        × ((k : ℕ)
            → lookup k (settle_intent 1000 5 (some "r-1") ledger).1.jobs ≡ (
                if i.job_id == k
                then Option.map (paid_job 1000 (some "r-1") i) (lookup k ledger.jobs)
                else lookup k ledger.jobs)))
settle_intent_total_example = settle_intent_total 1000 5 (some "r-1") ledger

settle_intent_idem_example :
    (settle_intent 2000 5 none (settle_intent 1000 5 (some "r-1") ledger).1).1
    ≡ (settle_intent 1000 5 (some "r-1") ledger).1
settle_intent_idem_example = settle_intent_idem 1000 2000 5 (some "r-1") none ledger

failed_after_completed_example :
    let first_ = (settle_intent 1000 5 (some "r-1") ledger).1 in
    let second = (settle_simulated_intent 2000 5 "timeout" none first_).1 in
    let third = (settle_intent 3000 5 (some "r-1") second).1 in
    (Option.map (λ (x : PaymentIntent). x.status) (lookup 5 second.intents)
      ≡ some PaymentStatus.failed)
    × (lookup charge.job_id second.jobs ≡ lookup charge.job_id first_.jobs)
    × (Option.map
          (λ (x : JobPost). length x.featured_charge_history)
          (lookup charge.job_id third.jobs)
        ≡ some (length listing.featured_charge_history + 2))
failed_after_completed_example =
    failed_after_completed 1000 2000 3000 5 "timeout" none (some "r-1") ledger charge listing refl
      refl charge_open timeout_not_completed (omega arith)
