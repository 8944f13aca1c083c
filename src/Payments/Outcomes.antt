-- ===== src/Payments/Outcomes.antt =====
-- backend/app/routers/payments.py and workers/tasks.py: cancellations and simulated outcomes against
-- intents that have ended.
use mathlib.Core.Option
use employed.Base.{
  ==_iff, ==_refl, Bool-cases, Option, Option-cases, String, ap, arith, false, inl, inr, length,
  list_eq, nat_eq, not, option_eq, refl, some, string_eq, true, ℕ, ◌+◌, ◌<◌, ◌==◌, ◌||◌, ◌∙◌, ◌≡◌,
  ◌≢◌, ◌≤◌, ◌⊎◌,
}
use employed.Enums.{
  PaymentStatus, country_eq, job_status_eq, job_type_eq, market_key_eq, membership_status_eq,
  payment_provider_key_eq, payment_status_eq, verification_state_eq,
}
use employed.Models.{JobPost, PaymentIntent}
use employed.Base.Dict.{insert, lookup}
use employed.Base.Outcome.{ok, raised}
use employed.Payments.{
  PayTables, cancel_intent, cancel_payment, completed_intent, failed_intent, feature_job,
  featured_job, history_max, is_terminal, json_history_entry, not_found, settle_intent,
  settle_simulated_intent,
}
use employed.Payments.Settlement.{
  length-append_history_short, lookup-feature_job, not_completed, settle_intent_effect, settle_open,
  settled, stored_self,
}

open_or_terminal :
    (i : PaymentIntent)
    → (i.status == PaymentStatus.pending || i.status == PaymentStatus.awaiting_user)
      ≡ not (is_terminal i)
unfolding is_terminal
open_or_terminal i = by_status i.status
  where
    by_status :
        (s : PaymentStatus)
        → (s == PaymentStatus.pending || s == PaymentStatus.awaiting_user)
          ≡ not (
              (s == PaymentStatus.completed || s == PaymentStatus.failed)
              || (s == PaymentStatus.cancelled || s == PaymentStatus.expired))
    by_status PaymentStatus.pending = refl
    by_status PaymentStatus.awaiting_user = refl
    by_status PaymentStatus.completed = refl
    by_status PaymentStatus.failed = refl
    by_status PaymentStatus.cancelled = refl
    by_status PaymentStatus.expired = refl

-- The intent that a cancellation writes.
abbrev pub cancelled_intent : ℕ → PaymentIntent → PaymentIntent
cancelled_intent now i = record i {
  status = PaymentStatus.cancelled;
  failure_reason = some "user_cancelled";
  settled_at = some now;
  updated_at = now;
}

cancel_ended :
    (now id : ℕ) (i : PaymentIntent) (t : PayTables)
    → is_terminal i ≡ true
    → cancel_intent now id i t ≡ (i, t)
unfolding cancel_intent
cancel_ended now id i t h = rw (open_or_terminal i, h) refl

cancel_open :
    (now id : ℕ) (i : PaymentIntent) (t : PayTables)
    → is_terminal i ≡ false
    → cancel_intent now id i t ≡ (
      cancelled_intent now i,
      record t { intents = insert id (cancelled_intent now i) t.intents },
    )
unfolding cancel_intent
cancel_open now id i t h = rw (open_or_terminal i, h) refl

-- The user owns an intent under this id.
abbrev pub OwnsIntent : ℕ → ℕ → PayTables → Type 0
OwnsIntent user id t = (i : PaymentIntent) × (lookup id t.intents ≡ some i) × (i.user_id ≡ user)

-- A cancellation answers 404 and writes nothing where the caller owns no intent of that id. An
-- intent of the caller that has ended is returned as it is, with nothing written. One that is open
-- is cancelled, and no other row changes.
cancel_payment_total :
    (now id user : ℕ) (t : PayTables)
    → ((¬ OwnsIntent user id t) × (cancel_payment now id user t ≡ (raised not_found, t)))
      ⊎ ((i : PaymentIntent) × (lookup id t.intents ≡ some i)
          × (i.user_id ≡ user)
          × (is_terminal i ≡ true)
          × (cancel_payment now id user t ≡ (ok i, t)))
      ⊎ ((i : PaymentIntent) × (lookup id t.intents ≡ some i)
          × (i.user_id ≡ user)
          × (is_terminal i ≡ false)
          × (cancel_payment now id user t ≡ (
            ok (cancelled_intent now i),
            record t { intents = insert id (cancelled_intent now i) t.intents },
          )))
unfolding cancel_payment
cancel_payment_total now id user t = elim (Option-cases (lookup id t.intents)) [
  | inl e ↦ inl ((λ o. let h = o.1 in absurd (cc (e, h))), rw (e, cancel_payment) refl)
  | inr (i, e) ↦ elim (Bool-cases (i.user_id == user)) [
    | inr q ↦ inl (
      (λ o.
          let (j, h, p) = o in
          ground
            (arith, (let same : i ≡ j = cc (e, h) in ap (λ (x : PaymentIntent). x.user_id) same))),
      rw (e, q, cancel_payment) refl,
    )
    | inl q ↦
        let owner = (==_iff i.user_id user).0 q in
        elim (Bool-cases (is_terminal i)) [
          | inl d ↦
              inr (inl (i, e, owner, d, rw (e, q, cancel_ended now id i t d, cancel_payment) refl))
          | inr d ↦
              inr (inr (i, e, owner, d, rw (e, q, cancel_open now id i t d, cancel_payment) refl))
        ]
  ]
]

simulated_failure :
    (now id : ℕ) (outcome : String) (reason : Option String) (t : PayTables) (i : PaymentIntent)
    → lookup id t.intents ≡ some i
    → outcome ≢ "completed"
    → (settle_simulated_intent now id outcome reason t).1
      ≡ record t { intents = insert id (failed_intent i now reason) t.intents }
unfolding settle_simulated_intent
simulated_failure now id outcome reason t i h o = elim (Bool-cases (outcome == "completed")) [
  | inl e ↦ absurd (o ((==_iff outcome "completed").0 e))
  | inr e ↦ rw (h, e, settle_simulated_intent) refl
]

length-featured :
    (j : JobPost) (i : PaymentIntent) (now : ℕ) (ref : Option String)
    → length j.featured_charge_history < history_max
    → length (featured_job j i now ref).featured_charge_history
      ≡ length j.featured_charge_history + 1
unfolding featured_job
length-featured j i now ref h =
    length-append_history_short j.featured_charge_history (json_history_entry i now ref) h

lookup-charged :
    (now : ℕ) (ref : Option String) (t : PayTables) (i : PaymentIntent) (j : JobPost)
    → lookup i.job_id t.jobs ≡ some j
    → lookup i.job_id
        (feature_job (lookup i.job_id t.jobs) (completed_intent i now ref) now ref t.jobs)
      ≡ some (featured_job j (completed_intent i now ref) now ref)
unfolding completed_intent
lookup-charged now ref t i j h =
    lookup-feature_job i.job_id (completed_intent i now ref) now ref t.jobs (lookup i.job_id t.jobs)
      refl
    ∙ rw (h, ==_refl i.job_id) refl

-- The history after one more settlement of an intent that is not completed.
third_charge :
    (now id : ℕ) (ref : Option String) (t : PayTables) (i : PaymentIntent) (job : ℕ) (j : JobPost)
    → lookup id t.intents ≡ some i
    → i.job_id ≡ job
    → lookup job t.jobs ≡ some j
    → i.status ≡ PaymentStatus.failed
    → length j.featured_charge_history < history_max
    → Option.map
        (λ (x : JobPost). length x.featured_charge_history)
        (lookup job (settle_intent now id ref t).1.jobs)
      ≡ some (length j.featured_charge_history + 1)
third_charge now id ref t i job j hi hj hk s b =
    let e = (settle_intent_effect now id ref t i hi (λ p. cc (s, p))).2 job in
    rw (e, (==_iff i.job_id job).1 hj, hk)
      (ap some (length-featured j (completed_intent i now ref) now ref b))

-- A completed intent does not stay completed. Take an intent that is not completed and whose job is
-- there with at most forty-eight charges, and settle it: an outcome of the simulator other than
-- "completed" that comes afterwards marks the intent failed and leaves the job as the settlement
-- left it, and a further settlement makes the job's charges two more than at the beginning.
pub failed_after_completed :
    (now later again id : ℕ) (outcome : String) (reason ref : Option String) (t : PayTables)
    (i : PaymentIntent) (j : JobPost)
    → lookup id t.intents ≡ some i
    → lookup i.job_id t.jobs ≡ some j
    → i.status ≢ PaymentStatus.completed
    → outcome ≢ "completed"
    → length j.featured_charge_history ≤ 48
    → let first_ = (settle_intent now id ref t).1 in
      let second = (settle_simulated_intent later id outcome reason first_).1 in
      let third = (settle_intent again id ref second).1 in
      (Option.map (λ (x : PaymentIntent). x.status) (lookup id second.intents)
        ≡ some PaymentStatus.failed)
      × (lookup i.job_id second.jobs ≡ lookup i.job_id first_.jobs)
      × (Option.map (λ (x : JobPost). length x.featured_charge_history) (lookup i.job_id third.jobs)
          ≡ some (length j.featured_charge_history + 2))
unfolding completed_intent failed_intent
failed_after_completed now later again id outcome reason ref t i j hi hj s o b =
    let done = completed_intent i now ref in
    let t1 = settled now id ref t i in
    let bad = failed_intent done later reason in
    let t2 : PayTables = record t1 { intents = insert id bad t1.intents } in
    let e1 : (settle_intent now id ref t).1 ≡ t1 =
      ap (λ (r : Option PaymentIntent × PayTables). r.1)
        (settle_open now id ref t i hi (not_completed i s)) in
    let e2 : (settle_simulated_intent later id outcome reason t1).1 ≡ t2 =
      simulated_failure later id outcome reason t1 done (stored_self id done t.intents) o in
    let charged = lookup-charged now ref t i j hj in
    rw (e1, e2)
      (
        ap (Option.map (λ (x : PaymentIntent). x.status)) (stored_self id bad t1.intents),
        refl,
        third_charge again id ref t2 bad i.job_id (featured_job j done now ref)
              (stored_self id bad t1.intents) refl charged refl
              (omega (arith, length-featured j done now ref (omega arith)))
            ∙ ap some (omega (arith, length-featured j done now ref (omega arith))),
      )
