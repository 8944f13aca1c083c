-- ===== src/Payments.antt =====
-- Payments for featured jobs: the settlement of an intent (backend/app/payments/settlement.py), the
-- callbacks that report its outcome, and the requests that open and cancel it.
pub mod Settlement
pub mod Outcomes
pub mod Adapter
pub mod Initiate
pub mod Open
pub mod Stuck
use employed.Base.{
  Bool, List, Option, String, [], false, if◌then◌else◌, keep_last, length, list_eq, ltb, nat_eq,
  none, not, option_eq, some, string_eq, ℕ, ◌++◌, ◌==◌, ◌||◌, ◌∷◌,
}
use employed.Enums.{
  PaymentStatus, awaiting_user, cancelled, completed, country_eq, expired, failed, job_status_eq,
  job_type_eq, market_key_eq, membership_status_eq, payment_provider_key_eq, payment_status_eq,
  pending, verification_state_eq,
}
use employed.Models.{ChargeEntry, JobPost, PaymentIntent}
use employed.Base.Dict.{Dict, insert, lookup}
use employed.Base.Outcome.{Outcome, ok, raised}

-- The two tables, by primary key.
pub record PayTables : Type 0 where
  pub intents : Dict ℕ PaymentIntent
  pub jobs : Dict ℕ JobPost

-- `PaymentIntent.is_terminal`
unfoldable pub is_terminal : PaymentIntent → Bool
is_terminal i =
    (i.status == PaymentStatus.completed || i.status == PaymentStatus.failed)
    || (i.status == PaymentStatus.cancelled || i.status == PaymentStatus.expired)

-- `if ref:` for a text that may be absent
unfoldable pub given : Option String → Bool
given none = false
given (some s) = not (s == "")

-- `ref or other`
unfoldable pub ref_or : Option String → Option String → Option String
unfolding given
ref_or ref other = if given ref then ref else other

-- `_json_history_entry`
unfoldable pub json_history_entry : PaymentIntent → ℕ → Option String → ChargeEntry
unfolding ref_or
json_history_entry intent settled_at provider_ref = record {
  intent_id = intent.id;
  provider_key = intent.provider_key;
  provider_ref = ref_or provider_ref intent.provider_ref;
  amount = intent.amount;
  currency = intent.currency;
  settled_at = settled_at;
  extended_through = intent.extended_through;
}

abbrev pub history_max : ℕ
history_max = 50

-- The history with one more entry, cut to its last fifty.
unfoldable pub append_history : List ChargeEntry → ChargeEntry → List ChargeEntry
append_history history entry =
    let longer = history ++ entry ∷ [] in
    if ltb history_max (length longer) then keep_last history_max longer else longer

-- What settling writes on the intent.
unfoldable pub completed_intent : PaymentIntent → ℕ → Option String → PaymentIntent
unfolding ref_or
completed_intent intent now provider_ref = record intent {
  status = PaymentStatus.completed;
  settled_at = some now;
  updated_at = now;
  provider_ref = ref_or provider_ref intent.provider_ref;
}

-- What settling writes on the job: `intent` is the completed intent.
unfoldable pub featured_job : JobPost → PaymentIntent → ℕ → Option String → JobPost
unfolding json_history_entry append_history
featured_job job intent now provider_ref = record job {
  featured_through = elim intent.extended_through [ none ↦ job.featured_through | some t ↦ some t ];
  updated_at = now;
  featured_charge_history =
      append_history job.featured_charge_history (json_history_entry intent now provider_ref);
}

-- The jobs after the update of the intent's job, if it was found.
unfoldable pub feature_job :
    Option JobPost → PaymentIntent → ℕ → Option String → Dict ℕ JobPost → Dict ℕ JobPost
unfolding featured_job
feature_job none intent now provider_ref jobs = jobs
feature_job (some job) intent now provider_ref jobs =
    insert intent.job_id (featured_job job intent now provider_ref) jobs

-- `settle_intent` from the loaded rows on, the intent under its key.
unfoldable pub settle_rows :
    ℕ
    → PaymentIntent
    → Option JobPost
    → ℕ
    → Option String
    → PayTables
    → Option PaymentIntent × PayTables
unfolding completed_intent feature_job
settle_rows intent_id intent job now provider_ref t =
    let done = completed_intent intent now provider_ref in
    if intent.status == PaymentStatus.completed then (some intent, t) else (
      some done,
      record {
        intents = insert intent_id done t.intents;
        jobs = feature_job job done now provider_ref t.jobs;
      },
    )

-- `settle_intent`: the intent it returns and the tables after its commit.
unfoldable pub settle_intent : ℕ → ℕ → Option String → PayTables → Option PaymentIntent × PayTables
unfolding settle_rows
settle_intent now intent_id provider_ref t = elim (lookup intent_id t.intents) [
  | none ↦ (none, t)
  | some intent ↦ settle_rows intent_id intent (lookup intent.job_id t.jobs) now provider_ref t
]

-- `settle_simulated_intent` of backend/app/workers/tasks.py.
unfoldable pub failed_intent : PaymentIntent → ℕ → Option String → PaymentIntent
unfolding ref_or
failed_intent intent now reason = record intent {
  status = PaymentStatus.failed;
  failure_reason = ref_or reason (some "unknown");
  settled_at = some now;
  updated_at = now;
}

unfoldable pub settle_simulated_intent :
    ℕ → ℕ → String → Option String → PayTables → Option PaymentIntent × PayTables
unfolding settle_intent failed_intent
settle_simulated_intent now intent_id outcome_status outcome_reason t =
    elim (lookup intent_id t.intents) [
      | none ↦ (none, t)
      | some intent ↦
          (if outcome_status == "completed"
            then settle_intent now intent_id intent.provider_ref t
            else (let failed = failed_intent intent now outcome_reason in
                (some failed, record t { intents = insert intent_id failed t.intents })))
    ]

-- `cancel_payment` of backend/app/routers/payments.py, from the owner's intent on.
unfoldable pub cancel_intent : ℕ → ℕ → PaymentIntent → PayTables → PaymentIntent × PayTables
cancel_intent now intent_id intent t =
    let cancelled = record intent {
      status = PaymentStatus.cancelled;
      failure_reason = some "user_cancelled";
      settled_at = some now;
      updated_at = now;
    } in
    if intent.status == PaymentStatus.pending || intent.status == PaymentStatus.awaiting_user
    then (cancelled, record t { intents = insert intent_id cancelled t.intents })
    else (intent, t)

pub data PaymentError : Type 0 where
  not_found : PaymentError

-- `_find_owned_intent`, then the cancellation.
unfoldable pub cancel_payment :
    ℕ → ℕ → ℕ → PayTables → Outcome PaymentError PaymentIntent × PayTables
unfolding cancel_intent
cancel_payment now intent_id user_id t = elim (lookup intent_id t.intents) [
  | none ↦ (raised not_found, t)
  | some intent ↦
      (if intent.user_id == user_id
        then (let (i, t') = cancel_intent now intent_id intent t in (ok i, t'))
        else (raised not_found, t))
]
