-- ===== src/Payments/Initiate.antt =====
-- backend/app/routers/payments.py: opening a payment, from its guards to what is stored.
use employed.Base.{
  List, Option, String, contains, list_eq, map, nat_eq, none, not, option_eq, some, string_eq, ℕ,
  ◌==◌, ◌||◌,
}
use employed.Base.Text.{Text}
use employed.Base.Dict.{Dict, insert, lookup}
use employed.Base.Outcome.{Outcome, ok, raise_if, raised, ◌>>◌}
use employed.Enums.{
  JobStatus, PaymentProviderKey, country_eq, emola, job_status_eq, job_type_eq, market_key_eq,
  membership_status_eq, mpesa, payment_provider_key_eq, payment_status_eq, stripe,
  verification_state_eq,
}
use employed.Models.{JobPost, PaymentIntent, User}
use employed.Payments.{PayTables}
use employed.Payments.Adapter.{
  AdapterAnswer, InitiateError, Market, PaymentInitiate, PaymentInitiateResponse,
  address_not_verified, ask_adapter, build_initiate_response, find_existing_open_intent, new_intent,
  no_such_job, not_featurable, not_own_job, provider_unavailable,
}

-- The guards of `initiate_payment`: the job and the provider that it goes on with.
unfoldable pub may_pay :
    Market
    → User
    → PaymentInitiate
    → Dict ℕ JobPost
    → Outcome InitiateError (JobPost × PaymentProviderKey)
may_pay market user payload jobs =
    raise_if (not user.email_verified) address_not_verified >> (elim payload.provider_key [
      | none ↦ raised provider_unavailable
      | some key ↦
          raise_if (not (contains key market.payment_providers)) provider_unavailable
          >> (elim (lookup payload.job_id jobs) [
            | none ↦ raised no_such_job
            | some job ↦
                raise_if (not (job.user_id == some user.id)) not_own_job
                >> (raise_if
                      (not (job.status == JobStatus.pending || job.status == JobStatus.active))
                      not_featurable
                    >> ok (job, key))
          ])
    ])

-- `initiate_payment`, its guards passed
unfoldable pub open_payment :
    (PaymentIntent → AdapterAnswer)
    → String
    → ℕ
    → ℕ
    → Market
    → ℕ
    → Option Text
    → JobPost
    → PaymentProviderKey
    → Dict ℕ PaymentIntent
    → Outcome InitiateError PaymentInitiateResponse × Dict ℕ PaymentIntent
open_payment adapter stub_ref id now market user_id payer_msisdn job key intents =
    elim (find_existing_open_intent job.id user_id intents) [
      | some existing ↦ (ok (build_initiate_response existing none), intents)
      | none ↦
          let i = new_intent id now market user_id key payer_msisdn job in
          let done = ask_adapter stub_ref i (adapter i) in (done.0, insert id done.1 intents)
    ]

-- `initiate_payment`
unfoldable pub initiate_payment :
    (PaymentIntent → AdapterAnswer)
    → String
    → ℕ
    → ℕ
    → Market
    → User
    → PaymentInitiate
    → PayTables
    → Outcome InitiateError PaymentInitiateResponse × PayTables
initiate_payment adapter stub_ref id now market user payload t =
    elim (may_pay market user payload t.jobs) [
      | raised e ↦ (raised e, t)
      | ok passed ↦
          let done =
            open_payment adapter stub_ref id now market user.id payload.payer_msisdn passed.0
              passed.1 t.intents in
          (done.0, record t { intents = done.1 })
    ]

-- `providers_for_market`
unfoldable pub providers_for_market : Market → List (PaymentProviderKey × String)
providers_for_market market =
    map (λ key. (key, elim key [ stripe ↦ "Stripe" | mpesa ↦ "M-Pesa" | emola ↦ "e-Mola" ]))
      market.payment_providers
