-- ===== src/Payments/Adapter.antt =====
-- backend/app/routers/payments.py and backend/app/services/market.py: the new row of a payment for
-- a featured job, and its adapter, which is a parameter: what it answers.
use employed.Base.{
  Bool, List, Option, String, [], if◌then◌else◌, keep_last, list_eq, ltb, nat_eq, none, not,
  option_eq, some, string_eq, true, ℕ, ◌&&◌, ◌+◌, ◌==◌, ◌||◌, ◌∷◌,
}
use employed.Base.Text.{Text}
use employed.Base.Dict.{Dict, lookup}
use employed.Base.Outcome.{Outcome, ok, raised}
use employed.Enums.{
  MarketKey, PaymentProviderKey, PaymentStatus, country_eq, emola, job_status_eq, job_type_eq,
  market_key_eq, membership_status_eq, mpesa, mx, mz, payment_provider_key_eq, payment_status_eq,
  stripe, verification_state_eq,
}
use employed.Models.{JobPost, PaymentIntent}
use employed.Json.{Json, text}
use employed.Payments.{given, ref_or}

-- A market of `MARKETS`, with what the payments read of it.
pub record Market : Type 0 where
  pub key : MarketKey
  pub amount : ℕ
  pub currency : String
  pub payment_providers : List PaymentProviderKey

unfoldable pub market_of : MarketKey → Market
market_of mx = record {
  key = mx;
  amount = 99900;
  currency = "mxn";
  payment_providers = stripe ∷ [];
}
market_of mz = record {
  key = mz;
  amount = 250000;
  currency = "mzn";
  payment_providers = mpesa ∷ emola ∷ stripe ∷ [];
}

-- The payload of `initiate_payment`; a key that names no provider is `none`.
pub record PaymentInitiate : Type 0 where
  pub job_id : ℕ
  pub provider_key : Option PaymentProviderKey
  pub payer_msisdn : Option Text

pub data InitiateError : Type 0 where
  address_not_verified provider_unavailable no_such_job not_own_job not_featurable : InitiateError
  service_unavailable bad_gateway : InitiateError

-- The columns that the adapters of backend/app/payments write on the row of an intent, and commit,
-- before they return or raise; `status` and `simulator` keep the value that the new row has.
pub record Written : Type 0 where
  pub row_ref : Option String
  pub notes : Dict String Json
  pub msisdn : Option Text
  pub msisdn_hash : Option String
  pub updated : ℕ

-- The call of an adapter: none is registered, it raises a RuntimeError or another exception, or it
-- answers with a reference and an address.
pub data AdapterAnswer : Type 0 where
  unregistered : AdapterAnswer
  opted_out broken : Written → AdapterAnswer
  initiated : Written → Option String → Option String → AdapterAnswer

-- The row with what the adapter committed.
unfoldable pub left_by : Written → PaymentIntent → PaymentIntent
left_by w i = record i {
  provider_ref = w.row_ref;
  meta = w.notes;
  payer_msisdn = w.msisdn;
  payer_msisdn_hash = w.msisdn_hash;
  updated_at = w.updated;
}

-- A `PaymentInitiateResponse`
pub record PaymentInitiateResponse : Type 0 where
  pub intent : ℕ
  pub awaits : Bool
  pub redirect_url : Option String
  pub provider_ref : Option String

-- The filters of `_find_existing_open_intent`
unfoldable pub is_open : ℕ → ℕ → PaymentIntent → Bool
is_open job_id user_id i =
    i.job_id == job_id
    && i.user_id == user_id
    && (i.status == PaymentStatus.pending || i.status == PaymentStatus.awaiting_user)

unfoldable pub newer : PaymentIntent → Option PaymentIntent → PaymentIntent
newer i none = i
newer i (some j) = if ltb i.created_at j.created_at then j else i

-- `_find_existing_open_intent`: the newest that fits
unfoldable pub find_existing_open_intent : ℕ → ℕ → Dict ℕ PaymentIntent → Option PaymentIntent
unfolding is_open newer
find_existing_open_intent job_id user_id [] = none
find_existing_open_intent job_id user_id ((k, i) ∷ intents) =
    let rest = find_existing_open_intent job_id user_id intents in
    if is_open job_id user_id i then some (newer i rest) else rest

unfoldable pub is_stripe : PaymentProviderKey → Bool
is_stripe key = key == stripe

-- `meta.get("stripe_url")`, of the texts that it holds
unfoldable pub stripe_url : Dict String Json → Option String
stripe_url meta = elim (lookup "stripe_url" meta) [ some (text url) ↦ some url | _ ↦ none ]

-- `_build_initiate_response`
unfoldable pub build_initiate_response : PaymentIntent → Option String → PaymentInitiateResponse
unfolding is_stripe stripe_url ref_or
build_initiate_response i redirect_url = record {
  intent = i.id;
  awaits = not (is_stripe i.provider_key);
  redirect_url = ref_or redirect_url (if is_stripe i.provider_key then stripe_url i.meta else none);
  provider_ref = if is_stripe i.provider_key then none else i.provider_ref;
}

-- The new row of `initiate_payment`
unfoldable pub new_intent :
    ℕ → ℕ → Market → ℕ → PaymentProviderKey → Option Text → JobPost → PaymentIntent
new_intent id now market user_id key payer_msisdn job =
    let basis : ℕ = elim job.featured_through [
      | none ↦ now
      | some t ↦ if ltb now t then t else now
    ] in
    record {
      id = id;
      job_id = job.id;
      user_id = user_id;
      market_key = market.key;
      provider_key = key;
      provider_ref = none;
      status = if is_stripe key then PaymentStatus.pending else PaymentStatus.awaiting_user;
      amount = market.amount;
      currency = market.currency;
      payer_msisdn = elim payer_msisdn [
        | none ↦ none
        | some [] ↦ none
        | some (c ∷ s) ↦ some (keep_last 4 (c ∷ s))
      ];
      payer_msisdn_hash = none;
      extended_through = some (basis + 2592000);
      failure_reason = none;
      simulator = not (is_stripe key);
      meta = [];
      settled_at = none;
      created_at = now;
      updated_at = now;
    }

-- `_simulator_stub_response`, on the row; `stub_ref` is the text of `pending-{id}`.
unfoldable pub stubbed : String → PaymentIntent → PaymentIntent
stubbed stub_ref i = record i { provider_ref = some stub_ref }

-- The answer to a call that failed, with the error that Stripe's failures surface as.
unfoldable pub failed_call :
    String
    → InitiateError
    → PaymentIntent
    → Outcome InitiateError PaymentInitiateResponse × PaymentIntent
unfolding build_initiate_response stubbed
failed_call stub_ref e i =
    if is_stripe i.provider_key
    then (raised e, i)
    else (ok (build_initiate_response (stubbed stub_ref i) none), stubbed stub_ref i)

-- What follows the first save of the new row: the answer, and the row as it is left.
unfoldable pub ask_adapter :
    String
    → PaymentIntent
    → AdapterAnswer
    → Outcome InitiateError PaymentInitiateResponse × PaymentIntent
unfolding failed_call left_by
ask_adapter stub_ref i unregistered = failed_call stub_ref service_unavailable i
ask_adapter stub_ref i (opted_out w) = failed_call stub_ref service_unavailable (left_by w i)
ask_adapter stub_ref i (broken w) = failed_call stub_ref bad_gateway (left_by w i)
ask_adapter stub_ref i (initiated w provider_ref url) =
    let refreshed = left_by w i in
    let saved =
      if given provider_ref && not (given w.row_ref)
      then record refreshed { provider_ref = provider_ref }
      else refreshed in
    if is_stripe i.provider_key then (ok (build_initiate_response saved url), saved) else (
      ok (record {
        intent = i.id;
        awaits = true;
        redirect_url = none;
        provider_ref = ref_or saved.provider_ref provider_ref;
      }),
      saved,
    )
