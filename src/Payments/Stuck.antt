-- ===== src/Payments/Stuck.antt =====
-- backend/app/routers/payments.py: a request to pay after one whose adapter failed.
use employed.Base.{
  ==_refl, Option, String, list_eq, nat_eq, none, option_eq, refl, some, string_eq, ℕ, ◌∙◌, ◌≡◌,
}
use employed.Base.Text.{Text}
use employed.Base.Dict.{Dict, insert, lookup}
use employed.Base.Outcome.{ok, raised}
use employed.Enums.{
  PaymentProviderKey, country_eq, job_status_eq, job_type_eq, market_key_eq, membership_status_eq,
  payment_provider_key_eq, payment_status_eq, stripe, verification_state_eq,
}
use employed.Models.{JobPost, PaymentIntent}
use employed.Payments.{given, ref_or}
use employed.Payments.Adapter.{
  AdapterAnswer, InitiateError, Market, PaymentInitiateResponse, Written, ask_adapter, bad_gateway,
  broken, build_initiate_response, failed_call, find_existing_open_intent, initiated, is_open,
  is_stripe, left_by, new_intent, opted_out, service_unavailable, stripe_url, unregistered,
}
use employed.Payments.Initiate.{open_payment}
use employed.Payments.Open.{find_existing-insert, new_intent-is_open}

answered_from :
    (again : PaymentIntent → AdapterAnswer) (next_ref : String) (next_id later : ℕ)
    (market : Market) (user_id : ℕ) (payer_msisdn : Option Text) (job : JobPost)
    (key : PaymentProviderKey) (i : PaymentIntent) (intents : Dict ℕ PaymentIntent)
    → find_existing_open_intent job.id user_id intents ≡ some i
    → open_payment again next_ref next_id later market user_id payer_msisdn job key intents
      ≡ (ok (build_initiate_response i none), intents)
unfolding open_payment
answered_from again next_ref next_id later market user_id payer_msisdn job key i intents h =
    rw (h, open_payment) refl

no_redirect :
    (i : PaymentIntent)
    → i.provider_key ≡ stripe
    → stripe_url i.meta ≡ none
    → (build_initiate_response i none).redirect_url ≡ none
unfolding build_initiate_response is_stripe ref_or given
no_redirect i p q = rw (p, q) refl

-- A failed call: none is registered, or it raises with no address among the notes it committed.
-- Beside it stand what the request answers and the row that is left.
pub data Fails (i : PaymentIntent) : AdapterAnswer → InitiateError → PaymentIntent → Type 0 where
  nobody : stripe_url i.meta ≡ none → Fails i unregistered service_unavailable i
  disabled :
      (w : Written)
      → stripe_url w.notes ≡ none
      → Fails i (opted_out w) service_unavailable (left_by w i)
  crashed : (w : Written) → stripe_url w.notes ≡ none → Fails i (broken w) bad_gateway (left_by w i)

failed_call-stripe :
    (stub_ref : String) (e : InitiateError) (i : PaymentIntent)
    → i.provider_key ≡ stripe
    → failed_call stub_ref e i ≡ (raised e, i)
unfolding failed_call is_stripe
failed_call-stripe stub_ref e i p = rw p refl

-- The row after a failed call, and the answer.
failure_of :
    (j u : ℕ) (stub_ref : String) (i row : PaymentIntent) (answer : AdapterAnswer)
    (e : InitiateError)
    → i.provider_key ≡ stripe
    → Fails i answer e row
    → (ask_adapter stub_ref i answer ≡ (raised e, row))
      × (row.provider_key ≡ stripe)
      × (stripe_url row.meta ≡ none)
      × (is_open j u row ≡ is_open j u i)
unfolding ask_adapter left_by is_open
failure_of j u stub_ref i row unregistered e p (nobody q) =
    (failed_call-stripe stub_ref service_unavailable i p, p, q, refl)
failure_of j u stub_ref i row (opted_out w) e p (disabled _ q) =
    (failed_call-stripe stub_ref service_unavailable (left_by w i) p, p, q, refl)
failure_of j u stub_ref i row (broken w) e p (crashed _ q) =
    (failed_call-stripe stub_ref bad_gateway (left_by w i) p, p, q, refl)
failure_of j u stub_ref i row (initiated w provider_ref url) e p f = elim f [ ]

new_stripe :
    (id now : ℕ) (market : Market) (user_id : ℕ) (payer_msisdn : Option Text) (job : JobPost)
    → (new_intent id now market user_id stripe payer_msisdn job).provider_key ≡ stripe
unfolding new_intent
new_stripe id now market user_id payer_msisdn job = refl

module _ (adapter : PaymentIntent → AdapterAnswer) (stub_ref : String) (id now : ℕ)
    (market : Market) where
  failed_try :
      (user_id : ℕ) (payer_msisdn : Option Text) (job : JobPost) (intents : Dict ℕ PaymentIntent)
      (e : InitiateError) (row : PaymentIntent)
      → find_existing_open_intent job.id user_id intents ≡ none
      → (let i = new_intent id now market user_id stripe payer_msisdn job in
          ask_adapter stub_ref i (adapter i))
        ≡ (raised e, row)
      → open_payment adapter stub_ref id now market user_id payer_msisdn job stripe intents
        ≡ (raised e, insert id row intents)
  unfolding open_payment
  failed_try user_id payer_msisdn job intents e row n asked = rw (n, open_payment, asked) refl

  -- A Stripe payment whose adapter is not registered, or raises, of whatever kind, with no address to
  -- pay at committed on the row: the request fails, with 502 for an exception other than a
  -- RuntimeError and 503 otherwise, but its row stays open, so the next request of the user for the
  -- job, whatever its adapter would answer by then, is answered from that row, with no address to
  -- go to, and changes nothing.
  pub open_payment-stuck :
      (again : PaymentIntent → AdapterAnswer) (next_ref : String) (next_id later user_id : ℕ)
      (payer_msisdn : Option Text) (job : JobPost) (key : PaymentProviderKey)
      (intents : Dict ℕ PaymentIntent) (e : InitiateError) (row : PaymentIntent)
      → lookup id intents ≡ none
      → find_existing_open_intent job.id user_id intents ≡ none
      → (let i = new_intent id now market user_id stripe payer_msisdn job in
          Fails i (adapter i) e row)
      → let first_try =
          open_payment adapter stub_ref id now market user_id payer_msisdn job stripe intents in
        let second_try =
          open_payment again next_ref next_id later market user_id payer_msisdn job key
            first_try.1 in
        (first_try.0 ≡ raised e)
        × (r : PaymentInitiateResponse) × (second_try ≡ (ok r, first_try.1))
        × (r.redirect_url ≡ none)
  open_payment-stuck again next_ref next_id later user_id payer_msisdn job key intents e row h n
        fails =
      let i = new_intent id now market user_id stripe payer_msisdn job in
      let (asked, p, q, still) =
        failure_of job.id user_id stub_ref i row (adapter i) e
          (new_stripe id now market user_id payer_msisdn job) fails in
      let opened =
        still
        ∙ new_intent-is_open job.id user_id id now market user_id stripe payer_msisdn job
        ∙ rw (==_refl job.id, ==_refl user_id) refl in
      let there = find_existing-insert job.id user_id id row intents n h opened in
      rw (failed_try user_id payer_msisdn job intents e row n asked) (
        refl,
        build_initiate_response row none,
        answered_from again next_ref next_id later market user_id payer_msisdn job key row
            (insert id row intents) there,
        no_redirect row p q,
      )
