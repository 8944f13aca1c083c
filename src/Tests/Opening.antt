-- ===== src/Tests/Opening.antt =====
-- Examples on opening a payment.
use employed.Base.{[], arith, list_eq, nat_eq, none, option_eq, refl, some, string_eq, ◌≡◌, ◌≤◌}
use employed.Tests.{ana, ledger, listing}
use employed.Enums.{
  country_eq, job_status_eq, job_type_eq, market_key_eq, membership_status_eq, mpesa, mz,
  payment_provider_key_eq, payment_status_eq, stripe, verification_state_eq,
}
use employed.Models.{PaymentIntent}
use employed.Payments.Adapter.{
  AdapterAnswer, Market, PaymentInitiate, PaymentInitiateResponse, Written,
  find_existing_open_intent, initiated, is_open, left_by, market_of, new_intent, opted_out,
  service_unavailable, stripe_url,
}
use employed.Payments.Initiate.{initiate_payment, open_payment}
use employed.Payments.Open.{initiate_payment-open_count, open_count}
use employed.Payments.Stuck.{disabled, open_payment-stuck}
use employed.Base.Outcome.{ok, raised}

abbrev nothing_written : Written
nothing_written = record {
  row_ref = none;
  notes = [];
  msisdn = none;
  msisdn_hash = none;
  updated = 1000;
}

abbrev absent : PaymentIntent → AdapterAnswer
absent i = opted_out nothing_written

abbrev answering : PaymentIntent → AdapterAnswer
answering i = initiated nothing_written (some "cs_1") (some "https://pay")

abbrev pay_clerk : PaymentInitiate
pay_clerk = record { job_id = 3; provider_key = some mpesa; payer_msisdn = none }

abbrev mozambican : Market
mozambican = market_of mz

one_open : open_count 3 1 ledger.intents ≤ 1
unfolding open_count is_open
one_open = omega arith

no_address : stripe_url nothing_written.notes ≡ none
unfolding stripe_url
no_address = refl

none_open : find_existing_open_intent 3 1 [] ≡ none
unfolding find_existing_open_intent
none_open = refl

initiate_payment-open_count_example :
    open_count 3 1
      (initiate_payment answering "pending-6" 6 1000 mozambican ana pay_clerk ledger).1.intents
    ≤ 1
initiate_payment-open_count_example =
    initiate_payment-open_count answering "pending-6" 6 1000 mozambican 3 1 ana pay_clerk ledger
      refl one_open

open_payment-stuck_example :
    let first_try = open_payment absent "pending-6" 6 1000 mozambican 1 none listing stripe [] in
    let second_try =
      open_payment answering "pending-7" 7 1100 mozambican 1 none listing stripe first_try.1 in
    (first_try.0 ≡ raised service_unavailable)
    × (r : PaymentInitiateResponse) × (second_try ≡ (ok r, first_try.1))
    × (r.redirect_url ≡ none)
open_payment-stuck_example =
    open_payment-stuck absent "pending-6" 6 1000 mozambican answering "pending-7" 7 1100 1 none
      listing stripe [] service_unavailable
      (left_by nothing_written (new_intent 6 1000 mozambican 1 stripe none listing)) refl none_open
      (disabled nothing_written no_address)
