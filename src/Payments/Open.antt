-- ===== src/Payments/Open.antt =====
-- backend/app/routers/payments.py: the open payments of a job and a user.
use employed.Base.{
  ==_iff, Bool-cases, Option, Option-cases, String, [], and-split, ap, arith, if◌then◌else◌, inl,
  inr, list_eq, nat_eq, none, not, option_eq, refl, some, string_eq, suc, sym, true, ℕ, ◌&&◌, ◌+◌,
  ◌==◌, ◌∙◌, ◌∷◌, ◌≡◌, ◌≤◌,
}
use employed.Base.Dict.{Dict, insert, lookup}
use employed.Enums.{
  PaymentProviderKey, country_eq, job_status_eq, job_type_eq, market_key_eq, membership_status_eq,
  payment_provider_key_eq, payment_status_eq, verification_state_eq,
}
use employed.Models.{JobPost, PaymentIntent, User}
use employed.Payments.Adapter.{
  AdapterAnswer, InitiateError, Market, PaymentInitiate, Written, ask_adapter, bad_gateway, broken,
  failed_call, find_existing_open_intent, initiated, is_open, is_stripe, left_by, new_intent, newer,
  opted_out, service_unavailable, stubbed, unregistered,
}
use employed.Base.Text.{Text}
use employed.Base.Outcome.{Outcome-cases}
use employed.Payments.{PayTables, given}
use employed.Payments.Initiate.{initiate_payment, may_pay, open_payment}

-- How many payments of the user for the job are open.
unfoldable pub open_count : ℕ → ℕ → Dict ℕ PaymentIntent → ℕ
open_count j u [] = 0
open_count j u ((k, i) ∷ intents) =
    let rest = open_count j u intents in if is_open j u i then suc rest else rest

open_count-none :
    (j u : ℕ) (intents : Dict ℕ PaymentIntent)
    → find_existing_open_intent j u intents ≡ none
    → open_count j u intents ≡ 0
unfolding open_count find_existing_open_intent
open_count-none j u [] h = refl
open_count-none j u ((k, i) ∷ intents) h = elim (Bool-cases (is_open j u i)) [
  | inl e ↦
      (let q : some (newer i (find_existing_open_intent j u intents)) ≡ none = rw e at h in
        absurd (cc q))
  | inr e ↦
      (let q : find_existing_open_intent j u intents ≡ none = rw e at h in
        rw e (open_count-none j u intents q))
]

-- A row under a new key is one more at most.
open_count-insert :
    (j u id : ℕ) (i : PaymentIntent) (intents : Dict ℕ PaymentIntent)
    → lookup id intents ≡ none
    → open_count j u (insert id i intents)
      ≡ open_count j u intents + (if is_open j u i then 1 else 0)
unfolding open_count
open_count-insert j u id i [] h = ground arith
open_count-insert j u id i ((k, x) ∷ intents) h = elim (Bool-cases (k == id)) [
  | inl e ↦ (let q : some x ≡ none = rw e at h in absurd (cc q))
  | inr e ↦
      (let q : lookup id intents ≡ none = rw e at h in
        let ih = open_count-insert j u id i intents q in rw (e, ih) (ground arith))
]

-- A new row that is open is the one that is found, if none was.
pub find_existing-insert :
    (j u id : ℕ) (i : PaymentIntent) (intents : Dict ℕ PaymentIntent)
    → find_existing_open_intent j u intents ≡ none
    → lookup id intents ≡ none
    → is_open j u i ≡ true
    → find_existing_open_intent j u (insert id i intents) ≡ some i
unfolding find_existing_open_intent newer
find_existing-insert j u id i [] n h o = rw o refl
find_existing-insert j u id i ((k, x) ∷ intents) n h o = elim (Bool-cases (k == id)) [
  | inl e ↦ (let q : some x ≡ none = rw e at h in absurd (cc q))
  | inr e ↦ elim (Bool-cases (is_open j u x)) [
    | inl f ↦
        (let q : some (newer x (find_existing_open_intent j u intents)) ≡ none = rw f at n in
          absurd (cc q))
    | inr f ↦
        (let q : lookup id intents ≡ none = rw e at h in
          let m : find_existing_open_intent j u intents ≡ none = rw f at n in
          rw (e, f) (find_existing-insert j u id i intents m q o))
  ]
]

-- The adapter's part leaves the job, the user and the status of the row.
failed_call-is_open :
    (j u : ℕ) (stub_ref : String) (e : InitiateError) (i : PaymentIntent)
    → is_open j u (failed_call stub_ref e i).1 ≡ is_open j u i
unfolding failed_call is_open stubbed
failed_call-is_open j u stub_ref e i = elim (Bool-cases (is_stripe i.provider_key)) [
  | inl s ↦ rw s refl
  | inr s ↦ rw s refl
]

left_by-is_open :
    (j u : ℕ) (w : Written) (i : PaymentIntent) → is_open j u (left_by w i) ≡ is_open j u i
unfolding is_open left_by
left_by-is_open j u w i = refl

ask_adapter-is_open :
    (j u : ℕ) (stub_ref : String) (i : PaymentIntent) (answer : AdapterAnswer)
    → is_open j u (ask_adapter stub_ref i answer).1 ≡ is_open j u i
unfolding ask_adapter is_open left_by
ask_adapter-is_open j u stub_ref i (initiated w provider_ref url) =
    elim (Bool-cases (is_stripe i.provider_key)) [
      | inl e ↦ elim (Bool-cases (given provider_ref && not (given w.row_ref))) [
        | inl g ↦ rw (e, g) refl
        | inr g ↦ rw (e, g) refl
      ]
      | inr e ↦ elim (Bool-cases (given provider_ref && not (given w.row_ref))) [
        | inl g ↦ rw (e, g) refl
        | inr g ↦ rw (e, g) refl
      ]
    ]
ask_adapter-is_open j u stub_ref i unregistered =
    failed_call-is_open j u stub_ref service_unavailable i
ask_adapter-is_open j u stub_ref i (opted_out w) =
    failed_call-is_open j u stub_ref service_unavailable (left_by w i) ∙ left_by-is_open j u w i
ask_adapter-is_open j u stub_ref i (broken w) =
    failed_call-is_open j u stub_ref bad_gateway (left_by w i) ∙ left_by-is_open j u w i

at_most_one :
    (j u job_id user_id : ℕ) (intents : Dict ℕ PaymentIntent)
    → open_count job_id user_id intents ≡ 0
    → open_count j u intents ≤ 1
    → open_count j u intents + (if job_id == j && user_id == u then 1 else 0) ≤ 1
at_most_one j u job_id user_id intents zero_here le =
    elim (Bool-cases (job_id == j && user_id == u)) [
      | inl c ↦
          (let (p, q) = and-split (job_id == j) (user_id == u) c in
            let here : open_count j u intents ≡ 0 =
              ap (λ k. open_count k u intents) (sym ((==_iff job_id j).0 p))
              ∙ ap (λ k. open_count job_id k intents) (sym ((==_iff user_id u).0 q))
              ∙ zero_here in
            rw c (omega (arith, here)))
      | inr c ↦ rw c (omega (arith, le))
    ]

pub new_intent-is_open :
    (j u id now : ℕ) (market : Market) (user_id : ℕ) (key : PaymentProviderKey)
    (payer_msisdn : Option Text) (job : JobPost)
    → is_open j u (new_intent id now market user_id key payer_msisdn job)
      ≡ (job.id == j && user_id == u)
unfolding is_open new_intent
new_intent-is_open j u id now market user_id key payer_msisdn job =
    elim (Bool-cases (is_stripe key)) [ inl e ↦ rw e (ground arith) | inr e ↦ rw e (ground arith) ]

module _ (adapter : PaymentIntent → AdapterAnswer) (stub_ref : String) (id now : ℕ)
    (market : Market) where
  open_payment-count :
      (j u user_id : ℕ) (payer_msisdn : Option Text) (job : JobPost) (key : PaymentProviderKey)
      (intents : Dict ℕ PaymentIntent)
      → lookup id intents ≡ none
      → open_count j u intents ≤ 1
      → open_count j u
          (open_payment adapter stub_ref id now market user_id payer_msisdn job key intents).1
        ≤ 1
  unfolding open_payment
  open_payment-count j u user_id payer_msisdn job key intents h le =
      elim (Option-cases (find_existing_open_intent job.id user_id intents)) [
        | inr (existing, e) ↦ rw (e, open_payment) le
        | inl e ↦
            (let i = new_intent id now market user_id key payer_msisdn job in
              let added =
                open_count-insert j u id (ask_adapter stub_ref i (adapter i)).1 intents h in
              let kind =
                ask_adapter-is_open j u stub_ref i (adapter i)
                ∙ new_intent-is_open j u id now market user_id key payer_msisdn job in
              rw (e, open_payment, added, kind)
                (at_most_one j u job.id user_id intents (open_count-none job.id user_id intents e)
                  le))
      ]

  -- Whatever the adapter answers, opening a payment under a new key keeps at most one payment of any
  -- user for any job open.
  pub initiate_payment-open_count :
      (j u : ℕ) (user : User) (payload : PaymentInitiate) (t : PayTables)
      → lookup id t.intents ≡ none
      → open_count j u t.intents ≤ 1
      → open_count j u (initiate_payment adapter stub_ref id now market user payload t).1.intents
        ≤ 1
  unfolding initiate_payment
  initiate_payment-open_count j u user payload t h le =
      elim (Outcome-cases (may_pay market user payload t.jobs)) [
        | inl (passed, e) ↦
            rw (e, initiate_payment)
              (open_payment-count j u user.id payload.payer_msisdn passed.0 passed.1 t.intents h le)
        | inr (x, e) ↦ rw (e, initiate_payment) le
      ]
