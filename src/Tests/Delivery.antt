-- ===== src/Tests/Delivery.antt =====
-- Examples on webhooks.
use employed.Base.{
  All, List, [], arith, false, inl, length, list_eq, map, nat_eq, option_eq, refl, string_eq, true,
  ◌++◌, ◌+◌, ◌-◌, ◌∷◌, ◌≡◌, ◌≤◌,
}
use employed.Tests.{hook, hooks, sending}
use employed.Enums.{
  country_eq, job_published, job_status_eq, job_type_eq, market_key_eq, membership_status_eq,
  payment_provider_key_eq, payment_status_eq, verification_state_eq,
}
use employed.Webhooks.{WebhookDelivery, WebhookEndpoint, WebhookTables, emit}
use employed.Webhooks.Fanout.{IsFresh, emit-fanout, reached}
use employed.Webhooks.Delivery.{webhook_max_attempts}
use employed.Webhooks.Delivery.Retry.{
  Fails, IsDelivery, Turn, deliver_turns, deliver_turns_bound, deliver_turns_exhausted,
}
use employed.Base.Text.{codes}
use employed.Base.Outcome.{ok, raised}

abbrev delivered_row : WebhookDelivery
delivered_row = record sending { status = "delivered" }

abbrev outage : Turn
outage = record { post = λ p. raised (codes "timeout"); now = 1000; endpoints = hook ∷ [] }

abbrev outages : List Turn
outages = outage ∷ outage ∷ []

outages_fail : All Fails outages
outages_fail = (λ p. (codes "timeout", refl), (λ p. (codes "timeout", refl), tt))

emit-fanout_example :
    (new : List WebhookDelivery) × (out : WebhookTables) × (emit
        (λ n. 100 + n)
        false
        (λ n. true)
        job_published
        []
        hooks
      ≡ ok (new, out))
    × (out.endpoints ≡ hooks.endpoints)
    × (out.deliveries ≡ hooks.deliveries ++ new)
    × (map (λ (d : WebhookDelivery). d.endpoint_id) new
        ≡ map (λ (w : WebhookEndpoint). w.id) (reached job_published hooks.endpoints))
    × All (IsFresh job_published []) new
emit-fanout_example = emit-fanout (λ n. 100 + n) (λ n. true) job_published [] hooks

deliver_turns_bound_example :
    let (d', posts) = deliver_turns (λ d. "{}") (λ k b. b) outages sending in
    IsDelivery d' × (length posts ≤ webhook_max_attempts - sending.attempts)
deliver_turns_bound_example =
    deliver_turns_bound (λ d. "{}") (λ k b. b) outages sending (inl (refl, omega arith))

deliver_turns_exhausted_example :
    (deliver_turns (λ d. "{}") (λ k b. b) outages sending).0.status ≡ "failed"
deliver_turns_exhausted_example =
    deliver_turns_exhausted (λ d. "{}") (λ k b. b) outages sending refl (omega arith) outages_fail
      (omega arith)
