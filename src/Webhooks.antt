-- ===== src/Webhooks.antt =====
-- backend/app/services/webhooks.py: endpoints and the fan-out of an event. `Delivery` has the
-- worker that sends a delivery (backend/app/workers/tasks.py).
pub mod Fanout
pub mod Delivery
use employed.Base.{
  Bool, List, Option, String, [], contains, filter, if◌then◌else◌, list_eq, nat_eq, none, option_eq,
  string_eq, ℕ, ◌++◌, ◌+◌, ◌∷◌,
}
use employed.Enums.{
  WebhookEvent, country_eq, job_status_eq, job_type_eq, market_key_eq, membership_status_eq,
  payment_provider_key_eq, payment_status_eq, pending, verification_state_eq, webhook_event_value,
}
use employed.Json.{Json}
use employed.Base.Dict.{Dict}
use employed.Base.Outcome.{Outcome, ok, raised}
use employed.Base.Text.{Text}

pub record WebhookEndpoint : Type 0 where
  pub id : ℕ
  pub company_id : Option ℕ
  pub url : String
  pub secret : String
  pub events : List String
  pub active : Bool

pub record WebhookDelivery : Type 0 where
  pub id : ℕ
  pub endpoint_id : ℕ
  pub event : WebhookEvent
  pub payload : Dict String Json
  pub status : String
  pub attempts : ℕ
  pub next_attempt_at : Option ℕ
  pub last_error : Option Text

-- `str | WebhookEvent`
pub data EventArg : Type 0 where
  event : WebhookEvent → EventArg
  name : String → EventArg

unfoldable pub event_value : EventArg → String
event_value (event e) = webhook_event_value e
event_value (name s) = s

-- The loop that collects the values and skips those that are there.
unfoldable pub normalise_events : List String → List EventArg → List String
unfolding event_value
normalise_events normalised [] = normalised
normalise_events normalised (e ∷ events) =
    normalise_events
      (if contains (event_value e) normalised then normalised else normalised ++ event_value e ∷ [])
      events

-- `register_endpoint`: `id` is the id that the flush assigns.
unfoldable pub register_endpoint :
    ℕ
    → Option ℕ
    → String
    → String
    → List EventArg
    → Bool
    → List WebhookEndpoint
    → WebhookEndpoint × List WebhookEndpoint
unfolding normalise_events
register_endpoint id company_id url secret events active endpoints =
    let endpoint : WebhookEndpoint = record {
      id = id;
      company_id = company_id;
      url = url;
      secret = secret;
      events = normalise_events [] events;
      active = active;
    } in
    (endpoint, endpoints ++ endpoint ∷ [])

-- The query for active endpoints, then the test on their events.
unfoldable pub subscribed_endpoints : List WebhookEndpoint → WebhookEvent → List WebhookEndpoint
subscribed_endpoints endpoints e =
    filter (λ w. contains (webhook_event_value e) w.events) (filter (λ w. w.active) endpoints)

-- The tables, and the tasks that the queue took.
pub record WebhookTables : Type 0 where
  pub endpoints : List WebhookEndpoint
  pub deliveries : List WebhookDelivery
  pub queue : List ℕ

-- One pending row for each endpoint; `ids` are the ids that the flush assigns.
unfoldable pub make_deliveries :
    (ℕ → ℕ) → ℕ → WebhookEvent → Dict String Json → List WebhookEndpoint → List WebhookDelivery
make_deliveries ids n e payload [] = []
make_deliveries ids n e payload (w ∷ ws) =
    record {
      id = ids n;
      endpoint_id = w.id;
      event = e;
      payload = payload;
      status = "pending";
      attempts = 0;
      next_attempt_at = none;
      last_error = none;
    }
    ∷ make_deliveries ids (n + 1) e payload ws

-- `_enqueue_delivery`: a failure of the queue is logged and swallowed.
unfoldable pub enqueue_all : (ℕ → Bool) → List WebhookDelivery → List ℕ → List ℕ
enqueue_all accepts [] queue = queue
enqueue_all accepts (d ∷ ds) queue =
    enqueue_all accepts ds (if accepts d.id then queue ++ d.id ∷ [] else queue)

pub data EmitError : Type 0 where
  flush_failed : EmitError

-- `emit` once the endpoints are known: `flush_fails` is the database's answer to the flush,
-- `accepts` the queue's to each task.
unfoldable pub emit_to :
    (ℕ → ℕ)
    → Bool
    → (ℕ → Bool)
    → WebhookEvent
    → Dict String Json
    → WebhookTables
    → List WebhookEndpoint
    → Outcome EmitError (List WebhookDelivery × WebhookTables)
unfolding make_deliveries enqueue_all
emit_to ids flush_fails accepts e payload t [] = ok ([], t)
emit_to ids flush_fails accepts e payload t (w ∷ ws) =
    let new = make_deliveries ids 0 e payload (w ∷ ws) in
    if flush_fails
    then raised flush_failed
    else ok (
      new,
      record t { deliveries = t.deliveries ++ new; queue = enqueue_all accepts new t.queue },
    )

unfoldable pub emit :
    (ℕ → ℕ)
    → Bool
    → (ℕ → Bool)
    → WebhookEvent
    → Dict String Json
    → WebhookTables
    → Outcome EmitError (List WebhookDelivery × WebhookTables)
unfolding subscribed_endpoints emit_to
emit ids flush_fails accepts e payload t =
    emit_to ids flush_fails accepts e payload t (subscribed_endpoints t.endpoints e)
