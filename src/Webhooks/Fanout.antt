-- ===== src/Webhooks/Fanout.antt =====
-- backend/app/services/webhooks.py: who gets a delivery of an event.
use mathlib.Core.List.{append-nil}
use employed.Base.{
  All, Bool, List, String, [], any, ap, arith, contains, contains-append, contains_congr, false,
  filter, if◌then◌else◌, list_eq, map, nat_eq, none, option_eq, refl, string_eq, sym, ℕ, ◌&&◌, ◌++◌,
  ◌+◌, ◌==◌, ◌||◌, ◌∙◌, ◌∷◌, ◌≡◌,
}
use employed.Enums.{
  WebhookEvent, country_eq, job_status_eq, job_type_eq, market_key_eq, membership_status_eq,
  payment_provider_key_eq, payment_status_eq, verification_state_eq, webhook_event_value,
}
use employed.Json.{Json}
use employed.Base.Dict.{Dict}
use employed.Base.Outcome.{ok}
use employed.Webhooks.{
  EventArg, WebhookDelivery, WebhookEndpoint, WebhookTables, emit, emit_to, event_value,
  make_deliveries, normalise_events, subscribed_endpoints,
}

contains-normalise_events :
    (v : String) (normalised : List String) (events : List EventArg)
    → contains v (normalise_events normalised events)
      ≡ (contains v normalised || any (λ e. event_value e == v) events)
unfolding normalise_events
contains-normalise_events v normalised [] = ground arith
contains-normalise_events v normalised (e ∷ events) = ground (
  arith,
  contains_congr v (event_value e) normalised,
  contains-append v normalised (event_value e ∷ []),
  contains-normalise_events v
      (if contains (event_value e) normalised then normalised else normalised ++ event_value e ∷ [])
      events,
)

filter-filter :
    (p q : WebhookEndpoint → Bool) (xs : List WebhookEndpoint)
    → filter p (filter q xs) ≡ filter (λ w. q w && p w) xs
filter-filter p q [] = refl
filter-filter p q (x ∷ xs) = ground (arith, filter-filter p q xs)

-- What a new delivery looks like.
abbrev pub IsFresh : WebhookEvent → Dict String Json → WebhookDelivery → Type 0
IsFresh e payload d =
    (d.event ≡ e)
    × (d.payload ≡ payload)
    × (d.status ≡ "pending")
    × (d.attempts ≡ 0)
    × (d.next_attempt_at ≡ none)
    × (d.last_error ≡ none)

make_deliveries_lem :
    (ids : ℕ → ℕ) (n : ℕ) (e : WebhookEvent) (payload : Dict String Json)
    (ws : List WebhookEndpoint)
    → (map (λ (d : WebhookDelivery). d.endpoint_id) (make_deliveries ids n e payload ws)
        ≡ map (λ (w : WebhookEndpoint). w.id) ws)
      × All (IsFresh e payload) (make_deliveries ids n e payload ws)
unfolding make_deliveries
make_deliveries_lem ids n e payload [] = (refl, tt)
make_deliveries_lem ids n e payload (w ∷ ws) =
    let (a, b) = make_deliveries_lem ids (n + 1) e payload ws in
    (ap (λ l. w.id ∷ l) a, ((refl, refl, refl, refl, refl, refl), b))

-- The endpoints that an event reaches: the active ones that list its value.
abbrev pub reached : WebhookEvent → List WebhookEndpoint → List WebhookEndpoint
reached e = filter (λ w. w.active && contains (webhook_event_value e) w.events)

subscribed-reached :
    (e : WebhookEvent) (ws : List WebhookEndpoint) → subscribed_endpoints ws e ≡ reached e ws
unfolding subscribed_endpoints
subscribed-reached e ws =
    filter-filter (λ w. contains (webhook_event_value e) w.events) (λ w. w.active) ws

emit_to-fanout :
    (ids : ℕ → ℕ) (accepts : ℕ → Bool) (e : WebhookEvent) (payload : Dict String Json)
    (t : WebhookTables) (ws : List WebhookEndpoint)
    → (new : List WebhookDelivery) × (out : WebhookTables) × (emit_to ids false accepts e payload t
          ws
        ≡ ok (new, out))
      × (out.endpoints ≡ t.endpoints)
      × (out.deliveries ≡ t.deliveries ++ new)
      × (map (λ (d : WebhookDelivery). d.endpoint_id) new ≡ map (λ (w : WebhookEndpoint). w.id) ws)
      × All (IsFresh e payload) new
unfolding emit_to
emit_to-fanout ids accepts e payload t [] =
    ([], t, refl, refl, sym (append-nil t.deliveries), refl, tt)
emit_to-fanout ids accepts e payload t (w ∷ ws) =
    let (a, b) = make_deliveries_lem ids 0 e payload (w ∷ ws) in
    (make_deliveries ids 0 e payload (w ∷ ws), _, refl, refl, refl, a, b)

-- When the flush succeeds, `emit` returns, and stores behind the deliveries that were there, one
-- fresh pending delivery for each active endpoint that is subscribed to the event, in their order,
-- and for no other, whatever the queue answers; the endpoints stay as they are.
pub emit-fanout :
    (ids : ℕ → ℕ) (accepts : ℕ → Bool) (e : WebhookEvent) (payload : Dict String Json)
    (t : WebhookTables)
    → (new : List WebhookDelivery) × (out : WebhookTables) × (emit ids false accepts e payload t
        ≡ ok (new, out))
      × (out.endpoints ≡ t.endpoints)
      × (out.deliveries ≡ t.deliveries ++ new)
      × (map (λ (d : WebhookDelivery). d.endpoint_id) new
          ≡ map (λ (w : WebhookEndpoint). w.id) (reached e t.endpoints))
      × All (IsFresh e payload) new
unfolding emit
emit-fanout ids accepts e payload t =
    let (new, out, q, a, b, m, f) =
      emit_to-fanout ids accepts e payload t (subscribed_endpoints t.endpoints e) in
    (
      new,
      out,
      q,
      a,
      b,
      m ∙ ap (map (λ (w : WebhookEndpoint). w.id)) (subscribed-reached e t.endpoints),
      f,
    )
