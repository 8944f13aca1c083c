-- ===== src/Webhooks/Delivery.antt =====
-- The delivery worker of backend/app/workers/tasks.py: `compute_backoff_delay`, `_sign_payload` and
-- `deliver_webhook`. Durations and times are in seconds. JSON encoding, HMAC-SHA256 and the HTTP
-- client are parameters; the client answers with a status code, or with the text of the exception.
pub mod Backoff
pub mod Retry
use employed.Base.{
  List, Option, String, [], first, if◌then◌else◌, leb, list_eq, ltb, min, nat_eq, none, not,
  option_eq, some, string_eq, take, ℕ, ◌*◌, ◌+◌, ◌==◌, ◌^◌, ◌||◌, ◌∷◌,
}
use employed.Base.Int.{pos, pos_part, ℤ}
use employed.Base.Outcome.{Outcome, ok, raised}
use employed.Base.Dict.{Dict}
use employed.Base.Text.{Text, codes}
use employed.Json.{Json}
use employed.Webhooks.{WebhookDelivery, WebhookEndpoint, WebhookTables}

abbrev pub webhook_backoff_base_seconds : ℕ
webhook_backoff_base_seconds = 30

abbrev pub webhook_backoff_cap : ℕ
webhook_backoff_cap = 21600

abbrev pub webhook_max_attempts : ℕ
webhook_max_attempts = 10

abbrev pub webhook_last_error_max_len : ℕ
webhook_last_error_max_len = 1000

unfoldable pub compute_backoff_delay : ℤ → ℕ
compute_backoff_delay attempts =
    let safe_attempts = pos_part attempts in
    let capped_exponent = min safe_attempts 32 in
    let raw_seconds = 2 ^ capped_exponent * webhook_backoff_base_seconds in
    if ltb raw_seconds webhook_backoff_cap then raw_seconds else webhook_backoff_cap

-- What the worker tells its queue: the status and the attempts of the delivery.
pub record Summary : Type 0 where
  pub status : String
  pub attempts : ℕ

unfoldable pub summary : WebhookDelivery → Summary
summary d = record { status = d.status; attempts = d.attempts }

-- The branch of a failed attempt.
unfoldable pub record_failure : ℕ → Text → WebhookDelivery → WebhookDelivery
record_failure now error d =
    let attempts = d.attempts + 1 in
    let last_error = some (take webhook_last_error_max_len error) in
    if leb webhook_max_attempts attempts
    then record d {
      attempts = attempts;
      last_error = last_error;
      status = "failed";
      next_attempt_at = none;
    }
    else record d {
      attempts = attempts;
      last_error = last_error;
      status = "pending";
      next_attempt_at = some (now + compute_backoff_delay (pos attempts));
    }

unfoldable pub record_success : WebhookDelivery → WebhookDelivery
record_success d = record d { status = "delivered"; last_error = none; next_attempt_at = none }

unfoldable pub record_missing_endpoint : WebhookDelivery → WebhookDelivery
record_missing_endpoint d = record d {
  status = "failed";
  last_error = some (codes "endpoint not found");
  next_attempt_at = none;
}

-- A request that was sent: the URL, the body and the signature.
pub record Post : Type 0 where
  pub url : String
  pub body : String
  pub signature : Option String

module _ (dumps : Dict String Json → String) (hmac_sha256 : String → String → String) where
  unfoldable pub sign_payload : String → String → Option String
  sign_payload secret body = if secret == "" then none else some (hmac_sha256 secret body)

  unfoldable pub make_post : WebhookEndpoint → WebhookDelivery → Post
  unfolding sign_payload
  make_post endpoint d =
      let body = dumps d.payload in
      record { url = endpoint.url; body = body; signature = sign_payload endpoint.secret body }

  -- One attempt on a delivery whose endpoint was looked up: the row that it leaves and the request,
  -- if one was sent. `post` is the client's answer to the request.
  unfoldable pub attempt :
      (Post → Outcome Text ℕ)
      → ℕ
      → Option WebhookEndpoint
      → WebhookDelivery
      → WebhookDelivery × Option Post
  unfolding record_missing_endpoint record_failure record_success make_post
  attempt post now none d = (record_missing_endpoint d, none)
  attempt post now (some endpoint) d =
      let request = make_post endpoint d in
      elim (post request) [
        | raised error ↦ (record_failure now error d, some request)
        | ok code ↦ (record_success d, some request)
      ]

  -- `deliver_webhook` from the loaded row on: a delivery that ended is not touched again.
  unfoldable pub deliver_row :
      (Post → Outcome Text ℕ)
      → ℕ
      → List WebhookEndpoint
      → WebhookDelivery
      → WebhookDelivery × Option Post
  unfolding attempt
  deliver_row post now endpoints d =
      if d.status == "delivered" || d.status == "failed"
      then (d, none)
      else attempt post now (first (λ w. w.id == d.endpoint_id) endpoints) d

  unfoldable pub store : WebhookDelivery → List WebhookDelivery → List WebhookDelivery
  store d [] = []
  store d (x ∷ xs) = (if x.id == d.id then d else x) ∷ store d xs

  -- `deliver_webhook`: `none` where there is no such delivery.
  unfoldable pub deliver_webhook :
      (Post → Outcome Text ℕ) → ℕ → ℕ → WebhookTables → Option Summary × WebhookTables
  unfolding deliver_row store summary
  deliver_webhook post now delivery_id t = elim (first (λ d. d.id == delivery_id) t.deliveries) [
    | none ↦ (none, t)
    | some d ↦
        (let (d', sent) = deliver_row post now t.endpoints d in
          (some (summary d'), record t { deliveries = store d' t.deliveries }))
  ]
