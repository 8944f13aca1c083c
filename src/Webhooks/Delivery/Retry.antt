-- ===== src/Webhooks/Delivery/Retry.antt =====
-- backend/app/workers/tasks.py: the attempts of a delivery, over many runs of the worker.
use employed.Base.{
  All, Bool-cases, List, Option, String, [], ap, arith, false, first, if◌then◌else◌, inl, inr, leb,
  length, length-append, list_eq, nat_eq, none, option_eq, refl, some, string_eq, true, ℕ, ◌++◌,
  ◌+◌, ◌-◌, ◌<◌, ◌==◌, ◌||◌, ◌∙◌, ◌∷◌, ◌≡◌, ◌≤◌, ◌⊎◌,
}
use employed.Base.Outcome.{Outcome, Outcome-cases, raised}
use employed.Base.Dict.{Dict}
use employed.Base.Text.{Text}
use employed.Json.{Json}
use employed.Webhooks.{WebhookDelivery, WebhookEndpoint}
use employed.Webhooks.Delivery.{
  Post, attempt, deliver_row, make_post, record_failure, record_missing_endpoint, record_success,
  webhook_max_attempts,
}

-- The rows that the service and the worker leave behind.
abbrev pub IsDelivery : WebhookDelivery → Type 0
IsDelivery d =
    ((d.status ≡ "pending") × (d.attempts < webhook_max_attempts))
    ⊎ ((d.status ≡ "delivered") × (d.attempts < webhook_max_attempts))
    ⊎ ((d.status ≡ "failed") × (d.attempts ≤ webhook_max_attempts))

-- The attempts that are left.
pub budget : WebhookDelivery → ℕ
budget d = if d.status == "pending" then webhook_max_attempts - d.attempts else 0

-- The worker's runs on one delivery: for each, the client's answers, the time and the endpoints.
pub record Turn : Type 0 where
  pub post : Post → Outcome Text ℕ
  pub now : ℕ
  pub endpoints : List WebhookEndpoint

abbrev pub sent_posts : Option Post → List Post
sent_posts none = []
sent_posts (some p) = p ∷ []

budget_of_pending :
    (d : WebhookDelivery) → d.status ≡ "pending" → budget d ≡ webhook_max_attempts - d.attempts
unfolding budget
budget_of_pending d p = rw p refl

failure-budget :
    (now : ℕ) (error : Text) (d : WebhookDelivery)
    → d.attempts < webhook_max_attempts
    → IsDelivery (record_failure now error d)
      × (1 + budget (record_failure now error d) ≤ webhook_max_attempts - d.attempts)
unfolding record_failure budget
failure-budget now error d h = elim (Bool-cases (leb webhook_max_attempts (d.attempts + 1))) [
  | inl e ↦ rw e (inr (inr (refl, omega arith)), omega arith)
  | inr e ↦ rw e (inl (refl, ground arith), ground arith)
]

success-budget :
    (d : WebhookDelivery)
    → d.attempts < webhook_max_attempts
    → IsDelivery (record_success d)
      × (1 + budget (record_success d) ≤ webhook_max_attempts - d.attempts)
unfolding record_success budget
success-budget d h = (inr (inl (refl, h)), omega arith)

missing-budget :
    (d : WebhookDelivery)
    → d.attempts < webhook_max_attempts
    → IsDelivery (record_missing_endpoint d)
      × (budget (record_missing_endpoint d) ≤ webhook_max_attempts - d.attempts)
unfolding record_missing_endpoint budget
missing-budget d h = (inr (inr (refl, omega arith)), omega arith)

budget-le : (d : WebhookDelivery) → budget d ≤ webhook_max_attempts - d.attempts
unfolding budget
budget-le d = ground arith

not_ended :
    (d : WebhookDelivery)
    → d.status ≡ "pending"
    → (d.status == "delivered" || d.status == "failed") ≡ false
not_ended d p = rw p refl

ended :
    (d : WebhookDelivery)
    → (d.status ≡ "delivered") ⊎ (d.status ≡ "failed")
    → (d.status == "delivered" || d.status == "failed") ≡ true
ended d (inl p) = rw p refl
ended d (inr p) = rw p refl

-- The receiver answers every request of the turn with an error.
abbrev pub Fails : Turn → Type 0
Fails t = (p : Post) → (error : Text) × (t.post p ≡ raised error)

failure_moves :
    (now : ℕ) (error : Text) (d : WebhookDelivery)
    → ((record_failure now error d).status ≡ "failed")
      ⊎ (((record_failure now error d).status ≡ "pending")
          × ((record_failure now error d).attempts ≡ d.attempts + 1)
          × (d.attempts + 1 < webhook_max_attempts))
unfolding record_failure
failure_moves now error d = elim (Bool-cases (leb webhook_max_attempts (d.attempts + 1))) [
  | inl e ↦ rw e (inl refl)
  | inr e ↦ rw e (inr (refl, refl, ground arith))
]

module _ (dumps : Dict String Json → String) (hmac_sha256 : String → String → String) where
  unfoldable pub deliver_turns : List Turn → WebhookDelivery → WebhookDelivery × List Post
  deliver_turns [] d = (d, [])
  deliver_turns (t ∷ turns) d =
      let (d', sent) = deliver_row dumps hmac_sha256 t.post t.now t.endpoints d in
      let (d'', rest) = deliver_turns turns d' in (d'', sent_posts sent ++ rest)

  attempt-budget :
      (post : Post → Outcome Text ℕ) (now : ℕ) (w : Option WebhookEndpoint) (d : WebhookDelivery)
      → d.status ≡ "pending"
      → d.attempts < webhook_max_attempts
      → let (d', sent) = attempt dumps hmac_sha256 post now w d in
        IsDelivery d' × (length (sent_posts sent) + budget d' ≤ budget d)
  unfolding attempt budget
  attempt-budget post now none d p h = rw (budget_of_pending d p) (missing-budget d h)
  attempt-budget post now (some w) d p h =
      elim (Outcome-cases (post (make_post dumps hmac_sha256 w d))) [
        | inl (code, q) ↦ rw (q, attempt) (rw (budget_of_pending d p) (success-budget d h))
        | inr (error, q) ↦
            rw (q, attempt) (rw (budget_of_pending d p) (failure-budget now error d h))
      ]

  deliver_row-budget :
      (post : Post → Outcome Text ℕ) (now : ℕ) (endpoints : List WebhookEndpoint)
      (d : WebhookDelivery)
      → IsDelivery d
      → let (d', sent) = deliver_row dumps hmac_sha256 post now endpoints d in
        IsDelivery d' × (length (sent_posts sent) + budget d' ≤ budget d)
  unfolding deliver_row
  deliver_row-budget post now endpoints d (inl (p, h)) =
      rw (not_ended d p)
        (attempt-budget post now (first (λ w. w.id == d.endpoint_id) endpoints) d p h)
  deliver_row-budget post now endpoints d (inr (inl (p, h))) =
      rw (ended d (inl p)) (inr (inl (p, h)), omega arith)
  deliver_row-budget post now endpoints d (inr (inr (p, h))) =
      rw (ended d (inr p)) (inr (inr (p, h)), omega arith)

  deliver_turns-budget :
      (turns : List Turn) (d : WebhookDelivery)
      → IsDelivery d
      → let (d', posts) = deliver_turns turns d in
        IsDelivery d' × (length posts + budget d' ≤ budget d)
  unfolding deliver_turns
  deliver_turns-budget [] d h = (h, omega arith)
  deliver_turns-budget (t ∷ turns) d h =
      let (d', sent) = deliver_row dumps hmac_sha256 t.post t.now t.endpoints d in
      let (h', b') = deliver_row-budget t.post t.now t.endpoints d h in
      let (h'', b'') = deliver_turns-budget turns d' h' in
      (h'', omega (arith, length-append {0} (sent_posts sent) (deliver_turns turns d').1))

  -- On a row that is pending or delivered with fewer than ten attempts, or failed with at most ten:
  -- however often the worker runs on it, whatever the receiver answers and whatever becomes of the
  -- endpoint, it sends ten requests at most less the attempts made before, and the row stays one of
  -- these.
  pub deliver_turns_bound :
      (turns : List Turn) (d : WebhookDelivery)
      → IsDelivery d
      → let (d', posts) = deliver_turns turns d in
        IsDelivery d' × (length posts ≤ webhook_max_attempts - d.attempts)
  deliver_turns_bound turns d h =
      let (h', b) = deliver_turns-budget turns d h in (h', omega (arith, budget-le d))

  -- A delivery that was delivered or has failed is never sent again nor changed.
  deliver_turns_ended :
      (turns : List Turn) (d : WebhookDelivery)
      → (d.status ≡ "delivered") ⊎ (d.status ≡ "failed")
      → deliver_turns turns d ≡ (d, [])
  unfolding deliver_turns deliver_row
  deliver_turns_ended [] d h = refl
  deliver_turns_ended (t ∷ turns) d h = rw (ended d h, deliver_turns_ended turns d h) refl

  attempt_failing :
      (t : Turn) (w : Option WebhookEndpoint) (d : WebhookDelivery)
      → Fails t
      → let d' = (attempt dumps hmac_sha256 t.post t.now w d).0 in
        (d'.status ≡ "failed")
        ⊎ ((d'.status ≡ "pending")
            × (d'.attempts ≡ d.attempts + 1)
            × (d.attempts + 1 < webhook_max_attempts))
  unfolding attempt record_missing_endpoint
  attempt_failing t none d f = inl refl
  attempt_failing t (some w) d f =
      let (error, q) = f (make_post dumps hmac_sha256 w d) in
      rw (q, attempt) (failure_moves t.now error d)

  deliver_row_failing :
      (t : Turn) (d : WebhookDelivery)
      → d.status ≡ "pending"
      → Fails t
      → let d' = (deliver_row dumps hmac_sha256 t.post t.now t.endpoints d).0 in
        (d'.status ≡ "failed")
        ⊎ ((d'.status ≡ "pending")
            × (d'.attempts ≡ d.attempts + 1)
            × (d.attempts + 1 < webhook_max_attempts))
  unfolding deliver_row
  deliver_row_failing t d p f =
      rw (not_ended d p) (attempt_failing t (first (λ w. w.id == d.endpoint_id) t.endpoints) d f)

  -- A pending delivery whose receiver always answers with an error has failed for good after as
  -- many runs of the worker as it has attempts left of the ten.
  pub deliver_turns_exhausted :
      (turns : List Turn) (d : WebhookDelivery)
      → d.status ≡ "pending"
      → d.attempts < webhook_max_attempts
      → All Fails turns
      → webhook_max_attempts - d.attempts ≤ length turns
      → (deliver_turns turns d).0.status ≡ "failed"
  unfolding deliver_turns
  deliver_turns_exhausted [] d p h f n = absurd (omega arith)
  deliver_turns_exhausted (t ∷ turns) d p h f n =
      let d' = (deliver_row dumps hmac_sha256 t.post t.now t.endpoints d).0 in
      elim (deliver_row_failing t d p f.0) [
        | inl q ↦
            ap (λ (r : WebhookDelivery × List Post). r.0.status)
              (deliver_turns_ended turns d' (inr q))
            ∙ q
        | inr (q, a, b) ↦
            deliver_turns_exhausted turns d' q (omega (arith, a, b)) f.1 (omega (arith, a, n))
      ]
