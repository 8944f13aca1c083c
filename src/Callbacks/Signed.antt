-- ===== src/Callbacks/Signed.antt =====
-- backend/app/webhooks/mobile_money.py: which callbacks reach the handler.
use employed.Base.{
  ==_iff, Bool-cases, Option, String, ap, arith, inl, inr, list_eq, ltb, nat_eq, none, option_eq,
  or_else, refl, some, string_eq, true, ℕ, ◌+◌, ◌==◌, ◌∙◌, ◌≡◌, ◌≤◌, ◌⊎◌,
}
use employed.Enums.{
  country_eq, job_status_eq, job_type_eq, market_key_eq, membership_status_eq,
  payment_provider_key_eq, payment_status_eq, verification_state_eq,
}
use employed.Payments.{PayTables, given}
use employed.Replay.{ReplayCache}
use employed.Callbacks.{
  CallbackError, Handled, secret_missing, signature_invalid, signature_missing, stale_payload,
}
use employed.Base.Outcome.{Outcome-cases, ok, raised, ◌>>◌}
use employed.Callbacks.Guard.{
  callback_replay_window, guard_callback, receive_callback, validate_timestamp, verify_signature,
}

-- A body that is signed with the secret that is set, and a time stamp that is not too old.
abbrev pub IsGenuine :
    (String → String → String) → String → Option String → Option String → ℕ → Option ℕ → Type 0
IsGenuine hmac_sha256 raw_body signature secret now stamp =
    (given secret ≡ true)
    × (signature ≡ some (hmac_sha256 (or_else secret "") raw_body))
    × (s : ℕ) × (stamp ≡ some s)
    × (now ≤ s + callback_replay_window)

verify_signature-ok :
    (hmac_sha256 : String → String → String) (raw_body : String) (signature secret : Option String)
    (u : Unit {0})
    → verify_signature hmac_sha256 raw_body signature secret ≡ ok u
    → (given secret ≡ true) × (signature ≡ some (hmac_sha256 (or_else secret "") raw_body))
unfolding verify_signature
verify_signature-ok hmac_sha256 raw_body signature secret u h =
    let digest = hmac_sha256 (or_else secret "") raw_body in
    elim (Bool-cases (given secret)) [
      | inr a ↦ (let x : raised secret_missing ≡ ok u = rw a at h in absurd (cc x))
      | inl a ↦ elim (Bool-cases (given signature)) [
        | inr b ↦ (let x : raised signature_missing ≡ ok u = rw (a, b) at h in absurd (cc x))
        | inl b ↦ elim (Bool-cases (signature == some digest)) [
          | inr c ↦ (let x : raised signature_invalid ≡ ok u = rw (a, b, c) at h in absurd (cc x))
          | inl c ↦ (a, (==_iff signature (some digest)).0 c)
        ]
      ]
    ]

validate_timestamp-ok :
    (now : ℕ) (stamp : Option ℕ) (u : Unit {0})
    → validate_timestamp now stamp ≡ ok u
    → (s : ℕ) × (stamp ≡ some s) × (now ≤ s + callback_replay_window)
unfolding validate_timestamp
validate_timestamp-ok now none u h = absurd (cc h)
validate_timestamp-ok now (some s) u h = elim (Bool-cases (ltb (s + callback_replay_window) now)) [
  | inl e ↦ (let x : raised stale_payload ≡ ok u = rw e at h in absurd (cc x))
  | inr e ↦ (s, refl, ground (arith, e))
]

-- A callback is handled only if its body is signed with the secret, which is set, and its time stamp
-- is at most five minutes old. One that is not handled is answered with an error and leaves the
-- cache and the payment tables as they are.
pub receive_callback_total :
    (hmac_sha256 : String → String → String) (raw_body : String) (signature secret : Option String)
    (now : ℕ) (stamp : Option ℕ) (handled : Handled) (cache : ReplayCache) (t : PayTables)
    → (IsGenuine hmac_sha256 raw_body signature secret now stamp
        × (receive_callback hmac_sha256 raw_body signature secret now stamp handled cache t
            ≡ handled))
      ⊎ ((e : CallbackError) × (receive_callback hmac_sha256 raw_body signature secret now stamp
              handled cache t
            ≡ record { answer = raised e; cache = cache; tables = t }))
unfolding receive_callback
receive_callback_total hmac_sha256 raw_body signature secret now stamp handled cache t =
    elim (Outcome-cases (verify_signature hmac_sha256 raw_body signature secret)) [
      | inr (e, q) ↦
          inr (e, ap (λ o. guard_callback (o >> validate_timestamp now stamp) handled cache t) q)
      | inl (u, q) ↦ elim (Outcome-cases (validate_timestamp now stamp)) [
        | inr (e, r) ↦ inr (
          e,
          ap (λ o. guard_callback (o >> validate_timestamp now stamp) handled cache t) q
              ∙ ap (λ o. guard_callback o handled cache t) r,
        )
        | inl (v, r) ↦
            let (a, b) = verify_signature-ok hmac_sha256 raw_body signature secret u q in
            let (s, c, d) = validate_timestamp-ok now stamp v r in
            inl (
              (a, b, s, c, d),
              ap (λ o. guard_callback (o >> validate_timestamp now stamp) handled cache t) q
                  ∙ ap (λ o. guard_callback o handled cache t) r,
            )
      ]
    ]
