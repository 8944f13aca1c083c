-- ===== src/Callbacks/Guard.antt =====
-- backend/app/webhooks/mobile_money.py: the checks of the signature and the time stamp.
use employed.Base.{
  Option, String, list_eq, ltb, nat_eq, none, not, option_eq, or_else, some, string_eq, ℕ, ◌+◌,
  ◌==◌,
}
use employed.Payments.{PayTables, given}
use employed.Replay.{ReplayCache}
use employed.Callbacks.{
  CallbackError, Handled, secret_missing, signature_invalid, signature_missing, stale_payload,
  timestamp_missing,
}
use employed.Base.Outcome.{Outcome, ok, raise_if, raised, ◌>>◌}

-- `CALLBACK_REPLAY_WINDOW`
abbrev pub callback_replay_window : ℕ
callback_replay_window = 300

-- `_verify_signature`; the digest is a parameter.
unfoldable pub verify_signature :
    (String → String → String)
    → String
    → Option String
    → Option String
    → Outcome CallbackError (Unit {0})
unfolding given
verify_signature hmac_sha256 raw_body signature secret =
    raise_if (not (given secret)) secret_missing
    >> (raise_if (not (given signature)) signature_missing
        >> raise_if (not (signature == some (hmac_sha256 (or_else secret "") raw_body)))
            signature_invalid)

-- `_validate_timestamp` on the time stamp that was read, if there was one.
unfoldable pub validate_timestamp : ℕ → Option ℕ → Outcome CallbackError (Unit {0})
validate_timestamp now none = raised timestamp_missing
validate_timestamp now (some stamp) =
    raise_if (ltb (stamp + callback_replay_window) now) stale_payload

-- The checks at the beginning of `_handle_callback`, before the rest, `handled`.
unfoldable pub guard_callback :
    Outcome CallbackError (Unit {0}) → Handled → ReplayCache → PayTables → Handled
guard_callback (raised e) handled cache t = record { answer = raised e; cache = cache; tables = t }
guard_callback (ok u) handled cache t = handled

-- `_handle_callback` from its checks on.
unfoldable pub receive_callback :
    (String → String → String)
    → String
    → Option String
    → Option String
    → ℕ
    → Option ℕ
    → Handled
    → ReplayCache
    → PayTables
    → Handled
unfolding verify_signature validate_timestamp guard_callback
receive_callback hmac_sha256 raw_body signature secret now stamp handled cache t =
    guard_callback
      (verify_signature hmac_sha256 raw_body signature secret >> validate_timestamp now stamp)
      handled cache t
