-- ===== src/Tests/Callbacks.antt =====
-- Examples on the callbacks of payment providers.
use employed.Base.{
  ==_iff, String, [], arith, false, false≢true, if◌then◌else◌, list_eq, nat_eq, none, option_eq,
  refl, some, string_eq, true, ℕ, ◌==◌, ◌∷◌, ◌≡◌, ◌≢◌, ◌⊎◌,
}
use employed.Tests.{charge, ledger, listings}
use employed.Enums.{
  PaymentStatus, country_eq, job_status_eq, job_type_eq, market_key_eq, membership_status_eq,
  payment_provider_key_eq, payment_status_eq, verification_state_eq,
}
use employed.Models.{PaymentIntent}
use employed.Payments.{PayTables}
use employed.Replay.{ReplayCache, cache_contains, prune}
use employed.Revocation.{RedisRead, RedisWrite}
use employed.Callbacks.{CallbackError, Handled, handle_callback, parse_status}
use employed.Callbacks.Once.{handle_callback-once}
use employed.Callbacks.Overwrite.{handle_callback-overwrites, reported}
use employed.Callbacks.Signed.{IsGenuine, receive_callback_total}
use employed.Callbacks.Guard.{receive_callback}
use employed.Base.Dict.{lookup}
use employed.Base.Text.{codes}
use employed.Base.Outcome.{ok, raised}

abbrev recent_events : ReplayCache
recent_events = record { ttl_seconds = 300; max_entries = 100; entries = ("a", 900) ∷ [] }

abbrev keyed : String → String → String
keyed secret body = secret

abbrev processed : Handled
processed = record { answer = ok true; cache = recent_events; tables = ledger }

event_named : ◌≢◌ {A = String} "mpesa:event_id:9" ""
event_named e = false≢true ((==_iff "mpesa:event_id:9" "").1 e)

abbrev settled_charge : PaymentIntent
settled_charge = record charge { status = PaymentStatus.completed }

abbrev settled_ledger : PayTables
settled_ledger = record { intents = (5, settled_charge) ∷ []; jobs = listings }

pending_not_completed : PaymentStatus.pending ≢ PaymentStatus.completed
pending_not_completed e = ground arith

handle_callback-once_example :
    let first_ =
      handle_callback RedisRead.no_redis RedisWrite.no_redis 1000 "mpesa:event_id:9"
        (some "r-1")
        (some 5)
        (codes "completed")
        none
        recent_events
        ledger in
    let second =
      handle_callback RedisRead.no_redis RedisWrite.no_redis 1100 "mpesa:event_id:9" none none
        (codes "failed")
        none
        first_.cache
        first_.tables in
    (second.answer ≡ ok false) × (second.tables ≡ first_.tables)
unfolding cache_contains handle_callback prune
handle_callback-once_example =
    handle_callback-once 1000 1100 "mpesa:event_id:9" (some "r-1") none (some 5) none
      (codes "completed") (codes "failed") none none recent_events ledger true event_named
      (omega arith) (omega arith) (omega arith) refl refl

receive_callback_total_example :
    (IsGenuine keyed "{}" (some "k") (some "k") 1000 (some 900)
      × (receive_callback keyed "{}"
            (some "k")
            (some "k")
            1000
            (some 900)
            processed
            recent_events
            ledger
          ≡ processed))
    ⊎ ((e : CallbackError) × (receive_callback keyed "{}"
            (some "k")
            (some "k")
            1000
            (some 900)
            processed
            recent_events
            ledger
          ≡ record { answer = raised e; cache = recent_events; tables = ledger }))
receive_callback_total_example =
    receive_callback_total keyed "{}" (some "k") (some "k") 1000 (some 900) processed recent_events
      ledger

handle_callback-overwrites_example :
    let h =
      handle_callback RedisRead.no_redis RedisWrite.no_redis 1000 "mpesa:event_id:9"
        (some "r-1")
        (some 5)
        (codes "pending")
        none
        recent_events
        settled_ledger in
    (h.answer ≡ ok true)
    × (h.tables.jobs ≡ settled_ledger.jobs)
    × ((k : ℕ)
        → lookup k h.tables.intents ≡ (
            if 5 == k
            then some (reported 1000 (some "r-1") none PaymentStatus.pending settled_charge)
            else lookup k settled_ledger.intents))
unfolding cache_contains prune parse_status
handle_callback-overwrites_example =
    handle_callback-overwrites RedisRead.no_redis RedisWrite.no_redis 1000 "mpesa:event_id:9"
      (some "r-1") 5 (codes "pending") none recent_events settled_ledger settled_charge
      PaymentStatus.pending refl refl refl pending_not_completed
