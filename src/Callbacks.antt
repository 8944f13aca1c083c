-- ===== src/Callbacks.antt =====
-- backend/app/webhooks/mobile_money.py: what a callback of a provider does, the fields of its
-- payload read: the duplicate check, the search of the intent and the outcome.
pub mod Once
pub mod Overwrite
pub mod Guard
pub mod Signed
use employed.Base.{
  Bool, Option, String, [], contains, false, if◌then◌else◌, is_empty, list_eq, ltb, nat_eq, none,
  option_eq, or_else, some, string_eq, true, ℕ, ◌==◌, ◌||◌, ◌∷◌,
}
use employed.Enums.{
  PaymentStatus, awaiting_user, cancelled, completed, country_eq, expired, failed, job_status_eq,
  job_type_eq, market_key_eq, membership_status_eq, payment_provider_key_eq, payment_status_eq,
  pending, verification_state_eq,
}
use employed.Models.{PaymentIntent}
use employed.Payments.{PayTables, ref_or, settle_intent}
use employed.Replay.{ReplayCache, cache_add, cache_contains}
use employed.Revocation.{RedisRead, RedisWrite}
use employed.Base.Dict.{Dict, insert, lookup}
use employed.Base.Text.{Text, codes, lower, strip}
use employed.Base.Outcome.{Outcome, ok, raised}

-- `_normalize_status`
unfoldable pub normalize_status : Option Text → Text
unfolding strip
normalize_status value =
    let text = or_else value [] in
    let normalized = lower (strip (if is_empty text then codes "pending" else text)) in
    if contains normalized (codes "success" ∷ codes "successful" ∷ codes "paid" ∷ [])
    then codes "completed"
    else if contains normalized (codes "error" ∷ codes "declined" ∷ [])
    then codes "failed"
    else if contains normalized (codes "timeout" ∷ codes "timed_out" ∷ [])
    then codes "failed"
    else normalized

-- The row of the later creation, the first of the two where they are equal.
unfoldable pub later_row : ℕ × PaymentIntent → Option (ℕ × PaymentIntent) → ℕ × PaymentIntent
later_row row none = row
later_row row (some other) = if ltb row.1.created_at other.1.created_at then other else row

-- The newest intent with a reference of the provider.
unfoldable pub latest_with_ref : String → Dict ℕ PaymentIntent → Option (ℕ × PaymentIntent)
unfolding later_row
latest_with_ref ref [] = none
latest_with_ref ref ((id, intent) ∷ intents) =
    let rest = latest_with_ref ref intents in
    if intent.provider_ref == some ref then some (later_row (id, intent) rest) else rest

-- The second half of `_find_intent`.
unfoldable pub find_by_ref : Option String → Dict ℕ PaymentIntent → Option (ℕ × PaymentIntent)
unfolding latest_with_ref
find_by_ref none intents = none
find_by_ref (some ref) intents = if ref == "" then none else latest_with_ref ref intents

-- `_find_intent`: the intent under the id, otherwise the newest with the reference.
unfoldable pub find_intent :
    Option String → Option ℕ → Dict ℕ PaymentIntent → Option (ℕ × PaymentIntent)
unfolding find_by_ref
find_intent provider_ref none intents = find_by_ref provider_ref intents
find_intent provider_ref (some id) intents = elim (lookup id intents) [
  | some intent ↦ some (id, intent)
  | none ↦ find_by_ref provider_ref intents
]

pub data CallbackError : Type 0 where
  no_such_status secret_missing signature_missing : CallbackError
  signature_invalid timestamp_missing stale_payload : CallbackError

-- `if provider_ref: intent.provider_ref = provider_ref`
unfoldable pub with_ref : Option String → PaymentIntent → PaymentIntent
unfolding ref_or
with_ref provider_ref intent = record intent {
  provider_ref = ref_or provider_ref intent.provider_ref;
}

-- The branch of an outcome other than "completed", whose text is a status.
unfoldable pub with_outcome : ℕ → Option String → PaymentStatus → PaymentIntent → PaymentIntent
with_outcome now reason status intent = record intent {
  status = status;
  failure_reason = if status == PaymentStatus.failed then reason else none;
  settled_at =
      if status == PaymentStatus.failed
        || (status == PaymentStatus.cancelled || status == PaymentStatus.expired)
      then some now
      else intent.settled_at;
  updated_at = now;
}

-- `PaymentStatus(text)`; `none` is a text that is no member.
unfoldable pub parse_status : Text → Option PaymentStatus
parse_status text =
    if text == codes "pending"
    then some PaymentStatus.pending
    else if text == codes "awaiting_user"
    then some PaymentStatus.awaiting_user
    else if text == codes "completed"
    then some PaymentStatus.completed
    else if text == codes "failed"
    then some PaymentStatus.failed
    else if text == codes "cancelled"
    then some PaymentStatus.cancelled
    else if text == codes "expired"
    then some PaymentStatus.expired
    else none

-- The effect on the tables, the status parsed. A completed intent is settled again without a
-- commit, so that nothing is kept; a text that is no status fails at the commit.
unfoldable pub apply_outcome :
    ℕ
    → ℕ
    → PaymentIntent
    → Option String
    → Option PaymentStatus
    → Option String
    → PayTables
    → Outcome CallbackError PayTables
unfolding with_ref with_outcome settle_intent
apply_outcome now id intent provider_ref none reason t = raised no_such_status
apply_outcome now id intent provider_ref (some status) reason t =
    let known = record t { intents = insert id (with_ref provider_ref intent) t.intents } in
    let outcome = with_outcome now reason status (with_ref provider_ref intent) in
    if status == PaymentStatus.completed
    then (if intent.status == PaymentStatus.completed
        then ok t
        else ok (settle_intent now id provider_ref known).1)
    else ok (record t { intents = insert id outcome t.intents })

-- What a callback leaves: whether it updated an intent, or the exception; the cache; the tables.
pub record Handled : Type 0 where
  pub answer : Outcome CallbackError Bool
  pub cache : ReplayCache
  pub tables : PayTables

-- `_handle_callback` once it is known that the event is new and which intent it is about.
unfoldable pub handle_new :
    RedisWrite
    → ℕ
    → String
    → Option String
    → Text
    → Option String
    → Option (ℕ × PaymentIntent)
    → ReplayCache
    → PayTables
    → Handled
unfolding cache_add apply_outcome parse_status
handle_new write now key provider_ref status reason none cache t = record {
  answer = ok false;
  cache = cache_add write now (some key) cache;
  tables = t;
}
handle_new write now key provider_ref status reason (some (id, intent)) cache t =
    elim (apply_outcome now id intent provider_ref (parse_status status) reason t) [
      | raised e ↦ record { answer = raised e; cache = cache; tables = t }
      | ok t' ↦ record {
        answer = ok true;
        cache = cache_add write now (some key) cache;
        tables = t';
      }
    ]

-- `_handle_callback`, the signature and the time stamp checked; `key` is its cache key.
unfoldable pub handle_callback :
    RedisRead
    → RedisWrite
    → ℕ
    → String
    → Option String
    → Option ℕ
    → Text
    → Option String
    → ReplayCache
    → PayTables
    → Handled
unfolding cache_contains find_intent handle_new
handle_callback read write now key provider_ref intent_id status reason cache t =
    let (seen, looked) = cache_contains read now (some key) cache in
    if seen
    then record { answer = ok false; cache = looked; tables = t }
    else handle_new write now key provider_ref status reason
        (find_intent provider_ref intent_id t.intents) looked t
