-- ===== src/Callbacks/Overwrite.antt =====
-- backend/app/webhooks/mobile_money.py: what a new event writes on the intent it names.
use employed.Base.{
  ==_iff, Bool, Option, String, ap, arith, false, if◌then◌else◌, list_eq, nat_eq, none, option_eq,
  refl, some, string_eq, true, ℕ, ◌==◌, ◌∙◌, ◌≡◌, ◌≢◌,
}
use employed.Enums.{
  PaymentStatus, country_eq, job_status_eq, job_type_eq, market_key_eq, membership_status_eq,
  payment_provider_key_eq, payment_status_eq, verification_state_eq,
}
use employed.Models.{PaymentIntent}
use employed.Payments.{PayTables, given, ref_or}
use employed.Replay.{ReplayCache, cache_contains}
use employed.Revocation.{RedisRead, RedisWrite}
use employed.Callbacks.{
  Handled, apply_outcome, find_intent, handle_callback, handle_new, parse_status, with_outcome,
  with_ref,
}
use employed.Callbacks.Once.{handle_callback-new}
use employed.Base.Dict.{Dict, insert, lookup, lookup-insert}
use employed.Base.Text.{Text}
use employed.Base.Outcome.{ok}

find_intent-id :
    (ref : Option String) (id : ℕ) (intents : Dict ℕ PaymentIntent) (i : PaymentIntent)
    → lookup id intents ≡ some i
    → find_intent ref (some id) intents ≡ some (id, i)
unfolding find_intent
find_intent-id ref id intents i h = rw (h, find_intent) refl

apply_outcome-other :
    (now id : ℕ) (i : PaymentIntent) (ref : Option String) (st : PaymentStatus)
    (reason : Option String) (t : PayTables)
    → (st == PaymentStatus.completed) ≡ false
    → apply_outcome now id i ref (some st) reason t
      ≡ ok
          (record t { intents = insert id (with_outcome now reason st (with_ref ref i)) t.intents })
unfolding apply_outcome
apply_outcome-other now id i ref st reason t h = rw h refl

handle_new-ok :
    (write : RedisWrite) (now : ℕ) (key : String) (ref : Option String) (status : Text)
    (reason : Option String) (id : ℕ) (i : PaymentIntent) (cache : ReplayCache) (t t' : PayTables)
    → apply_outcome now id i ref (parse_status status) reason t ≡ ok t'
    → ((handle_new write now key ref status reason (some (id, i)) cache t).answer ≡ ok true)
      × ((handle_new write now key ref status reason (some (id, i)) cache t).tables ≡ t')
unfolding handle_new
handle_new-ok write now key ref status reason id i cache t t' q =
    (rw (q, handle_new) refl, rw (q, handle_new) refl)

-- The row that a status other than "completed" leaves, told apart from the code.
abbrev pub ends : PaymentStatus → Bool
ends PaymentStatus.failed = true
ends PaymentStatus.cancelled = true
ends PaymentStatus.expired = true
ends _ = false

abbrev pub reason_of : PaymentStatus → Option String → Option String
reason_of PaymentStatus.failed reason = reason
reason_of _ reason = none

abbrev pub reported :
    ℕ → Option String → Option String → PaymentStatus → PaymentIntent → PaymentIntent
reported now ref reason status i = record i {
  status = status;
  provider_ref = (if given ref then ref else i.provider_ref);
  failure_reason = reason_of status reason;
  settled_at = (if ends status then some now else i.settled_at);
  updated_at = now;
}

outcome-reported :
    (now : ℕ) (ref reason : Option String) (status : PaymentStatus) (i : PaymentIntent)
    → with_outcome now reason status (with_ref ref i) ≡ reported now ref reason status i
unfolding with_outcome with_ref ref_or
outcome-reported now ref reason PaymentStatus.pending i = refl
outcome-reported now ref reason PaymentStatus.awaiting_user i = refl
outcome-reported now ref reason PaymentStatus.completed i = refl
outcome-reported now ref reason PaymentStatus.failed i = refl
outcome-reported now ref reason PaymentStatus.cancelled i = refl
outcome-reported now ref reason PaymentStatus.expired i = refl

-- A new event that names an intent by its id and gives it a status other than "completed" writes,
-- whatever status the intent had, a completed one included: that status, the reason only if it is
-- "failed", the time as the end of the intent if the status is an end and otherwise the end that it
-- had, the time of the update, and the reference unless it is absent or empty. All other intents and
-- all jobs stay, a featured job too.
pub handle_callback-overwrites :
    (read : RedisRead) (write : RedisWrite) (now : ℕ) (key : String) (ref : Option String) (id : ℕ)
    (status : Text) (reason : Option String) (cache : ReplayCache) (t : PayTables)
    (i : PaymentIntent) (st : PaymentStatus)
    → (cache_contains read now (some key) cache).0 ≡ false
    → lookup id t.intents ≡ some i
    → parse_status status ≡ some st
    → st ≢ PaymentStatus.completed
    → let h = handle_callback read write now key ref (some id) status reason cache t in
      (h.answer ≡ ok true)
      × (h.tables.jobs ≡ t.jobs)
      × ((k : ℕ)
          → lookup k h.tables.intents
            ≡ (if id == k then some (reported now ref reason st i) else lookup k t.intents))
handle_callback-overwrites read write now key ref id status reason cache t i st new row parsed o =
    let looked = (cache_contains read now (some key) cache).1 in
    let e : (st == PaymentStatus.completed) ≡ false =
      ground (arith, ==_iff st PaymentStatus.completed) in
    let written = with_outcome now reason st (with_ref ref i) in
    let t' : PayTables = record t { intents = insert id written t.intents } in
    let (a, b) = handle_new-ok write now key ref status reason id i looked t t' (
      ap (λ s. apply_outcome now id i ref s reason t) parsed
      ∙ apply_outcome-other now id i ref st reason t e) in
    let step =
      handle_callback-new read write now key ref (some id) status reason cache t new
      ∙ ap (λ f. handle_new write now key ref status reason f looked t)
          (find_intent-id ref id t.intents i row) in
    let tables = ap (λ (h : Handled). h.tables) step ∙ b in
    (
      ap (λ (h : Handled). h.answer) step ∙ a,
      ap (λ (x : PayTables). x.jobs) tables,
      λ k.
          ap (λ (x : PayTables). lookup k x.intents) tables
          ∙ lookup-insert id k written t.intents
          ∙ ap (λ x. if id == k then some x else lookup k t.intents)
              (outcome-reported now ref reason st i),
    )
