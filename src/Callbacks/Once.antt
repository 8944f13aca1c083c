-- ===== src/Callbacks/Once.antt =====
-- backend/app/webhooks/mobile_money.py: callbacks for an event that was answered before.
use employed.Base.{
  ==_iff, Bool, Option, String, ap, arith, false, inl, inr, list_eq, nat_eq, none, option_eq, refl,
  some, string_eq, sym, true, ℕ, ◌+◌, ◌<◌, ◌==◌, ◌∙◌, ◌≡◌, ◌≢◌, ◌≤◌,
}
use employed.Enums.{
  country_eq, job_status_eq, job_type_eq, market_key_eq, membership_status_eq,
  payment_provider_key_eq, payment_status_eq, verification_state_eq,
}
use employed.Models.{PaymentIntent}
use employed.Payments.{PayTables}
use employed.Replay.{
  ReplayCache, add_local, cache_add, cache_contains, contains_local, mark_seen, prune,
}
use employed.Revocation.{RedisRead, RedisWrite}
use employed.Callbacks.{
  Handled, apply_outcome, find_intent, handle_callback, handle_new, parse_status,
}
use employed.Base.Dict.{lookup}
use employed.Base.Text.{Text}
use employed.Base.Outcome.{Outcome-cases, ok, raised}
use employed.Replay.Window.{add_local-contains_local}

mark_seen-settings :
    (key : String) (cache : ReplayCache) (seen : Option ℕ)
    → ((mark_seen key cache seen).1.ttl_seconds ≡ cache.ttl_seconds)
      × ((mark_seen key cache seen).1.max_entries ≡ cache.max_entries)
unfolding mark_seen
mark_seen-settings key cache none = (refl, refl)
mark_seen-settings key cache (some t) = (refl, refl)

contains_local-settings :
    (now : ℕ) (key : String) (cache : ReplayCache)
    → ((contains_local now key cache).1.ttl_seconds ≡ cache.ttl_seconds)
      × ((contains_local now key cache).1.max_entries ≡ cache.max_entries)
unfolding contains_local
contains_local-settings now key cache =
    let kept = prune now cache.ttl_seconds cache.max_entries cache.entries in
    mark_seen-settings key (record cache { entries = kept }) (lookup key kept)

cache_contains-local :
    (now : ℕ) (key : String) (cache : ReplayCache)
    → (key == "") ≡ false
    → cache_contains RedisRead.no_redis now (some key) cache ≡ contains_local now key cache
unfolding cache_contains
cache_contains-local now key cache h = rw h refl

cache_add-local :
    (now : ℕ) (key : String) (cache : ReplayCache)
    → (key == "") ≡ false
    → cache_add RedisWrite.no_redis now (some key) cache ≡ add_local now key cache
unfolding cache_add
cache_add-local now key cache h = rw h refl

-- A new event that raises nothing is added to the cache.
handle_new-cache :
    (write : RedisWrite) (now : ℕ) (key : String) (ref : Option String) (status : Text)
    (reason : Option String) (found : Option (ℕ × PaymentIntent)) (cache : ReplayCache)
    (t : PayTables) (b : Bool)
    → (handle_new write now key ref status reason found cache t).answer ≡ ok b
    → (handle_new write now key ref status reason found cache t).cache
      ≡ cache_add write now (some key) cache
unfolding handle_new
handle_new-cache write now key ref status reason none cache t b h = refl
handle_new-cache write now key ref status reason (some (id, i)) cache t b h =
    elim (Outcome-cases (apply_outcome now id i ref (parse_status status) reason t)) [
      | inl (t', q) ↦ rw (q, handle_new) refl
      | inr (e, q) ↦ (let x : raised e ≡ ok b = rw (q, handle_new) at h in absurd (cc x))
    ]

pub handle_callback-new :
    (read : RedisRead) (write : RedisWrite) (now : ℕ) (key : String) (ref : Option String)
    (id : Option ℕ) (status : Text) (reason : Option String) (cache : ReplayCache) (t : PayTables)
    → (cache_contains read now (some key) cache).0 ≡ false
    → handle_callback read write now key ref id status reason cache t
      ≡ handle_new write now key ref status reason
          (find_intent ref id t.intents)
          (cache_contains read now (some key) cache).1
          t
unfolding handle_callback
handle_callback-new read write now key ref id status reason cache t h = rw h refl

handle_callback-seen :
    (read : RedisRead) (write : RedisWrite) (now : ℕ) (key : String) (ref : Option String)
    (id : Option ℕ) (status : Text) (reason : Option String) (cache : ReplayCache) (t : PayTables)
    → (cache_contains read now (some key) cache).0 ≡ true
    → let h = handle_callback read write now key ref id status reason cache t in
      (h.answer ≡ ok false) × (h.tables ≡ t)
unfolding handle_callback
handle_callback-seen read write now key ref id status reason cache t h = rw h (refl, refl)

-- With no Redis, a key that is not empty and a cache that may hold an entry: take a callback for an
-- event that the cache did not report and that was answered without an exception. If the callback
-- that the process handles directly after it, with no other event in between, is for that event
-- again, and comes before the cache's time to live has passed, then, whatever intent and outcome it
-- names, it is answered as a duplicate and leaves both payment tables as they are.
pub handle_callback-once :
    (now later : ℕ) (key : String) (ref ref' : Option String) (id id' : Option ℕ)
    (status status' : Text) (reason reason' : Option String) (cache : ReplayCache) (t : PayTables)
    (answer : Bool)
    → key ≢ ""
    → 0 < cache.max_entries
    → now ≤ later
    → later < now + cache.ttl_seconds
    → (cache_contains RedisRead.no_redis now (some key) cache).0 ≡ false
    → (handle_callback RedisRead.no_redis RedisWrite.no_redis now key ref id status reason cache
        t).answer
      ≡ ok answer
    → let first_ =
        handle_callback RedisRead.no_redis RedisWrite.no_redis now key ref id status reason cache
          t in
      let second =
        handle_callback RedisRead.no_redis RedisWrite.no_redis later key ref' id' status' reason'
          first_.cache first_.tables in
      (second.answer ≡ ok false) × (second.tables ≡ first_.tables)
handle_callback-once now later key ref ref' id id' status status' reason reason' cache t answer k p
      le young new answered =
    let named : (key == "") ≡ false = ground (arith, ==_iff key "") in
    let found = find_intent ref id t.intents in
    let looked = (cache_contains RedisRead.no_redis now (some key) cache).1 in
    let looked_local =
      ap (λ (r : Bool × ReplayCache). r.1) (cache_contains-local now key cache named) in
    let (ttl, most) = contains_local-settings now key cache in
    let same_ttl = ap (λ (c : ReplayCache). c.ttl_seconds) looked_local ∙ ttl in
    let same_most = ap (λ (c : ReplayCache). c.max_entries) looked_local ∙ most in
    let step =
      handle_callback-new RedisRead.no_redis RedisWrite.no_redis now key ref id status reason cache
        t new in
    let first_ =
      handle_callback RedisRead.no_redis RedisWrite.no_redis now key ref id status reason cache t in
    let stored : first_.cache ≡ add_local now key looked =
      ap (λ (h : Handled). h.cache) step
      ∙ handle_new-cache RedisWrite.no_redis now key ref status reason found looked t answer
          (sym (ap (λ (h : Handled). h.answer) step) ∙ answered)
      ∙ cache_add-local now key looked named in
    let remembered =
      add_local-contains_local now later key looked le (omega (arith, same_ttl, young))
        (omega (arith, same_most, p)) in
    handle_callback-seen RedisRead.no_redis RedisWrite.no_redis later key ref' id' status' reason'
      first_.cache first_.tables
      (ap (λ (r : Bool × ReplayCache). r.0) (cache_contains-local later key first_.cache named)
        ∙ ap (λ c. (contains_local later key c).0) stored
        ∙ remembered.0)
