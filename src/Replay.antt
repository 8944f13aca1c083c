-- ===== src/Replay.antt =====
-- backend/app/webhooks/replay_cache.py: the events that were processed, in Redis or in an ordered
-- map of the process, oldest first. Times are in seconds. Redis is a parameter of each call.
pub mod Window
use employed.Base.{
  Bool, Option, String, [], false, if◌then◌else◌, leb, length, list_eq, ltb, max, nat_eq, none,
  option_eq, some, string_eq, suc, true, ℕ, ◌&&◌, ◌++◌, ◌+◌, ◌==◌, ◌∷◌,
}
use employed.Revocation.{RedisRead, RedisWrite, found, no_redis, read_failed, write_failed, written}
use employed.Base.Dict.{Dict, erase, lookup}

-- The settings of a cache, as its constructor stores them, and its entries.
pub record ReplayCache : Type 0 where
  pub ttl_seconds : ℕ
  pub max_entries : ℕ
  pub entries : Dict String ℕ

unfoldable pub new_cache : ℕ → ℕ → ReplayCache
new_cache ttl_seconds max_entries = record {
  ttl_seconds = max ttl_seconds 1;
  max_entries = max max_entries 1;
  entries = [];
}

-- `_prune`: the oldest entries go, until one is young enough and there are few enough.
unfoldable pub prune : ℕ → ℕ → ℕ → Dict String ℕ → Dict String ℕ
prune now ttl most [] = []
prune now ttl most ((key, seen_at) ∷ entries) =
    let rest = prune now ttl most entries in
    if ltb now (seen_at + ttl) && leb (suc (length entries)) most
    then (key, seen_at) ∷ entries
    else rest

-- Assigning a key and moving it to the end; an entry that is there goes first.
unfoldable pub put_last : String → ℕ → Dict String ℕ → Dict String ℕ
put_last key seen_at entries = erase key entries ++ (key, seen_at) ∷ []

-- What `contains` does with the result of its lookup among the entries that pruning kept.
unfoldable pub mark_seen : String → ReplayCache → Option ℕ → Bool × ReplayCache
unfolding put_last
mark_seen key cache none = (false, cache)
mark_seen key cache (some seen_at) =
    (true, record cache { entries = put_last key seen_at cache.entries })

-- The part of `contains` that holds the lock.
unfoldable pub contains_local : ℕ → String → ReplayCache → Bool × ReplayCache
unfolding prune mark_seen
contains_local now key cache =
    let kept = prune now cache.ttl_seconds cache.max_entries cache.entries in
    mark_seen key (record cache { entries = kept }) (lookup key kept)

-- `ReplayCache.contains`
unfoldable pub cache_contains : RedisRead → ℕ → Option String → ReplayCache → Bool × ReplayCache
unfolding contains_local
cache_contains redis now none cache = (false, cache)
cache_contains redis now (some key) cache = if key == "" then (false, cache) else (elim redis [
  | found hit ↦ (hit, cache)
  | no_redis ↦ contains_local now key cache
  | read_failed ↦ contains_local now key cache
])

-- The part of `add` that holds the lock.
unfoldable pub add_local : ℕ → String → ReplayCache → ReplayCache
unfolding prune put_last
add_local now key cache = record cache {
  entries = prune now cache.ttl_seconds cache.max_entries (put_last key now cache.entries);
}

-- `ReplayCache.add`: the cache of the process after the call.
unfoldable pub cache_add : RedisWrite → ℕ → Option String → ReplayCache → ReplayCache
unfolding add_local
cache_add redis now none cache = cache
cache_add redis now (some key) cache = if key == "" then cache else (elim redis [
  | written ↦ cache
  | no_redis ↦ add_local now key cache
  | write_failed ↦ add_local now key cache
])

-- `ReplayCache.clear`
unfoldable pub clear : ReplayCache → ReplayCache
clear cache = record cache { entries = [] }
