-- ===== src/RateLimit.antt =====
-- backend/app/middleware/rate_limit.py: the in-process sliding window, the fixed window in Redis and
-- the choice between them. Times are in seconds. Redis is the answer that it gives to `incr`.
pub mod Window
pub mod ClientIp
use employed.Base.{
  Bool, List, Option, String, [], false, if◌then◌else◌, is_empty, leb, length, list_eq, ltb, nat_eq,
  none, not, option_eq, or_else, some, string_eq, true, ℕ, ◌&&◌, ◌++◌, ◌+◌, ◌==◌, ◌∷◌,
}
use employed.Base.Dict.{Dict, insert, lookup}
use employed.Base.Outcome.{Outcome, ok, raised}
use employed.Base.Text.{Text, codes, strip}

pub data RateError : Type 0 where
  too_many_requests : RateError

-- `while bucket and bucket[0] <= now - window: bucket.popleft()`, the cutoff written as a sum.
unfoldable pub evict : ℕ → ℕ → List ℕ → List ℕ
evict now window [] = []
evict now window (t ∷ bucket) = elim (leb (t + window) now) [
  | true ↦ evict now window bucket
  | false ↦ t ∷ bucket
]

-- `InMemoryRateLimiter.hit` on the bucket of the key.
unfoldable pub hit_bucket : ℕ → ℕ → ℕ → List ℕ → Outcome RateError (Unit {0}) × List ℕ
unfolding evict
hit_bucket now limit window bucket =
    let recent = evict now window bucket in
    if leb limit (length recent)
    then (raised too_many_requests, recent)
    else (ok tt, recent ++ now ∷ [])

-- A key that has no bucket yet has an empty one (`defaultdict(deque)`).
unfoldable pub bucket_of : String → Dict String (List ℕ) → List ℕ
bucket_of key buckets = or_else (lookup key buckets) []

unfoldable pub hit :
    ℕ → String → ℕ → ℕ → Dict String (List ℕ) → Outcome RateError (Unit {0}) × Dict String (List ℕ)
unfolding hit_bucket bucket_of
hit now key limit window buckets =
    let (r, bucket) = hit_bucket now limit window (bucket_of key buckets) in
    (r, insert key bucket buckets)

-- What became of `incr`: Redis is not configured, it failed, or it answered with the count.
pub data RedisCount : Type 0 where
  not_configured failed : RedisCount
  counted : ℕ → RedisCount

-- `_hit`: a count decides; without one the in-process buckets do.
unfoldable pub count_hit :
    RedisCount
    → ℕ
    → String
    → ℕ
    → ℕ
    → Dict String (List ℕ)
    → Outcome RateError (Unit {0}) × Dict String (List ℕ)
unfolding hit
count_hit not_configured now key limit window buckets = hit now key limit window buckets
count_hit failed now key limit window buckets = hit now key limit window buckets
count_hit (counted n) now key limit window buckets =
    (if ltb limit n then raised too_many_requests else ok tt, buckets)

-- `forwarded.split(",")[-1]`: what stands after the last comma; `part` is what the loop has of it.
unfoldable pub last_part_from : Text → Text → Text
last_part_from part [] = part
last_part_from part (c ∷ cs) = last_part_from (if c == b',' then [] else part ++ c ∷ []) cs

unfoldable pub last_part : Text → Text
unfolding last_part_from
last_part = last_part_from []

-- `direct or "unknown"`
unfoldable pub host_or_unknown : Option Text → Text
host_or_unknown none = codes "unknown"
host_or_unknown (some host) = if is_empty host then codes "unknown" else host

-- `_is_trusted_proxy` but for `trusted`, which parses the host and looks it up in the networks.
unfoldable pub is_trusted_proxy : (Text → Bool) → Option Text → Bool
is_trusted_proxy trusted none = false
is_trusted_proxy trusted (some host) = not (is_empty host) && trusted host

-- `_client_ip`: the host of the peer, if there is one, and the X-Forwarded-For header.
unfoldable pub client_ip : (Text → Bool) → Option Text → Option Text → Text
unfolding last_part host_or_unknown is_trusted_proxy
client_ip trusted direct none = host_or_unknown direct
client_ip trusted direct (some forwarded) =
    let candidate = strip (last_part forwarded) in
    if not (is_empty forwarded) && is_trusted_proxy trusted direct
    then (if is_empty candidate then host_or_unknown direct else candidate)
    else host_or_unknown direct
