-- ===== src/Revocation.antt =====
-- backend/app/auth/revocation.py: revoked refresh tokens, in Redis or in the process. Times are in
-- seconds. Redis is a parameter of each call: what it answers, or that it is not there.
pub mod Lifetime
pub mod Expiry
use employed.Base.{
  Bool, String, [], false, if◌then◌else◌, is_some, leb, list_eq, nat_eq, option_eq, string_eq, true,
  ℕ, ◌+◌, ◌==◌, ◌||◌, ◌∷◌,
}
use employed.Base.Dict.{Dict, insert, lookup}

-- What Redis did with a write.
pub data RedisWrite : Type 0 where
  no_redis write_failed written : RedisWrite

-- What Redis answered to a read.
pub data RedisRead : Type 0 where
  no_redis read_failed : RedisRead
  found : Bool → RedisRead

-- `_prune_memory_store`
unfoldable pub prune_memory_store : ℕ → Dict String ℕ → Dict String ℕ
prune_memory_store now [] = []
prune_memory_store now ((jti, exp) ∷ store) =
    let rest = prune_memory_store now store in if leb exp now then rest else (jti, exp) ∷ rest

-- `revoke_jti`: whether the write was taken, and the store of the process.
unfoldable pub revoke_jti : RedisWrite → ℕ → String → ℕ → Dict String ℕ → Bool × Dict String ℕ
unfolding prune_memory_store
revoke_jti redis now jti ttl_seconds store =
    let local = insert jti (now + ttl_seconds) (prune_memory_store now store) in
    if jti == "" || ttl_seconds == 0
    then (false, store)
    else (elim redis [ written ↦ (true, store) | _ ↦ (true, local) ])

-- `is_revoked`: the answer, and the pruned store.
unfoldable pub is_revoked : RedisRead → ℕ → String → Dict String ℕ → Bool × Dict String ℕ
unfolding prune_memory_store
is_revoked redis now jti store =
    let pruned = prune_memory_store now store in
    if jti == ""
    then (false, store)
    else (elim redis [ found true ↦ (true, store) | _ ↦ (is_some (lookup jti pruned), pruned) ])

-- `reset_memory_store`
unfoldable pub reset_memory_store : Dict String ℕ → Dict String ℕ
reset_memory_store store = []
