-- ===== src/Revocation/Lifetime.antt =====
-- backend/app/auth/revocation.py: how long a revocation lasts.
use employed.Base.{
  ==_iff, ==_refl, Bool-cases, Option, String, [], ap, arith, false, if◌then◌else◌, inl, inr,
  is_some, leb, list_eq, ltb, nat_eq, none, not, option_eq, refl, some, string_eq, sym, true, ℕ,
  ◌&&◌, ◌+◌, ◌<◌, ◌==◌, ◌||◌, ◌∙◌, ◌∷◌, ◌≡◌, ◌≢◌, ◌≤◌,
}
use employed.Base.Dict.{Dict, insert, lookup, lookup-insert}
use employed.Revocation.{RedisRead, RedisWrite, is_revoked, prune_memory_store, revoke_jti}

-- A token has at most one entry in the process's store, as in a Python dict.
abbrev pub IsStore : Dict String ℕ → Type 0
IsStore [] = Unit
IsStore ((jti, exp) ∷ store) = (lookup jti store ≡ none) × IsStore store

-- The expiry, unless it has come.
unfoldable pub live : ℕ → Option ℕ → Option ℕ
live now none = none
live now (some exp) = if leb exp now then none else some exp

lookup_congr :
    (j k : String) (store : Dict String ℕ) → (j == k) ≡ true → lookup j store ≡ lookup k store
lookup_congr j k store h = ap (λ x. lookup x store) ((==_iff j k).0 h)

lookup-prune_absent :
    (now : ℕ) (jti : String) (store : Dict String ℕ)
    → lookup jti store ≡ none
    → lookup jti (prune_memory_store now store) ≡ none
unfolding prune_memory_store
lookup-prune_absent now jti [] h = refl
lookup-prune_absent now jti ((j, exp) ∷ store) h = ground (arith, lookup-prune_absent now jti store)

-- Pruning keeps exactly the entries that have not expired.
pub lookup-prune :
    (now : ℕ) (jti : String) (store : Dict String ℕ)
    → IsStore store
    → lookup jti (prune_memory_store now store) ≡ live now (lookup jti store)
unfolding prune_memory_store live
lookup-prune now jti [] h = refl
lookup-prune now jti ((j, exp) ∷ store) h = ground (
  arith,
  lookup-prune now jti store h.1,
  lookup-prune_absent now jti store,
  lookup_congr j jti store,
  h.0,
)

pub prune-IsStore :
    (now : ℕ) (store : Dict String ℕ) → IsStore store → IsStore (prune_memory_store now store)
unfolding prune_memory_store
prune-IsStore now [] h = tt
prune-IsStore now ((j, exp) ∷ store) h = elim (Bool-cases (leb exp now)) [
  | inl e ↦ rw e (prune-IsStore now store h.1)
  | inr e ↦ rw e (lookup-prune_absent now j store h.0, prune-IsStore now store h.1)
]

pub insert-IsStore :
    (k : String) (v : ℕ) (store : Dict String ℕ) → IsStore store → IsStore (insert k v store)
insert-IsStore k v [] h = (refl, tt)
insert-IsStore k v ((j, w) ∷ store) h = elim (Bool-cases (j == k)) [
  | inl e ↦ rw e h
  | inr e ↦ rw e (
    ground (arith, lookup-insert k j v store, ==_iff k j, ==_iff j k, h.0),
    insert-IsStore k v store h.1,
  )
]

-- The answer without Redis is that of the unpruned store, its expired entries left out.
pub is_revoked-live :
    (later : ℕ) (jti : String) (store : Dict String ℕ)
    → IsStore store
    → (is_revoked RedisRead.no_redis later jti store).0
      ≡ (not (jti == "") && is_some (live later (lookup jti store)))
unfolding is_revoked
is_revoked-live later jti store h = elim (Bool-cases (jti == "")) [
  | inl e ↦ rw e refl
  | inr e ↦ rw e (ap is_some (lookup-prune later jti store h))
]

revoke_jti-local :
    (now : ℕ) (jti : String) (ttl : ℕ) (store : Dict String ℕ)
    → jti ≢ ""
    → 0 < ttl
    → (revoke_jti RedisWrite.no_redis now jti ttl store).1
      ≡ insert jti (now + ttl) (prune_memory_store now store)
unfolding revoke_jti
revoke_jti-local now jti ttl store j p =
    let e : (jti == "" || ttl == 0) ≡ false = ground (arith, ==_iff jti "", ==_iff ttl 0) in
    rw e refl

pub live-live :
    (now later : ℕ) (o : Option ℕ) → now ≤ later → live later (live now o) ≡ live later o
unfolding live
live-live now later none le = refl
live-live now later (some exp) le = ground (arith, le)

-- With no Redis, on a store with one entry for a token at most: a token with a name that is not
-- empty, revoked for a positive time to live, is reported revoked at a later moment exactly while
-- its time has not run out, and every other token as it would have been without the revocation; the
-- store still has one entry for a token at most.
pub revoke_jti-is_revoked :
    (now later : ℕ) (jti other : String) (ttl : ℕ) (store : Dict String ℕ)
    → IsStore store
    → jti ≢ ""
    → other ≢ jti
    → 0 < ttl
    → now ≤ later
    → let after = (revoke_jti RedisWrite.no_redis now jti ttl store).1 in
      IsStore after
      × ((is_revoked RedisRead.no_redis later jti after).0 ≡ ltb later (now + ttl))
      × ((is_revoked RedisRead.no_redis later other after).0
          ≡ (is_revoked RedisRead.no_redis later other store).0)
unfolding live
revoke_jti-is_revoked now later jti other ttl store h j o p le =
    let kept = prune_memory_store now store in
    let k = insert-IsStore jti (now + ttl) kept (prune-IsStore now store h) in
    let n : (jti == other) ≡ false = ground (arith, ==_iff jti other) in
    rw (revoke_jti-local now jti ttl store j p) (
      k,
      is_revoked-live later jti (insert jti (now + ttl) kept) k
          ∙ (rw (lookup-insert jti jti (now + ttl) kept, ==_refl jti)
              (ground (arith, ==_iff jti ""))),
      is_revoked-live later other (insert jti (now + ttl) kept) k
          ∙ (rw
              (
                lookup-insert jti other (now + ttl) kept,
                n,
                lookup-prune now other store h,
                live-live now later (lookup other store) le,
              )
              (sym (is_revoked-live later other store h))),
    )
