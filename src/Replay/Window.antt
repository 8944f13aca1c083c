-- ===== src/Replay/Window.antt =====
-- backend/app/webhooks/replay_cache.py: how long an event is remembered by the process.
use employed.Base.{
  ==_refl, Bool-cases, Option, String, [], ap, arith, inl, inr, is_some, leb, length, list_eq, ltb,
  nat_eq, none, option_eq, refl, some, string_eq, suc, true, ℕ, ◌&&◌, ◌++◌, ◌+◌, ◌<◌, ◌∙◌, ◌∷◌, ◌≡◌,
  ◌≤◌,
}
use employed.Replay.{ReplayCache, add_local, contains_local, mark_seen, prune, put_last}
use employed.Base.Dict.{Dict, erase, lookup}

length-prune :
    (now ttl most : ℕ) (entries : Dict String ℕ) → length (prune now ttl most entries) ≤ most
unfolding prune
length-prune now ttl most [] = omega arith
length-prune now ttl most ((key, seen_at) ∷ entries) =
    ground (arith, length-prune now ttl most entries)

lookup-last :
    (key : String) (seen_at : ℕ) (entries : Dict String ℕ)
    → is_some (lookup key (entries ++ (key, seen_at) ∷ [])) ≡ true
lookup-last key seen_at [] = ground (arith, ==_refl key)
lookup-last key seen_at ((j, t) ∷ entries) = ground (arith, lookup-last key seen_at entries)

-- A young entry at the end stays at the end.
prune-last :
    (now ttl most : ℕ) (key : String) (seen_at : ℕ) (entries : Dict String ℕ)
    → now < seen_at + ttl
    → 0 < most
    → (front : Dict String ℕ) × (prune now ttl most (entries ++ (key, seen_at) ∷ [])
        ≡ front ++ (key, seen_at) ∷ [])
unfolding prune
prune-last now ttl most key seen_at [] young p = ([], ground (arith, young, p))
prune-last now ttl most key seen_at ((j, t) ∷ entries) young p =
    elim (Bool-cases
      (ltb now (t + ttl) && leb (suc (length (entries ++ (key, seen_at) ∷ []))) most)) [
        | inl e ↦ ((j, t) ∷ entries, rw (e, prune) refl)
        | inr e ↦
            (let (front, q) = prune-last now ttl most key seen_at entries young p in
              (front, rw (e, prune) q))
      ]

mark_seen-is_some :
    (key : String) (cache : ReplayCache) (seen : Option ℕ)
    → (mark_seen key cache seen).0 ≡ is_some seen
unfolding mark_seen
mark_seen-is_some key cache none = refl
mark_seen-is_some key cache (some seen_at) = refl

contains_local-lookup :
    (now : ℕ) (key : String) (cache : ReplayCache)
    → (contains_local now key cache).0
      ≡ is_some (lookup key (prune now cache.ttl_seconds cache.max_entries cache.entries))
unfolding contains_local
contains_local-lookup now key cache =
    let kept = prune now cache.ttl_seconds cache.max_entries cache.entries in
    mark_seen-is_some key (record cache { entries = kept }) (lookup key kept)

-- With no Redis and a cache that may hold an entry: an event that was added is reported as seen at
-- every moment before its time to live has passed, if nothing was added in between, whatever and
-- how much the cache held before; and the cache holds at most its maximum of entries after the
-- addition.
pub add_local-contains_local :
    (now later : ℕ) (key : String) (cache : ReplayCache)
    → now ≤ later
    → later < now + cache.ttl_seconds
    → 0 < cache.max_entries
    → let after = add_local now key cache in
      ((contains_local later key after).0 ≡ true) × (length after.entries ≤ cache.max_entries)
unfolding add_local put_last
add_local-contains_local now later key cache le young p =
    let rest = erase key cache.entries in
    let ttl = cache.ttl_seconds in
    let most = cache.max_entries in
    let (front, q) = prune-last now ttl most key now rest (omega (arith, young, le)) p in
    let (front', q') = prune-last later ttl most key now front young p in
    (
      contains_local-lookup later key (add_local now key cache)
          ∙ ap (λ d. is_some (lookup key d)) (ap (prune later ttl most) q ∙ q')
          ∙ lookup-last key now front',
      length-prune now ttl most (rest ++ (key, now) ∷ []),
    )
