-- ===== src/RateLimit/Window.antt =====
-- backend/app/middleware/rate_limit.py: what the in-process window lets through.
use employed.Base.{
  ==_iff, All, All-append, Bool, Bool-cases, List, String, [], ap, arith, false, if◌then◌else◌, inl,
  inr, leb, length, length-append, list_eq, ltb, nat_eq, not, option_eq, refl, string_eq, suc, true,
  ℕ, ◌&&◌, ◌++◌, ◌+◌, ◌<◌, ◌==◌, ◌∙◌, ◌∷◌, ◌≡◌, ◌≤◌,
}
use employed.RateLimit.{RateError, bucket_of, evict, hit, hit_bucket, too_many_requests}
use employed.Base.Dict.{Dict, lookup-insert}
use employed.Base.Outcome.{Outcome, ok, raised}

-- The times are in order and none is after `now`.
abbrev pub IsOrdered : ℕ → List ℕ → Type 0
IsOrdered now [] = Unit
IsOrdered now (t ∷ bucket) = (t ≤ now) × All (λ u. t ≤ u) bucket × IsOrdered now bucket

-- The number of times that lie in the window that ends now.
unfoldable pub recent_count : ℕ → ℕ → List ℕ → ℕ
recent_count now window [] = 0
recent_count now window (t ∷ bucket) =
    let n = recent_count now window bucket in if ltb now (t + window) then suc n else n

recent_count-All :
    (now window least : ℕ) (bucket : List ℕ)
    → now < least + window
    → All (λ u. least ≤ u) bucket
    → recent_count now window bucket ≡ length bucket
unfolding recent_count
recent_count-All now window least [] h a = refl
recent_count-All now window least (t ∷ bucket) h a =
    ground (arith, recent_count-All now window least bucket h a.1, a.0)

-- What `evict` leaves is what lies in the window.
length-evict :
    (now window bound : ℕ) (bucket : List ℕ)
    → IsOrdered bound bucket
    → length (evict now window bucket) ≡ recent_count now window bucket
unfolding evict recent_count
length-evict now window bound [] h = refl
length-evict now window bound (t ∷ bucket) h = elim (Bool-cases (leb (t + window) now)) [
  | inl e ↦ rw (e, evict) (ground (arith, length-evict now window bound bucket h.2))
  | inr e ↦ rw (e, evict) (ground (arith, recent_count-All now window t bucket (ground arith) h.1))
]

evict-IsOrdered :
    (now window bound : ℕ) (bucket : List ℕ)
    → IsOrdered bound bucket
    → IsOrdered bound (evict now window bucket)
unfolding evict
evict-IsOrdered now window bound [] h = tt
evict-IsOrdered now window bound (t ∷ bucket) h = elim (Bool-cases (leb (t + window) now)) [
  | inl e ↦ rw (e, evict) (evict-IsOrdered now window bound bucket h.2)
  | inr e ↦ rw (e, evict) h
]

All-weaken : (a b : ℕ) (xs : List ℕ) → a ≤ b → All (λ u. b ≤ u) xs → All (λ u. a ≤ u) xs
All-weaken a b [] le h = tt
All-weaken a b (x ∷ xs) le h = (omega (arith, le, h.0), All-weaken a b xs le h.1)

IsOrdered-append :
    (bound now : ℕ) (bucket : List ℕ)
    → bound ≤ now
    → IsOrdered bound bucket
    → IsOrdered now (bucket ++ now ∷ [])
IsOrdered-append bound now [] le h = (omega arith, tt, tt)
IsOrdered-append bound now (t ∷ bucket) le h = (
  omega (arith, le, h.0),
  All-append (λ u. t ≤ u) bucket (now ∷ []) h.1 (omega (arith, le, h.0), tt),
  IsOrdered-append bound now bucket le h.2,
)

IsOrdered-later :
    (bound now : ℕ) (bucket : List ℕ) → bound ≤ now → IsOrdered bound bucket → IsOrdered now bucket
IsOrdered-later bound now [] le h = tt
IsOrdered-later bound now (t ∷ bucket) le h =
    (omega (arith, le, h.0), h.1, IsOrdered-later bound now bucket le h.2)

-- What is evicted lies in no later window.
recent_count-evict :
    (now later window : ℕ) (bucket : List ℕ)
    → now ≤ later
    → recent_count later window (evict now window bucket) ≡ recent_count later window bucket
unfolding evict recent_count
recent_count-evict now later window [] le = refl
recent_count-evict now later window (t ∷ bucket) le = elim (Bool-cases (leb (t + window) now)) [
  | inl e ↦ rw (e, evict) (ground (arith, recent_count-evict now later window bucket le, le))
  | inr e ↦ rw (e, evict) refl
]

recent_count-length :
    (now window : ℕ) (bucket : List ℕ) → recent_count now window bucket ≤ length bucket
unfolding recent_count
recent_count-length now window [] = omega arith
recent_count-length now window (t ∷ bucket) = ground (arith, recent_count-length now window bucket)

recent_count-append :
    (now window : ℕ) (xs ys : List ℕ)
    → recent_count now window (xs ++ ys) ≡ recent_count now window xs + recent_count now window ys
unfolding recent_count
recent_count-append now window [] ys = omega arith
recent_count-append now window (t ∷ xs) ys = ground (arith, recent_count-append now window xs ys)

unfoldable pub is_ok : Outcome RateError (Unit {0}) → Bool
is_ok (ok u) = true
is_ok (raised e) = false

-- The times of the calls for `key` that were let through, in the order of the calls.
unfoldable pub accepted : String → ℕ → ℕ → List (ℕ × String) → Dict String (List ℕ) → List ℕ
accepted key limit window [] buckets = []
accepted key limit window ((now, k) ∷ calls) buckets =
    let (r, after) = hit now k limit window buckets in
    let rest = accepted key limit window calls after in
    if k == key && is_ok r then now ∷ rest else rest

hit-other :
    (now limit window : ℕ) (key k : String) (buckets : Dict String (List ℕ))
    → (k == key) ≡ false
    → bucket_of key (hit now k limit window buckets).1 ≡ bucket_of key buckets
unfolding hit bucket_of
hit-other now limit window key k buckets e =
    rw (lookup-insert k key (hit_bucket now limit window (bucket_of k buckets)).1 buckets, e) refl

hit-same :
    (now limit window : ℕ) (key k : String) (buckets : Dict String (List ℕ))
    → (k == key) ≡ true
    → (bucket_of key (hit now k limit window buckets).1
        ≡ (hit_bucket now limit window (bucket_of key buckets)).1)
      × ((hit now k limit window buckets).0
          ≡ (hit_bucket now limit window (bucket_of key buckets)).0)
unfolding hit bucket_of
hit-same now limit window key k buckets e =
    let q : k ≡ key = (==_iff k key).0 e in
    (
      rw (lookup-insert k key (hit_bucket now limit window (bucket_of k buckets)).1 buckets, e)
          (ap (λ x. (hit_bucket now limit window (bucket_of x buckets)).1) q),
      ap (λ x. (hit_bucket now limit window (bucket_of x buckets)).0) q,
    )

-- A hit for the key and what it lets through, counted at a later moment.
hit_bucket-count :
    (now later limit window : ℕ) (bucket : List ℕ)
    → now ≤ later
    → length (evict now window bucket) ≤ limit
    → let (r, after) = hit_bucket now limit window bucket in
      (recent_count later window after
        ≡ recent_count later window bucket
          + (if is_ok r then recent_count later window (now ∷ []) else 0))
      × length after ≤ limit
unfolding hit_bucket is_ok
hit_bucket-count now later limit window bucket le b =
    elim (Bool-cases (leb limit (length (evict now window bucket)))) [
      | inl e ↦ rw e (omega (arith, recent_count-evict now later window bucket le), b)
      | inr e ↦ rw e (
        omega (
          arith,
          recent_count-append later window (evict now window bucket) (now ∷ []),
          recent_count-evict now later window bucket le,
        ),
        ground (arith, length-append (evict now window bucket) (now ∷ [])),
      )
    ]

recent_count-cons :
    (now window t : ℕ) (ts : List ℕ)
    → recent_count now window (t ∷ ts)
      ≡ recent_count now window (t ∷ []) + recent_count now window ts
unfolding recent_count
recent_count-cons now window t ts = ground arith

length-evict_le :
    (now window : ℕ) (bucket : List ℕ) → length (evict now window bucket) ≤ length bucket
unfolding evict
length-evict_le now window [] = omega arith
length-evict_le now window (t ∷ bucket) = ground (arith, length-evict_le now window bucket)

-- One call for the key, on top of what holds of the calls that follow.
accepted-same :
    (key : String) (later limit window now : ℕ) (k : String) (calls : List (ℕ × String))
    (buckets : Dict String (List ℕ))
    → now ≤ later
    → length (bucket_of key buckets) ≤ limit
    → (k == key) ≡ true
    → (length (bucket_of key (hit now k limit window buckets).1) ≤ limit
        → recent_count later window (bucket_of key (hit now k limit window buckets).1)
            + recent_count later window
                (accepted key limit window calls (hit now k limit window buckets).1)
          ≤ limit)
    → recent_count later window (bucket_of key buckets)
        + recent_count later window (accepted key limit window ((now, k) ∷ calls) buckets)
      ≤ limit
unfolding accepted hit
accepted-same key later limit window now k calls buckets le b e ih =
    let bucket = bucket_of key buckets in
    let (o, f) = hit-same now limit window key k buckets e in
    let r = (hit_bucket now limit window bucket).0 in
    let rest = accepted key limit window calls (hit now k limit window buckets).1 in
    let (c, l) =
      hit_bucket-count now later limit window bucket le
        (omega (arith, length-evict_le now window bucket, b)) in
    let ih' = ih (rw o l) in
    let c' = ap (recent_count later window) o in
    elim (Bool-cases (is_ok r)) [
      | inl g ↦
          (let g' = ap is_ok f ∙ g in
            rw (e, g')
              (omega (arith, recent_count-cons later window now rest, (rw g at c), c', ih')))
      | inr g ↦ (let g' = ap is_ok f ∙ g in rw (e, g') (omega (arith, (rw g at c), c', ih')))
    ]

accepted-bound :
    (key : String) (later limit window : ℕ) (calls : List (ℕ × String))
    (buckets : Dict String (List ℕ))
    → All (λ (c : ℕ × String). c.0 ≤ later) calls
    → length (bucket_of key buckets) ≤ limit
    → recent_count later window (bucket_of key buckets)
        + recent_count later window (accepted key limit window calls buckets)
      ≤ limit
unfolding accepted recent_count
accepted-bound key later limit window [] buckets a b =
    omega (arith, recent_count-length later window (bucket_of key buckets), b)
accepted-bound key later limit window ((now, k) ∷ calls) buckets a b =
    let after = (hit now k limit window buckets).1 in
    elim (Bool-cases (k == key)) [
      | inl e ↦
          accepted-same key later limit window now k calls buckets a.0 b e
            (accepted-bound key later limit window calls after a.1)
      | inr e ↦
          (let o = hit-other now limit window key k buckets e in
            rw e (
              omega (
                arith,
                accepted-bound key later limit window calls after a.1 (rw o b),
                ap (recent_count later window) o,
              )))
    ]

-- After any calls, in any order of their times, that start on an empty bucket for the key: at every
-- moment from the latest of the calls on, the calls for the key that were let through in the window
-- that ends then are at most `limit`.
pub accepted_bound :
    (key : String) (later limit window : ℕ) (calls : List (ℕ × String))
    (buckets : Dict String (List ℕ))
    → All (λ (c : ℕ × String). c.0 ≤ later) calls
    → bucket_of key buckets ≡ []
    → recent_count later window (accepted key limit window calls buckets) ≤ limit
accepted_bound key later limit window calls buckets a e =
    omega (arith, accepted-bound key later limit window calls buckets a (rw e (omega arith)))

few :
    (now bound limit window : ℕ) (b : Bool) (bucket : List ℕ)
    → IsOrdered bound bucket
    → leb limit (length (evict now window bucket)) ≡ b
    → ltb (recent_count now window bucket) limit ≡ not b
few now bound limit window b bucket h e =
    rw (← length-evict now window bound bucket h) (ground (arith, e))

-- On an ordered bucket that holds no time after now: a hit is let through exactly when fewer than
-- `limit` times of the bucket lie in the window that ends now, and the bucket stays ordered.
hit_bucket_fair :
    (bound now limit window : ℕ) (bucket : List ℕ)
    → IsOrdered bound bucket
    → bound ≤ now
    → ((hit_bucket now limit window bucket).0
        ≡ (if ltb (recent_count now window bucket) limit then ok tt else raised too_many_requests))
      × IsOrdered now (hit_bucket now limit window bucket).1
unfolding hit_bucket
hit_bucket_fair bound now limit window bucket h le =
    elim (Bool-cases (leb limit (length (evict now window bucket)))) [
      | inl e ↦ rw e (
        rw (few now bound limit window true bucket h e) refl,
        IsOrdered-later bound now (evict now window bucket) le
            (evict-IsOrdered now window bound bucket h),
      )
      | inr e ↦ rw e (
        rw (few now bound limit window false bucket h e) refl,
        IsOrdered-append bound now (evict now window bucket) le
            (evict-IsOrdered now window bound bucket h),
      )
    ]
