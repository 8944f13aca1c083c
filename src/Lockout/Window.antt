-- ===== src/Lockout/Window.antt =====
-- backend/app/routers/auth.py: what a failed login does to the lock of its key, and of the others.
use employed.Base.{
  ==_iff, ==_refl, Bool, Bool-cases, List, Option, [], ap, arith, false, false≢true, if◌then◌else◌,
  inl, inr, is_empty, leb, length, list_eq, ltb, nat_eq, none, option_eq, or_else, refl, some,
  string_eq, sym, true, ℕ, ◌&&◌, ◌++◌, ◌+◌, ◌<◌, ◌==◌, ◌∙◌, ◌∷◌, ◌≡◌, ◌≢◌, ◌≤◌,
}
use employed.Base.Text.{Text}
use employed.Base.Dict.{Dict, erase, insert, lookup, lookup-erase, lookup-insert}
use employed.Lockout.{
  Tracker, attempts_of, drop_old, is_locked, is_over, prune, record_failure, still_locked,
  store_attempts,
}

lookup-prune_locks :
    (key other : Text) (now : ℕ) (t : Tracker)
    → lookup other (prune key now t).locks
      ≡ (if key == other && is_over now (lookup key t.locks) then none else lookup other t.locks)
unfolding prune
lookup-prune_locks key other now t = elim (Bool-cases (is_over now (lookup key t.locks))) [
  | inl e ↦ rw (e, lookup-erase key other t.locks) (ground arith)
  | inr e ↦ rw e (ground arith)
]

or_else-if :
    {A : Type 0} (b : Bool) (x y : Option (List A))
    → or_else (if b then x else y) [] ≡ (if b then or_else x [] else or_else y [])
or_else-if true x y = refl
or_else-if false x y = refl

empty-nil : {A : Type 0} (xs : List A) → is_empty xs ≡ true → xs ≡ []
empty-nil [] h = refl
empty-nil (x ∷ xs) h = absurd (false≢true h)

attempts-erase :
    (key other : Text) (d : Dict Text (List ℕ))
    → or_else (lookup other (erase key d)) []
      ≡ (if key == other then [] else or_else (lookup other d) [])
attempts-erase key other d =
    rw (lookup-erase key other d) (or_else-if (key == other) none (lookup other d))

attempts-insert :
    (key other : Text) (bucket : List ℕ) (d : Dict Text (List ℕ))
    → or_else (lookup other (insert key bucket d)) []
      ≡ (if key == other then bucket else or_else (lookup other d) [])
attempts-insert key other bucket d =
    rw (lookup-insert key other bucket d) (or_else-if (key == other) (some bucket) (lookup other d))

lookup-prune_attempts :
    (key other : Text) (now : ℕ) (t : Tracker)
    → attempts_of other (prune key now t)
      ≡ (if key == other then drop_old now (attempts_of key t) else attempts_of other t)
unfolding prune attempts_of
lookup-prune_attempts key other now t =
    let bucket = drop_old now (attempts_of key t) in
    elim (Bool-cases (is_empty bucket)) [
      | inl e ↦ rw e (rw (attempts-erase key other t.attempts, empty-nil bucket e) refl)
      | inr e ↦ rw e (attempts-insert key other bucket t.attempts)
    ]

still_locked-over :
    (now later : ℕ) (o : Option ℕ)
    → now ≤ later
    → still_locked later (if is_over now o then none else o) ≡ still_locked later o
unfolding still_locked is_over
still_locked-over now later none le = refl
still_locked-over now later (some locked_until) le = ground (arith, le)

-- An answer on the lock, from the store as it was.
pub is_locked-locks :
    (key : Text) (now : ℕ) (t : Tracker)
    → (is_locked key now t).0 ≡ still_locked now (lookup key t.locks)
unfolding is_locked
is_locked-locks key now t =
    ap (still_locked now) (lookup-prune_locks key key now t)
    ∙ (rw (==_refl key) (still_locked-over now now (lookup key t.locks) (omega arith)))

store_attempts-attempts :
    (key other : Text) (now : ℕ) (bucket : List ℕ) (t : Tracker)
    → attempts_of other (store_attempts key now bucket t) ≡ (
        if key == other
        then (if leb 5 (length bucket) then [] else bucket)
        else attempts_of other t)
unfolding store_attempts attempts_of
store_attempts-attempts key other now bucket t = elim (Bool-cases (leb 5 (length bucket))) [
  | inl e ↦
      rw
        (
          e,
          attempts-erase key other (insert key bucket t.attempts),
          attempts-insert key other bucket t.attempts,
        )
        (ground arith)
  | inr e ↦ rw (e, attempts-insert key other bucket t.attempts) refl
]

store_attempts-locks :
    (key other : Text) (now : ℕ) (bucket : List ℕ) (t : Tracker)
    → lookup other (store_attempts key now bucket t).locks
      ≡ (if key == other && leb 5 (length bucket) then some (now + 900) else lookup other t.locks)
unfolding store_attempts
store_attempts-locks key other now bucket t = elim (Bool-cases (leb 5 (length bucket))) [
  | inl e ↦ rw (e, lookup-insert key other (now + 900) t.locks) (ground arith)
  | inr e ↦ rw e (ground arith)
]

pub prune-attempts_of :
    (key : Text) (now : ℕ) (t : Tracker)
    → attempts_of key (prune key now t) ≡ drop_old now (attempts_of key t)
prune-attempts_of key now t = rw (lookup-prune_attempts key key now t, ==_refl key) refl

-- The attempts that a failure leaves.
pub record_failure-attempts :
    (key : Text) (now : ℕ) (t : Tracker)
    → let recent = drop_old now (attempts_of key t) ++ now ∷ [] in
      attempts_of key (record_failure key now t) ≡ (if leb 5 (length recent) then [] else recent)
unfolding record_failure
record_failure-attempts key now t =
    let pruned = prune key now t in
    let bucket = attempts_of key pruned ++ now ∷ [] in
    store_attempts-attempts key key now bucket pruned
    ∙ rw (prune-attempts_of key now t, ==_refl key) refl

failure-locks :
    (key other : Text) (now later : ℕ) (t : Tracker)
    → (is_locked other later (record_failure key now t)).0
      ≡ still_locked later (
          if key == other && leb 5 (length (drop_old now (attempts_of key t) ++ now ∷ []))
          then some (now + 900)
          else lookup other (prune key now t).locks)
unfolding record_failure
failure-locks key other now later t =
    let pruned = prune key now t in
    let bucket = attempts_of key pruned ++ now ∷ [] in
    is_locked-locks other later (record_failure key now t)
    ∙ ap (still_locked later) (store_attempts-locks key other now bucket pruned)
    ∙ rw (prune-attempts_of key now t) refl

still_locked-new :
    (now later : ℕ) (full : Bool) (o : Option ℕ) (b : Bool)
    → still_locked later o ≡ b
    → still_locked later (if full then some (now + 900) else o)
      ≡ (if full then ltb later (now + 900) else b)
unfolding still_locked
still_locked-new now later true o b h = ground arith
still_locked-new now later false o b h = h

-- A failure locks its key until 900 seconds after it when it is the fifth that the window has, and
-- else leaves the lock as it was.
pub record_failure-locked :
    (key : Text) (now later : ℕ) (t : Tracker)
    → now ≤ later
    → let recent = drop_old now (attempts_of key t) ++ now ∷ [] in
      (is_locked key later (record_failure key now t)).0
      ≡ (if leb 5 (length recent) then ltb later (now + 900) else (is_locked key later t).0)
record_failure-locked key now later t le =
    let full = leb 5 (length (drop_old now (attempts_of key t) ++ now ∷ [])) in
    let kept : still_locked later (lookup key (prune key now t).locks) ≡ (is_locked key later t).0 =
      rw (lookup-prune_locks key key now t, ==_refl key)
        (still_locked-over now later (lookup key t.locks) le ∙ sym (is_locked-locks key later t)) in
    failure-locks key key now later t
    ∙ rw (==_refl key) (
        still_locked-new now later full (lookup key (prune key now t).locks)
          (is_locked key later t).0 kept)

pub record_failure-other :
    (key other : Text) (now later : ℕ) (t : Tracker)
    → key ≢ other
    → ((is_locked other later (record_failure key now t)).0 ≡ (is_locked other later t).0)
      × (attempts_of other (record_failure key now t) ≡ attempts_of other t)
unfolding record_failure
record_failure-other key other now later t d =
    let e : (key == other) ≡ false = ground (arith, ==_iff key other, d) in
    let pruned = prune key now t in
    (
      failure-locks key other now later t
          ∙ rw (e, lookup-prune_locks key other now t, e) (sym (is_locked-locks other later t)),
      store_attempts-attempts key other now (attempts_of key pruned ++ now ∷ []) pruned
          ∙ rw (e, lookup-prune_attempts key other now t, e) refl,
    )

pub drop_old-recent :
    (now at : ℕ) (bucket : List ℕ) → now < at + 900 → drop_old now (at ∷ bucket) ≡ at ∷ bucket
unfolding drop_old
drop_old-recent now at bucket lt =
    let e : leb (at + 900) now ≡ false = ground (arith, lt) in rw e refl

-- Pruning does not change an answer from then on.
pub is_locked-prune :
    (key : Text) (now later : ℕ) (t : Tracker)
    → now ≤ later
    → (is_locked key later (prune key now t)).0 ≡ (is_locked key later t).0
is_locked-prune key now later t le =
    is_locked-locks key later (prune key now t)
    ∙ ap (still_locked later) (lookup-prune_locks key key now t)
    ∙ rw (==_refl key)
        (still_locked-over now later (lookup key t.locks) le ∙ sym (is_locked-locks key later t))
