-- ===== src/Revocation/Expiry.antt =====
-- backend/app/auth/revocation.py: the store of the process against a table of expiries by token,
-- over any sequence of calls.
use employed.Base.{
  Bool, Bool-cases, List, Option, String, [], ap, arith, false, if◌then◌else◌, inl, inr, is_some,
  list_eq, nat_eq, not, option_eq, refl, some, string_eq, true, ℕ, ◌&&◌, ◌+◌, ◌==◌, ◌||◌, ◌∙◌, ◌∷◌,
  ◌≡◌, ◌≤◌,
}
use employed.Base.Dict.{Dict, insert, lookup, lookup-insert}
use employed.Revocation.{RedisRead, RedisWrite, is_revoked, prune_memory_store, revoke_jti}
use employed.Revocation.Lifetime.{
  IsStore, insert-IsStore, is_revoked-live, live, live-live, lookup-prune, prune-IsStore,
}

-- A call, its moment first.
pub data TokenCall : Type 0 where
  revoke_at : ℕ → String → ℕ → TokenCall
  check_at : ℕ → String → TokenCall

abbrev pub time_of : TokenCall → ℕ
time_of (revoke_at now jti ttl) = now
time_of (check_at now jti) = now

-- The calls come in the order of time, none before the given moment.
abbrev pub InOrder : ℕ → List TokenCall → Type 0
InOrder from [] = Unit
InOrder from (call ∷ calls) = (from ≤ time_of call) × InOrder (time_of call) calls

-- The code, with no Redis: the answer of a call, and the store after it.
unfoldable pub serve_call : TokenCall → Dict String ℕ → Bool × Dict String ℕ
serve_call (revoke_at now jti ttl) store = revoke_jti RedisWrite.no_redis now jti ttl store
serve_call (check_at now jti) store = is_revoked RedisRead.no_redis now jti store

unfoldable pub serve_calls : List TokenCall → Dict String ℕ → List Bool
unfolding serve_call
serve_calls [] store = []
serve_calls (call ∷ calls) store =
    let served = serve_call call store in served.0 ∷ serve_calls calls served.1

-- What the module promises: every token has an expiry or none, and nothing is ever forgotten.
abbrev pub Expiries : Type 0
Expiries = String → Option ℕ

unfoldable pub promise_call : TokenCall → Expiries → Bool × Expiries
unfolding live
promise_call (revoke_at now jti ttl) f =
    if jti == "" || ttl == 0
    then (false, f)
    else (true, λ j. if jti == j then some (now + ttl) else f j)
promise_call (check_at now jti) f = (not (jti == "") && is_some (live now (f jti)), f)

unfoldable pub promise_calls : List TokenCall → Expiries → List Bool
unfolding promise_call
promise_calls [] f = []
promise_calls (call ∷ calls) f =
    let served = promise_call call f in served.0 ∷ promise_calls calls served.1

-- From the moment on, the store and the table tell the same of every token.
unfoldable pub Agrees : ℕ → Dict String ℕ → Expiries → Type 0
Agrees now store f =
    IsStore store × ((j : String) (t : ℕ) → now ≤ t → live t (lookup j store) ≡ live t (f j))

Agrees-later :
    (now later : ℕ) (store : Dict String ℕ) (f : Expiries)
    → now ≤ later
    → Agrees now store f
    → Agrees later store f
unfolding Agrees
Agrees-later now later store f le h = (h.0, λ j t past. h.1 j t (omega (arith, le, past)))

-- Pruning does not change what the store tells from then on.
Agrees-prune :
    (now : ℕ) (store : Dict String ℕ) (f : Expiries)
    → Agrees now store f
    → Agrees now (prune_memory_store now store) f
unfolding Agrees
Agrees-prune now store f h = (
  prune-IsStore now store h.0,
  λ j t past.
      ap (live t) (lookup-prune now j store h.0)
      ∙ live-live now t (lookup j store) past
      ∙ h.1 j t past,
)

live-if :
    (t : ℕ) (b : Bool) (o x y : Option ℕ)
    → live t x ≡ live t y
    → live t (if b then o else x) ≡ live t (if b then o else y)
live-if t true o x y h = refl
live-if t false o x y h = h

Agrees-insert :
    (now : ℕ) (jti : String) (exp : ℕ) (store : Dict String ℕ) (f : Expiries)
    → Agrees now store f
    → Agrees now (insert jti exp store) (λ j. if jti == j then some exp else f j)
unfolding Agrees
Agrees-insert now jti exp store f h = (
  insert-IsStore jti exp store h.0,
  λ j t past.
      ap (live t) (lookup-insert jti j exp store)
      ∙ live-if t (jti == j) (some exp) (lookup j store) (f j) (h.1 j t past),
)

revoke_at-Agrees :
    (now : ℕ) (jti : String) (ttl : ℕ) (store : Dict String ℕ) (f : Expiries)
    → Agrees now store f
    → ((serve_call (revoke_at now jti ttl) store).0 ≡ (promise_call (revoke_at now jti ttl) f).0)
      × Agrees now
          (serve_call (revoke_at now jti ttl) store).1
          (promise_call (revoke_at now jti ttl) f).1
unfolding serve_call promise_call revoke_jti
revoke_at-Agrees now jti ttl store f h = elim (Bool-cases (jti == "" || ttl == 0)) [
  | inl e ↦ rw e (refl, h)
  | inr e ↦ rw e (
    refl,
    Agrees-insert now jti (now + ttl) (prune_memory_store now store) f (Agrees-prune now store f h),
  )
]

check_at-Agrees :
    (now : ℕ) (jti : String) (store : Dict String ℕ) (f : Expiries)
    → Agrees now store f
    → ((serve_call (check_at now jti) store).0 ≡ (promise_call (check_at now jti) f).0)
      × Agrees now (serve_call (check_at now jti) store).1 f
unfolding serve_call promise_call Agrees is_revoked
check_at-Agrees now jti store f h =
    let told = h.1 jti now (omega arith) in
    (
      is_revoked-live now jti store h.0 ∙ ap (λ o. not (jti == "") && is_some o) told,
      (elim (Bool-cases (jti == "")) [
        | inl e ↦ rw e h
        | inr e ↦ rw e (Agrees-prune now store f h)
      ]),
    )

-- From a store with one entry for a token at most, the answers of any sequence of revocations and
-- checks in the order of time, with no Redis, are those of a table that keeps the last expiry of
-- each token for ever: pruning is never seen.
pub serve_calls-promise_calls :
    (from : ℕ) (calls : List TokenCall) (store : Dict String ℕ) (f : Expiries)
    → InOrder from calls
    → Agrees from store f
    → serve_calls calls store ≡ promise_calls calls f
unfolding serve_calls promise_calls
serve_calls-promise_calls from [] store f o h = refl
serve_calls-promise_calls from (revoke_at now jti ttl ∷ calls) store f o h =
    let (e, a) = revoke_at-Agrees now jti ttl store f (Agrees-later from now store f o.0 h) in
    ap (λ b. b ∷ serve_calls calls (serve_call (revoke_at now jti ttl) store).1) e
    ∙ ap (λ r. (promise_call (revoke_at now jti ttl) f).0 ∷ r)
        (serve_calls-promise_calls now calls (serve_call (revoke_at now jti ttl) store).1
          (promise_call (revoke_at now jti ttl) f).1 o.1 a)
serve_calls-promise_calls from (check_at now jti ∷ calls) store f o h =
    let (e, a) = check_at-Agrees now jti store f (Agrees-later from now store f o.0 h) in
    ap (λ b. b ∷ serve_calls calls (serve_call (check_at now jti) store).1) e
    ∙ ap (λ r. (promise_call (check_at now jti) f).0 ∷ r)
        (serve_calls-promise_calls now calls (serve_call (check_at now jti) store).1 f o.1 a)
