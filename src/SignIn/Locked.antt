-- ===== src/SignIn/Locked.antt =====
-- backend/app/routers/auth.py: logins that fail, and the login after them.
use employed.Base.{
  All, Bool-cases, List, String, [], ap, arith, false, if◌then◌else◌, inl, inr, leb, length,
  list_eq, ltb, nat_eq, none, not, option_eq, refl, some, string_eq, true, ℕ, ◌++◌, ◌+◌, ◌<◌, ◌∙◌,
  ◌∷◌, ◌≡◌, ◌≤◌,
}
use employed.Base.Text.{Text}
use employed.Lockout.{
  Tracker, attempts_of, drop_old, is_locked, lockout_is_locked, lockout_key, lockout_record_failure,
  prune, record_failure, still_locked,
}
use employed.Lockout.Window.{drop_old-recent, is_locked-locks, is_locked-prune, prune-attempts_of}
use employed.Lockout.Five.{grow, locks_when, start}
use employed.Base.Dict.{lookup}
use employed.Base.Outcome.{Outcome, is_ok}
use employed.Tokens.{Jose, TokenSettings}
use employed.Revocation.{RedisRead, RedisWrite}
use employed.SignIn.{
  Account, Hashing, SignInError, SignInState, TokenResponse, find_user_by_email, login,
}

-- What a failed login does to the tracker: the check prunes it, then the failure is recorded.
after_failure : Text → ℕ → Tracker → Tracker
after_failure key now t = record_failure key now (prune key now t)

-- The attempts that the window has, whether pruned before or not.
failure-attempts :
    (key : Text) (now first_at : ℕ) (front : List ℕ) (t : Tracker)
    → attempts_of key t ≡ first_at ∷ front
    → now < first_at + 900
    → attempts_of key (prune key now t) ≡ first_at ∷ front
failure-attempts key now first_at front t h lt =
    prune-attempts_of key now t ∙ ap (drop_old now) h ∙ drop_old-recent now first_at front lt

failure-grow :
    (key : Text) (now first_at : ℕ) (front : List ℕ) (t : Tracker)
    → attempts_of key t ≡ first_at ∷ front
    → now < first_at + 900
    → length front < 3
    → attempts_of key (after_failure key now t) ≡ first_at ∷ (front ++ now ∷ [])
unfolding after_failure
failure-grow key now first_at front t h lt short =
    grow key now first_at front (prune key now t) (failure-attempts key now first_at front t h lt)
      lt short

failure-start :
    (key : Text) (now : ℕ) (t : Tracker)
    → attempts_of key t ≡ []
    → attempts_of key (after_failure key now t) ≡ now ∷ []
unfolding after_failure drop_old
failure-start key now t h =
    start key now (prune key now t) (prune-attempts_of key now t ∙ ap (drop_old now) h)

-- Whether the key is locked after a failure, from the attempts before it.
failure-locked :
    (key : Text) (now later first_at : ℕ) (front : List ℕ) (t : Tracker)
    → attempts_of key t ≡ first_at ∷ front
    → now < first_at + 900
    → now ≤ later
    → (is_locked key later (after_failure key now t)).0
      ≡ (if leb 3 (length front) then ltb later (now + 900) else (is_locked key later t).0)
unfolding after_failure
failure-locked key now later first_at front t h lt le =
    let kept = failure-attempts key now first_at front t h lt in
    let l : leb 4 (length (first_at ∷ front)) ≡ leb 3 (length front) = ground arith in
    locks_when key now later (first_at ∷ front) (prune key now t)
      (ap (drop_old now) kept ∙ drop_old-recent now first_at front lt) le
    ∙ rw (l, is_locked-prune key now later t le) refl

failure-first :
    (key : Text) (now later : ℕ) (t : Tracker)
    → attempts_of key t ≡ []
    → now ≤ later
    → (is_locked key later (after_failure key now t)).0 ≡ (is_locked key later t).0
unfolding after_failure drop_old
failure-first key now later t h le =
    locks_when key now later [] (prune key now t)
      (ap (drop_old now) (prune-attempts_of key now t ∙ ap (drop_old now) h)) le
    ∙ is_locked-prune key now later t le

never_locked :
    (key : Text) (now : ℕ) (t : Tracker)
    → lookup key t.locks ≡ none
    → (is_locked key now t).0 ≡ false
unfolding still_locked
never_locked key now t h = is_locked-locks key now t ∙ ap (still_locked now) h

is_locked-prunes : (key : Text) (now : ℕ) (t : Tracker) → (is_locked key now t).1 ≡ prune key now t
unfolding is_locked
is_locked-prunes key now t = refl

module _ {Token : Type 0} (jose : Jose Token) (settings : TokenSettings) (hashing : Hashing)
    (fresh : String) (client_ip email : Text) (account : Account) where
  -- A login of this address from this client, with no Redis.
  unfoldable pub try_login :
      ℕ → String → SignInState → Outcome SignInError (TokenResponse Token) × SignInState
  try_login now password s =
      login jose settings hashing RedisRead.no_redis RedisWrite.no_redis now fresh client_ip email
        password s

  -- The state after logins at given moments with given passwords.
  unfoldable pub try_logins : List (ℕ × String) → SignInState → SignInState
  try_logins [] s = s
  try_logins ((now, password) ∷ tries) s = try_logins tries (try_login now password s).1

  try_login-failed :
      (now : ℕ) (password : String) (s : SignInState)
      → (is_locked (lockout_key email client_ip) now s.tracker).0 ≡ false
      → find_user_by_email email s.accounts ≡ some account
      → hashing.verify_password password account.password_hash ≡ false
      → (try_login now password s).1
        ≡ record s { tracker = after_failure (lockout_key email client_ip) now s.tracker }
  unfolding try_login login lockout_is_locked lockout_record_failure after_failure
  try_login-failed now password s open_ known wrong =
      rw (open_, known, wrong, is_locked-prunes (lockout_key email client_ip) now s.tracker) refl

  try_login-ok :
      (now : ℕ) (password : String) (s : SignInState)
      → find_user_by_email email s.accounts ≡ some account
      → hashing.verify_password password account.password_hash ≡ true
      → is_ok (try_login now password s).0
        ≡ not (is_locked (lockout_key email client_ip) now s.tracker).0
  unfolding try_login login lockout_is_locked
  try_login-ok now password s known right =
      elim (Bool-cases (is_locked (lockout_key email client_ip) now s.tracker).0) [
        | inl e ↦ rw e refl
        | inr e ↦ rw (e, known, right) refl
      ]

  -- Where no Redis is configured, so that the lockout falls back on the process's own tracker: take
  -- five logins with wrong passwords for one account from one client, within 900 seconds, when the
  -- pair had no failure and no lock before. The right password is refused from then on until 900
  -- seconds after the last of them, and opens the account from that second on.
  pub try_logins-locked :
      (s : SignInState) (a b c d e later : ℕ) (pa pb pc pd pe right : String)
      → attempts_of (lockout_key email client_ip) s.tracker ≡ []
      → lookup (lockout_key email client_ip) s.tracker.locks ≡ none
      → find_user_by_email email s.accounts ≡ some account
      → All
          (λ password. hashing.verify_password password account.password_hash ≡ false)
          (pa ∷ pb ∷ pc ∷ pd ∷ pe ∷ [])
      → hashing.verify_password right account.password_hash ≡ true
      → a ≤ b
      → b ≤ c
      → c ≤ d
      → d ≤ e
      → e < a + 900
      → e ≤ later
      → is_ok
          (try_login later right
            (try_logins ((a, pa) ∷ (b, pb) ∷ (c, pc) ∷ (d, pd) ∷ (e, pe) ∷ []) s)).0
        ≡ not (ltb later (e + 900))
  unfolding try_logins
  try_logins-locked s a b c d e later pa pb pc pd pe right none_yet no_lock known wrong good ab bc
        cd de ea le =
      let key = lockout_key email client_ip in
      let ta = after_failure key a s.tracker in
      let tb = after_failure key b ta in
      let tc = after_failure key c tb in
      let td = after_failure key d tc in
      let te = after_failure key e td in
      let ha = failure-start key a s.tracker none_yet in
      let hb = failure-grow key b a [] ta ha (omega (arith, bc, cd, de, ea)) (omega arith) in
      let hc = failure-grow key c a (b ∷ []) tb hb (omega (arith, cd, de, ea)) (omega arith) in
      let hd = failure-grow key d a (b ∷ c ∷ []) tc hc (omega (arith, de, ea)) (omega arith) in
      let open_a : (x : ℕ) → a ≤ x → (is_locked key x ta).0 ≡ false = λ x ax.
        failure-first key a x s.tracker none_yet ax ∙ never_locked key x s.tracker no_lock in
      let open_b : (x : ℕ) → b ≤ x → (is_locked key x tb).0 ≡ false = λ x bx.
        failure-locked key b x a [] ta ha (omega (arith, bc, cd, de, ea)) bx
        ∙ open_a x (omega (arith, ab, bx)) in
      let open_c : (x : ℕ) → c ≤ x → (is_locked key x tc).0 ≡ false = λ x cx.
        failure-locked key c x a (b ∷ []) tb hb (omega (arith, cd, de, ea)) cx
        ∙ open_b x (omega (arith, bc, cx)) in
      let open_d : (x : ℕ) → d ≤ x → (is_locked key x td).0 ≡ false = λ x dx.
        failure-locked key d x a (b ∷ c ∷ []) tc hc (omega (arith, de, ea)) dx
        ∙ open_c x (omega (arith, cd, dx)) in
      let closed = failure-locked key e later a (b ∷ c ∷ d ∷ []) td hd ea le in
      let sa = try_login-failed a pa s (never_locked key a s.tracker no_lock) known wrong.0 in
      let sb = try_login-failed b pb (record s { tracker = ta }) (open_a b ab) known wrong.1.0 in
      let sc = try_login-failed c pc (record s { tracker = tb }) (open_b c bc) known wrong.1.1.0 in
      let sd =
        try_login-failed d pd (record s { tracker = tc }) (open_c d cd) known wrong.1.1.1.0 in
      let se =
        try_login-failed e pe (record s { tracker = td }) (open_d e de) known wrong.1.1.1.1.0 in
      let run =
        ap (try_logins ((b, pb) ∷ (c, pc) ∷ (d, pd) ∷ (e, pe) ∷ [])) sa
        ∙ ap (try_logins ((c, pc) ∷ (d, pd) ∷ (e, pe) ∷ [])) sb
        ∙ ap (try_logins ((d, pd) ∷ (e, pe) ∷ [])) sc
        ∙ ap (try_logins ((e, pe) ∷ [])) sd
        ∙ se in
      ap (λ st. is_ok (try_login later right st).0) run
      ∙ try_login-ok later right (record s { tracker = te }) known good
      ∙ ap not closed
