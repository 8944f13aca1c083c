-- ===== src/Tests/Locks.antt =====
-- Examples on sign-in with a provider, locks and revocations.
use employed.Base.{
  List, Option, String, [], arith, false, if◌then◌else◌, is_some, list_eq, ltb, nat_eq, none, not,
  option_eq, refl, some, string_eq, true, ℕ, ◌&&◌, ◌+◌, ◌<◌, ◌==◌, ◌∷◌, ◌≡◌,
}
use employed.Tests.{ana}
use employed.Enums.{
  country_eq, job_status_eq, job_type_eq, market_key_eq, membership_status_eq,
  payment_provider_key_eq, payment_status_eq, verification_state_eq,
}
use employed.Tokens.{Claims, Jose, default_settings}
use employed.Revocation.Expiry.{
  Agrees, Expiries, InOrder, TokenCall, check_at, promise_calls, revoke_at, serve_calls,
  serve_calls-promise_calls,
}
use employed.Lockout.{Tracker, attempts_of, lockout_key}
use employed.SignIn.{Account, Hashing, SignInState, find_user_by_email}
use employed.SignIn.Oauth.{
  OauthProfile, claim_verified, find_user_by_provider, named_account, oauth_callback,
}
use employed.SignIn.Takeover.{oauth_callback-unvouched}
use employed.Base.Dict.{Dict, lookup}
use employed.Base.Text.{codes, drop_while, is_space, lower_code, strip}
use employed.Base.Outcome.{is_ok}
use employed.SignIn.Locked.{try_login, try_logins, try_logins-locked}

-- Tokens are their claims, read until the second of their expiry.
abbrev read_claims : ℕ → Option ℕ → Claims → Option Claims
read_claims now none c = some c
read_claims now (some at) c = if ltb at now then none else some c

read-before :
    (now at : ℕ) (c : Claims) → c.exp ≡ some at → now < at → read_claims now c.exp c ≡ some c
read-before now at c x lt = rw x (ground (arith, lt))

read-after : (now at : ℕ) (c : Claims) → c.exp ≡ some at → at < now → read_claims now c.exp c ≡ none
read-after now at c x lt = rw x (ground (arith, lt))

abbrev claims_jose : Jose Claims
claims_jose = record {
  encode = λ c. c;
  decode = λ now c. read_claims now c.exp c;
  decode-encode = read-before;
  decode-expired = read-after;
}

abbrev plain_hashing : Hashing
plain_hashing = record { hash_password = λ p. p; verify_password = λ p h. h == some p }

abbrev ana_account : Account
ana_account = record {
  user = ana;
  display_name = none;
  password_hash = some "old";
  password_changed_at = some 50;
  oauth_providers = [];
}

abbrev accounts : Dict ℕ Account
accounts = (1, ana_account) ∷ []

abbrev github_user : OauthProfile
github_user = record {
  provider = "github";
  provider_id = some "g1";
  email = codes "ana@acme.mx";
  name = none;
  claimed_verified = none;
}

not_linked : (profile_id : String) → find_user_by_provider "github" (some "g1") accounts ≡ none
unfolding find_user_by_provider
not_linked profile_id = refl

not_claimed : claim_verified "github" github_user ≡ false
unfolding claim_verified
not_claimed = refl

abbrev no_failures : Tracker
no_failures = record { attempts = []; locks = [] }

abbrev token_calls : List TokenCall
token_calls = check_at 5 "t1" ∷ revoke_at 10 "t1" 60 ∷ check_at 20 "t1" ∷ check_at 70 "t1" ∷ []

calls-InOrder : InOrder 0 token_calls
calls-InOrder = (omega arith, (omega arith, (omega arith, (omega arith, tt))))

abbrev no_expiries : Expiries
no_expiries j = none

nothing_revoked : Agrees 0 [] no_expiries
unfolding Agrees
nothing_revoked = (tt, λ j t past. refl)

abbrev signed_out : SignInState
signed_out = record { accounts = accounts; tracker = no_failures }

ana_no_attempts : attempts_of (lockout_key (codes "Ana@acme.mx ") (codes "9")) no_failures ≡ []
unfolding attempts_of
ana_no_attempts = refl

ana_found : find_user_by_email (codes "Ana@acme.mx ") accounts ≡ some ana_account
unfolding find_user_by_email strip drop_while is_space lower_code
ana_found = refl

wrong_x : plain_hashing.verify_password "x" (some "old") ≡ false
wrong_x = refl

right_old : plain_hashing.verify_password "old" (some "old") ≡ true
right_old = refl

oauth_callback-unvouched_example :
    (lookup 1 (oauth_callback 2 "github" github_user accounts).1 ≡ lookup 1 accounts)
    × ((is_some (named_account github_user accounts)
          && is_ok (oauth_callback 2 "github" github_user accounts).0)
        ≡ false)
oauth_callback-unvouched_example =
    oauth_callback-unvouched 2 1 "github" github_user accounts (not_linked "g1") not_claimed
      (λ e. ground arith)

serve_calls-promise_calls_example :
    serve_calls token_calls [] ≡ promise_calls token_calls no_expiries
serve_calls-promise_calls_example =
    serve_calls-promise_calls 0 token_calls [] no_expiries calls-InOrder nothing_revoked

try_logins-locked_example :
    is_ok
      (try_login claims_jose default_settings plain_hashing "t9"
        (codes "9")
        (codes "Ana@acme.mx ")
        ana_account
        60
        "old"
        (try_logins claims_jose default_settings plain_hashing "t9"
          (codes "9")
          (codes "Ana@acme.mx ")
          ana_account
          ((10, "x") ∷ (20, "x") ∷ (30, "x") ∷ (40, "x") ∷ (50, "x") ∷ [])
          signed_out)).0
    ≡ not (ltb 60 (50 + 900))
try_logins-locked_example =
    try_logins-locked claims_jose default_settings plain_hashing "t9" (codes "9")
      (codes "Ana@acme.mx ") ana_account signed_out 10 20 30 40 50 60 "x" "x" "x" "x" "x" "old"
      ana_no_attempts refl ana_found (wrong_x, (wrong_x, (wrong_x, (wrong_x, (wrong_x, tt)))))
      right_old (omega arith) (omega arith) (omega arith) (omega arith) (omega arith) (omega arith)
