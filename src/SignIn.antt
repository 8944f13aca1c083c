-- ===== src/SignIn.antt =====
-- backend/app/routers/auth.py: accounts, registration and login. The limits of the routes are
-- RateLimit's; mail and the cookie's attributes are not modelled. Hashing is a parameter.
pub mod Session
pub mod Recovery
pub mod Oauth
pub mod Revoked
pub mod Reset
pub mod Takeover
pub mod Locked
use employed.Base.{
  Bool, Option, String, [], false, first, if◌then◌else◌, is_empty, list_eq, map, nat_eq, none,
  option_eq, some, string_eq, ℕ, ◌==◌,
}
use employed.Base.Text.{Text, lower, strip}
use employed.Base.Dict.{Dict, insert}
use employed.Base.Outcome.{Outcome, ok, raised}
use employed.Models.{User, many}
use employed.Enums.{
  VerificationState, country_eq, failed, job_status_eq, job_type_eq, market_key_eq,
  membership_status_eq, payment_provider_key_eq, payment_status_eq, unverified,
  verification_state_eq,
}
use employed.Tokens.{Jose, TokenPair, TokenSettings, issue_token_pair}
use employed.Lockout.{
  Tracker, lockout_is_locked, lockout_key, lockout_record_failure, lockout_record_success,
}
use employed.Revocation.{RedisRead, RedisWrite}

-- A row of `users` with the columns that only signing in reads. An address that is absent is the
-- empty text, as `or ""` reads it.
pub record Account : Type 0 where
  pub user : User
  pub display_name : Option String
  pub password_hash : Option String
  pub password_changed_at : Option ℕ
  pub oauth_providers : Dict String String

pub data SignInError : Type 0 where
  bad_login bad_refresh token_revoked user_not_found bad_verification bad_reset : SignInError
  address_unverified save_failed : SignInError

-- `hash_password` and `verify_password`
pub record Hashing : Type 0 where
  pub hash_password : String → String
  pub verify_password : String → Option String → Bool

-- The accounts, and the tracker of failed logins.
pub record SignInState : Type 0 where
  pub accounts : Dict ℕ Account
  pub tracker : Tracker

-- `_find_user_by_email`: the rows with the address, then those that have it in other letters.
unfoldable pub find_user_by_email : Text → Dict ℕ Account → Option Account
find_user_by_email email accounts =
    let normalized = lower (strip email) in
    let rows = map (λ (id, a). a) accounts in
    if is_empty normalized then none else elim (first (λ a. a.user.email == normalized) rows) [
      | some a ↦ some a
      | none ↦ first (λ a. lower a.user.email == normalized) rows
    ]

-- `_set_local_user_fields` on a new row
unfoldable pub new_account : Hashing → ℕ → ℕ → Text → Option String → String → Account
new_account hashing id now email name password = record {
  user = record {
    id = id;
    roles = many [];
    email = lower (strip email);
    email_verified = false;
    verification_status = VerificationState.unverified;
  };
  display_name = name;
  password_hash = some (hashing.hash_password password);
  password_changed_at = some now;
  oauth_providers = [];
}

-- The answer of `register`, the same for every address.
pub data Registered : Type 0 where
  check_your_email : Registered

-- `register`
unfoldable pub register :
    Hashing → ℕ → ℕ → Text → Option String → String → Dict ℕ Account → Registered × Dict ℕ Account
unfolding find_user_by_email new_account
register hashing id now email name password accounts = elim (find_user_by_email email accounts) [
  | some existing ↦ (check_your_email, accounts)
  | none ↦ (
    check_your_email,
    insert id (new_account hashing id now (lower (strip email)) name password) accounts,
  )
]

-- `_token_response`: a pair of tokens and the user.
pub record TokenResponse (Token : Type 0) : Type 0 where
  pub pair : TokenPair Token
  pub account : Account

module _ {Token : Type 0} (jose : Jose Token) (settings : TokenSettings) where
  unfoldable pub token_response : ℕ → String → Account → TokenResponse Token
  unfolding issue_token_pair
  token_response now fresh account = record {
    pair = issue_token_pair jose settings now fresh account.user.id;
    account = account;
  }

  -- `login`, what Redis does with the lock at each call given.
  unfoldable pub login :
      Hashing
      → RedisRead
      → RedisWrite
      → ℕ
      → String
      → Text
      → Text
      → String
      → SignInState
      → Outcome SignInError (TokenResponse Token) × SignInState
  unfolding lockout_is_locked lockout_record_failure lockout_record_success
  login hashing read write now fresh client_ip email password s =
      let key = lockout_key email client_ip in
      let (locked, tracker) = lockout_is_locked read key now s.tracker in
      let seen = record s { tracker = tracker } in
      let failed = record s { tracker = lockout_record_failure write key now tracker } in
      if locked then (raised bad_login, seen) else elim (find_user_by_email email s.accounts) [
        | none ↦ (raised bad_login, failed)
        | some account ↦
            if hashing.verify_password password account.password_hash
            then (
              ok (token_response now fresh account),
              record s { tracker = lockout_record_success write key tracker },
            )
            else (raised bad_login, failed)
      ]
