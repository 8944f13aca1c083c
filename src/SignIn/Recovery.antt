-- ===== src/SignIn/Recovery.antt =====
-- backend/app/routers/auth.py: confirming an address, and a new password for a lost one.
use employed.Base.{Option, String, list_eq, nat_eq, none, option_eq, some, string_eq, true, ℕ}
use employed.Base.Text.{Text, lower, strip}
use employed.Base.Dict.{Dict, insert, lookup}
use employed.Base.Outcome.{Outcome, ok, raised}
use employed.Enums.{
  country_eq, job_status_eq, job_type_eq, market_key_eq, membership_status_eq,
  payment_provider_key_eq, payment_status_eq, verification_state_eq,
}
use employed.Tokens.{
  Jose, TokenSettings, create_password_reset_token, decode_password_reset_token,
  decode_verification_token,
}
use employed.SignIn.{
  Account, Hashing, SignInError, bad_reset, bad_verification, find_user_by_email, user_not_found,
}

-- A row whose address is confirmed.
unfoldable pub confirmed : Account → Account
confirmed a = record a { user = record a.user { email_verified = true } }

-- A row with a new password.
unfoldable pub with_password : Hashing → ℕ → String → Account → Account
with_password hashing now password a = record a {
  password_hash = some (hashing.hash_password password);
  password_changed_at = some now;
}

module _ {Token : Type 0} (jose : Jose Token) where
  -- `verify_email`, before the memberships by domain that follow it.
  unfoldable pub verify_email :
      ℕ → Token → Dict ℕ Account → Outcome SignInError Account × Dict ℕ Account
  unfolding decode_verification_token confirmed
  verify_email now token accounts = elim (decode_verification_token jose now token) [
    | raised e ↦ (raised bad_verification, accounts)
    | ok claims ↦ elim (lookup claims.sub accounts) [
      | none ↦ (raised user_not_found, accounts)
      | some account ↦ (ok (confirmed account), insert claims.sub (confirmed account) accounts)
    ]
  ]

  -- `reset_password`
  unfoldable pub reset_password :
      Hashing → ℕ → Token → String → Dict ℕ Account → Outcome SignInError Account × Dict ℕ Account
  unfolding decode_password_reset_token with_password
  reset_password hashing now token password accounts =
      elim (decode_password_reset_token jose now token none) [
        | raised e ↦ (raised bad_reset, accounts)
        | ok claims ↦ elim (lookup claims.sub accounts) [
          | none ↦ (raised user_not_found, accounts)
          | some account ↦
              elim (decode_password_reset_token jose now token account.password_changed_at) [
                | raised e ↦ (raised bad_reset, accounts)
                | ok again ↦
                    let saved = with_password hashing now password account in
                    (ok saved, insert claims.sub saved accounts)
              ]
        ]
      ]

module _ {Token : Type 0} (jose : Jose Token) (settings : TokenSettings) where
  -- `forgot_password`: the token that is mailed, if there is an account; the answer is the same.
  unfoldable pub forgot_password : ℕ → Text → Dict ℕ Account → Option Token
  unfolding find_user_by_email create_password_reset_token
  forgot_password now email accounts = elim (find_user_by_email email accounts) [
    | none ↦ none
    | some account ↦
        some (create_password_reset_token jose settings now account.user.id (lower (strip email)))
  ]
