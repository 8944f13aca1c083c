-- ===== src/SignIn/Session.antt =====
-- backend/app/routers/auth.py, backend/app/auth/dependencies.py: the session of a user who is
-- signed in. The store of revoked tokens is Revocation's; Redis answers as it does there.
use employed.Base.{
  Bool, Option, String, if◌then◌else◌, list_eq, max, nat_eq, none, not, option_eq, or_else, some,
  string_eq, ℕ, ◌&&◌, ◌-◌, ◌==◌,
}
use employed.Base.Dict.{Dict, lookup}
use employed.Base.Outcome.{Outcome, ok, raised}
use employed.Enums.{
  country_eq, job_status_eq, job_type_eq, market_key_eq, membership_status_eq,
  payment_provider_key_eq, payment_status_eq, verification_state_eq,
}
use employed.Tokens.{Claims, Jose, TokenSettings, decode_token}
use employed.Revocation.{RedisRead, RedisWrite, is_revoked, revoke_jti}
use employed.SignIn.{
  Account, SignInError, TokenResponse, bad_refresh, token_response, token_revoked, user_not_found,
}

-- The token of the body, or else that of the cookie.
unfoldable pub given_token : {Token : Type 0} → Option Token → Option Token → Option Token
given_token (some token) cookie = some token
given_token none cookie = cookie

module _ {Token : Type 0} (jose : Jose Token) (settings : TokenSettings) where
  -- The end of `refresh_token`: whether the token is revoked, then its user, then the token against
  -- the user's last change of the password.
  unfoldable pub refresh_checked :
      ℕ
      → String
      → Token
      → Dict ℕ Account
      → Bool
      → Claims
      → Outcome SignInError (TokenResponse Token)
  refresh_checked now fresh token accounts gone claims =
      if gone then raised token_revoked else elim (lookup claims.sub accounts) [
        | none ↦ raised user_not_found
        | some account ↦ elim (decode_token jose now token "refresh" account.password_changed_at) [
          | raised e ↦ raised bad_refresh
          | ok again ↦ ok (token_response jose settings now fresh account)
        ]
      ]

  -- `refresh_token`; the token is that of the body, or else that of the cookie.
  unfoldable pub refresh_session :
      RedisRead
      → ℕ
      → String
      → Option Token
      → Option Token
      → Dict ℕ Account
      → Dict String ℕ
      → Outcome SignInError (TokenResponse Token) × Dict String ℕ
  unfolding given_token refresh_checked
  refresh_session redis now fresh body_token cookie accounts store =
      elim (given_token body_token cookie) [
        | none ↦ (raised bad_refresh, store)
        | some token ↦ elim (decode_token jose now token "refresh" none) [
          | raised e ↦ (raised bad_refresh, store)
          | ok claims ↦
              let jti = or_else claims.jti "" in
              let check = is_revoked redis now jti store in
              let gone = not (jti == "") && check.0 in
              (
                refresh_checked now fresh token accounts gone claims,
                if jti == "" then store else check.1,
              )
        ]
      ]

module _ {Token : Type 0} (jose : Jose Token) where
  -- `logout`, the token of the body or of the cookie; its answer is always the same.
  unfoldable pub logout :
      RedisWrite → ℕ → Option Token → Option Token → Dict String ℕ → Dict String ℕ
  unfolding given_token decode_token revoke_jti
  logout redis now body_token cookie store = elim (given_token body_token cookie) [
    | none ↦ store
    | some token ↦ elim (decode_token jose now token "refresh" none) [
      | raised e ↦ store
      | ok claims ↦
          let jti = or_else claims.jti "" in
          let exp = or_else claims.exp 0 in
          if not (jti == "") && not (exp == 0)
          then (revoke_jti redis now jti (max 1 (exp - now)) store).1
          else store
    ]
  ]

  -- `get_current_user`, the credentials a token of the bearer scheme.
  unfoldable pub get_current_user : ℕ → Option Token → Dict ℕ Account → Option Account
  unfolding decode_token
  get_current_user now none accounts = none
  get_current_user now (some token) accounts = elim (decode_token jose now token "access" none) [
    | raised e ↦ none
    | ok claims ↦ elim (lookup claims.sub accounts) [
      | none ↦ none
      | some account ↦ elim (decode_token jose now token "access" account.password_changed_at) [
        | raised e ↦ none
        | ok again ↦ some account
      ]
    ]
  ]
