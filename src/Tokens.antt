-- ===== src/Tokens.antt =====
-- backend/app/auth/jwt.py: the tokens of a user. A subject is the user's id, times are in seconds.
-- The library that signs is a parameter, with the laws that its documentation gives for one key.
pub mod Lifetime
use employed.Base.{
  Bool, Option, String, false, if◌then◌else◌, is_some, list_eq, ltb, nat_eq, none, not, option_eq,
  some, string_eq, true, ℕ, ◌&&◌, ◌*◌, ◌+◌, ◌<◌, ◌==◌, ◌≡◌,
}
use employed.Base.Text.{Text}
use employed.Base.Outcome.{Outcome, ok, raise_if, raised, ◌>>=◌, ◌>>◌}

-- `TokenPayload`
pub record Claims : Type 0 where
  pub sub : ℕ
  pub token_type : String
  pub exp : Option ℕ
  pub iat : Option ℕ
  pub jti : Option String
  pub email : Option Text

-- `jwt.encode` and `jwt.decode`, the time of the call first: `none` is a `JWTError`.
pub record Jose (Token : Type 0) : Type 0 where
  pub encode : Claims → Token
  pub decode : ℕ → Token → Option Claims
  pub decode-encode :
      (now at : ℕ) (c : Claims) → c.exp ≡ some at → now < at → decode now (encode c) ≡ some c
  pub decode-expired :
      (now at : ℕ) (c : Claims) → c.exp ≡ some at → at < now → decode now (encode c) ≡ none

-- The settings, with the defaults of `_setting`.
pub record TokenSettings : Type 0 where
  pub access_token_expire_minutes : ℕ
  pub refresh_token_expire_days : ℕ
  pub email_verification_expire_hours : ℕ
  pub password_reset_expire_hours : ℕ

abbrev pub default_settings : TokenSettings
default_settings = record {
  access_token_expire_minutes = 30;
  refresh_token_expire_days = 7;
  email_verification_expire_hours = 48;
  password_reset_expire_hours = 2;
}

pub data TokenError : Type 0 where
  invalid_token unexpected_type issued_before_change : TokenError

-- A `TokenPair`
pub record TokenPair (Token : Type 0) : Type 0 where
  pub access_token : Token
  pub refresh_token : Token

-- The claims of `_create_token`, those of `extra` spelled out.
unfoldable pub new_claims : ℕ → ℕ → String → ℕ → Option String → Option Text → Claims
new_claims now subject kind lifetime jti email = record {
  sub = subject;
  token_type = kind;
  exp = some (now + lifetime);
  iat = some now;
  jti = jti;
  email = email;
}

-- The last check of `decode_token`.
unfoldable pub is_before_change : Option ℕ → Option ℕ → Bool
is_before_change iat none = false
is_before_change none (some changed) = true
is_before_change (some at) (some changed) = ltb at changed

module _ {Token : Type 0} (jose : Jose Token) where
  -- `_create_token`
  unfoldable pub create_token : ℕ → ℕ → String → ℕ → Option String → Option Text → Token
  unfolding new_claims
  create_token now subject kind lifetime jti email =
      jose.encode (new_claims now subject kind lifetime jti email)

  -- `create_access_token`
  unfoldable pub create_access_token : TokenSettings → ℕ → ℕ → Token
  unfolding create_token
  create_access_token settings now subject =
      create_token now subject "access" (settings.access_token_expire_minutes * 60) none none

  -- `create_refresh_token`; `fresh` is the hex of `uuid4`.
  unfoldable pub create_refresh_token : TokenSettings → ℕ → String → ℕ → Token
  unfolding create_token
  create_refresh_token settings now fresh subject =
      create_token now subject "refresh" (settings.refresh_token_expire_days * 86400) (some fresh)
        none

  -- `create_verification_token`
  unfoldable pub create_verification_token : TokenSettings → ℕ → ℕ → Text → Token
  unfolding create_token
  create_verification_token settings now subject email =
      create_token now subject "verify_email" (settings.email_verification_expire_hours * 3600) none
        (some email)

  -- `create_password_reset_token`
  unfoldable pub create_password_reset_token : TokenSettings → ℕ → ℕ → Text → Token
  unfolding create_token
  create_password_reset_token settings now subject email =
      create_token now subject "reset_password" (settings.password_reset_expire_hours * 3600) none
        (some email)

  -- `decode_token`
  unfoldable pub decode_token : ℕ → Token → String → Option ℕ → Outcome TokenError Claims
  unfolding is_before_change
  decode_token now token expected password_changed_at = elim (jose.decode now token) [
    | none ↦ raised invalid_token
    | some claims ↦
        raise_if (not (expected == "") && not (claims.token_type == expected)) unexpected_type
        >> (raise_if (is_before_change claims.iat password_changed_at) issued_before_change
            >> ok claims)
  ]

  -- `VerificationTokenPayload` and `PasswordResetTokenPayload` want an address.
  unfoldable pub with_address : Claims → Outcome TokenError Claims
  with_address claims = if is_some claims.email then ok claims else raised invalid_token

  -- `decode_verification_token`
  unfoldable pub decode_verification_token : ℕ → Token → Outcome TokenError Claims
  unfolding decode_token with_address
  decode_verification_token now token = decode_token now token "verify_email" none >>= with_address

  -- `decode_password_reset_token`
  unfoldable pub decode_password_reset_token : ℕ → Token → Option ℕ → Outcome TokenError Claims
  unfolding decode_token with_address
  decode_password_reset_token now token password_changed_at =
      decode_token now token "reset_password" password_changed_at >>= with_address

  -- `issue_token_pair`
  unfoldable pub issue_token_pair : TokenSettings → ℕ → String → ℕ → TokenPair Token
  unfolding create_access_token create_refresh_token
  issue_token_pair settings now fresh subject = record {
    access_token = create_access_token settings now subject;
    refresh_token = create_refresh_token settings now fresh subject;
  }
