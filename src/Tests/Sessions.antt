-- ===== src/Tests/Sessions.antt =====
-- Examples on tokens and sessions.
use employed.Base.{
  ==_iff, Option, String, [], arith, false, false≢true, if◌then◌else◌, list_eq, ltb, nat_eq, none,
  not, option_eq, refl, some, string_eq, ℕ, ◌+◌, ◌<◌, ◌==◌, ◌∷◌, ◌≡◌, ◌≢◌,
}
use employed.Tests.{ana}
use employed.Enums.{
  country_eq, job_status_eq, job_type_eq, market_key_eq, membership_status_eq,
  payment_provider_key_eq, payment_status_eq, verification_state_eq,
}
use employed.Tokens.{
  Claims, Jose, TokenSettings, create_token, decode_password_reset_token, decode_token,
  default_settings, invalid_token, is_before_change, issued_before_change, new_claims,
  unexpected_type, with_address,
}
use employed.Tokens.Lifetime.{decode_token-create_token}
use employed.Revocation.{RedisRead, RedisWrite}
use employed.SignIn.{Account, Hashing, bad_refresh, token_revoked}
use employed.SignIn.Session.{get_current_user, logout, refresh_session}
use employed.SignIn.Recovery.{reset_password}
use employed.SignIn.Revoked.{logout-refresh_session}
use employed.SignIn.Reset.{reset_password-old_tokens}
use employed.Base.Dict.{Dict}
use employed.Base.Text.{codes}
use employed.Base.Outcome.{is_ok, ok, raised}

-- Tokens are their claims, read until the second of their expiry.
abbrev read_claims : ℕ → Option ℕ → Claims → Option Claims
read_claims now none c = some c
read_claims now (some at) c = if ltb at now then none else some c

read-before :
    (now at : ℕ) (c : Claims) → c.exp ≡ some at → now < at → read_claims now c.exp c ≡ some c
read-before now at c x lt = rw x (ground (arith, lt))

read-after : (now at : ℕ) (c : Claims) → c.exp ≡ some at → at < now → read_claims now c.exp c ≡ none
read-after now at c x lt = rw x (ground (arith, lt))

abbrev claims_jose : Jose Claims
claims_jose = record {
  encode = λ c. c;
  decode = λ now c. read_claims now c.exp c;
  decode-encode = read-before;
  decode-expired = read-after;
}

abbrev plain_hashing : Hashing
plain_hashing = record { hash_password = λ p. p; verify_password = λ p h. h == some p }

abbrev access_kind : String
access_kind = "access"

abbrev settings : TokenSettings
settings = default_settings

abbrev ana_account : Account
ana_account = record {
  user = ana;
  display_name = none;
  password_hash = some "old";
  password_changed_at = some 50;
  oauth_providers = [];
}

abbrev accounts : Dict ℕ Account
accounts = (1, ana_account) ∷ []

abbrev claims_of : String → ℕ → ℕ → Claims
claims_of kind iat exp = record {
  sub = 1;
  token_type = kind;
  exp = some exp;
  iat = some iat;
  jti = some "t1";
  email = some (codes "ana@acme.mx");
}

refresh_named : ◌≢◌ {A = String} "t1" ""
refresh_named e = false≢true ((==_iff "t1" "").1 e)

access_named : ◌≢◌ {A = String} "access" ""
access_named e = false≢true ((==_iff "access" "").1 e)

reset_read :
    decode_password_reset_token claims_jose 120 (claims_of "reset_password" 100 7300) none
    ≡ ok (claims_of "reset_password" 100 7300)
unfolding decode_password_reset_token decode_token with_address is_before_change
reset_read = refl

reset_again :
    decode_password_reset_token claims_jose 120 (claims_of "reset_password" 100 7300) (some 50)
    ≡ ok (claims_of "reset_password" 100 7300)
unfolding decode_password_reset_token decode_token with_address is_before_change
reset_again = refl

decode_token-create_token_example :
    decode_token claims_jose 200
      (create_token claims_jose 100 1 access_kind 1800 none none)
      access_kind
      (some 50)
    ≡ (if ltb (100 + 1800) 200
        then raised invalid_token
        else if not (access_kind == access_kind)
        then raised unexpected_type
        else if ltb 100 50
        then raised issued_before_change
        else ok (new_claims 100 1 access_kind 1800 none none))
decode_token-create_token_example =
    decode_token-create_token claims_jose 100 200 1 1800 50 "access" "access" none none access_named
      (λ e. ground arith)

logout-refresh_session_example :
    let token = claims_jose.encode (claims_of "refresh" 90 300) in
    let store' = logout claims_jose RedisWrite.no_redis 100 (some token) none [] in
    (refresh_session claims_jose settings RedisRead.no_redis 200 "t2"
      (some token)
      none
      accounts
      store').0
    ≡ raised (if ltb 200 300 then token_revoked else bad_refresh)
logout-refresh_session_example =
    logout-refresh_session claims_jose settings 100 200 300 "t2" "t1" (claims_of "refresh" 90 300)
      none none accounts [] tt refl refl refresh_named refl (omega arith) (omega arith)
      (λ e. ground arith)

reset_password-old_tokens_example :
    let after =
      (reset_password claims_jose plain_hashing 120
        (claims_of "reset_password" 100 7300)
        "new"
        accounts).1 in
    (get_current_user claims_jose 200 (some (claims_of "refresh" 90 9000)) after ≡ none)
    × (is_ok
          (refresh_session claims_jose settings RedisRead.no_redis 200 "t2"
            (some (claims_of "refresh" 90 9000))
            none
            after
            []).0
        ≡ false)
    × (is_ok
          (reset_password claims_jose plain_hashing 200
            (claims_of "refresh" 90 9000)
            "next"
            after).0
        ≡ false)
reset_password-old_tokens_example =
    reset_password-old_tokens claims_jose settings plain_hashing RedisRead.no_redis 120 200 90 "t2"
      "new" "next" (claims_of "reset_password" 100 7300) (claims_of "refresh" 90 9000) none
      (claims_of "reset_password" 100 7300) (claims_of "refresh" 90 9000) ana_account accounts []
      refl reset_read reset_again refl refl refl (omega arith)
