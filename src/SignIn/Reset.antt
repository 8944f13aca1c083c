-- ===== src/SignIn/Reset.antt =====
-- backend/app/routers/auth.py: what a new password does to the tokens from before it.
use employed.Base.{
  ==_refl, Bool, Bool-cases, Option, String, ap, false, if◌then◌else◌, inl, inr, is_some, list_eq,
  nat_eq, none, not, option_eq, or_else, refl, some, string_eq, true, ℕ, ◌&&◌, ◌<◌, ◌==◌, ◌∙◌, ◌≡◌,
}
use employed.Base.Dict.{Dict, lookup, lookup-insert}
use employed.Base.Outcome.{is_ok, ok, raised}
use employed.Enums.{
  country_eq, job_status_eq, job_type_eq, market_key_eq, membership_status_eq,
  payment_provider_key_eq, payment_status_eq, verification_state_eq,
}
use employed.Tokens.{
  Claims, Jose, TokenSettings, decode_password_reset_token, decode_token, issued_before_change,
  unexpected_type, with_address,
}
use employed.Tokens.Lifetime.{decode_token-fresh, decode_token-stale}
use employed.SignIn.{Account, Hashing}
use employed.SignIn.Session.{get_current_user, given_token, refresh_checked, refresh_session}
use employed.SignIn.Recovery.{reset_password, with_password}
use employed.Revocation.{RedisRead, is_revoked}

module _ {Token : Type 0} (jose : Jose Token) where
  -- The row that a reset stores, once its token is read.
  reset_password-stored :
      (hashing : Hashing) (now : ℕ) (token : Token) (password : String) (c : Claims)
      (account : Account) (accounts : Dict ℕ Account)
      → lookup c.sub accounts ≡ some account
      → decode_password_reset_token jose now token none ≡ ok c
      → decode_password_reset_token jose now token account.password_changed_at ≡ ok c
      → lookup c.sub (reset_password jose hashing now token password accounts).1
        ≡ some (with_password hashing now password account)
  unfolding reset_password
  reset_password-stored hashing now token password c account accounts there read again =
      rw
        (
          read,
          reset_password,
          there,
          again,
          lookup-insert c.sub c.sub (with_password hashing now password account) accounts,
          ==_refl c.sub,
        )
        refl

  -- A token that is older than the account's last change is no token of it.
  account-stale :
      (later at changed : ℕ) (token : Token) (kind : String) (o : Claims) (account : Account)
      → jose.decode later token ≡ some o
      → o.iat ≡ some at
      → at < changed
      → account.password_changed_at ≡ some changed
      → (kind == "") ≡ false
      → decode_token jose later token kind account.password_changed_at
        ≡ raised (if o.token_type == kind then issued_before_change else unexpected_type)
  account-stale later at changed token kind o account h i lt when_ named =
      ap (decode_token jose later token kind) when_
      ∙ decode_token-stale jose later at changed token kind o h i lt named

  read-kind :
      (later : ℕ) (token : Token) (kind : String) (o : Claims) (same : Bool)
      → jose.decode later token ≡ some o
      → (kind == "") ≡ false
      → (o.token_type == kind) ≡ same
      → decode_token jose later token kind none ≡ (if same then ok o else raised unexpected_type)
  read-kind later token kind o same h named e =
      decode_token-fresh jose later token kind o h named ∙ rw e refl

  -- No token that is older than the user's last change of the password is the token of a session.
  get_current_user-stale :
      (later at changed : ℕ) (token : Token) (o : Claims) (account : Account)
      (accounts : Dict ℕ Account)
      → jose.decode later token ≡ some o
      → o.iat ≡ some at
      → at < changed
      → lookup o.sub accounts ≡ some account
      → account.password_changed_at ≡ some changed
      → get_current_user jose later (some token) accounts ≡ none
  unfolding get_current_user
  get_current_user-stale later at changed token o account accounts h i lt there when_ =
      let stale = account-stale later at changed token "access" o account h i lt when_ refl in
      elim (Bool-cases (o.token_type == "access")) [
        | inl e ↦
            (let d = read-kind later token "access" o true h refl e in
              rw (d, get_current_user, there, stale) refl)
        | inr e ↦
            (let d = read-kind later token "access" o false h refl e in
              rw (d, get_current_user) refl)
      ]

  reset_password-stale :
      (hashing : Hashing) (later at changed : ℕ) (token : Token) (password : String) (o : Claims)
      (account : Account) (accounts : Dict ℕ Account)
      → jose.decode later token ≡ some o
      → o.iat ≡ some at
      → at < changed
      → lookup o.sub accounts ≡ some account
      → account.password_changed_at ≡ some changed
      → is_ok (reset_password jose hashing later token password accounts).0 ≡ false
  unfolding reset_password decode_password_reset_token with_address
  reset_password-stale hashing later at changed token password o account accounts h i lt there
        when_ =
      let stale =
        account-stale later at changed token "reset_password" o account h i lt when_ refl in
      elim (Bool-cases (o.token_type == "reset_password")) [
        | inl e ↦
            (let d = read-kind later token "reset_password" o true h refl e in
              elim (Bool-cases (is_some o.email)) [
                | inl m ↦ rw (d, reset_password, m, there, stale) refl
                | inr m ↦ rw (d, reset_password, m) refl
              ])
        | inr e ↦
            (let d = read-kind later token "reset_password" o false h refl e in
              rw (d, reset_password) refl)
      ]

module _ {Token : Type 0} (jose : Jose Token) (settings : TokenSettings) where
  refresh_session-stale :
      (redis : RedisRead) (later at changed : ℕ) (fresh : String) (token : Token)
      (cookie : Option Token) (o : Claims) (account : Account) (accounts : Dict ℕ Account)
      (store : Dict String ℕ)
      → jose.decode later token ≡ some o
      → o.iat ≡ some at
      → at < changed
      → lookup o.sub accounts ≡ some account
      → account.password_changed_at ≡ some changed
      → is_ok (refresh_session jose settings redis later fresh (some token) cookie accounts store).0
        ≡ false
  unfolding refresh_session given_token refresh_checked
  refresh_session-stale redis later at changed fresh token cookie o account accounts store h i lt
        there when_ =
      let stale = account-stale jose later at changed token "refresh" o account h i lt when_ refl in
      elim (Bool-cases (o.token_type == "refresh")) [
        | inl e ↦
            (let d = read-kind jose later token "refresh" o true h refl e in
              let gone =
                not (or_else o.jti "" == "")
                && (is_revoked redis later (or_else o.jti "") store).0 in
              elim (Bool-cases gone) [
                | inl g ↦ rw (d, refresh_session, g) refl
                | inr g ↦ rw (d, refresh_session, g, there, stale) refl
              ])
        | inr e ↦
            (let d = read-kind jose later token "refresh" o false h refl e in
              rw (d, refresh_session) refl)
      ]

  -- A reset of a password that its token, read, allows: from then on no token that was made for the
  -- account before that second gives a user, a refresh or another reset, whatever Redis and the
  -- store of revoked tokens hold.
  pub reset_password-old_tokens :
      (hashing : Hashing) (redis : RedisRead) (now later at : ℕ) (fresh password next : String)
      (token old : Token) (cookie : Option Token) (c o : Claims) (account : Account)
      (accounts : Dict ℕ Account) (store : Dict String ℕ)
      → lookup c.sub accounts ≡ some account
      → decode_password_reset_token jose now token none ≡ ok c
      → decode_password_reset_token jose now token account.password_changed_at ≡ ok c
      → jose.decode later old ≡ some o
      → o.sub ≡ c.sub
      → o.iat ≡ some at
      → at < now
      → let after = (reset_password jose hashing now token password accounts).1 in
        (get_current_user jose later (some old) after ≡ none)
        × (is_ok (refresh_session jose settings redis later fresh (some old) cookie after store).0
            ≡ false)
        × (is_ok (reset_password jose hashing later old next after).0 ≡ false)
  unfolding with_password
  reset_password-old_tokens hashing redis now later at fresh password next token old cookie c o
        account accounts store there read again h same i lt =
      let after = (reset_password jose hashing now token password accounts).1 in
      let saved = with_password hashing now password account in
      let found : lookup o.sub after ≡ some saved =
        ap (λ k. lookup k after) same
        ∙ reset_password-stored jose hashing now token password c account accounts there read
            again in
      (
        get_current_user-stale jose later at now old o saved after h i lt found refl,
        refresh_session-stale redis later at now fresh old cookie o saved after store h i lt found
            refl,
        reset_password-stale jose hashing later at now old next o saved after h i lt found refl,
      )
