-- ===== src/SignIn/Revoked.antt =====
-- backend/app/routers/auth.py: a refresh token after a logout.
use employed.Base.{
  ==_iff, Bool-cases, Option, String, arith, false, if◌then◌else◌, inl, inr, list_eq, ltb, ltb→lt,
  max, nat_eq, none, option_eq, refl, some, string_eq, sym, true, ℕ, ◌-◌, ◌<◌, ◌==◌, ◌∙◌, ◌≡◌, ◌≢◌,
  ◌≤◌,
}
use employed.Base.Dict.{Dict}
use employed.Base.Outcome.{ok, raised}
use employed.Enums.{
  country_eq, job_status_eq, job_type_eq, market_key_eq, membership_status_eq,
  payment_provider_key_eq, payment_status_eq, verification_state_eq,
}
use employed.Tokens.{Claims, Jose, TokenSettings, decode_token, invalid_token}
use employed.Revocation.{RedisRead, RedisWrite, is_revoked, revoke_jti}
use employed.SignIn.{Account, bad_refresh, token_revoked}
use employed.SignIn.Session.{given_token, logout, refresh_checked, refresh_session}
use employed.Tokens.Lifetime.{decode_token-fresh, decode_token-undecoded}
use employed.Revocation.Lifetime.{IsStore, revoke_jti-is_revoked}

module _ {Token : Type 0} (jose : Jose Token) (settings : TokenSettings) where
  logout-revoke_jti :
      (now exp : ℕ) (jti : String) (c : Claims) (token : Token) (cookie : Option Token)
      (store : Dict String ℕ)
      → jose.decode now token ≡ some c
      → c.token_type ≡ "refresh"
      → c.jti ≡ some jti
      → jti ≢ ""
      → c.exp ≡ some exp
      → now < exp
      → logout jose RedisWrite.no_redis now (some token) cookie store
        ≡ (revoke_jti RedisWrite.no_redis now jti (max 1 (exp - now)) store).1
  unfolding logout given_token
  logout-revoke_jti now exp jti c token cookie store h kind j named x lt =
      let d : decode_token jose now token "refresh" none ≡ ok c =
        decode_token-fresh jose now token "refresh" c h refl ∙ rw (kind) refl in
      let named' : (jti == "") ≡ false = ground (arith, ==_iff jti "", named) in
      let there : (exp == 0) ≡ false = ground (arith, ==_iff exp 0, lt) in
      rw (d, logout, j, x, named', there) refl

  refresh_session-revoked :
      (later : ℕ) (fresh : String) (jti : String) (c : Claims) (token : Token)
      (cookie : Option Token) (accounts : Dict ℕ Account) (store : Dict String ℕ)
      → jose.decode later token ≡ some c
      → c.token_type ≡ "refresh"
      → c.jti ≡ some jti
      → jti ≢ ""
      → (is_revoked RedisRead.no_redis later jti store).0 ≡ true
      → (refresh_session jose settings RedisRead.no_redis later fresh
          (some token)
          cookie
          accounts
          store).0
        ≡ raised token_revoked
  unfolding refresh_session given_token refresh_checked
  refresh_session-revoked later fresh jti c token cookie accounts store h kind j named gone =
      let d : decode_token jose later token "refresh" none ≡ ok c =
        decode_token-fresh jose later token "refresh" c h refl ∙ rw (kind) refl in
      let named' : (jti == "") ≡ false = ground (arith, ==_iff jti "", named) in
      rw (d, refresh_session, j, named', gone) refl

  refresh_session-undecoded :
      (later : ℕ) (fresh : String) (token : Token) (cookie : Option Token)
      (accounts : Dict ℕ Account) (store : Dict String ℕ)
      → decode_token jose later token "refresh" none ≡ raised invalid_token
      → (refresh_session jose settings RedisRead.no_redis later fresh
          (some token)
          cookie
          accounts
          store).0
        ≡ raised bad_refresh
  unfolding refresh_session given_token
  refresh_session-undecoded later fresh token cookie accounts store h = rw (h, refresh_session) refl

  -- With no Redis: a refresh token that names itself, given to logout before it expires, is refused
  -- by every later refresh but for one in the second of its expiry, as revoked before that second
  -- and as invalid after it.
  pub logout-refresh_session :
      (now later exp : ℕ) (fresh jti : String) (c : Claims) (cookie other_cookie : Option Token)
      (accounts : Dict ℕ Account) (store : Dict String ℕ)
      → IsStore store
      → c.token_type ≡ "refresh"
      → c.jti ≡ some jti
      → jti ≢ ""
      → c.exp ≡ some exp
      → now < exp
      → now ≤ later
      → later ≢ exp
      → let token = jose.encode c in
        let store' = logout jose RedisWrite.no_redis now (some token) cookie store in
        (refresh_session jose settings RedisRead.no_redis later fresh
          (some token)
          other_cookie
          accounts
          store').0
        ≡ raised (if ltb later exp then token_revoked else bad_refresh)
  logout-refresh_session now later exp fresh jti c cookie other_cookie accounts store s kind j named
        x lt le d =
      let token = jose.encode c in
      let out =
        logout-revoke_jti now exp jti c token cookie store (jose.decode-encode now exp c x lt) kind
          j named x lt in
      elim (Bool-cases (ltb later exp)) [
        | inl early ↦
            rw (early, out)
              (let after = (revoke_jti RedisWrite.no_redis now jti (max 1 (exp - now)) store).1 in
                let (_, gone, _) =
                  revoke_jti-is_revoked now later jti "" (max 1 (exp - now)) store s named
                    (λ e. named (sym e)) (omega arith) le in
                let gone' : (is_revoked RedisRead.no_redis later jti after).0 ≡ true =
                  gone ∙ ground (arith, early, lt) in
                refresh_session-revoked later fresh jti c token other_cookie accounts after
                  (jose.decode-encode later exp c x (ltb→lt later exp early)) kind j named gone')
        | inr late ↦ rw late (
            refresh_session-undecoded later fresh token other_cookie accounts
              (logout jose RedisWrite.no_redis now (some token) cookie store)
              (decode_token-undecoded jose later token "refresh" none
                (jose.decode-expired later exp c x (ground (arith, late, d)))))
      ]
