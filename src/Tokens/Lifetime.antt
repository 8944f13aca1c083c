-- ===== src/Tokens/Lifetime.antt =====
-- backend/app/auth/jwt.py: a token from its making to its reading.
use employed.Base.{
  ==_iff, Bool, Bool-cases, Option, String, arith, false, false≢true, if◌then◌else◌, inl, inr,
  list_eq, ltb, ltb→lt, nat_eq, none, not, option_eq, refl, some, string_eq, sym, true, ℕ, ◌&&◌,
  ◌+◌, ◌<◌, ◌==◌, ◌∙◌, ◌≡◌, ◌≢◌,
}
use employed.Base.Text.{Text}
use employed.Base.Outcome.{Outcome, ok, raise_if, raised, ◌>>◌}
use employed.Tokens.{
  Claims, Jose, TokenError, create_token, decode_token, invalid_token, is_before_change,
  issued_before_change, new_claims, unexpected_type,
}

-- The two checks, on a kind that has a name.
checks_read :
    (unnamed same stale : Bool) (c : Claims)
    → unnamed ≡ false
    → (raise_if (not unnamed && not same) unexpected_type
        >> (raise_if stale issued_before_change >> ok c))
      ≡ (if not same
          then raised unexpected_type
          else if stale
          then raised issued_before_change
          else ok c)
checks_read true same stale c h = absurd (false≢true (sym h))
checks_read false true true c h = refl
checks_read false true false c h = refl
checks_read false false stale c h = refl

if-not : {A : Type 0} (b : Bool) (x y : A) → (if not b then x else y) ≡ (if b then y else x)
if-not true x y = refl
if-not false x y = refl

raise-not :
    (b : Bool)
    → Path
        (Outcome TokenError Claims)
        (if not b then raised unexpected_type else raised issued_before_change)
        (raised (if b then issued_before_change else unexpected_type))
raise-not true = refl
raise-not false = refl

module _ {Token : Type 0} (jose : Jose Token) where
  decode_token-decoded :
      (now : ℕ) (token : Token) (expected : String) (changed : Option ℕ) (c : Claims)
      → jose.decode now token ≡ some c
      → decode_token jose now token expected changed
        ≡ raise_if (not (expected == "") && not (c.token_type == expected)) unexpected_type
          >> (raise_if (is_before_change c.iat changed) issued_before_change >> ok c)
  unfolding decode_token
  decode_token-decoded now token expected changed c h = rw (h, decode_token) refl

  pub decode_token-undecoded :
      (now : ℕ) (token : Token) (expected : String) (changed : Option ℕ)
      → jose.decode now token ≡ none
      → decode_token jose now token expected changed ≡ raised invalid_token
  unfolding decode_token
  decode_token-undecoded now token expected changed h = rw (h, decode_token) refl

  -- A token that is read without the moment of a change.
  pub decode_token-fresh :
      (now : ℕ) (token : Token) (expected : String) (c : Claims)
      → jose.decode now token ≡ some c
      → (expected == "") ≡ false
      → decode_token jose now token expected none
        ≡ (if c.token_type == expected then ok c else raised unexpected_type)
  unfolding is_before_change
  decode_token-fresh now token expected c h e =
      decode_token-decoded now token expected none c h
      ∙ checks_read (expected == "") (c.token_type == expected) false c e
      ∙ if-not (c.token_type == expected) (raised unexpected_type) (ok c)

  -- A token that is older than the change.
  pub decode_token-stale :
      (now at changed : ℕ) (token : Token) (expected : String) (c : Claims)
      → jose.decode now token ≡ some c
      → c.iat ≡ some at
      → at < changed
      → (expected == "") ≡ false
      → decode_token jose now token expected (some changed)
        ≡ raised (if c.token_type == expected then issued_before_change else unexpected_type)
  unfolding is_before_change
  decode_token-stale now at changed token expected c h i lt e =
      let stale : is_before_change c.iat (some changed) ≡ true = rw i (ground (arith, lt)) in
      decode_token-decoded now token expected (some changed) c h
      ∙ rw stale (checks_read (expected == "") (c.token_type == expected) true c e)
      ∙ raise-not (c.token_type == expected)

  -- A token made with a lifetime, when it is read for a kind that has a name and against the moment
  -- of the last change of the password: after its expiry it is invalid; before it, it is refused
  -- unless it is of the kind, then unless it was made no earlier than the change, and else it gives
  -- back the claims that it was made with.
  pub decode_token-create_token :
      (now later subject lifetime changed : ℕ) (kind expected : String) (jti : Option String)
      (email : Option Text)
      → expected ≢ ""
      → later ≢ now + lifetime
      → decode_token jose later
          (create_token jose now subject kind lifetime jti email)
          expected
          (some changed)
        ≡ (if ltb (now + lifetime) later
            then raised invalid_token
            else if not (kind == expected)
            then raised unexpected_type
            else if ltb now changed
            then raised issued_before_change
            else ok (new_claims now subject kind lifetime jti email))
  unfolding create_token new_claims is_before_change
  decode_token-create_token now later subject lifetime changed kind expected jti email e d =
      let c = new_claims now subject kind lifetime jti email in
      let unnamed : (expected == "") ≡ false = ground (arith, ==_iff expected "") in
      elim (Bool-cases (ltb (now + lifetime) later)) [
        | inl late ↦ rw late (
            decode_token-undecoded later (jose.encode c) expected (some changed) (
              jose.decode-expired later (now + lifetime) c refl
                (ltb→lt (now + lifetime) later late)))
        | inr early ↦ rw early (
            decode_token-decoded later (jose.encode c) expected (some changed) c
              (jose.decode-encode later (now + lifetime) c refl (ground (arith, early, d)))
            ∙ checks_read (expected == "") (kind == expected) (ltb now changed) c unnamed)
      ]
