-- ===== src/SignIn/Takeover.antt =====
-- backend/app/routers/auth.py: what signing in with a provider does to the accounts.
use employed.Base.{
  ==_iff, Bool-cases, Option-cases, String, arith, false, if◌then◌else◌, inl, inr, is_some, list_eq,
  nat_eq, none, option_eq, refl, string_eq, ℕ, ◌&&◌, ◌==◌, ◌∙◌, ◌≡◌, ◌≢◌,
}
use employed.Base.Dict.{Dict, insert, lookup, lookup-insert}
use employed.Base.Outcome.{Outcome, is_ok, ok, raised}
use employed.Enums.{
  country_eq, job_status_eq, job_type_eq, market_key_eq, membership_status_eq,
  payment_provider_key_eq, payment_status_eq, verification_state_eq,
}
use employed.SignIn.{Account, SignInError, address_unverified, save_failed}
use employed.SignIn.Oauth.{
  OauthProfile, blank_account, claim_verified, find_user_by_provider, named_account, oauth_account,
  oauth_callback, refused_address, set_oauth_fields,
}

-- The row that is saved, once it is chosen and its address can be stored.
saved_by :
    ℕ → OauthProfile → Account → Dict ℕ Account → Outcome SignInError Account × Dict ℕ Account
saved_by id profile account accounts =
    let saved = set_oauth_fields profile account in
    if refused_address account.user.id saved.user.email accounts
    then (raised save_failed, accounts)
    else (ok saved, insert account.user.id saved accounts)

callback-chosen :
    (id : ℕ) (provider : String) (profile : OauthProfile) (account : Account)
    (accounts : Dict ℕ Account)
    → oauth_account id provider profile accounts ≡ ok account
    → oauth_callback id provider profile accounts ≡ saved_by id profile account accounts
unfolding oauth_callback saved_by
callback-chosen id provider profile account accounts h = rw (h, oauth_callback) refl

callback-refused :
    (id : ℕ) (provider : String) (profile : OauthProfile) (e : SignInError)
    (accounts : Dict ℕ Account)
    → oauth_account id provider profile accounts ≡ raised e
    → oauth_callback id provider profile accounts ≡ (raised e, accounts)
unfolding oauth_callback
callback-refused id provider profile e accounts h = rw (h, oauth_callback) refl

saved_by-other :
    (id j : ℕ) (profile : OauthProfile) (account : Account) (accounts : Dict ℕ Account)
    → account.user.id ≢ j
    → lookup j (saved_by id profile account accounts).1 ≡ lookup j accounts
unfolding saved_by
saved_by-other id j profile account accounts d =
    let saved = set_oauth_fields profile account in
    let n : (account.user.id == j) ≡ false = ground (arith, ==_iff account.user.id j, d) in
    elim (Bool-cases (refused_address account.user.id saved.user.email accounts)) [
      | inl e ↦ rw e refl
      | inr e ↦ rw (e, lookup-insert account.user.id j saved accounts, n) refl
    ]

choose-unvouched :
    (id : ℕ) (provider : String) (profile : OauthProfile) (accounts : Dict ℕ Account)
    → find_user_by_provider provider profile.provider_id accounts ≡ none
    → claim_verified provider profile ≡ false
    → oauth_account id provider profile accounts ≡ (
        if is_some (named_account profile accounts)
        then raised address_unverified
        else ok (blank_account id))
unfolding oauth_account
choose-unvouched id provider profile accounts unlinked unclaimed =
    elim (Option-cases (named_account profile accounts)) [
      | inl e ↦ rw (unlinked, oauth_account, e) refl
      | inr (a, e) ↦ rw (unlinked, oauth_account, e, unclaimed) refl
    ]

-- A provider's identity that no account has, and whose address the provider does not vouch for:
-- the sign-in is refused if an account has the address, and whatever the answer, no account but the
-- new one is other than it was.
pub oauth_callback-unvouched :
    (id j : ℕ) (provider : String) (profile : OauthProfile) (accounts : Dict ℕ Account)
    → find_user_by_provider provider profile.provider_id accounts ≡ none
    → claim_verified provider profile ≡ false
    → id ≢ j
    → (lookup j (oauth_callback id provider profile accounts).1 ≡ lookup j accounts)
      × ((is_some (named_account profile accounts)
            && is_ok (oauth_callback id provider profile accounts).0)
          ≡ false)
unfolding blank_account
oauth_callback-unvouched id j provider profile accounts unlinked unclaimed d =
    let chosen = choose-unvouched id provider profile accounts unlinked unclaimed in
    elim (Bool-cases (is_some (named_account profile accounts))) [
      | inl e ↦
          (let c =
              callback-refused id provider profile address_unverified accounts
                (chosen ∙ rw e refl) in
            rw (c, e) (refl, refl))
      | inr e ↦
          (let c =
              callback-chosen id provider profile (blank_account id) accounts
                (chosen ∙ rw e refl) in
            rw (c, e) (saved_by-other id j profile (blank_account id) accounts d, refl))
    ]
