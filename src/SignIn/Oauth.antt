-- ===== src/SignIn/Oauth.antt =====
-- backend/app/routers/auth.py: signing in with a provider. The exchange of the code is a parameter:
-- the profile that it gave.
use employed.Base.{
  Bool, Option, String, [], any, false, first, if◌then◌else◌, is_empty, list_eq, map, nat_eq, none,
  not, option_eq, or_else, some, string_eq, true, ℕ, ◌&&◌, ◌==◌, ◌||◌,
}
use employed.Base.Text.{Text, lower, strip}
use employed.Base.Dict.{Dict, insert, lookup}
use employed.Base.Outcome.{Outcome, ok, raised}
use employed.Models.{many}
use employed.Enums.{
  VerificationState, country_eq, job_status_eq, job_type_eq, market_key_eq, membership_status_eq,
  payment_provider_key_eq, payment_status_eq, verification_state_eq,
}
use employed.SignIn.{Account, SignInError, address_unverified, find_user_by_email, save_failed}

-- What a provider says of a user; an address that is absent is the empty text.
pub record OauthProfile : Type 0 where
  pub provider : String
  pub provider_id : Option String
  pub email : Text
  pub name : Option String
  pub claimed_verified : Option Bool

-- `_find_user_by_provider`, by the column `oauth_providers`
unfoldable pub find_user_by_provider : String → Option String → Dict ℕ Account → Option Account
find_user_by_provider provider none accounts = none
find_user_by_provider provider (some id) accounts =
    if id == ""
    then none
    else first (λ a. lookup provider a.oauth_providers == some id) (map (λ (key, a). a) accounts)

-- `_set_oauth_fields`; a provider without an identifier is written as the empty text.
unfoldable pub set_oauth_fields : OauthProfile → Account → Account
set_oauth_fields profile a = record a {
  user = record a.user { email = lower (strip profile.email); email_verified = true };
  display_name = profile.name;
  oauth_providers = insert profile.provider (or_else profile.provider_id "") a.oauth_providers;
}

-- The row that a new user starts from.
unfoldable pub blank_account : ℕ → Account
blank_account id = record {
  user = record {
    id = id;
    roles = many [];
    email = [];
    email_verified = false;
    verification_status = VerificationState.unverified;
  };
  display_name = none;
  password_hash = none;
  password_changed_at = none;
  oauth_providers = [];
}

-- `profile.get("email_verified", provider == "google")`
unfoldable pub claim_verified : String → OauthProfile → Bool
claim_verified provider profile = or_else profile.claimed_verified (provider == "google")

-- The account of the address that the profile names.
unfoldable pub named_account : OauthProfile → Dict ℕ Account → Option Account
named_account profile accounts =
    if is_empty profile.email then none else find_user_by_email profile.email accounts

-- The row that `oauth_callback` signs in: that of the identity, else that of the address if the
-- provider vouches for it, else a new one.
unfoldable pub oauth_account :
    ℕ → String → OauthProfile → Dict ℕ Account → Outcome SignInError Account
oauth_account id provider profile accounts =
    elim (find_user_by_provider provider profile.provider_id accounts) [
      | some account ↦ ok account
      | none ↦ elim (named_account profile accounts) [
        | some account ↦
            if claim_verified provider profile then ok account else raised address_unverified
        | none ↦ ok (blank_account id)
      ]
    ]

-- An address that the table refuses: none, or that of another row.
unfoldable pub refused_address : ℕ → Text → Dict ℕ Account → Bool
refused_address id email accounts =
    is_empty email || any (λ (key, a). not (key == id) && a.user.email == email) accounts

-- `oauth_callback`, the state there and the code exchanged, before its tokens
unfoldable pub oauth_callback :
    ℕ → String → OauthProfile → Dict ℕ Account → Outcome SignInError Account × Dict ℕ Account
unfolding oauth_account set_oauth_fields refused_address
oauth_callback id provider profile accounts = elim (oauth_account id provider profile accounts) [
  | raised e ↦ (raised e, accounts)
  | ok account ↦
      let saved = set_oauth_fields profile account in
      if refused_address account.user.id saved.user.email accounts
      then (raised save_failed, accounts)
      else (ok saved, insert account.user.id saved accounts)
]
