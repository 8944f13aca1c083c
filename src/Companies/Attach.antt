-- ===== src/Companies/Attach.antt =====
-- backend/app/services/companies.py: the proofs that a company controls a domain, and the write that
-- attaches it. The resolver of DNS records is an argument.
use employed.Base.{
  Bool, List, [], any, contains, false, if◌then◌else◌, list_eq, nat_eq, option_eq, string_eq, suc,
  true, zero, ℕ, ◌&&◌, ◌++◌, ◌==◌, ◌∷◌,
}
use employed.Enums.{
  MembershipStatus, country_eq, job_status_eq, job_type_eq, market_key_eq, membership_status_eq,
  payment_provider_key_eq, payment_status_eq, verification_state_eq,
}
use employed.Models.{Company, Membership, User}
use employed.Trust.{company, derive_badges, reconcile_names}
use employed.Companies.{CompanyError, database_error}
use employed.Base.Text.{Text, after, lower, strip, strip_left}
use employed.Base.Outcome.{Outcome, ok, raised, ◌>>=◌}

-- `_normalize_domain`
unfoldable pub normalize_domain : Text → Text
unfolding strip strip_left
normalize_domain domain = lower (strip_left b'@' (strip domain))

-- `_email_domain`
unfoldable pub email_domain : Text → Text
unfolding strip
email_domain email = lower (strip (after b'@' email))

abbrev pub domain_attach_max_attempts : ℕ
domain_attach_max_attempts = 3

-- The body of the SAVEPOINT in `_attach_verified_domain`.
unfoldable pub with_domain : Text → Company → Company
unfolding reconcile_names derive_badges
with_domain domain c =
    let listed = record c {
      verified_email_domains =
          if contains domain c.verified_email_domains
          then c.verified_email_domains
          else c.verified_email_domains ++ domain ∷ [];
    } in
    record listed { trust_badges = reconcile_names (derive_badges (company listed)) c.trust_badges }

-- The retries, `attempts` of them left; `write_fails` is the database's answer to each. A failed
-- attempt is rolled back, and the last one's error is raised.
unfoldable pub attach_attempts : (ℕ → Bool) → ℕ → Text → Company → Outcome CompanyError Company
unfolding with_domain
attach_attempts write_fails zero domain c = raised database_error
attach_attempts write_fails (suc attempts) domain c =
    let rest = attach_attempts write_fails attempts domain c in
    if write_fails attempts then rest else ok (with_domain domain c)

-- `_attach_verified_domain`
unfoldable pub attach_verified_domain : (ℕ → Bool) → Text → Company → Outcome CompanyError Company
unfolding normalize_domain attach_attempts
attach_verified_domain write_fails domain c =
    attach_attempts write_fails domain_attach_max_attempts (normalize_domain domain) c

-- What both proofs do with their verdict: the answer and the company.
unfoldable pub attach_if :
    Bool → (ℕ → Bool) → Text → Company → Outcome CompanyError (Bool × Company)
unfolding attach_verified_domain
attach_if proved write_fails domain c =
    if proved
    then attach_verified_domain write_fails domain c >>= (λ c'. ok (true, c'))
    else ok (false, c)

-- `verify_domain_via_dns`, with the TXT records that the resolver gives for a domain.
unfoldable pub verify_domain_via_dns :
    (Text → List Text) → (ℕ → Bool) → Text → Text → Company → Outcome CompanyError (Bool × Company)
unfolding normalize_domain strip attach_if
verify_domain_via_dns resolver write_fails domain expected_token c =
    let normalized = normalize_domain domain in
    attach_if (any (λ r. expected_token == strip r) (resolver normalized)) write_fails normalized c

-- A row of the query on memberships joined with users: the company, and the verified email.
unfoldable pub is_verified_member : List User → ℕ → Text → Membership → Bool
unfolding email_domain
is_verified_member users company_id domain m =
    (m.company_id == company_id && m.status == MembershipStatus.active)
    && any (λ (u : User). u.id == m.user_id && (u.email_verified && email_domain u.email == domain))
        users

-- `verify_domain_via_member_emails`
unfoldable pub verify_domain_via_member_emails :
    List User
    → List Membership
    → (ℕ → Bool)
    → Text
    → Company
    → Outcome CompanyError (Bool × Company)
unfolding normalize_domain is_verified_member attach_if
verify_domain_via_member_emails users rows write_fails domain c =
    let normalized = normalize_domain domain in
    attach_if (any (is_verified_member users c.id normalized) rows) write_fails normalized c
