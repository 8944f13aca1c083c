-- ===== src/Companies/Domain.antt =====
-- backend/app/services/companies.py: what a proof of control of a domain attaches to a company.
use employed.Base.{
  ==_iff, ==_refl, Bool, Bool-cases, In, List, [], and-split, any, any→In, ap, arith, contains,
  contains-append, contains_congr, false, false≢true, inl, inr, list_eq, nat_eq, option_eq,
  or-true_right, refl, string_eq, suc, sym, true, zero, ℕ, ◌&&◌, ◌<◌, ◌==◌, ◌||◌, ◌∙◌, ◌∷◌, ◌≡◌,
  ◌⊎◌,
}
use employed.Enums.{
  MembershipStatus, country_eq, job_status_eq, job_type_eq, market_key_eq, membership_status_eq,
  payment_provider_key_eq, payment_status_eq, verification_state_eq,
}
use employed.Models.{Company, Membership, User}
use employed.Trust.{company_badges, derive_badges, flag, refs_of}
use employed.Base.Text.{Text}
use employed.Base.Outcome.{ok, ◌>>=◌}
use employed.Trust.Reconcile.{contains-reconcile_names}
use employed.Companies.Attach.{
  attach_attempts, attach_if, attach_verified_domain, domain_attach_max_attempts, email_domain,
  is_verified_member, normalize_domain, verify_domain_via_member_emails, with_domain,
}

-- The domain is listed after the write, and every listed domain stays.
with_domain-contains :
    (d x : Text) (c : Company)
    → contains x (with_domain d c).verified_email_domains
      ≡ (contains x c.verified_email_domains || d == x)
unfolding with_domain
with_domain-contains d x c = elim (Bool-cases (contains d c.verified_email_domains)) [
  | inl e ↦ rw (e, with_domain) (ground (arith, contains_congr x d c.verified_email_domains, e))
  | inr e ↦
      rw (e, with_domain) (ground (arith, contains-append x c.verified_email_domains (d ∷ [])))
]

contains-not_empty : (d : Text) (ds : List Text) → contains d ds ≡ true → (ds == []) ≡ false
contains-not_empty d [] h = absurd (false≢true h)
contains-not_empty d (x ∷ ds) h = refl

company_badges-domain :
    (c : Company)
    → (c.verified_email_domains == []) ≡ false
    → contains "domain verified" (company_badges c) ≡ true
unfolding company_badges
company_badges-domain c h = elim (Bool-cases (flag "email_verified" (refs_of c.external_refs))) [
  | inl e ↦ rw (h, e, company_badges) refl
  | inr e ↦ rw (h, e, company_badges) refl
]

-- The badge follows from a domain on the list.
with_domain-badge :
    (d : Text) (c : Company) → contains "domain verified" (with_domain d c).trust_badges ≡ true
unfolding with_domain derive_badges
with_domain-badge d c =
    let listed = record c { verified_email_domains = (with_domain d c).verified_email_domains } in
    contains-reconcile_names "domain verified" (company_badges listed) c.trust_badges
    ∙ company_badges-domain listed (
        contains-not_empty d listed.verified_email_domains (
          with_domain-contains d d c
          ∙ or-true_right (contains d c.verified_email_domains) (d == d) (==_refl d)))

attach_attempts-some :
    (write_fails : ℕ → Bool) (attempts n : ℕ) (d : Text) (c : Company)
    → n < attempts
    → write_fails n ≡ false
    → attach_attempts write_fails attempts d c ≡ ok (with_domain d c)
unfolding attach_attempts
attach_attempts-some write_fails zero n d c lt h = absurd (omega arith)
attach_attempts-some write_fails (suc attempts) n d c lt h =
    elim (Bool-cases (write_fails attempts)) [
      | inr e ↦ rw (e, attach_attempts) refl
      | inl e ↦
          rw (e, attach_attempts)
            (attach_attempts-some write_fails attempts n d c
              (omega (arith, lt, λ (q : n ≡ attempts). false≢true (sym h ∙ ap write_fails q ∙ e)))
              h)
    ]

attach_if-true :
    (write_fails : ℕ → Bool) (n : ℕ) (d : Text) (c : Company)
    → n < domain_attach_max_attempts
    → write_fails n ≡ false
    → attach_if true write_fails d c ≡ ok (true, with_domain (normalize_domain d) c)
unfolding attach_if attach_verified_domain
attach_if-true write_fails n d c lt h =
    ap (λ o. o >>= (λ c'. ok (true, c')))
      (attach_attempts-some write_fails domain_attach_max_attempts n (normalize_domain d) c lt h)

attach_if-false :
    (write_fails : ℕ → Bool) (d : Text) (c : Company)
    → attach_if false write_fails d c ≡ ok (false, c)
unfolding attach_if
attach_if-false write_fails d c = refl

-- An active member of the company whose verified email address is on the domain.
abbrev pub Proof : List User → List Membership → ℕ → Text → Type 0
Proof users rows company_id d =
    (m : Membership) × (u : User) × In m rows
    × In u users
    × (m.company_id ≡ company_id)
    × (m.status ≡ MembershipStatus.active)
    × (u.id ≡ m.user_id)
    × (u.email_verified ≡ true)
    × (email_domain u.email ≡ d)

any-Proof :
    (users : List User) (rows : List Membership) (company_id : ℕ) (d : Text)
    → any (is_verified_member users company_id d) rows ≡ true
    → Proof users rows company_id d
unfolding is_verified_member
any-Proof users rows company_id d h =
    let (m, i, q) = any→In (is_verified_member users company_id d) rows h in
    let (own, some_user) =
      and-split (m.company_id == company_id && m.status == MembershipStatus.active)
        (any (λ (u : User). u.id == m.user_id && (u.email_verified && email_domain u.email == d))
          users)
        q in
    let (c, s) = and-split (m.company_id == company_id) (m.status == MembershipStatus.active) own in
    let (u, j, r) =
      any→In (λ (u : User). u.id == m.user_id && (u.email_verified && email_domain u.email == d))
        users some_user in
    let (a, r') = and-split (u.id == m.user_id) (u.email_verified && email_domain u.email == d) r in
    let (b, e) = and-split u.email_verified (email_domain u.email == d) r' in
    (
      m,
      u,
      i,
      j,
      (==_iff m.company_id company_id).0 c,
      (==_iff m.status MembershipStatus.active).0 s,
      (==_iff u.id m.user_id).0 a,
      b,
      (==_iff (email_domain u.email) d).0 e,
    )

-- A company that the proof leaves behind: the domain is listed, no listed domain is lost, and the
-- badge is there.
abbrev pub IsAttached : Text → Company → Company → Type 0
IsAttached d c c' =
    (contains d c'.verified_email_domains ≡ true)
    × (contains "domain verified" c'.trust_badges ≡ true)
    × ((x : Text)
        → contains x c'.verified_email_domains ≡ (contains x c.verified_email_domains || d == x))

with_domain-IsAttached : (d : Text) (c : Company) → IsAttached d c (with_domain d c)
with_domain-IsAttached d c = (
  with_domain-contains d d c
      ∙ or-true_right (contains d c.verified_email_domains) (d == d) (==_refl d),
  with_domain-badge d c,
  λ x. with_domain-contains d x c,
)

-- When one of the three attempts at the write succeeds, the check of the members' addresses
-- answers. It answers yes only where an active member of the company has a verified address on the
-- normalised domain, and then the domain, normalised once more, is listed beside those that were,
-- and the badge attached. It answers no only where no row gives such a proof, and the company stays.
pub verify_domain_via_member_emails_total :
    (users : List User) (rows : List Membership) (write_fails : ℕ → Bool) (n : ℕ) (domain : Text)
    (c : Company)
    → n < domain_attach_max_attempts
    → write_fails n ≡ false
    → (Proof users rows c.id (normalize_domain domain)
        × (c' : Company) × IsAttached (normalize_domain (normalize_domain domain)) c c'
        × (verify_domain_via_member_emails users rows write_fails domain c ≡ ok (true, c')))
      ⊎ ((any (is_verified_member users c.id (normalize_domain domain)) rows ≡ false)
          × (verify_domain_via_member_emails users rows write_fails domain c ≡ ok (false, c)))
unfolding verify_domain_via_member_emails
verify_domain_via_member_emails_total users rows write_fails n domain c lt h =
    let d = normalize_domain domain in
    elim (Bool-cases (any (is_verified_member users c.id d) rows)) [
      | inl e ↦ inl (
        any-Proof users rows c.id d e,
        with_domain (normalize_domain d) c,
        with_domain-IsAttached (normalize_domain d) c,
        ap (λ b. attach_if b write_fails d c) e ∙ attach_if-true write_fails n d c lt h,
      )
      | inr e ↦ inr (e, ap (λ b. attach_if b write_fails d c) e ∙ attach_if-false write_fails d c)
    ]
