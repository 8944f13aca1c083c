-- ===== src/Tests/Tenancy.antt =====
-- Examples on memberships and companies.
use employed.Base.{
  Bool, [], any, arith, false, list_eq, ltb, nat_eq, option_eq, refl, some, string_eq, true, ℕ, ◌∷◌,
  ◌≡◌, ◌⊎◌,
}
use employed.Tests.{acme, ana, no_fields, staff, staff_tables, tenants}
use employed.Enums.{
  country_eq, job_status_eq, job_type_eq, market_key_eq, member, membership_status_eq, mx,
  org_owner, payment_provider_key_eq, payment_status_eq, verification_state_eq,
}
use employed.Models.{Company}
use employed.Memberships.{apply_domain_auto_membership, invite_member}
use employed.Memberships.Invariant.{Reach, here, invite, next}
use employed.Memberships.AutoLink.{apply_domain_auto_membership_idem}
use employed.Companies.{create_company, generate_unique_slug, new_company, slug_exists}
use employed.Companies.Creation.{Created, IsConsistent, create_company_total}
use employed.Companies.Domain.{IsAttached, Proof, verify_domain_via_member_emails_total}
use employed.Companies.Attach.{
  is_verified_member, normalize_domain, verify_domain_via_member_emails,
}
use employed.Base.Text.{Text, codes}
use employed.Base.Outcome.{ok}
use employed.Companies.Suffix.{generate_unique_slug-ok}
use employed.Companies.Ownership.{create_company-has_permission}
use employed.Rbac.{has_permission}

abbrev plain : Text → Text
plain s = s

staff_reached : Reach staff (invite_member 13 8 1 member 2 staff).1
staff_reached = next here (invite 13 8 1 member 2)

abbrev fails_after_first : ℕ → Bool
fails_after_first n = ltb n 2

abbrev second_acme : Company
second_acme = new_company 8 (codes "acme") (codes "acme-2") mx 1 no_fields

second_created :
    (create_company plain false false 8 13 (codes "acme") mx ana.id no_fields tenants).0
    ≡ ok second_acme
unfolding create_company
second_created = refl

tenants-IsConsistent : IsConsistent tenants
tenants-IsConsistent = ((refl, tt), (refl, (refl, tt)))

apply_domain_auto_membership_idem_example :
    apply_domain_auto_membership 14 8 1 org_owner
      (apply_domain_auto_membership 13 8 1 member staff_tables).1
    ≡ apply_domain_auto_membership 13 8 1 member staff_tables
apply_domain_auto_membership_idem_example =
    apply_domain_auto_membership_idem 13 14 8 1 member org_owner staff_tables

create_company_total_example :
    Created 13 1 tenants
      (create_company plain false false 8 13 (codes "acme") mx 1 no_fields tenants)
create_company_total_example =
    create_company_total plain false false 8 13 (codes "acme") mx 1 no_fields tenants

verify_domain_via_member_emails_total_example :
    (Proof (ana ∷ []) staff acme.id (normalize_domain (codes " @Acme.mx"))
      × (c' : Company) × IsAttached
          (normalize_domain (normalize_domain (codes " @Acme.mx")))
          acme
          c'
      × (verify_domain_via_member_emails (ana ∷ []) staff fails_after_first (codes " @Acme.mx") acme
          ≡ ok (true, c')))
    ⊎ ((any (is_verified_member (ana ∷ []) acme.id (normalize_domain (codes " @Acme.mx"))) staff
          ≡ false)
        × (verify_domain_via_member_emails
              (ana ∷ [])
              staff
              fails_after_first
              (codes " @Acme.mx")
              acme
            ≡ ok (false, acme)))
verify_domain_via_member_emails_total_example =
    verify_domain_via_member_emails_total (ana ∷ []) staff fails_after_first 2 (codes " @Acme.mx")
      acme (omega arith) refl

generate_unique_slug-ok_example :
    (slug : Text) × (generate_unique_slug plain (acme ∷ []) (codes "acme") mx ≡ ok slug)
    × (slug_exists (acme ∷ []) mx slug ≡ false)
generate_unique_slug-ok_example =
    generate_unique_slug-ok plain (acme ∷ []) (codes "acme") mx (omega arith)

create_company-has_permission_example :
    has_permission
      (create_company plain false false 8 13
        (codes "acme")
        mx
        ana.id
        no_fields
        tenants).1.memberships
      ana
      "job:post"
      (some second_acme.id)
    ≡ true
create_company-has_permission_example =
    create_company-has_permission plain false false 8 13 (codes "acme") mx ana no_fields tenants
      second_acme "job:post" tenants-IsConsistent refl second_created
