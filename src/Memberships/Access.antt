-- ===== src/Memberships/Access.antt =====
-- backend/app/services/memberships.py and rbac.py: the operations and the permissions.
use mathlib.Core.List.{append-nil}
use employed.Base.{
  Bool, Bool-cases, In, In→any, List, Option, String, [], any, ap, arith, false, false≢true, first,
  if◌then◌else◌, inl, inr, list_eq, nat_eq, none, option_eq, refl, some, string_eq, sym, true, ℕ,
  ◌++◌, ◌==◌, ◌∙◌, ◌∷◌, ◌≡◌,
}
use employed.Enums.{
  MembershipStatus, TenantRole, country_eq, job_status_eq, job_type_eq, market_key_eq,
  membership_status_eq, payment_provider_key_eq, payment_status_eq, verification_state_eq,
}
use employed.Models.{Membership, User}
use employed.Models.Keys.{UniquePairs, same_pair}
use employed.Memberships.{
  Tables, apply_domain_auto_membership, invite_member, set_status, suspend_member,
}
use employed.Rbac.{has_permission, is_active_in, platform_permissions, tenant_permissions}
use employed.Memberships.AutoLink.{apply_domain_auto_membership_total, auto_row}
use employed.Rbac.Tenancy.{no_tenant_permission}

first-append_miss :
    (f : Membership → Bool) (rows : List Membership) (m : Membership)
    → f m ≡ false
    → first f (rows ++ m ∷ []) ≡ first f rows
first-append_miss f [] m h = ground arith
first-append_miss f (r ∷ rows) m h = ground (arith, first-append_miss f rows m h)

invited-not_active :
    (user : User) (c : ℕ) (m : Membership)
    → m.status ≡ MembershipStatus.invited
    → is_active_in user c m ≡ false
unfolding is_active_in
invited-not_active user c m h = ground arith

has_permission-append_invited :
    (rows : List Membership) (m : Membership) (user : User) (p : String) (company : Option ℕ)
    → m.status ≡ MembershipStatus.invited
    → has_permission (rows ++ m ∷ []) user p company ≡ has_permission rows user p company
unfolding has_permission tenant_permissions
has_permission-append_invited rows m user p none h = refl
has_permission-append_invited rows m user p (some c) h =
    ground (arith, first-append_miss (is_active_in user c) rows m (invited-not_active user c m h))

-- An invitation, accepted by the table or refused, changes nobody's permissions anywhere.
pub has_permission-invite_member :
    (id c u by : ℕ) (role : TenantRole) (rows : List Membership) (user : User) (p : String)
    (company : Option ℕ)
    → has_permission (invite_member id c u role by rows).1 user p company
      ≡ has_permission rows user p company
unfolding invite_member
has_permission-invite_member id c u by role rows user p company =
    elim (Bool-cases (any (same_pair u c) rows)) [
      | inl e ↦ rw e refl
      | inr e ↦ rw e (has_permission-append_invited rows _ user p company refl)
    ]

inactive :
    (user : User) (c id : ℕ) (rows : List Membership)
    → any (same_pair user.id c) rows ≡ false
    → any (is_active_in user c) (set_status id MembershipStatus.suspended rows) ≡ false
unfolding set_status is_active_in
inactive user c id [] h = refl
inactive user c id (m ∷ rows) h = ground (arith, inactive user c id rows)

suspended-not_active :
    (user : User) (c id : ℕ) (m : Membership)
    → m.id ≡ id
    → is_active_in user c
        (if m.id == id then record m { status = MembershipStatus.suspended } else m)
      ≡ false
unfolding is_active_in
suspended-not_active user c id m h = ground arith

other_pair_inactive :
    (user : User) (c id : ℕ) (m : Membership)
    → same_pair user.id c m ≡ false
    → is_active_in user c
        (if m.id == id then record m { status = MembershipStatus.suspended } else m)
      ≡ false
unfolding is_active_in
other_pair_inactive user c id m h = ground arith

pair_of :
    (r m : Membership) (user : User)
    → same_pair user.id m.company_id r ≡ true
    → m.user_id ≡ user.id
    → same_pair r.user_id r.company_id m ≡ true
pair_of r m user q e = ground arith

suspend_deactivates :
    (rows : List Membership) (m : Membership) (user : User)
    → UniquePairs rows
    → In m rows
    → m.user_id ≡ user.id
    → any (is_active_in user m.company_id) (set_status m.id MembershipStatus.suspended rows) ≡ false
unfolding set_status
suspend_deactivates [] m user u i e = absurd i
suspend_deactivates (r ∷ rows) m user u (inl q) e = ground (
  arith,
  suspended-not_active user m.company_id m.id r (ap (λ (x : Membership). x.id) q),
  inactive user m.company_id m.id rows,
  ap (λ (x : Membership). x.user_id) q,
  ap (λ (x : Membership). x.company_id) q,
)
suspend_deactivates (r ∷ rows) m user u (inr i) e =
    elim (Bool-cases (same_pair user.id m.company_id r)) [
      | inl q ↦ absurd (false≢true (sym u.0 ∙ In→any _ rows m i (pair_of r m user q e)))
      | inr q ↦ ground (
        arith,
        other_pair_inactive user m.company_id m.id r q,
        suspend_deactivates rows m user u.1 i e,
      )
    ]

-- After a suspension of a row of the table, its user has in its company only what the platform
-- roles grant, if the table meets the membership constraint.
pub has_permission-suspend_member :
    (rows : List Membership) (m : Membership) (user : User) (p : String)
    → UniquePairs rows
    → In m rows
    → m.user_id ≡ user.id
    → has_permission (suspend_member m rows).1 user p (some m.company_id)
      ≡ has_permission rows user p none
unfolding suspend_member has_permission
has_permission-suspend_member rows m user p u i e = ground (
  arith,
  no_tenant_permission (set_status m.id MembershipStatus.suspended rows) user m.company_id
      (suspend_deactivates rows m user u i e),
  append-nil (platform_permissions user),
)

-- A domain link changes nobody's permissions anywhere.
has_permission-auto_membership :
    (id c u : ℕ) (role : TenantRole) (t : Tables) (user : User) (p : String) (company : Option ℕ)
    → has_permission (apply_domain_auto_membership id c u role t).1.memberships user p company
      ≡ has_permission t.memberships user p company
has_permission-auto_membership id c u role t user p company =
    elim (apply_domain_auto_membership_total id c u role t) [
      | inl (e, entry, q, _, _) ↦
          rw q
            (has_permission-append_invited t.memberships (auto_row id c u role) user p company refl)
      | inr (m, e, q) ↦ rw q refl
    ]
