-- ===== src/Rbac/Decision.antt =====
-- backend/app/services/rbac.py, what a grant means: `has_permission` against a description by roles and rows.
use employed.Base.{
  ==_iff, Bool-cases, In, In→any, List, Option-cases, String, [], any, any→In, arith, contains,
  contains-append, false≢true, first, first→In, inl, inr, list_eq, nat_eq, option_eq, or-split,
  or-true_left, or-true_right, some, string_eq, sym, true, ℕ, ◌++◌, ◌||◌, ◌↔◌, ◌∙◌, ◌∷◌, ◌≡◌, ◌⊎◌,
}
use employed.Enums.{
  PlatformRole, active, country_eq, job_status_eq, job_type_eq, market_key_eq, membership_status_eq,
  payment_provider_key_eq, payment_status_eq, platform_role, verification_state_eq,
}
use employed.Models.{Membership, User}
use employed.Rbac.{
  collect_permissions, get_user_roles, has_permission, is_active_in, platform_permissions,
  platform_role_permissions, role_name_permissions, tenant_permissions, tenant_role_permissions,
}
use employed.Models.Keys.{UniquePairs, same_pair}

contains-collect_permissions :
    (p : String) (perms names : List String)
    → contains p (collect_permissions perms names)
      ≡ (contains p perms || any (λ n. contains p (role_name_permissions n)) names)
unfolding collect_permissions
contains-collect_permissions p perms [] = ground arith
contains-collect_permissions p perms (n ∷ names) = ground (
  arith,
  contains-collect_permissions p (perms ++ role_name_permissions n) names,
  contains-append p perms (role_name_permissions n),
)

-- A platform role of the user has the permission in its bundle.
abbrev pub ByPlatform : User → String → Type 0
ByPlatform user p =
    (name : String) × In name (get_user_roles user.roles)
    × (role : PlatformRole) × (platform_role name ≡ some role)
    × (contains p (platform_role_permissions role) ≡ true)

-- An active membership of the user in the company has a role with the permission.
abbrev pub ByTenant : List Membership → User → String → ℕ → Type 0
ByTenant rows user p company_id =
    (m : Membership) × In m rows
    × (m.user_id ≡ user.id)
    × (m.company_id ≡ company_id)
    × (m.status ≡ active)
    × (contains p (tenant_role_permissions m.role) ≡ true)

pub named_role :
    (p name : String)
    → contains p (role_name_permissions name) ≡ true
    → (role : PlatformRole) × (platform_role name ≡ some role)
      × (contains p (platform_role_permissions role) ≡ true)
unfolding role_name_permissions
named_role p name h = elim (Option-cases (platform_role name)) [
  | inl e ↦ absurd (cc (e, h))
  | inr (role, e) ↦ (role, e, ground (arith, e, h))
]

pub role_grants :
    (p name : String) (role : PlatformRole)
    → platform_role name ≡ some role
    → contains p (platform_role_permissions role) ≡ true
    → contains p (role_name_permissions name) ≡ true
unfolding role_name_permissions
role_grants p name role e h = ground arith

pub platform_permissions_iff :
    (user : User) (p : String) → (contains p (platform_permissions user) ≡ true) ↔ ByPlatform user p
unfolding platform_permissions
platform_permissions_iff user p = (
  (λ h.
      let (name, i, g) =
        any→In (λ n. contains p (role_name_permissions n)) (get_user_roles user.roles)
          (ground (arith, contains-collect_permissions p [] (get_user_roles user.roles))) in
      let (role, e, k) = named_role p name g in (name, i, role, e, k)),
  (λ (name, i, role, e, g). ground (
    arith,
    contains-collect_permissions p [] (get_user_roles user.roles),
    In→any (λ n. contains p (role_name_permissions n)) (get_user_roles user.roles) name i
        (role_grants p name role e g),
  )),
)

is_active_in_iff :
    (user : User) (c : ℕ) (m : Membership)
    → (is_active_in user c m ≡ true)
      ↔ ((m.user_id ≡ user.id) × (m.company_id ≡ c) × (m.status ≡ active))
unfolding is_active_in
is_active_in_iff user c m = ground (arith, ==_iff m.status active)

same_as_active :
    (user : User) (c : ℕ) (r m : Membership)
    → is_active_in user c r ≡ true
    → is_active_in user c m ≡ true
    → same_pair r.user_id r.company_id m ≡ true
unfolding is_active_in
same_as_active user c r m hr hm = ground arith

-- The constraint makes the active row of a pair the one that the query finds.
first_active :
    (user : User) (c : ℕ) (rows : List Membership) (m : Membership)
    → UniquePairs rows
    → In m rows
    → is_active_in user c m ≡ true
    → first (is_active_in user c) rows ≡ some m
first_active user c [] m u i h = absurd i
first_active user c (r ∷ rows) m u (inl e) h =
    let q : is_active_in user c r ≡ true = rw e h in ground (arith, e, q)
first_active user c (r ∷ rows) m u (inr i) h = elim (Bool-cases (is_active_in user c r)) [
  | inl q ↦ absurd (false≢true (sym u.0 ∙ In→any _ rows m i (same_as_active user c r m q h)))
  | inr q ↦ rw q (first_active user c rows m u.1 i h)
]

tenant_permissions_iff :
    (rows : List Membership) (user : User) (p : String) (c : ℕ)
    → UniquePairs rows
    → (contains p (tenant_permissions rows user c) ≡ true) ↔ ByTenant rows user p c
unfolding tenant_permissions
tenant_permissions_iff rows user p c u = (
  (λ h. elim (Option-cases (first (is_active_in user c) rows)) [
    | inl e ↦ absurd (cc (e, h))
    | inr (m, e) ↦
        (let (i, q) = first→In (is_active_in user c) rows m e in
          let (a, b, d) = (is_active_in_iff user c m).0 q in (m, i, a, b, d, ground (arith, e, h)))
  ]),
  (λ w.
      let q =
        first_active user c rows w.0 u w.1 ((is_active_in_iff user c w.0).1 (w.2, w.3, w.4)) in
      ground (arith, q, w.5)),
)

-- In a table that meets the membership constraint, `has_permission` with a company says yes exactly
-- when a platform role of the user has the permission or an active membership of the user in that
-- company has a role with it.
pub has_permission_iff :
    (rows : List Membership) (user : User) (p : String) (c : ℕ)
    → UniquePairs rows
    → (has_permission rows user p (some c) ≡ true) ↔ (ByPlatform user p ⊎ ByTenant rows user p c)
unfolding has_permission
has_permission_iff rows user p c u =
    let split = contains-append p (platform_permissions user) (tenant_permissions rows user c) in
    (
      (λ h. elim (or-split _ _ (sym split ∙ h)) [
        | inl e ↦ inl ((platform_permissions_iff user p).0 e)
        | inr e ↦ inr ((tenant_permissions_iff rows user p c u).0 e)
      ]),
      (λ g. split ∙ elim g [
        | inl w ↦ or-true_left _ _ ((platform_permissions_iff user p).1 w)
        | inr w ↦ or-true_right _ _ ((tenant_permissions_iff rows user p c u).1 w)
      ]),
    )
