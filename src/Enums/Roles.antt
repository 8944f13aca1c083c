-- ===== src/Enums/Roles.antt =====
-- Platform roles, tenant roles and the status of a membership (backend/app/models/enums.py).
use employed.Base.{
  Bool, Eq, Option, String, arith, false, if◌then◌else◌, list_eq, nat_eq, none, option_eq, some,
  string_eq, true, ◌==◌, ◌↔◌, ◌≡◌,
}

pub data PlatformRole : Type 0 where
  platform_super_admin platform_moderator platform_support : PlatformRole

-- `PlatformRole(name)`; `none` is the ValueError of a name that is no member.
unfoldable pub platform_role : String → Option PlatformRole
platform_role name =
    if name == "platform_super_admin"
    then some platform_super_admin
    else if name == "platform_moderator"
    then some platform_moderator
    else if name == "platform_support"
    then some platform_support
    else none

pub data TenantRole : Type 0 where
  org_owner org_admin recruiter member : TenantRole

unfoldable pub tenant_role_value : TenantRole → String
tenant_role_value org_owner = "org_owner"
tenant_role_value org_admin = "org_admin"
tenant_role_value recruiter = "recruiter"
tenant_role_value member = "member"

pub data MembershipStatus : Type 0 where
  invited active suspended : MembershipStatus

abbrev pub membership_status_eqb : MembershipStatus → MembershipStatus → Bool
membership_status_eqb invited invited = true
membership_status_eqb active active = true
membership_status_eqb suspended suspended = true
membership_status_eqb _ _ = false

pub membership_status_eqb_iff :
    (a b : MembershipStatus) → (membership_status_eqb a b ≡ true) ↔ (a ≡ b)
membership_status_eqb_iff a b = ground arith

instance abbrev pub membership_status_eq : Eq MembershipStatus
membership_status_eq = record { same = membership_status_eqb; same_iff = membership_status_eqb_iff }

unfoldable pub membership_status_value : MembershipStatus → String
membership_status_value invited = "invited"
membership_status_value active = "active"
membership_status_value suspended = "suspended"
