-- ===== src/Memberships.antt =====
-- backend/app/services/memberships.py: the life of a membership. The table is a list of rows in
-- order of insertion; `id` arguments are the ids that the database assigns. A flush that inserts a
-- pair twice fails by the constraint of the table. A function that writes returns the table it
-- leaves behind, beside the result or the exception.
pub mod Invariant
pub mod Access
pub mod Acceptance
pub mod AutoLink
use employed.Base.{
  List, Option, String, [], any, first, if◌then◌else◌, list_eq, nat_eq, none, option_eq, some,
  string_eq, ℕ, ◌++◌, ◌==◌, ◌∷◌,
}
use employed.Enums.{
  MembershipStatus, TenantRole, active, country_eq, invited, job_status_eq, job_type_eq,
  market_key_eq, membership_status_eq, membership_status_value, payment_provider_key_eq,
  payment_status_eq, suspended, tenant_role_value, verification_state_eq,
}
use employed.Models.{Membership}
use employed.Models.Keys.{same_pair}
use employed.Audit.{AuditLog, write_audit}
use employed.Base.Outcome.{Outcome, ok, raised, ◌>>=◌}
use employed.Base.Dict.{Dict}
use employed.Json.{Json, num, text}

pub data MembershipError : Type 0 where
  membership_error integrity_error sqlalchemy_error other_error : MembershipError

-- `db.add(row); db.flush()` under UniqueConstraint(user_id, company_id) of
-- backend/app/models/membership.py: the database refuses a second row of a pair.
unfoldable pub insert_membership :
    Membership → List Membership → Outcome MembershipError Membership × List Membership
insert_membership m rows =
    if any (same_pair m.user_id m.company_id) rows
    then (raised integrity_error, rows)
    else (ok m, rows ++ m ∷ [])

-- Assigning the status of the row with an id.
unfoldable pub set_status : ℕ → MembershipStatus → List Membership → List Membership
set_status id status [] = []
set_status id status (m ∷ rows) =
    (if m.id == id then record m { status = status } else m) ∷ set_status id status rows

unfoldable pub invite_member :
    ℕ
    → ℕ
    → ℕ
    → TenantRole
    → ℕ
    → List Membership
    → Outcome MembershipError Membership × List Membership
unfolding insert_membership
invite_member id company_id user_id role invited_by rows =
    insert_membership
      (record {
        id = id;
        user_id = user_id;
        company_id = company_id;
        role = role;
        status = invited;
        invited_by = some invited_by;
      })
      rows

-- The caller's work inside the SAVEPOINT: it may change the table, and may raise.
abbrev pub OnAccept : Type 0
OnAccept = List Membership → Outcome MembershipError (List Membership)

unfoldable pub run_on_accept :
    Option OnAccept → List Membership → Outcome MembershipError (List Membership)
run_on_accept none rows = ok rows
run_on_accept (some f) rows = f rows

-- `flush` is the database's answer to the flush. Every exception leaves the SAVEPOINT rolled back.
unfoldable pub accept_invitation :
    Membership
    → Option OnAccept
    → OnAccept
    → List Membership
    → Outcome MembershipError Membership × List Membership
unfolding run_on_accept set_status
accept_invitation membership on_accept flush rows =
    if membership.status == invited
    then elim (run_on_accept on_accept (set_status membership.id active rows) >>= flush) [
      | ok rows' ↦ (ok (record membership { status = active }), rows')
      | raised e ↦ (raised e, rows)
    ]
    else (raised membership_error, rows)

unfoldable pub suspend_member : Membership → List Membership → Membership × List Membership
unfolding set_status
suspend_member membership rows =
    (record membership { status = suspended }, set_status membership.id suspended rows)

unfoldable pub auto_membership_status_for_existing : MembershipStatus → MembershipStatus
auto_membership_status_for_existing current = current

-- The table and the audit trail, which domain auto-membership writes together.
pub record Tables : Type 0 where
  pub memberships : List Membership
  pub trail : List AuditLog

-- The JSON object that the audit entry records; the text of a UUID is written as its number.
unfoldable pub auto_created_after : Membership → Dict String Json
auto_created_after m =
    ("user_id", num m.user_id)
    ∷ ("company_id", num m.company_id)
    ∷ ("role", text (tenant_role_value m.role))
    ∷ ("status", text (membership_status_value m.status))
    ∷ []

-- The audit entry of the system actor, once the row is inserted.
unfoldable pub record_auto_membership :
    Outcome MembershipError Membership × List Membership
    → List AuditLog
    → Outcome MembershipError Membership × Tables
unfolding write_audit auto_created_after
record_auto_membership (raised e, rows) trail =
    (raised e, record { memberships = rows; trail = trail })
record_auto_membership (ok row, rows) trail =
    elim (write_audit none (some "system:domain_auto_membership") "membership.domain_auto_created"
      "membership" row.id none (some (auto_created_after row)) trail) [
        | ok (entry, trail') ↦ (ok row, record { memberships = rows; trail = trail' })
        | raised e ↦ (raised other_error, record { memberships = rows; trail = trail })
      ]

-- The branch of `apply_domain_auto_membership` where no row of the pair exists.
unfoldable pub create_auto_membership :
    Membership → Tables → Outcome MembershipError Membership × Tables
unfolding insert_membership record_auto_membership
create_auto_membership m tables =
    record_auto_membership (insert_membership m tables.memberships) tables.trail

-- The branch where it exists: the status is resolved and, if it differs, stored.
unfoldable pub keep_auto_membership : Membership → Tables → Membership × Tables
unfolding auto_membership_status_for_existing set_status
keep_auto_membership existing tables =
    let status = auto_membership_status_for_existing existing.status in
    if existing.status == status then (existing, tables) else (
      record existing { status = status },
      record tables { memberships = set_status existing.id status tables.memberships },
    )

-- Both branches, by what the query returned.
unfoldable pub link_membership :
    Option Membership → Membership → Tables → Outcome MembershipError Membership × Tables
unfolding create_auto_membership keep_auto_membership
link_membership (some existing) m tables =
    let (kept, tables') = keep_auto_membership existing tables in (ok kept, tables')
link_membership none m tables = create_auto_membership m tables

unfoldable pub apply_domain_auto_membership :
    ℕ → ℕ → ℕ → TenantRole → Tables → Outcome MembershipError Membership × Tables
unfolding link_membership
apply_domain_auto_membership id company_id user_id role tables =
    link_membership (first (same_pair user_id company_id) tables.memberships)
      (record {
        id = id;
        user_id = user_id;
        company_id = company_id;
        role = role;
        status = invited;
        invited_by = none;
      })
      tables
