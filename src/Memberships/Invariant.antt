-- ===== src/Memberships/Invariant.antt =====
-- backend/app/services/memberships.py: the constraint on pairs along the operations.
use employed.Base.{
  Bool-cases, List, Option, [], any, arith, first, inl, inr, list_eq, nat_eq, none, option_eq, refl,
  some, string_eq, ℕ, ◌==◌, ◌∙◌, ◌∷◌, ◌≡◌,
}
use employed.Enums.{
  MembershipStatus, TenantRole, country_eq, job_status_eq, job_type_eq, market_key_eq,
  membership_status_eq, payment_provider_key_eq, payment_status_eq, verification_state_eq,
}
use employed.Models.{Membership}
use employed.Models.Keys.{UniquePairs, UniquePairs-append, same_pair}
use employed.Base.Outcome.{Outcome, Outcome-cases, ok, raised, ◌>>=◌}
use employed.Memberships.{
  MembershipError, OnAccept, Tables, accept_invitation, apply_domain_auto_membership,
  insert_membership, invite_member, link_membership, record_auto_membership, run_on_accept,
  set_status, suspend_member,
}
use employed.Audit.{AuditLog}

any-set_status :
    (u c id : ℕ) (s : MembershipStatus) (rows : List Membership)
    → any (same_pair u c) (set_status id s rows) ≡ any (same_pair u c) rows
unfolding set_status
any-set_status u c id s [] = refl
any-set_status u c id s (m ∷ rows) = ground (arith, any-set_status u c id s rows)

set_status-UniquePairs :
    (id : ℕ) (s : MembershipStatus) (rows : List Membership)
    → UniquePairs rows
    → UniquePairs (set_status id s rows)
unfolding set_status
set_status-UniquePairs id s [] h = tt
set_status-UniquePairs id s (m ∷ rows) h = elim (Bool-cases (m.id == id)) [
  | inl e ↦
      rw e (
        any-set_status m.user_id m.company_id id s rows ∙ h.0,
        set_status-UniquePairs id s rows h.1,
      )
  | inr e ↦
      rw e (
        any-set_status m.user_id m.company_id id s rows ∙ h.0,
        set_status-UniquePairs id s rows h.1,
      )
]

insert_membership-UniquePairs :
    (m : Membership) (rows : List Membership)
    → UniquePairs rows
    → UniquePairs (insert_membership m rows).1
unfolding insert_membership
insert_membership-UniquePairs m rows h =
    elim (Bool-cases (any (same_pair m.user_id m.company_id) rows)) [
      | inl e ↦ rw e h
      | inr e ↦ rw e (UniquePairs-append rows m h e)
    ]

-- The caller's work and the flush keep the constraint, as the database sees to.
abbrev pub KeepsPairs : Option OnAccept → OnAccept → Type 0
KeepsPairs on_accept flush =
    (rs out : List Membership)
    → (run_on_accept on_accept rs >>= flush) ≡ ok out
    → UniquePairs rs
    → UniquePairs out

accept_invitation-UniquePairs :
    (m : Membership) (on_accept : Option OnAccept) (flush : OnAccept) (rows : List Membership)
    → KeepsPairs on_accept flush
    → UniquePairs rows
    → UniquePairs (accept_invitation m on_accept flush rows).1
unfolding accept_invitation
accept_invitation-UniquePairs m on_accept flush rows keep h =
    let after = set_status m.id MembershipStatus.active rows in
    elim (Bool-cases (m.status == MembershipStatus.invited)) [
      | inr e ↦ rw e h
      | inl e ↦ elim (Outcome-cases (run_on_accept on_accept after >>= flush)) [
        | inl (out, q) ↦
            rw (e, q)
              (keep after out q (set_status-UniquePairs m.id MembershipStatus.active rows h))
        | inr (x, q) ↦ rw (e, q) h
      ]
    ]

-- One call of the service on the table.
pub data Step (rows : List Membership) : List Membership → Type 0 where
  invite :
      (id company_id user_id : ℕ) (role : TenantRole) (by : ℕ)
      → Step rows (invite_member id company_id user_id role by rows).1
  accept :
      (m : Membership) (on_accept : Option OnAccept) (flush : OnAccept)
      → KeepsPairs on_accept flush
      → Step rows (accept_invitation m on_accept flush rows).1
  suspend : (m : Membership) → Step rows (suspend_member m rows).1
  link :
      (id company_id user_id : ℕ) (role : TenantRole) (trail : List AuditLog)
      → Step rows
          (apply_domain_auto_membership id company_id user_id role
            (record { memberships = rows; trail = trail })).1.memberships

pub data Reach (rows : List Membership) : List Membership → Type 0 where
  here : Reach rows rows
  next : {mid out : List Membership} → Reach rows mid → Step mid out → Reach rows out

record_auto_membership-UniquePairs :
    (r : Outcome MembershipError Membership × List Membership) (trail : List AuditLog)
    → UniquePairs r.1
    → UniquePairs (record_auto_membership r trail).1.memberships
unfolding record_auto_membership
record_auto_membership-UniquePairs (ok m, rows) trail h = h
record_auto_membership-UniquePairs (raised e, rows) trail h = h

keep_or_insert :
    (o : Option Membership) (m : Membership) (t : Tables)
    → UniquePairs t.memberships
    → UniquePairs (link_membership o m t).1.memberships
unfolding link_membership
keep_or_insert none m t h =
    record_auto_membership-UniquePairs (insert_membership m t.memberships) t.trail
      (insert_membership-UniquePairs m t.memberships h)
keep_or_insert (some e) m t h = elim (Bool-cases (e.status == e.status)) [
  | inl q ↦ rw q h
  | inr q ↦ rw q (set_status-UniquePairs e.id e.status t.memberships h)
]

-- One call, failed or not, keeps the constraint that a user has one row in a company at most.
Step-UniquePairs : {rows out : List Membership} → Step rows out → UniquePairs rows → UniquePairs out
unfolding invite_member suspend_member apply_domain_auto_membership
Step-UniquePairs (invite id c u role by) h = insert_membership-UniquePairs _ _ h
Step-UniquePairs {rows} (accept m on_accept flush keep) h =
    accept_invitation-UniquePairs m on_accept flush rows keep h
Step-UniquePairs {rows} (suspend m) h =
    set_status-UniquePairs m.id MembershipStatus.suspended rows h
Step-UniquePairs {rows} (link id c u role trail) h =
    keep_or_insert (first (same_pair u c) rows) _ (record { memberships = rows; trail = trail }) h

-- From a table with one row for each user and company at most, every sequence of invitations,
-- acceptances, suspensions and domain links, failing ones included, ends in such a table, if the
-- work that callers run inside an acceptance keeps it so.
Reach-UniquePairs :
    {rows out : List Membership} → UniquePairs rows → Reach rows out → UniquePairs out
Reach-UniquePairs h here = h
Reach-UniquePairs h (next r s) = Step-UniquePairs s (Reach-UniquePairs h r)
