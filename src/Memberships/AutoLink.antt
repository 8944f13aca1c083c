-- ===== src/Memberships/AutoLink.antt =====
-- backend/app/services/memberships.py: domain auto-membership, once and again.
use employed.Base.{
  ==_refl, Bool, List, Option-cases, [], any, ap, arith, false, first, inl, inr, list_eq, nat_eq,
  none, option_eq, refl, some, string_eq, true, ℕ, ◌++◌, ◌∙◌, ◌∷◌, ◌≡◌, ◌⊎◌,
}
use employed.Enums.{
  TenantRole, country_eq, invited, job_status_eq, job_type_eq, market_key_eq, membership_status_eq,
  payment_provider_key_eq, payment_status_eq, verification_state_eq,
}
use employed.Models.{Membership}
use employed.Models.Keys.{same_pair}
use employed.Audit.{AuditLog, audit_entry}
use employed.Base.Outcome.{ok}
use employed.Memberships.{
  Tables, apply_domain_auto_membership, auto_created_after, create_auto_membership,
  insert_membership, keep_auto_membership, link_membership, record_auto_membership,
}

first-append {ℓ} :
    {A : Type ℓ} (p : A → Bool) (xs : List A) (y : A)
    → first p xs ≡ none
    → p y ≡ true
    → first p (xs ++ y ∷ []) ≡ some y
first-append p [] y n h = ground arith
first-append p (x ∷ xs) y n h = ground (arith, first-append p xs y)

first-none→any :
    (f : Membership → Bool) (rows : List Membership) → first f rows ≡ none → any f rows ≡ false
first-none→any f [] h = refl
first-none→any f (m ∷ rows) h = ground (arith, first-none→any f rows)

insert_membership_new :
    (m : Membership) (rows : List Membership)
    → first (same_pair m.user_id m.company_id) rows ≡ none
    → insert_membership m rows ≡ (ok m, rows ++ m ∷ [])
unfolding insert_membership
insert_membership_new m rows h = rw (first-none→any (same_pair m.user_id m.company_id) rows h) refl

abbrev pub auto_entry : Membership → AuditLog
auto_entry m =
    audit_entry none (some "system:domain_auto_membership") "membership.domain_auto_created"
      "membership" m.id none (some (auto_created_after m))

record_auto_membership_lem :
    (m : Membership) (rows : List Membership) (trail : List AuditLog)
    → record_auto_membership (ok m, rows) trail
      ≡ (ok m, record { memberships = rows; trail = trail ++ auto_entry m ∷ [] })
unfolding record_auto_membership
record_auto_membership_lem m rows trail = refl

create_auto_membership_open :
    (m : Membership) (t : Tables)
    → create_auto_membership m t
      ≡ record_auto_membership (insert_membership m t.memberships) t.trail
unfolding create_auto_membership
create_auto_membership_open m t = refl

create_auto_membership_lem :
    (m : Membership) (t : Tables)
    → first (same_pair m.user_id m.company_id) t.memberships ≡ none
    → create_auto_membership m t ≡ (
      ok m,
      record { memberships = t.memberships ++ m ∷ []; trail = t.trail ++ auto_entry m ∷ [] },
    )
create_auto_membership_lem m t h =
    create_auto_membership_open m t
    ∙ ap (λ r. record_auto_membership r t.trail) (insert_membership_new m t.memberships h)
    ∙ record_auto_membership_lem m (t.memberships ++ m ∷ []) t.trail

-- What the call does when the pair has a row: it returns that row and writes nothing.
keep_auto_membership_lem : (m : Membership) (t : Tables) → keep_auto_membership m t ≡ (m, t)
unfolding keep_auto_membership
keep_auto_membership_lem m t = rw (==_refl m.status)

abbrev pub auto_row : ℕ → ℕ → ℕ → TenantRole → Membership
auto_row id c u role = record {
  id = id;
  user_id = u;
  company_id = c;
  role = role;
  status = invited;
  invited_by = none;
}

link_existing : (m new : Membership) (t : Tables) → link_membership (some m) new t ≡ (ok m, t)
unfolding link_membership
link_existing m new t =
    ap (λ (r : Membership × Tables). (ok r.0, r.1)) (keep_auto_membership_lem m t)

link_missing :
    (new : Membership) (t : Tables) → link_membership none new t ≡ create_auto_membership new t
unfolding link_membership
link_missing new t = refl

module _ (id c u : ℕ) (role : TenantRole) (t : Tables) where
  auto-link :
      apply_domain_auto_membership id c u role t
      ≡ link_membership (first (same_pair u c) t.memberships) (auto_row id c u role) t
  unfolding apply_domain_auto_membership
  auto-link = refl

  auto_of_existing :
      (m : Membership)
      → first (same_pair u c) t.memberships ≡ some m
      → apply_domain_auto_membership id c u role t ≡ (ok m, t)
  auto_of_existing m h =
      auto-link
      ∙ ap (λ o. link_membership o (auto_row id c u role) t) h
      ∙ link_existing m (auto_row id c u role) t

  auto_of_missing :
      first (same_pair u c) t.memberships ≡ none
      → apply_domain_auto_membership id c u role t ≡ create_auto_membership (auto_row id c u role) t
  auto_of_missing h =
      auto-link
      ∙ ap (λ o. link_membership o (auto_row id c u role) t) h
      ∙ link_missing (auto_row id c u role) t

-- A pair without a row gets one, invited, and the trail grows by one entry that the system actor
-- signs and that names the row; a pair with a row keeps its tables as they are.
pub apply_domain_auto_membership_total :
    (id c u : ℕ) (role : TenantRole) (t : Tables)
    → ((first (same_pair u c) t.memberships ≡ none)
        × (entry : AuditLog) × (apply_domain_auto_membership id c u role t ≡ (
          ok (auto_row id c u role),
          record {
            memberships = t.memberships ++ auto_row id c u role ∷ [];
            trail = t.trail ++ entry ∷ [];
          },
        ))
        × (entry.actor_label ≡ some "system:domain_auto_membership")
        × (entry.target_id ≡ id))
      ⊎ ((m : Membership) × (first (same_pair u c) t.memberships ≡ some m)
          × (apply_domain_auto_membership id c u role t ≡ (ok m, t)))
unfolding audit_entry
apply_domain_auto_membership_total id c u role t =
    elim (Option-cases (first (same_pair u c) t.memberships)) [
      | inl e ↦ inl (
        e,
        auto_entry (auto_row id c u role),
        auto_of_missing id c u role t e ∙ create_auto_membership_lem (auto_row id c u role) t e,
        refl,
        refl,
      )
      | inr (m, e) ↦ inr (m, e, auto_of_existing id c u role t m e)
    ]

same_pair_self : (id c u : ℕ) (role : TenantRole) → same_pair u c (auto_row id c u role) ≡ true
same_pair_self id c u role = ground (arith, ==_refl u, ==_refl c)

-- The second of two calls for a pair, with any id and role, returns what the first returned and
-- leaves the table of memberships and the audit trail as the first left them.
pub apply_domain_auto_membership_idem :
    (id id' c u : ℕ) (role role' : TenantRole) (t : Tables)
    → apply_domain_auto_membership id' c u role' (apply_domain_auto_membership id c u role t).1
      ≡ apply_domain_auto_membership id c u role t
apply_domain_auto_membership_idem id id' c u role role' t =
    elim (apply_domain_auto_membership_total id c u role t) [
      | inl (e, entry, q, _, _) ↦ rw q (
          auto_of_existing id' c u role' _ (auto_row id c u role) (
            first-append (same_pair u c) t.memberships (auto_row id c u role) e
              (same_pair_self id c u role)))
      | inr (m, e, q) ↦ rw q (auto_of_existing id' c u role' t m e)
    ]
