-- ===== src/Memberships/Acceptance.antt =====
-- backend/app/services/memberships.py: the paths of `accept_invitation`.
use employed.Base.{
  ==_iff, Bool-cases, List, Option, arith, inl, inr, list_eq, nat_eq, option_eq, refl, string_eq,
  ◌==◌, ◌≡◌, ◌≢◌, ◌⊎◌,
}
use employed.Enums.{
  MembershipStatus, active, country_eq, invited, job_status_eq, job_type_eq, market_key_eq,
  membership_status_eq, payment_provider_key_eq, payment_status_eq, verification_state_eq,
}
use employed.Models.{Membership}
use employed.Base.Outcome.{Outcome, Outcome-cases, ok, raised, ◌>>=◌}
use employed.Memberships.{
  MembershipError, OnAccept, accept_invitation, membership_error, run_on_accept, set_status,
}

module _ (m : Membership) (on_accept : Option OnAccept) (flush : OnAccept)
    (rows : List Membership) where
  -- The caller's work and the flush, from the table in which the row is active.
  abbrev pub accept_work : Outcome MembershipError (List Membership)
  accept_work = run_on_accept on_accept (set_status m.id MembershipStatus.active rows) >>= flush

  -- An acceptance ends in one of three ways. A membership that is not invited is refused and the
  -- table stays. An invited one whose work raises passes that exception on, and the table stays, so
  -- it is still invited. Otherwise the returned membership is active and the table is the one that
  -- the work left from the row set active.
  accept_invitation_total :
      ((m.status ≢ invited)
        × (accept_invitation m on_accept flush rows ≡ (raised membership_error, rows)))
      ⊎ ((m.status ≡ invited)
          × (e : MembershipError) × (accept_work ≡ raised e)
          × (accept_invitation m on_accept flush rows ≡ (raised e, rows)))
      ⊎ ((m.status ≡ invited)
          × (out : List Membership) × (accept_work ≡ ok out)
          × (accept_invitation m on_accept flush rows ≡ (ok (record m { status = active }), out)))
  unfolding accept_invitation
  accept_invitation_total = elim (Bool-cases (m.status == invited)) [
    | inr e ↦ inl (ground arith, rw e refl)
    | inl e ↦
        let q = (==_iff m.status invited).0 e in
        elim (Outcome-cases accept_work) [
          | inl (out, w) ↦ inr (inr (q, out, w, rw (e, w) refl))
          | inr (x, w) ↦ inr (inl (q, x, w, rw (e, w) refl))
        ]
  ]
