-- ===== src/Models/Keys.antt =====
-- Unique constraints of the tables, as predicates on the rows (backend/app/models/membership.py and
-- backend/app/models/company.py).
use employed.Base.{
  ==_iff, Bool, List, [], any, any-append, arith, false, list_eq, nat_eq, option_eq, refl,
  string_eq, true, ℕ, ◌&&◌, ◌++◌, ◌==◌, ◌∷◌, ◌≡◌,
}
use employed.Enums.{
  MarketKey, country_eq, job_status_eq, job_type_eq, market_key_eq, membership_status_eq,
  payment_provider_key_eq, payment_status_eq, verification_state_eq,
}
use employed.Models.{Company, Membership}

abbrev pub same_pair : ℕ → ℕ → Membership → Bool
same_pair user_id company_id m = m.user_id == user_id && m.company_id == company_id

-- UniqueConstraint(user_id, company_id)
abbrev pub UniquePairs : List Membership → Type 0
UniquePairs [] = Unit
UniquePairs (m ∷ rows) = (any (same_pair m.user_id m.company_id) rows ≡ false) × UniquePairs rows

abbrev pub same_slug : MarketKey → List ℕ → Company → Bool
same_slug market slug c = c.market == market && c.slug == slug

-- UniqueConstraint(market, slug)
abbrev pub UniqueSlugs : List Company → Type 0
UniqueSlugs [] = Unit
UniqueSlugs (c ∷ rows) = (any (same_slug c.market c.slug) rows ≡ false) × UniqueSlugs rows

same_pair_trans :
    (m n k : Membership)
    → same_pair m.user_id m.company_id n ≡ true
    → same_pair m.user_id m.company_id k ≡ same_pair n.user_id n.company_id k
same_pair_trans m n k h = ground arith

-- A row whose pair is not in the table keeps the constraint.
pub UniquePairs-append :
    (rows : List Membership) (m : Membership)
    → UniquePairs rows
    → any (same_pair m.user_id m.company_id) rows ≡ false
    → UniquePairs (rows ++ m ∷ [])
UniquePairs-append [] m h new = (refl, tt)
UniquePairs-append (r ∷ rows) m h new =
    (rw any-append (ground arith), UniquePairs-append rows m h.1 (ground arith))

pub UniqueSlugs-append :
    (rows : List Company) (c : Company)
    → UniqueSlugs rows
    → any (same_slug c.market c.slug) rows ≡ false
    → UniqueSlugs (rows ++ c ∷ [])
UniqueSlugs-append [] c h new = (refl, tt)
UniqueSlugs-append (r ∷ rows) c h new = (
  rw any-append (
      ground (
        arith,
        ==_iff r.market c.market,
        ==_iff r.slug c.slug,
        ==_iff c.market r.market,
        ==_iff c.slug r.slug,
      )),
  UniqueSlugs-append rows c h.1 (ground arith),
)
