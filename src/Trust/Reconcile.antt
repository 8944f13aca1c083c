-- ===== src/Trust/Reconcile.antt =====
-- backend/app/services/trust.py: the stored list of badges after a reconciliation.
use employed.Base.{
  ==_iff, ==_refl, List, String, [], ap, arith, contains, contains_congr, if◌then◌else◌, list_eq,
  ltb, max, nat_eq, option_eq, or-true_right, refl, string_eq, sym, true, ℕ, ◌++◌, ◌+◌, ◌-◌, ◌==◌,
  ◌||◌, ◌∙◌, ◌∷◌, ◌≡◌,
}
use employed.Enums.{
  country_eq, job_status_eq, job_type_eq, market_key_eq, membership_status_eq,
  payment_provider_key_eq, payment_status_eq, verification_state_eq,
}
use employed.Trust.{
  Entity, attach_missing, company, derive_badges, drop_stale, insert_sorted, job, profile,
  reconcile_badges, reconcile_names, remove, sorted, user,
}

-- how often a name is listed
abbrev pub count : String → List String → ℕ
count b [] = 0
count b (x ∷ xs) = if x == b then count b xs + 1 else count b xs

count-append : (b : String) (xs ys : List String) → count b (xs ++ ys) ≡ count b xs + count b ys
count-append b [] ys = omega arith
count-append b (x ∷ xs) ys = ground (arith, count-append b xs ys)

contains-count : (b : String) (xs : List String) → contains b xs ≡ ltb 0 (count b xs)
contains-count b [] = refl
contains-count b (x ∷ xs) = ground (arith, contains-count b xs)

count_congr : (b x : String) (xs : List String) → (x == b) ≡ true → count x xs ≡ count b xs
count_congr b x xs h = ap (λ y. count y xs) ((==_iff x b).0 h)

contains-insert_sorted :
    (b x : String) (xs : List String)
    → contains b (insert_sorted x xs) ≡ ((x == b) || contains b xs)
unfolding insert_sorted
contains-insert_sorted b x [] = refl
contains-insert_sorted b x (y ∷ ys) = ground (arith, contains-insert_sorted b x ys)

pub contains-sorted : (b : String) (xs : List String) → contains b (sorted xs) ≡ contains b xs
unfolding sorted
contains-sorted b [] = refl
contains-sorted b (x ∷ xs) =
    ground (arith, contains-insert_sorted b x (sorted xs), contains-sorted b xs)

count-remove :
    (b x : String) (xs : List String)
    → count b (remove x xs) ≡ (if x == b then count b xs - 1 else count b xs)
unfolding remove
count-remove b x [] = ground arith
count-remove b x (y ∷ ys) = ground (arith, count-remove b x ys, ==_iff x b, ==_iff y b, ==_iff y x)

count-drop_stale :
    (b : String) (derived bs current : List String)
    → count b (drop_stale derived bs current)
      ≡ (if contains b derived then count b current else count b current - count b bs)
unfolding drop_stale
count-drop_stale b derived [] current = ground arith
count-drop_stale b derived (x ∷ bs) current =
    let current' = if contains x derived then current else remove x current in
    ground (
      arith,
      count-drop_stale b derived bs current',
      count-remove b x current,
      contains_congr b x derived,
    )

-- One listing for a name that was missing, and those that were there.
count-attach_missing :
    (b : String) (bs current : List String)
    → count b (attach_missing bs current)
      ≡ (if contains b bs then max 1 (count b current) else count b current)
unfolding attach_missing
count-attach_missing b [] current = refl
count-attach_missing b (x ∷ bs) current =
    let current' = if contains x current then current else current ++ x ∷ [] in
    ground (
      arith,
      count-attach_missing b bs current',
      count-append b current (x ∷ []),
      contains-count x current,
      count_congr b x current,
    )

-- After a reconciliation of a company with its derived badges, every derived name is listed, once
-- if it was missing and as often as before if not, and no other name is listed.
pub count-reconcile_names :
    (b : String) (derived current : List String)
    → count b (reconcile_names derived current)
      ≡ (if contains b derived then max 1 (count b current) else 0)
unfolding reconcile_names
count-reconcile_names b derived current = ground (
  arith,
  count-attach_missing b (sorted derived) (drop_stale derived current current),
  count-drop_stale b derived current current,
  contains-sorted b derived,
)

pub contains-reconcile_names :
    (b : String) (derived current : List String)
    → contains b (reconcile_names derived current) ≡ contains b derived
contains-reconcile_names b derived current = ground (
  arith,
  contains-count b (reconcile_names derived current),
  count-reconcile_names b derived current,
)

drop_stale_idle :
    (derived bs current : List String)
    → ((b : String) → contains b bs ≡ true → contains b derived ≡ true)
    → drop_stale derived bs current ≡ current
unfolding drop_stale
drop_stale_idle derived [] current h = refl
drop_stale_idle derived (x ∷ bs) current h = ground (
  arith,
  h x,
  ==_refl x,
  drop_stale_idle derived bs current (λ b q. h b (or-true_right (x == b) (contains b bs) q)),
)

attach_missing_idle :
    (bs current : List String)
    → ((b : String) → contains b bs ≡ true → contains b current ≡ true)
    → attach_missing bs current ≡ current
unfolding attach_missing
attach_missing_idle [] current h = refl
attach_missing_idle (x ∷ bs) current h = ground (
  arith,
  h x,
  ==_refl x,
  attach_missing_idle bs current (λ b q. h b (or-true_right (x == b) (contains b bs) q)),
)

reconcile_names_idle :
    (derived current : List String)
    → ((b : String) → contains b current ≡ contains b derived)
    → reconcile_names derived current ≡ current
unfolding reconcile_names
reconcile_names_idle derived current h = ground (
  arith,
  drop_stale_idle derived current current (λ b q. sym (h b) ∙ q),
  attach_missing_idle (sorted derived) current (λ b q. h b ∙ sym (contains-sorted b derived) ∙ q),
)

-- Reconciling twice is reconciling once, on any entity: the second pass leaves the list of badges,
-- its order included, as it is.
pub reconcile_badges_idem :
    (e : Entity) → reconcile_badges (reconcile_badges e) ≡ reconcile_badges e
unfolding reconcile_badges
reconcile_badges_idem (company c) =
    let derived = derive_badges (company c) in
    let current = reconcile_names derived c.trust_badges in
    ap (λ names. company (record c { trust_badges = names }))
      (reconcile_names_idle derived current
        (λ b. contains-reconcile_names b derived c.trust_badges))
reconcile_badges_idem (job j) = refl
reconcile_badges_idem (profile p) = refl
reconcile_badges_idem (user u) = refl
