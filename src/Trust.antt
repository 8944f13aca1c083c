-- ===== src/Trust.antt =====
-- backend/app/services/trust.py: trust badges, derived from an entity and stored on a company.
-- Python's set of badge names is a list without repetition, in the order of the `add` calls.
pub mod Reconcile
use text.Mathlib.Text.{is_le}
use Prim.Native.String.{compare}
use employed.Base.{
  Bool, List, Option, String, [], contains, false, if◌then◌else◌, is_some, list_eq, nat_eq, none,
  not, option_eq, some, string_eq, ◌++◌, ◌==◌, ◌||◌, ◌∷◌,
}
use employed.Enums.{
  VerificationState, country_eq, job_status_eq, job_type_eq, market_key_eq, membership_status_eq,
  payment_provider_key_eq, payment_status_eq, verification_state_eq, verified,
}
use employed.Models.{Company, JobPost, Profile, User}
use employed.Json.{Json, truthy}
use employed.Base.Dict.{Dict, lookup}

-- The argument of `derive_badges`: an instance of one of the models, or anything else.
pub data Entity : Type 0 where
  company : Company → Entity
  job : JobPost → Entity
  profile : Profile → Entity
  user : User → Entity

-- `entity.external_refs or {}`
unfoldable pub refs_of : Option (Dict String Json) → Dict String Json
refs_of none = []
refs_of (some refs) = refs

-- The truth of `refs.get(key)`.
unfoldable pub flag : String → Dict String Json → Bool
unfolding truthy
flag key refs = elim (lookup key refs) [ none ↦ false | some v ↦ truthy v ]

-- `badges.add(name)` under a condition; each name is added once.
abbrev pub badge_if : Bool → String → List String
badge_if b name = if b then name ∷ [] else []

unfoldable pub company_badges : Company → List String
unfolding refs_of
company_badges c =
    let refs = refs_of c.external_refs in
    badge_if (flag "email_verified" refs) "email verified"
    ++ (badge_if (not (c.verified_email_domains == [])) "domain verified"
        ++ (badge_if (c.verification_status == VerificationState.verified)
              "business-document verified"
            ++ (badge_if (flag "payment_verified" refs) "payment verified"
                ++ badge_if (flag "activity" refs) "activity")))

unfoldable pub job_badges : JobPost → List String
unfolding refs_of
job_badges j =
    let refs = refs_of j.external_refs in
    badge_if (flag "company_verified" refs) "posted by verified company"
    ++ (badge_if (is_some j.salary_min || is_some j.salary_max) "salary disclosed"
        ++ badge_if (flag "responsive" refs) "responsive")

unfoldable pub profile_badges : Profile → List String
unfolding refs_of
profile_badges p =
    let refs = refs_of p.external_refs in
    badge_if (flag "email_verified" refs) "email verified"
    ++ (badge_if (p.verification_status == VerificationState.verified) "identity verified"
        ++ badge_if (flag "phone_verified" refs) "phone verified")

unfoldable pub derive_badges : Entity → List String
unfolding company_badges job_badges profile_badges
derive_badges (company c) = company_badges c
derive_badges (job j) = job_badges j
derive_badges (profile p) = profile_badges p
derive_badges (user u) = []

-- `sorted` on names, by code points.
unfoldable pub insert_sorted : String → List String → List String
insert_sorted x [] = x ∷ []
insert_sorted x (y ∷ ys) = if is_le (compare x y) then x ∷ y ∷ ys else y ∷ insert_sorted x ys

unfoldable pub sorted : List String → List String
unfolding insert_sorted
sorted [] = []
sorted (x ∷ xs) = insert_sorted x (sorted xs)

-- `current.remove(badge)`: the first occurrence goes.
unfoldable pub remove : String → List String → List String
remove b [] = []
remove b (x ∷ xs) = if x == b then xs else x ∷ remove b xs

-- The loop over `list(current)`, which drops each badge that is not derived.
unfoldable pub drop_stale : List String → List String → List String → List String
unfolding remove
drop_stale derived [] current = current
drop_stale derived (b ∷ bs) current =
    drop_stale derived bs (if contains b derived then current else remove b current)

-- The loop over `sorted(derived)`, which appends each badge that is missing.
unfoldable pub attach_missing : List String → List String → List String
attach_missing [] current = current
attach_missing (b ∷ bs) current =
    attach_missing bs (if contains b current then current else current ++ b ∷ [])

unfoldable pub reconcile_names : List String → List String → List String
unfolding drop_stale attach_missing sorted
reconcile_names derived current =
    attach_missing (sorted derived) (drop_stale derived current current)

-- Only a company has the column; for any other entity the call does nothing.
unfoldable pub reconcile_badges : Entity → Entity
unfolding reconcile_names derive_badges
reconcile_badges (company c) =
    company (record c { trust_badges = reconcile_names (derive_badges (company c)) c.trust_badges })
reconcile_badges entity = entity
