-- ===== src/Companies/Slug.antt =====
-- backend/app/services/companies.py: the slugs that are generated.
use employed.Base.{
  ==_iff, Bool-cases, List, ap, arith, false, inl, inr, list_eq, nat_eq, option_eq, refl, string_eq,
  suc, true, zero, ℕ, ◌+◌, ◌<◌, ◌==◌, ◌∙◌, ◌≡◌, ◌≤◌, ◌⊎◌,
}
use employed.Enums.{
  MarketKey, country_eq, job_status_eq, job_type_eq, market_key_eq, membership_status_eq,
  payment_provider_key_eq, payment_status_eq, verification_state_eq,
}
use employed.Models.{Company}
use employed.Companies.{
  CompanyError, candidate, choose_slug, find_slug, generate_unique_slug, max_slug_attempts,
  runtime_error, slug_base, slug_exists,
}
use employed.Base.Text.{Text}
use employed.Base.Outcome.{Outcome, Outcome-cases, ok, raised}

find_slug-free :
    (rows : List Company) (market : MarketKey) (base : Text) (attempts suffix : ℕ) (slug : Text)
    → find_slug rows market base attempts suffix ≡ ok slug
    → slug_exists rows market slug ≡ false
unfolding find_slug
find_slug-free rows market base zero suffix slug h = cc
find_slug-free rows market base (suc attempts) suffix slug h =
    elim (Bool-cases (slug_exists rows market (candidate base suffix))) [
      | inl e ↦ find_slug-free rows market base attempts (suffix + 1) slug (rw e at h)
      | inr e ↦
          (let q : ok (candidate base suffix) ≡ ok slug = rw e at h in
            let p : candidate base suffix ≡ slug = cc q in rw (← p) e)
    ]

-- The loop gives up only when every suffix that it tried is taken.
find_slug-gives_up :
    (rows : List Company) (market : MarketKey) (base : Text) (attempts suffix n : ℕ)
    → find_slug rows market base attempts suffix ≡ raised runtime_error
    → suffix ≤ n
    → n < suffix + attempts
    → slug_exists rows market (candidate base n) ≡ true
unfolding find_slug
find_slug-gives_up rows market base zero suffix n h a b = absurd (omega arith)
find_slug-gives_up rows market base (suc attempts) suffix n h a b =
    elim (Bool-cases (slug_exists rows market (candidate base suffix))) [
      | inl e ↦ elim (Bool-cases (suffix == n)) [
        | inl q ↦ rw (← (==_iff suffix n).0 q) e
        | inr q ↦
            find_slug-gives_up rows market base attempts (suffix + 1) n (rw e at h)
              (ground (arith, ==_iff suffix n)) (omega (arith, b))
      ]
      | inr e ↦
          (let q : ok (candidate base suffix) ≡ raised runtime_error = rw e at h in absurd (cc q))
    ]

find_slug-error :
    (rows : List Company) (market : MarketKey) (base : Text) (attempts suffix : ℕ)
    (e : CompanyError)
    → find_slug rows market base attempts suffix ≡ raised e
    → e ≡ runtime_error
unfolding find_slug
find_slug-error rows market base zero suffix e h = cc h
find_slug-error rows market base (suc attempts) suffix e h =
    elim (Bool-cases (slug_exists rows market (candidate base suffix))) [
      | inl q ↦ find_slug-error rows market base attempts (suffix + 1) e (rw q at h)
      | inr q ↦ (let r : ok (candidate base suffix) ≡ raised e = rw q at h in absurd (cc r))
    ]

-- What the choice of a slug says of the table, where n is one of the suffixes.
abbrev pub SlugChoice : List Company → MarketKey → Text → ℕ → Outcome CompanyError Text → Type 0
SlugChoice rows market base n chosen =
    ((slug : Text) × (chosen ≡ ok slug) × (slug_exists rows market slug ≡ false))
    ⊎ ((chosen ≡ raised runtime_error)
        × (slug_exists rows market base ≡ true)
        × (slug_exists rows market (candidate base n) ≡ true))

pub choose_slug-SlugChoice :
    (rows : List Company) (market : MarketKey) (base : Text) (attempts n : ℕ)
    → 2 ≤ n
    → n < 2 + attempts
    → SlugChoice rows market base n (choose_slug rows market base attempts)
unfolding choose_slug
choose_slug-SlugChoice rows market base attempts n a b =
    elim (Bool-cases (slug_exists rows market base)) [
      | inr e ↦ inl (base, rw (e, choose_slug) refl, e)
      | inl e ↦ elim (Outcome-cases (find_slug rows market base attempts 2)) [
        | inl (slug, q) ↦
            inl (slug, rw (e, choose_slug) q, find_slug-free rows market base attempts 2 slug q)
        | inr (x, q) ↦
            let q' = q ∙ ap raised (find_slug-error rows market base attempts 2 x q) in
            inr (rw (e, choose_slug) q', e, find_slug-gives_up rows market base attempts 2 n q' a b)
      ]
    ]

-- A slug that is generated is free in the market. When none is generated, the base is taken, and so
-- is the candidate with any suffix n from 2 on, up to the ten thousand and first.
generate_unique_slug_total :
    (slugify : Text → Text) (rows : List Company) (name : Text) (market : MarketKey) (n : ℕ)
    → 2 ≤ n
    → n < 2 + max_slug_attempts
    → SlugChoice rows market
        (slug_base (slugify name))
        n
        (generate_unique_slug slugify rows name market)
unfolding generate_unique_slug
generate_unique_slug_total slugify rows name market n a b =
    choose_slug-SlugChoice rows market (slug_base (slugify name)) max_slug_attempts n a b
