-- ===== src/Companies/Suffix.antt =====
-- backend/app/services/companies.py: the suffixes of a slug, and how many rows they can take.
use employed.Base.{
  ==_iff, Bool, Bool-cases, List, [], any, any-filter, ap, arith, drop, false, false≢true, filter,
  inl, inr, length, list_eq, ltb, nat_eq, not, option_eq, refl, string_eq, suc, sym, true, zero, ℕ,
  ◌%◌, ◌&&◌, ◌*◌, ◌++◌, ◌+◌, ◌-◌, ◌/◌, ◌<◌, ◌==◌, ◌∙◌, ◌∷◌, ◌≡◌, ◌≤◌,
}
use employed.Base.Text.{Text}
use employed.Enums.{
  MarketKey, country_eq, job_status_eq, job_type_eq, market_key_eq, membership_status_eq,
  payment_provider_key_eq, payment_status_eq, verification_state_eq,
}
use employed.Companies.{
  candidate, choose_slug, digits_from, generate_unique_slug, max_slug_attempts, runtime_error,
  slug_base, slug_exists, str,
}
use employed.Base.Outcome.{ok, raised}
use employed.Models.{Company}
use employed.Models.Keys.{same_slug}
use employed.Companies.Slug.{choose_slug-SlugChoice}

-- The number that a text of digits is read as, `int(text)`, after what was read before.
value_from : ℕ → Text → ℕ
value_from seen [] = seen
value_from seen (c ∷ s) = value_from (seen * 10 + (c - b'0')) s

value-append :
    (seen d : ℕ) (front : Text)
    → value_from seen (front ++ d ∷ []) ≡ value_from seen front * 10 + (d - b'0')
unfolding value_from
value-append seen d [] = refl
value-append seen d (c ∷ front) = value-append (seen * 10 + (c - b'0')) d front

-- The fuel is enough.
value-digits_from : (fuel n : ℕ) → n < fuel → value_from 0 (digits_from fuel n) ≡ n
unfolding digits_from value_from
value-digits_from zero n lt = absurd (omega (arith, lt))
value-digits_from (suc fuel) n lt = elim (Bool-cases (ltb n 10)) [
  | inl e ↦ rw e (omega arith)
  | inr e ↦
      (let le : 10 ≤ n = ground (arith, e) in
        rw
          (
            e,
            value-append 0 (b'0' + n % 10) (digits_from fuel (n / 10)),
            value-digits_from fuel (n / 10) (omega (arith, le, lt)),
          )
          (omega arith))
]

-- Reading a suffix back gives the number that was written.
value-str : (n : ℕ) → value_from 0 (str n) ≡ n
unfolding str
value-str n = value-digits_from (suc n) n (omega arith)

drop-append : (base : Text) (c : ℕ) (s : Text) → drop (suc (length base)) (base ++ c ∷ s) ≡ s
drop-append [] c s = refl
drop-append (b ∷ base) c s = drop-append base c s

candidate-injective : (base : Text) (n m : ℕ) → candidate base n ≡ candidate base m → n ≡ m
unfolding candidate
candidate-injective base n m h =
    let same : str n ≡ str m =
      sym (drop-append base b'-' (str n))
      ∙ ap (drop (suc (length base))) h
      ∙ drop-append base b'-' (str m) in
    sym (value-str n) ∙ ap (value_from 0) same ∙ value-str m

candidate-differs : (base : Text) (n m : ℕ) → n < m → (candidate base n == candidate base m) ≡ false
candidate-differs base n m lt =
    ground (arith, ==_iff (candidate base n) (candidate base m), candidate-injective base n m, lt)

length-filter : {A : Type 0} (p : A → Bool) (xs : List A) → length (filter p xs) ≤ length xs
length-filter p [] = omega arith
length-filter p (x ∷ xs) = ground (arith, length-filter p xs)

filter-shorter :
    {A : Type 0} (p : A → Bool) (xs : List A)
    → any p xs ≡ true
    → length (filter (λ x. not (p x)) xs) < length xs
filter-shorter p [] h = absurd (false≢true h)
filter-shorter p (x ∷ xs) h = elim (Bool-cases (p x)) [
  | inl e ↦ (let le = length-filter (λ y. not (p y)) xs in rw e (omega (arith, le)))
  | inr e ↦ (let lt = filter-shorter p xs (rw e at h) in rw e (omega (arith, lt)))
]

any_congr :
    {A : Type 0} (p q : A → Bool) (xs : List A) → ((x : A) → p x ≡ q x) → any p xs ≡ any q xs
any_congr p q [] h = refl
any_congr p q (x ∷ xs) h = ground (arith, any_congr p q xs h, h x)

other_slug :
    (market : MarketKey) (a b : Text) (c : Company)
    → (a == b) ≡ false
    → (not (same_slug market a c) && same_slug market b c) ≡ same_slug market b c
other_slug market a b c d = ground (arith, d, ==_iff c.slug a, ==_iff c.slug b, ==_iff a b)

-- As many candidates as are taken need as many rows.
taken-length :
    (market : MarketKey) (base : Text) (k suffix : ℕ) (rows : List Company)
    → ((n : ℕ) → suffix ≤ n → n < suffix + k → slug_exists rows market (candidate base n) ≡ true)
    → k ≤ length rows
unfolding slug_exists
taken-length market base zero suffix rows taken = omega arith
taken-length market base (suc k) suffix rows taken =
    let here = same_slug market (candidate base suffix) in
    let rest = filter (λ c. not (here c)) rows in
    let fewer = filter-shorter here rows (taken suffix (omega arith) (omega arith)) in
    let enough = taken-length market base k (suffix + 1) rest (λ n le lt.
      any-filter (same_slug market (candidate base n)) (λ c. not (here c)) rows
      ∙ any_congr _ (same_slug market (candidate base n)) rows (λ c.
        other_slug market (candidate base suffix) (candidate base n) c
          (candidate-differs base suffix n (omega (arith, le))))
      ∙ taken n (omega (arith, le)) (omega (arith, lt))) in
    omega (arith, fewer, enough)

of_market-slug_exists :
    (rows : List Company) (market : MarketKey) (slug : Text)
    → slug_exists (filter (λ c. c.market == market) rows) market slug ≡ slug_exists rows market slug
unfolding slug_exists
of_market-slug_exists rows market slug =
    any-filter (same_slug market slug) (λ c. c.market == market) rows
    ∙ any_congr _ (same_slug market slug) rows (λ c. ground arith)

taken-when_failed :
    (rows : List Company) (market : MarketKey) (base : Text) (attempts n : ℕ)
    → 2 ≤ n
    → n < 2 + attempts
    → choose_slug rows market base attempts ≡ raised runtime_error
    → slug_exists rows market (candidate base n) ≡ true
taken-when_failed rows market base attempts n a b gives_up =
    elim (choose_slug-SlugChoice rows market base attempts n a b) [
      | inl (slug, q, _) ↦ absurd (cc (sym gives_up ∙ q))
      | inr (_, _, t) ↦ t
    ]

choose_slug-ok :
    (rows : List Company) (market : MarketKey) (base : Text) (attempts : ℕ)
    → length (filter (λ c. c.market == market) rows) < attempts
    → (slug : Text) × (choose_slug rows market base attempts ≡ ok slug)
      × (slug_exists rows market slug ≡ false)
choose_slug-ok rows market base attempts few =
    elim (choose_slug-SlugChoice rows market base attempts 2 (omega arith) (omega (arith, few))) [
      | inl chosen ↦ chosen
      | inr (gives_up, _, _) ↦ absurd (
          let own = filter (λ c. c.market == market) rows in
          let enough = taken-length market base attempts 2 own (λ n a b.
            of_market-slug_exists rows market (candidate base n)
            ∙ taken-when_failed rows market base attempts n a b gives_up) in
          omega (arith, few, enough))
    ]

-- The loop ends with a slug: in a market that has fewer than ten thousand companies, every name
-- gets one, and it is free there.
pub generate_unique_slug-ok :
    (slugify : Text → Text) (rows : List Company) (name : Text) (market : MarketKey)
    → length (filter (λ c. c.market == market) rows) < max_slug_attempts
    → (slug : Text) × (generate_unique_slug slugify rows name market ≡ ok slug)
      × (slug_exists rows market slug ≡ false)
unfolding generate_unique_slug
generate_unique_slug-ok slugify rows name market few =
    choose_slug-ok rows market (slug_base (slugify name)) max_slug_attempts few
