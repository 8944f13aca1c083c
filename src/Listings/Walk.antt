-- ===== src/Listings/Walk.antt =====
-- backend/app/routers/jobs.py: a client that reads /jobs page by page.
use employed.Base.{
  Bool, List, Option, [], ap, arith, false, filter, is_some, length, list_eq, map, nat_eq,
  option_eq, refl, string_eq, suc, sym, take, take-add, take-all, true, zero, ℕ, ◌*◌, ◌++◌, ◌+◌,
  ◌-◌, ◌∙◌, ◌∷◌, ◌≡◌, ◌≤◌,
}
use employed.Enums.{
  Country, country_eq, job_status_eq, job_type_eq, market_key_eq, membership_status_eq,
  payment_provider_key_eq, payment_status_eq, verification_state_eq,
}
use employed.Models.{JobPost, User}
use employed.Listings.Search.{Database, DistinctTimes, JobQuery, falls, job_query_pushdown}
use employed.Listings.Reading.{JobRead}
use employed.Listings.Pages.{found_jobs, job_to_read, list_jobs, page_of, unknown_type}

-- The items of the pages from the first to the n-th, one after another.
unfoldable pub read_pages :
    Database → ℕ → Country → Option User → ℕ → JobQuery → List JobPost → ℕ → List JobRead
read_pages db now country user size q rows zero = []
read_pages db now country user size q rows (suc n) =
    read_pages db now country user size q rows n
    ++ (list_jobs db now country user (suc n) size q rows).items

page_of-suc :
    (n size : ℕ) (rows : List JobPost)
    → take (n * size) rows ++ page_of (suc n) size rows ≡ take (suc n * size) rows
unfolding page_of
page_of-suc n size rows =
    let e : (suc n - 1) * size ≡ n * size = ap (λ k. k * size) (omega arith) in
    let f : n * size + size ≡ suc n * size = grind arith in
    rw e (take-add (n * size) size rows) ∙ ap (λ k. take k rows) f

all-kept : (xs : List JobPost) → filter (λ _. true) xs ≡ xs
all-kept [] = refl
all-kept (x ∷ xs) = ap (λ r. x ∷ r) (all-kept xs)

map-append :
    {A B : Type 0} (f : A → B) (front rest : List A)
    → map f (front ++ rest) ≡ map f front ++ map f rest
map-append f [] rest = refl
map-append f (x ∷ front) rest = ap (λ r. f x ∷ r) (map-append f front rest)

module _ (db : Database) (now : ℕ) (country : Country) (user : Option User) (size : ℕ)
    (q : JobQuery) (rows : List JobPost) (known : unknown_type q.jobtype ≡ false)
    (distinct : DistinctTimes (filter (job_query_pushdown db now country q) rows)) where
  -- The query of every page orders the rows as one that skips none.
  same_order :
      (skipped : ℕ) → found_jobs db skipped now country q rows ≡ found_jobs db 0 now country q rows
  unfolding found_jobs
  same_order skipped =
      db.newest_first-distinct skipped 0 (filter (job_query_pushdown db now country q) rows)
        distinct

  items-page :
      (page : ℕ)
      → (list_jobs db now country user page size q rows).items
        ≡ map (job_to_read (is_some user)) (page_of page size (found_jobs db 0 now country q rows))
  unfolding list_jobs
  items-page page = rw known (
      ap (λ found. map (job_to_read (is_some user)) (page_of page size found))
        (same_order ((page - 1) * size)))

  read_pages-take :
      (n : ℕ)
      → read_pages db now country user size q rows n
        ≡ map (job_to_read (is_some user)) (take (n * size) (found_jobs db 0 now country q rows))
  unfolding read_pages
  read_pages-take zero =
      let e : 0 ≡ 0 * size = omega arith in
      ap (λ k. map (job_to_read (is_some user)) (take k (found_jobs db 0 now country q rows))) e
  read_pages-take (suc n) =
      let found = found_jobs db 0 now country q rows in
      rw (read_pages-take n, items-page (suc n), ← page_of-suc n size found)
        (sym (
          map-append (job_to_read (is_some user)) (take (n * size) found)
            (page_of (suc n) size found)))

  total-length :
      (page : ℕ)
      → (list_jobs db now country user page size q rows).total
        ≡ length (found_jobs db 0 now country q rows)
  unfolding list_jobs found_jobs
  total-length page =
      let fits = filter (job_query_pushdown db now country q) rows in
      rw known (
        sym (
          sym (ap length (all-kept (db.newest_first 0 fits)))
          ∙ db.same_rows 0 (λ _. true) fits
          ∙ ap length (all-kept fits)))

  -- Where no two jobs that fit were created at the same time, a client that asks for a type that
  -- there is, or for none, and reads on until its pages, of one size, cover the total that any page
  -- names has read the rows of the query without a limit, one after another: they stand from the
  -- newest to the oldest, and for any test as many of them pass it as there are jobs of the table
  -- that fit and pass it.
  pub read_pages_all :
      (n page : ℕ) (p : JobPost → Bool)
      → (list_jobs db now country user page size q rows).total ≤ n * size
      → (read_pages db now country user size q rows n
          ≡ map (job_to_read (is_some user)) (found_jobs db 0 now country q rows))
        × (falls (found_jobs db 0 now country q rows) ≡ true)
        × (length (filter p (found_jobs db 0 now country q rows))
            ≡ length (filter p (filter (job_query_pushdown db now country q) rows)))
  unfolding found_jobs
  read_pages_all n page p le =
      let fits = filter (job_query_pushdown db now country q) rows in
      let found = found_jobs db 0 now country q rows in
      (
        read_pages-take n
            ∙ ap (map (job_to_read (is_some user)))
                (take-all (n * size) found (rw (← total-length page) le)),
        db.newest_first-falls 0 fits,
        db.same_rows 0 p fits,
      )
