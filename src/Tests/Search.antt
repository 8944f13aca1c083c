-- ===== src/Tests/Search.antt =====
-- Examples on the search of jobs.
use employed.Base.{
  Bool, Bool-cases, List, Option, [], and-split, arith, every, false, filter, if◌then◌else◌, inl,
  inr, is_empty, is_some, leb, length, list_eq, map, nat_eq, none, option_eq, refl, some, string_eq,
  true, ℕ, ◌&&◌, ◌==◌, ◌||◌, ◌∙◌, ◌∷◌, ◌≡◌,
}
use employed.Tests.{listing}
use employed.Enums.{
  country_eq, job_status_eq, job_type_eq, job_type_value, market_key_eq, membership_status_eq,
  mozambique, parse_job_type, payment_provider_key_eq, payment_status_eq, verification_state_eq,
}
use employed.Models.{JobPost, User}
use employed.Listings.Search.{
  Database, DistinctTimes, JobQuery, apply_filters, cutoff_of, falls, falls_from, fits_like,
  has_type, is_ascii, is_listed, is_remote, is_special, job_query_pushdown, like_pattern, replace,
  sql_text,
}
use employed.Listings.Pages.{count_jobs, found_jobs, job_to_read, list_jobs, unknown_type}
use employed.Listings.Paging.{ascii_column, ascii_job, list_jobs-apply_filters}
use employed.Listings.Walk.{read_pages, read_pages_all}
use employed.Base.Text.{Text, codes, drop_while, is_space, lower, lower_code, strip}

-- A text has the character at its front.
abbrev head_fits : ℕ → (Text → Bool) → Text → Bool
head_fits c f [] = false
head_fits c f (d ∷ s) = (c == d) && f s

abbrev some_head : (Text → Bool) → Text → Bool
some_head f [] = false
some_head f (d ∷ s) = f s

abbrev some_suffix : (Text → Bool) → Text → Bool
some_suffix f [] = f []
some_suffix f (d ∷ s) = f (d ∷ s) || some_suffix f s

-- `LIKE`, and whether the character before was the escape.
abbrev like_after : Bool → Text → Text → Bool
like_after e [] s = is_empty s
like_after true (c ∷ p) s = head_fits c (like_after false p) s
like_after false (c ∷ p) s =
    if c == b'%'
    then some_suffix (like_after false p) s
    else if c == 92
    then like_after true p s
    else if c == b'_'
    then some_head (like_after false p) s
    else head_fits c (like_after false p) s

abbrev insert_newest : JobPost → List JobPost → List JobPost
insert_newest j [] = j ∷ []
insert_newest j (k ∷ rows) =
    if leb k.created_at j.created_at then j ∷ k ∷ rows else k ∷ insert_newest j rows

abbrev sort_newest : List JobPost → List JobPost
sort_newest [] = []
sort_newest (j ∷ rows) = insert_newest j (sort_newest rows)

count-insert_newest :
    (q : JobPost → Bool) (j : JobPost) (rows : List JobPost)
    → length (filter q (insert_newest j rows)) ≡ length (filter q (j ∷ rows))
count-insert_newest q j [] = refl
count-insert_newest q j (k ∷ rows) = ground (arith, count-insert_newest q j rows)

count-sort_newest :
    (q : JobPost → Bool) (rows : List JobPost)
    → length (filter q (sort_newest rows)) ≡ length (filter q rows)
count-sort_newest q [] = refl
count-sort_newest q (j ∷ rows) =
    count-insert_newest q j (sort_newest rows) ∙ ground (arith, count-sort_newest q rows)

plain_head :
    (c : ℕ) (p s : Text)
    → is_special c ≡ false
    → like_after false (c ∷ p) s ≡ head_fits c (like_after false p) s
unfolding is_special
plain_head c p s h =
    let a : (c == 92) ≡ false = ground (arith, h) in
    let b : (c == b'%') ≡ false = ground (arith, h) in
    let d : (c == b'_') ≡ false = ground (arith, h) in rw (a, b, d) refl

empty-lower : (s : Text) → is_empty (lower s) ≡ is_empty s
empty-lower [] = refl
empty-lower (c ∷ s) = refl

falls-insert_from :
    (t : ℕ) (j : JobPost) (rows : List JobPost)
    → leb j.created_at t ≡ true
    → falls_from t rows ≡ true
    → falls_from t (insert_newest j rows) ≡ true
unfolding falls_from
falls-insert_from t j [] h f = rw h refl
falls-insert_from t j (k ∷ rows) h f =
    let (a, b) = and-split (leb k.created_at t) (falls_from k.created_at rows) f in
    elim (Bool-cases (leb k.created_at j.created_at)) [
      | inl e ↦ rw (e, h, e, b) refl
      | inr e ↦
          (let le : leb j.created_at k.created_at ≡ true = ground (arith, e) in
            rw (e, a) (falls-insert_from k.created_at j rows le b))
    ]

falls-insert_newest :
    (j : JobPost) (rows : List JobPost) → falls rows ≡ true → falls (insert_newest j rows) ≡ true
unfolding falls falls_from
falls-insert_newest j [] f = refl
falls-insert_newest j (k ∷ rows) f = elim (Bool-cases (leb k.created_at j.created_at)) [
  | inl e ↦ rw (e, e, f) refl
  | inr e ↦
      (let le : leb j.created_at k.created_at ≡ true = ground (arith, e) in
        rw e (falls-insert_from k.created_at j rows le f))
]

falls-sort_newest : (rows : List JobPost) → falls (sort_newest rows) ≡ true
unfolding falls
falls-sort_newest [] = refl
falls-sort_newest (j ∷ rows) = falls-insert_newest j (sort_newest rows) (falls-sort_newest rows)

abbrev board : Database
board = record {
  sql_lower = lower;
  like = like_after false;
  py_lower = lower;
  newest_first = λ k. sort_newest;
  sql_lower-ascii = λ s _. refl;
  py_lower-is_empty = empty-lower;
  like-end = refl;
  like-percent_end = λ p. refl;
  like-percent = λ d p s. refl;
  like-escape_end = λ c p. refl;
  like-escape = λ c d p s. refl;
  like-plain_end = λ c p h. plain_head c p [] h;
  like-plain = λ c d p s h. plain_head c p (d ∷ s) h;
  same_rows = λ k. count-sort_newest;
  newest_first-distinct = λ k l rows h. refl;
  newest_first-falls = λ k. falls-sort_newest;
}

abbrev clerk_query : JobQuery
clerk_query = record {
  query = some (codes " clerk");
  jobtype = some "Full Time";
  remote = some false;
}

clerk_type_known : unknown_type (some "Full Time") ≡ false
unfolding unknown_type parse_job_type
clerk_type_known = refl

clerk_total : (list_jobs board 7000000 mozambique none 1 1 clerk_query (listing ∷ [])).total ≡ 1
unfolding list_jobs unknown_type parse_job_type job_query_pushdown is_listed sql_text has_type
    is_remote cutoff_of like_pattern replace fits_like job_type_value strip drop_while is_space
    lower_code
clerk_total = refl

abbrev nobody : Option User
nobody = none

listing_ascii : every ascii_job (listing ∷ []) ≡ true
unfolding ascii_job ascii_column is_ascii
listing_ascii = refl

clerk_distinct :
    DistinctTimes (filter (job_query_pushdown board 7000000 mozambique clerk_query) (listing ∷ []))
unfolding DistinctTimes job_query_pushdown is_listed sql_text has_type is_remote cutoff_of
    like_pattern replace fits_like job_type_value strip drop_while is_space lower_code
clerk_distinct = (refl, tt)

list_jobs-apply_filters_example :
    ((list_jobs board 7000000 mozambique nobody 1 20 clerk_query (listing ∷ [])).total
      ≡ length (apply_filters board 7000000 mozambique clerk_query (listing ∷ [])))
    × (count_jobs board 7000000 mozambique clerk_query (listing ∷ [])
        ≡ length (apply_filters board 7000000 mozambique clerk_query (listing ∷ [])))
list_jobs-apply_filters_example =
    list_jobs-apply_filters board 7000000 mozambique none 1 20 clerk_query (listing ∷ [])
      listing_ascii

read_pages_all_example :
    (read_pages board 7000000 mozambique nobody 1 clerk_query (listing ∷ []) 5
      ≡ map
          (job_to_read (is_some nobody))
          (found_jobs board 0 7000000 mozambique clerk_query (listing ∷ [])))
    × (falls (found_jobs board 0 7000000 mozambique clerk_query (listing ∷ [])) ≡ true)
    × (length (
          filter
            (λ (job : JobPost). job.remote)
            (found_jobs board 0 7000000 mozambique clerk_query (listing ∷ [])))
        ≡ length (
            filter
              (λ (job : JobPost). job.remote)
              (filter (job_query_pushdown board 7000000 mozambique clerk_query) (listing ∷ []))))
read_pages_all_example =
    read_pages_all board 7000000 mozambique none 1 clerk_query (listing ∷ []) clerk_type_known
      clerk_distinct 5 1 (λ job. job.remote) (rw clerk_total (omega arith))
