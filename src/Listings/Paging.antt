-- ===== src/Listings/Paging.antt =====
-- backend/app/routers/jobs.py: the search in SQL against the search in Python, and its pages.
use mathlib.Core.Path.{subst}
use employed.Base.{
  ==_iff, Bool, Bool-cases, List, Option, String, [], and-split, ap, arith, every, false,
  false≢true, filter, inl, inr, is_empty, is_some, leb, length, list_eq, ltb, nat_eq, none, not,
  option_eq, or_else, refl, some, string_eq, sym, true, ℕ, ◌&&◌, ◌==◌, ◌||◌, ◌∙◌, ◌∷◌, ◌≡◌,
}
use employed.Base.Text.{Text, drop_while, strip}
use employed.Enums.{
  Country, JobStatus, JobType, contract, country_eq, freelance, full_time, internship,
  job_status_eq, job_type_eq, job_type_value, market_key_eq, membership_status_eq, other_type,
  parse_job_type, part_time, payment_provider_key_eq, payment_status_eq, remote_work, temporary,
  verification_state_eq, volunteer,
}
use employed.Models.{JobPost, User}
use employed.Listings.Search.{
  Database, JobQuery, apply_filters, column_has, cutoff_of, fits_like, has_type, is_ascii, is_fresh,
  is_listed, is_remote, job_query_pushdown, like_pattern, occurs_in, python_text, sql_text,
  starts_with,
}
use employed.Listings.Like.{like-like_pattern}
use employed.Listings.Pages.{count_jobs, list_jobs, unknown_type}

fits_like-none : (db : Database) (needle : Text) → fits_like db needle none ≡ false
unfolding fits_like
fits_like-none db needle = refl

-- A column that is absent or has ASCII characters alone.
unfoldable pub ascii_column : Option Text → Bool
ascii_column none = true
ascii_column (some s) = is_ascii s

-- The three columns that a text is looked for in.
unfoldable pub ascii_job : JobPost → Bool
ascii_job job = is_ascii job.title && ascii_column job.company && ascii_column job.location

fits_like-some :
    (db : Database) (needle s : Text)
    → is_ascii s ≡ true
    → fits_like db needle (some s) ≡ db.like needle (db.py_lower s)
unfolding fits_like
fits_like-some db needle s h = ap (db.like needle) (db.sql_lower-ascii s h)

occurs_in-nothing : (c : ℕ) (needle s : Text) → is_empty s ≡ true → occurs_in (c ∷ needle) s ≡ false
unfolding occurs_in starts_with
occurs_in-nothing c needle [] h = refl
occurs_in-nothing c needle (d ∷ s) h = absurd (false≢true h)

column_fits :
    (db : Database) (c : ℕ) (needle : Text) (column : Option Text)
    → ascii_column column ≡ true
    → fits_like db (like_pattern (c ∷ needle)) column ≡ column_has db (c ∷ needle) column
unfolding column_has ascii_column
column_fits db c needle none h =
    fits_like-none db (like_pattern (c ∷ needle))
    ∙ sym (occurs_in-nothing c needle (db.py_lower []) (db.py_lower-is_empty []))
column_fits db c needle (some s) h =
    fits_like-some db (like_pattern (c ∷ needle)) s h
    ∙ like-like_pattern db (c ∷ needle) (db.py_lower s)

occurs_in-empty : (s : Text) → occurs_in [] s ≡ true
unfolding occurs_in starts_with
occurs_in-empty [] = refl
occurs_in-empty (d ∷ s) = refl

given_text : (text : Text) → is_empty (strip text) ≡ false → is_empty text ≡ false
unfolding strip drop_while
given_text [] h = h
given_text (c ∷ text) h = refl

-- Both tests of the text in small letters, the given text apart.
text_fits :
    (db : Database) (given : Bool) (lowered : Text) (title company location : Option Text)
    → (is_empty lowered ≡ false → given ≡ false)
    → ascii_column title ≡ true
    → ascii_column company ≡ true
    → ascii_column location ≡ true
    → (let pattern_text = like_pattern lowered in
        is_empty lowered
        || (fits_like db pattern_text title
            || fits_like db pattern_text company
            || fits_like db pattern_text location))
      ≡ (given
          || (column_has db lowered title
              || column_has db lowered company
              || column_has db lowered location))
unfolding column_has
text_fits db true [] title company location h a b c = refl
text_fits db false [] title company location h a b c =
    rw (occurs_in-empty (db.py_lower (or_else title []))) refl
text_fits db true (d ∷ n) title company location h a b c = absurd (false≢true (sym (h refl)))
text_fits db false (d ∷ n) title company location h a b c =
    rw (column_fits db d n title a, column_fits db d n company b, column_fits db d n location c)
      refl

sql_text-python_text :
    (db : Database) (query : Option Text) (job : JobPost)
    → ascii_job job ≡ true
    → sql_text db query job ≡ python_text db query job
unfolding sql_text python_text ascii_job ascii_column
sql_text-python_text db none job h = refl
sql_text-python_text db (some text) job h =
    let (ab, c) =
      and-split (is_ascii job.title && ascii_column job.company) (ascii_column job.location) h in
    let (a, b) = and-split (is_ascii job.title) (ascii_column job.company) ab in
    let same = db.py_lower-is_empty (strip text) in
    subst
      (λ e.
        (e
          || (fits_like db (like_pattern (db.py_lower (strip text))) (some job.title)
              || fits_like db (like_pattern (db.py_lower (strip text))) job.company
              || fits_like db (like_pattern (db.py_lower (strip text))) job.location))
        ≡ python_text db (some text) job)
      same
      (text_fits db (is_empty text) (db.py_lower (strip text)) (some job.title) job.company
        job.location (λ e. given_text text (sym same ∙ e)) a b c)

same_tests :
    (a b : Bool) (x y : ℕ) → (a && b && leb y x) ≡ (not (not a) && not (ltb x y) && not (not b))
same_tests a b x y = ground arith

is_listed-is_fresh :
    (now : ℕ) (country : Country) (job : JobPost)
    → is_listed now country job ≡ is_fresh now country job
unfolding is_listed is_fresh
is_listed-is_fresh now country job =
    same_tests (job.status == JobStatus.active) (job.country == country) job.created_at
      (cutoff_of now)

four_filters :
    {A : Type 0} (a b c d : A → Bool) (xs : List A)
    → filter d (filter c (filter b (filter a xs))) ≡ filter (λ x. a x && b x && c x && d x) xs
four_filters a b c d [] = refl
four_filters a b c d (x ∷ xs) = ground (arith, four_filters a b c d xs)

-- The tests of the fallback, as one.
python_fits : Database → ℕ → Country → JobQuery → JobPost → Bool
python_fits db now country q job =
    is_fresh now country job
    && python_text db q.query job
    && has_type q.jobtype job
    && is_remote q.remote job

fits-python_fits :
    (db : Database) (now : ℕ) (country : Country) (q : JobQuery) (job : JobPost)
    → ascii_job job ≡ true
    → job_query_pushdown db now country q job ≡ python_fits db now country q job
unfolding job_query_pushdown python_fits
fits-python_fits db now country q job h =
    rw (is_listed-is_fresh now country job, sql_text-python_text db q.query job h) refl

filter_on :
    {A : Type 0} (p f g : A → Bool) (xs : List A)
    → ((x : A) → p x ≡ true → f x ≡ g x)
    → every p xs ≡ true
    → filter f xs ≡ filter g xs
filter_on p f g [] same h = refl
filter_on p f g (x ∷ xs) same h =
    let (here, there) = and-split (p x) (every p xs) h in
    let rest = filter_on p f g xs same there in rw (same x here, rest) refl

apply_filters-pushdown :
    (db : Database) (now : ℕ) (country : Country) (q : JobQuery) (rows : List JobPost)
    → every ascii_job rows ≡ true
    → apply_filters db now country q rows ≡ filter (job_query_pushdown db now country q) rows
unfolding apply_filters python_fits
apply_filters-pushdown db now country q rows h =
    four_filters (is_fresh now country) (python_text db q.query) (has_type q.jobtype)
      (is_remote q.remote) rows
    ∙ sym (
        filter_on ascii_job (job_query_pushdown db now country q) (python_fits db now country q)
          rows (fits-python_fits db now country q) h)

parse-value : (type : JobType) → is_some (parse_job_type (job_type_value type)) ≡ true
unfolding parse_job_type job_type_value
parse-value full_time = refl
parse-value part_time = refl
parse-value contract = refl
parse-value temporary = refl
parse-value internship = refl
parse-value freelance = refl
parse-value remote_work = refl
parse-value volunteer = refl
parse-value other_type = refl

-- A text that is no type is the type of no job.
has_type-unknown :
    (jobtype : Option String) (job : JobPost)
    → unknown_type jobtype ≡ true
    → has_type jobtype job ≡ false
unfolding has_type unknown_type
has_type-unknown none job h = absurd (false≢true h)
has_type-unknown (some type) job h = elim (Bool-cases (job_type_value job.job_type == type)) [
  | inl e ↦ absurd (
      false≢true (
        sym (
          ap not (
            subst (λ t. is_some (parse_job_type t) ≡ true)
              ((==_iff (job_type_value job.job_type) type).0 e) (parse-value job.job_type)))
        ∙ (and-split (not (type == "")) (not (is_some (parse_job_type type))) h).1))
  | inr e ↦
      (let (given, _) = and-split (not (type == "")) (not (is_some (parse_job_type type))) h in
        rw e (ground (arith, given)))
]

filter-none : {A : Type 0} (p : A → Bool) (xs : List A) → ((x : A) → p x ≡ false) → filter p xs ≡ []
filter-none p [] h = refl
filter-none p (x ∷ xs) h = rw (h x) (filter-none p xs h)

pushdown-unknown :
    (db : Database) (now : ℕ) (country : Country) (q : JobQuery) (job : JobPost)
    → unknown_type q.jobtype ≡ true
    → job_query_pushdown db now country q job ≡ false
unfolding job_query_pushdown
pushdown-unknown db now country q job h = rw (has_type-unknown q.jobtype job h) (ground arith)

-- With all columns there, and where the title, the company and the location of every job of the table
-- have ASCII characters alone, the search in SQL answers as the fallback in Python for any text: the
-- total of a page and the count are the number of jobs that `_apply_filters` keeps of the table,
-- also for a type that is none of `JOB_TYPES`.
pub list_jobs-apply_filters :
    (db : Database) (now : ℕ) (country : Country) (user : Option User) (page size : ℕ)
    (q : JobQuery) (rows : List JobPost)
    → every ascii_job rows ≡ true
    → ((list_jobs db now country user page size q rows).total
        ≡ length (apply_filters db now country q rows))
      × (count_jobs db now country q rows ≡ length (apply_filters db now country q rows))
unfolding list_jobs count_jobs
list_jobs-apply_filters db now country user page size q rows ascii =
    let fits = job_query_pushdown db now country q in
    rw (apply_filters-pushdown db now country q rows ascii)
      (elim (Bool-cases (unknown_type q.jobtype)) [
        | inl e ↦
            (let gone =
                ap length
                  (filter-none fits rows (λ job. pushdown-unknown db now country q job e)) in
              rw (e, gone) (refl, refl))
        | inr e ↦ rw e (refl, refl)
      ])
