-- ===== src/Listings/Search.antt =====
-- backend/app/routers/jobs.py: the search of /jobs, in SQL and in Python. The database is a
-- parameter: its `lower`, its `LIKE` with the escape, its `ORDER BY`. The columns that take no null
-- have their tests for one left out.
use employed.Base.{
  Bool, List, Option, String, [], any, false, filter, if◌then◌else◌, is_empty, leb, length, list_eq,
  ltb, nat_eq, none, not, option_eq, or_else, some, string_eq, true, ℕ, ◌&&◌, ◌++◌, ◌-◌, ◌==◌, ◌||◌,
  ◌∷◌, ◌≡◌,
}
use employed.Base.Text.{Text, strip}
use employed.Enums.{
  Country, JobStatus, country_eq, job_status_eq, job_type_eq, job_type_value, market_key_eq,
  membership_status_eq, payment_provider_key_eq, payment_status_eq, verification_state_eq,
}
use employed.Models.{JobPost}

-- The characters that `LIKE` reads as more than themselves: the backslash, `%` and `_`.
unfoldable pub is_special : ℕ → Bool
is_special c = c == 92 || c == b'%' || c == b'_'

-- The texts whose characters are all ASCII.
unfoldable pub is_ascii : Text → Bool
is_ascii [] = true
is_ascii (c ∷ s) = ltb c 128 && is_ascii s

-- Rows that were all created at different times.
unfoldable pub DistinctTimes : List JobPost → Type 0
DistinctTimes [] = Unit
DistinctTimes (job ∷ rows) =
    (any (λ other. other.created_at == job.created_at) rows ≡ false) × DistinctTimes rows

-- Whether rows stand from the newest to the oldest.
unfoldable pub falls_from : ℕ → List JobPost → Bool
falls_from t [] = true
falls_from t (job ∷ rows) = leb job.created_at t && falls_from job.created_at rows

unfoldable pub falls : List JobPost → Bool
unfolding falls_from
falls [] = true
falls (job ∷ rows) = falls_from job.created_at rows

-- The database, as its manual describes it, and Python's `str.lower`. The two ways to write a text
-- in small letters need agree on ASCII texts only: what the database does with others depends on
-- its locale. `newest_first k` is `ORDER BY created_at DESC` in the query that skips k rows: rows of
-- one time may come in another order in each query, and those of different times may not.
pub record Database : Type 0 where
  pub sql_lower : Text → Text
  pub py_lower : Text → Text
  pub like : Text → Text → Bool
  pub newest_first : ℕ → List JobPost → List JobPost
  pub sql_lower-ascii : (s : Text) → is_ascii s ≡ true → sql_lower s ≡ py_lower s
  pub py_lower-is_empty : (s : Text) → is_empty (py_lower s) ≡ is_empty s
  pub like-end : like [] [] ≡ true
  pub like-percent_end : (p : Text) → like (b'%' ∷ p) [] ≡ like p []
  pub like-percent :
      (d : ℕ) (p s : Text) → like (b'%' ∷ p) (d ∷ s) ≡ (like p (d ∷ s) || like (b'%' ∷ p) s)
  pub like-escape_end : (c : ℕ) (p : Text) → like (92 ∷ c ∷ p) [] ≡ false
  pub like-escape : (c d : ℕ) (p s : Text) → like (92 ∷ c ∷ p) (d ∷ s) ≡ ((c == d) && like p s)
  pub like-plain_end : (c : ℕ) (p : Text) → is_special c ≡ false → like (c ∷ p) [] ≡ false
  pub like-plain :
      (c d : ℕ) (p s : Text) → is_special c ≡ false → like (c ∷ p) (d ∷ s) ≡ ((c == d) && like p s)
  pub same_rows :
      (k : ℕ) (q : JobPost → Bool) (rows : List JobPost)
      → length (filter q (newest_first k rows)) ≡ length (filter q rows)
  pub newest_first-distinct :
      (k l : ℕ) (rows : List JobPost)
      → DistinctTimes rows
      → newest_first k rows ≡ newest_first l rows
  pub newest_first-falls : (k : ℕ) (rows : List JobPost) → falls (newest_first k rows) ≡ true

-- `s.replace(chr(c), by)`
unfoldable pub replace : ℕ → Text → Text → Text
replace c by_text [] = []
replace c by_text (d ∷ s) =
    let rest = replace c by_text s in if d == c then by_text ++ rest else d ∷ rest

-- `_like_pattern`
unfoldable pub like_pattern : Text → Text
unfolding replace
like_pattern needle =
    b'%'
    ∷ (replace b'_' (92 ∷ b'_' ∷ [])
          (replace b'%' (92 ∷ b'%' ∷ []) (replace 92 (92 ∷ 92 ∷ []) needle))
        ++ b'%' ∷ [])

unfoldable pub starts_with : Text → Text → Bool
starts_with [] s = true
starts_with (c ∷ p) [] = false
starts_with (c ∷ p) (d ∷ s) = (c == d) && starts_with p s

-- `needle in s`
unfoldable pub occurs_in : Text → Text → Bool
unfolding starts_with
occurs_in needle [] = starts_with needle []
occurs_in needle (d ∷ s) = starts_with needle (d ∷ s) || occurs_in needle s

-- What a client asks /jobs for.
pub record JobQuery : Type 0 where
  pub query : Option Text
  pub jobtype : Option String
  pub remote : Option Bool

-- The ninety days of both cutoffs, in seconds.
unfoldable pub cutoff_of : ℕ → ℕ
cutoff_of now = now - 7776000

-- A column that may be null fits a `LIKE` when it is there and fits.
unfoldable pub fits_like : Database → Text → Option Text → Bool
fits_like db needle none = false
fits_like db needle (some s) = db.like needle (db.sql_lower s)

-- The filters that `_job_query_pushdown` starts with: active, of the market, of ninety days.
unfoldable pub is_listed : ℕ → Country → JobPost → Bool
unfolding cutoff_of
is_listed now country job =
    job.status == JobStatus.active && job.country == country && leb (cutoff_of now) job.created_at

-- `query and query.strip()`, and the three columns that it is looked for in.
unfoldable pub sql_text : Database → Option Text → JobPost → Bool
unfolding like_pattern fits_like
sql_text db none job = true
sql_text db (some text) job =
    let pattern_text = like_pattern (db.py_lower (strip text)) in
    is_empty (strip text)
    || (fits_like db pattern_text (some job.title)
        || fits_like db pattern_text job.company
        || fits_like db pattern_text job.location)

-- `if jobtype:` and its filter, as SQL and Python compare the column with the text.
unfoldable pub has_type : Option String → JobPost → Bool
unfolding job_type_value
has_type none job = true
has_type (some type) job = type == "" || job_type_value job.job_type == type

unfoldable pub is_remote : Option Bool → JobPost → Bool
is_remote none job = true
is_remote (some true) job = job.remote
is_remote (some false) job = not job.remote

-- `_job_query_pushdown`, its filters as one test.
unfoldable pub job_query_pushdown : Database → ℕ → Country → JobQuery → JobPost → Bool
unfolding is_listed sql_text has_type is_remote
job_query_pushdown db now country q job =
    is_listed now country job
    && sql_text db q.query job
    && has_type q.jobtype job
    && is_remote q.remote job

-- `(column or "").lower()` has the text in it.
unfoldable pub column_has : Database → Text → Option Text → Bool
unfolding occurs_in
column_has db needle column = occurs_in needle (db.py_lower (or_else column []))

-- The tests of the loop in `_apply_filters`.
unfoldable pub is_fresh : ℕ → Country → JobPost → Bool
unfolding cutoff_of
is_fresh now country job =
    not (not (job.status == JobStatus.active))
    && not (ltb job.created_at (cutoff_of now))
    && not (not (job.country == country))

unfoldable pub python_text : Database → Option Text → JobPost → Bool
unfolding column_has
python_text db none job = true
python_text db (some text) job =
    let lowered = db.py_lower (strip text) in
    is_empty text
    || (column_has db lowered (some job.title)
        || column_has db lowered job.company
        || column_has db lowered job.location)

-- `_apply_filters`, before its sort.
unfoldable pub apply_filters : Database → ℕ → Country → JobQuery → List JobPost → List JobPost
unfolding is_fresh python_text has_type is_remote
apply_filters db now country q items = filter (is_remote q.remote) (
    filter (has_type q.jobtype)
      (filter (python_text db q.query) (filter (is_fresh now country) items)))
