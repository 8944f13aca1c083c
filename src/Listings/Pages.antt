-- ===== src/Listings/Pages.antt =====
-- backend/app/routers/jobs.py: a page of /jobs, its count, the featured jobs, a user's own jobs.
use employed.Base.{
  Bool, List, Option, String, [], drop, false, filter, if◌then◌else◌, is_some, leb, length, list_eq,
  map, min, nat_eq, none, not, option_eq, some, string_eq, take, true, ℕ, ◌&&◌, ◌*◌, ◌-◌, ◌==◌,
}
use employed.Enums.{
  Country, country_eq, job_status_eq, job_type_eq, market_key_eq, membership_status_eq,
  parse_job_type, payment_provider_key_eq, payment_status_eq, verification_state_eq,
}
use employed.Models.{JobPost, User}
use employed.Listings.Search.{Database, JobQuery, is_listed, job_query_pushdown}
use employed.Listings.Reading.{JobRead}

-- A `JobListResponse`
pub record JobListResponse : Type 0 where
  pub items : List JobRead
  pub total : ℕ
  pub page : ℕ
  pub page_size : ℕ

unfoldable pub job_to_read : Bool → JobPost → JobRead
job_to_read include_contact job = record { job = job; include_contact = include_contact }

-- `jobtype and jobtype not in JOB_TYPES`
unfoldable pub unknown_type : Option String → Bool
unfolding parse_job_type
unknown_type none = false
unknown_type (some type) = not (type == "") && not (is_some (parse_job_type type))

-- The rows that fit, the newest first, in the query that skips so many rows.
unfoldable pub found_jobs : Database → ℕ → ℕ → Country → JobQuery → List JobPost → List JobPost
unfolding job_query_pushdown
found_jobs db skipped now country q rows =
    db.newest_first skipped (filter (job_query_pushdown db now country q) rows)

-- `[start:end]`, and `LIMIT size OFFSET (page - 1) * size`
unfoldable pub page_of : ℕ → ℕ → List JobPost → List JobPost
page_of page size rows = take size (drop ((page - 1) * size) rows)

-- `list_jobs`, where the model has its columns.
unfoldable pub list_jobs :
    Database → ℕ → Country → Option User → ℕ → ℕ → JobQuery → List JobPost → JobListResponse
unfolding unknown_type found_jobs page_of job_to_read
list_jobs db now country user page size q rows =
    let found = page_of page size (found_jobs db ((page - 1) * size) now country q rows) in
    if unknown_type q.jobtype
    then record { items = []; total = 0; page = page; page_size = size }
    else record {
      items = map (job_to_read (is_some user)) found;
      total = length (filter (job_query_pushdown db now country q) rows);
      page = page;
      page_size = size;
    }

-- `count_jobs`
unfoldable pub count_jobs : Database → ℕ → Country → JobQuery → List JobPost → ℕ
unfolding unknown_type job_query_pushdown
count_jobs db now country q rows =
    if unknown_type q.jobtype then 0 else length (filter (job_query_pushdown db now country q) rows)

unfoldable pub is_featured : ℕ → JobPost → Bool
is_featured now job = elim job.featured_through [ none ↦ false | some through ↦ leb now through ]

-- `list_featured_jobs`; `sample` is `random.sample`, its size first.
unfoldable pub list_featured_jobs :
    Database
    → (ℕ → List JobPost → List JobPost)
    → ℕ
    → Country
    → Option User
    → List JobPost
    → List JobRead
unfolding is_featured is_listed job_to_read
list_featured_jobs db sample now country user rows =
    let candidates =
      db.newest_first 0 (filter (λ job. is_listed now country job && is_featured now job) rows) in
    let size = min 3 (length candidates) in
    let chosen = if size == 0 then [] else sample size candidates in
    map (job_to_read (is_some user)) chosen

-- `list_my_jobs`
unfoldable pub list_my_jobs : User → List JobPost → List JobRead
unfolding job_to_read
list_my_jobs user rows = map (job_to_read true) (filter (λ job. job.user_id == some user.id) rows)
