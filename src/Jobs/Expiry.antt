-- ===== src/Jobs/Expiry.antt =====
-- backend/app/workers/tasks.py: what the expiry of old listings changes.
use mathlib.Core.Option
use employed.Base.{
  ==_iff, Bool, Bool-cases, [], and-split, ap, arith, false, if◌then◌else◌, inl, inr, keep_last,
  list_eq, ltb, nat_eq, option_eq, refl, some, string_eq, suc, sym, true, ℕ, ◌&&◌, ◌++◌, ◌+◌, ◌==◌,
  ◌∙◌, ◌∷◌, ◌≡◌,
}
use employed.Enums.{
  JobStatus, country_eq, job_status_eq, job_type_eq, market_key_eq, membership_status_eq,
  payment_provider_key_eq, payment_status_eq, verification_state_eq,
}
use employed.Models.{JobPost, by_task}
use employed.Jobs.{expire_job, expire_old_jobs, expiry_change, is_stale, listing_window}
use employed.Base.Dict.{Dict, lookup}

-- The row that a run leaves for a row.
unfoldable pub after_expiry : ℕ → JobPost → JobPost
after_expiry now job = if is_stale now job then expire_job now job else job

lookup-expire_old_jobs :
    (now id : ℕ) (jobs : Dict ℕ JobPost)
    → lookup id (expire_old_jobs now jobs).1 ≡ Option.map (after_expiry now) (lookup id jobs)
unfolding expire_old_jobs after_expiry
lookup-expire_old_jobs now id [] = refl
lookup-expire_old_jobs now id ((k, job) ∷ jobs) = elim (Bool-cases (is_stale now job)) [
  | inl e ↦ rw (e, expire_old_jobs) (ground (arith, lookup-expire_old_jobs now id jobs, e))
  | inr e ↦ rw (e, expire_old_jobs) (ground (arith, lookup-expire_old_jobs now id jobs, e))
]

is_stale-expire_job : (now : ℕ) (job : JobPost) → is_stale now (expire_job now job) ≡ false
unfolding is_stale expire_job
is_stale-expire_job now job = refl

expire_old_jobs-skip :
    (now k : ℕ) (job : JobPost) (jobs : Dict ℕ JobPost)
    → is_stale now job ≡ false
    → expire_old_jobs now ((k, job) ∷ jobs)
      ≡ ((expire_old_jobs now jobs).0, (k, job) ∷ (expire_old_jobs now jobs).1)
unfolding expire_old_jobs
expire_old_jobs-skip now k job jobs e = rw (e, expire_old_jobs) refl

expire_old_jobs-take :
    (now k : ℕ) (job : JobPost) (jobs : Dict ℕ JobPost)
    → is_stale now job ≡ true
    → expire_old_jobs now ((k, job) ∷ jobs)
      ≡ (suc (expire_old_jobs now jobs).0, (k, expire_job now job) ∷ (expire_old_jobs now jobs).1)
unfolding expire_old_jobs
expire_old_jobs-take now k job jobs e = rw (e, expire_old_jobs) refl

expire_old_jobs-again :
    (now : ℕ) (jobs : Dict ℕ JobPost)
    → expire_old_jobs now (expire_old_jobs now jobs).1 ≡ (0, (expire_old_jobs now jobs).1)
unfolding expire_old_jobs
expire_old_jobs-again now [] = refl
expire_old_jobs-again now ((k, job) ∷ jobs) =
    let after = (expire_old_jobs now jobs).1 in
    let ih = expire_old_jobs-again now jobs in
    elim (Bool-cases (is_stale now job)) [
      | inl e ↦
          (let s =
              expire_old_jobs-skip now k (expire_job now job) after (is_stale-expire_job now job) in
            rw (expire_old_jobs-take now k job jobs e)
              (s ∙ ap (λ (r : ℕ × Dict ℕ JobPost). (r.0, (k, expire_job now job) ∷ r.1)) ih))
      | inr e ↦
          (let s = expire_old_jobs-skip now k job after e in
            rw (expire_old_jobs-skip now k job jobs e)
              (s ∙ ap (λ (r : ℕ × Dict ℕ JobPost). (r.0, (k, job) ∷ r.1)) ih))
    ]

after_expiry-lem :
    (now : ℕ) (job : JobPost) (b : Bool)
    → is_stale now job ≡ b
    → after_expiry now job ≡ (if b then expire_job now job else job)
unfolding after_expiry
after_expiry-lem now job b e = ap (λ x. if x then expire_job now job else job) e

-- A listing is over when it is active and was created more than ninety days, in seconds, ago.
abbrev pub is_over : ℕ → JobPost → Bool
is_over now job = job.status == JobStatus.active && ltb (job.created_at + 7776000) now

-- The row of a listing that is taken down, told apart from the code.
abbrev pub taken_down : ℕ → JobPost → JobPost
taken_down now job = record job {
  status = JobStatus.inactive;
  status_history = keep_last 100 (
      job.status_history
      ++ (record {
        changed_at = now;
        changed_by = by_task "worker:expire_old_jobs";
        from_status = JobStatus.active;
        to_status = JobStatus.inactive;
        reason = some "expired (90-day listing window)";
      })
        ∷ []);
  expired_at = some now;
  updated_at = now;
}

is_stale-is_over : (now : ℕ) (job : JobPost) → is_stale now job ≡ is_over now job
unfolding is_stale
is_stale-is_over now job = refl

expire_job-taken_down :
    (now : ℕ) (job : JobPost)
    → job.status ≡ JobStatus.active
    → expire_job now job ≡ taken_down now job
unfolding expire_job expiry_change
expire_job-taken_down now job h = rw h refl

over-active : (now : ℕ) (job : JobPost) → is_stale now job ≡ true → job.status ≡ JobStatus.active
unfolding is_stale
over-active now job h =
    (==_iff job.status JobStatus.active).0
      (and-split (job.status == JobStatus.active) (ltb (job.created_at + listing_window) now) h).0

-- The number of listings of a table that are over.
pub count_over : ℕ → Dict ℕ JobPost → ℕ
count_over now [] = 0
count_over now ((id, job) ∷ jobs) =
    let n = count_over now jobs in if is_over now job then suc n else n

expire_old_jobs-count :
    (now : ℕ) (jobs : Dict ℕ JobPost) → (expire_old_jobs now jobs).0 ≡ count_over now jobs
unfolding expire_old_jobs count_over is_stale
expire_old_jobs-count now [] = refl
expire_old_jobs-count now ((k, job) ∷ jobs) =
    rw (expire_old_jobs-count now jobs)
      (elim (Bool-cases (is_over now job)) [ inl e ↦ rw e refl | inr e ↦ rw e refl ])

-- A run returns the number of the jobs that are active and were created more than ninety days before
-- it. A job of the table that is not one of these stays as it is. One that is becomes inactive, with
-- the time of the run as the time of its expiry and of its last update, and with that change, signed
-- by the task, as the last of its history, of which the last hundred changes stay. A second run at
-- the same time changes nothing and counts none.
pub expire_old_jobs_total :
    (now id : ℕ) (jobs : Dict ℕ JobPost) (job : JobPost)
    → lookup id jobs ≡ some job
    → let after = (expire_old_jobs now jobs).1 in
      ((expire_old_jobs now jobs).0 ≡ count_over now jobs)
      × (lookup id after ≡ some (if is_over now job then taken_down now job else job))
      × (expire_old_jobs now after ≡ (0, after))
expire_old_jobs_total now id jobs job h =
    let found = lookup-expire_old_jobs now id jobs ∙ ap (Option.map (after_expiry now)) h in
    (
      expire_old_jobs-count now jobs,
      elim (Bool-cases (is_stale now job)) [
        | inr e ↦
            (let over = sym (is_stale-is_over now job) ∙ e in
              rw over (found ∙ ap some (after_expiry-lem now job false e)))
        | inl e ↦
            (let over = sym (is_stale-is_over now job) ∙ e in
              rw over (
                found
                ∙ ap some (after_expiry-lem now job true e)
                ∙ ap some (expire_job-taken_down now job (over-active now job e))))
      ],
      expire_old_jobs-again now jobs,
    )
