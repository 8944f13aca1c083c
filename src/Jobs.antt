-- ===== src/Jobs.antt =====
-- backend/app/workers/tasks.py: the hourly task that takes down old listings. Times are in seconds.
pub mod Expiry
use employed.Base.{
  Bool, [], if◌then◌else◌, keep_last, list_eq, ltb, nat_eq, option_eq, some, string_eq, suc, ℕ,
  ◌&&◌, ◌*◌, ◌++◌, ◌+◌, ◌==◌, ◌∷◌,
}
use employed.Enums.{
  JobStatus, active, country_eq, expired, inactive, job_status_eq, job_type_eq, market_key_eq,
  membership_status_eq, payment_provider_key_eq, payment_status_eq, verification_state_eq,
}
use employed.Models.{JobPost, StatusChange, by_task}
use employed.Base.Dict.{Dict}

abbrev pub listing_window : ℕ
listing_window = 90 * 86400

-- The query: active, and created before the window.
unfoldable pub is_stale : ℕ → JobPost → Bool
is_stale now job = job.status == JobStatus.active && ltb (job.created_at + listing_window) now

-- The change that the worker records.
unfoldable pub expiry_change : ℕ → JobStatus → StatusChange
expiry_change now previous = record {
  changed_at = now;
  changed_by = by_task "worker:expire_old_jobs";
  from_status = previous;
  to_status = JobStatus.inactive;
  reason = some "expired (90-day listing window)";
}

-- The body of the loop; JobStatus has no member `expired`, so the status becomes `inactive`.
unfoldable pub expire_job : ℕ → JobPost → JobPost
unfolding expiry_change
expire_job now job = record job {
  status = JobStatus.inactive;
  status_history = keep_last 100 (job.status_history ++ expiry_change now job.status ∷ []);
  expired_at = some now;
  updated_at = now;
}

-- `expire_old_jobs`: the number of expired jobs, and the table after the commit.
unfoldable pub expire_old_jobs : ℕ → Dict ℕ JobPost → ℕ × Dict ℕ JobPost
unfolding is_stale expire_job
expire_old_jobs now [] = (0, [])
expire_old_jobs now ((id, job) ∷ jobs) =
    let (n, rest) = expire_old_jobs now jobs in
    if is_stale now job then (suc n, (id, expire_job now job) ∷ rest) else (n, (id, job) ∷ rest)
