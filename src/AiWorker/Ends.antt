-- ===== src/AiWorker/Ends.antt =====
-- ai_worker.py: the ends of an attempt that bring no draft, and the renewal of its lease.
use auto_x.Prelude.{
  ℕ, ◌+◌, ◌-◌, ◌*◌, ◌^◌, min, max, String, Bool, true, false, not, ◌&&◌, Option, none, some, ltb,
  leb, if◌then◌else◌, opt_str_eq, Instant, seconds, truncate,
}
use auto_x.AiWorker.{
  retry_wait, failed, cancelled, is_running, Job, unsuccessful, interrupted, Task, is_archived, Db,
  lock_job_task, finish_attempt, unclaimed, save_job,
}

-- The test on the row that a worker holds by its token.
abbrev pub is_held : String → Job → Bool
is_held claim_token job = opt_str_eq job.claim_token (some claim_token) && is_running job.status

abbrev pub lease_over : Instant → Option Instant → Bool
lease_over now none = false
lease_over now (some t) = leb t now

abbrev pub has_expired : Instant → Job → Bool
has_expired now job = is_running job.status && lease_over now job.lease_expires_at

abbrev pub after_expiry : Instant → Option Task → Job → Job
after_expiry now task job =
    let kept = record (unclaimed job) {
      last_error = some "AI worker lease expired before completion";
    } in
    if is_archived task
    then record kept { status = cancelled; completed_at = some now }
    else if leb job.max_attempts job.attempts
    then record kept { status = failed; completed_at = some now }
    else record kept { status = retry_wait; next_attempt_at = now }

unfoldable pub expire_job : Instant → ℕ → Option Task → Option Job → Db → Db
expire_job now job_id task none db = db
expire_job now job_id task (some job) db =
    if has_expired now job
    then save_job job_id (after_expiry now task job)
        (finish_attempt job_id job interrupted now (some "lease_expired") db)
    else db

abbrev pub expire_lease : Instant → ℕ → Db → Db
expire_lease now job_id db = expire_job now job_id (lock_job_task job_id db) (db.jobs job_id) db

pub record Failure : Type 0 where
  pub now : Instant
  pub message : String
  pub retryable : Bool
  pub error_type : String

pub data Outcome : Type 0 where
  lock_lost superseded_outcome retried cancelled_outcome failed_outcome : Outcome

-- `max(5, round(base * random.uniform(0.8, 1.2)))`, in seconds; `jitter` rounds the product.
abbrev pub retry_base : ℕ → ℕ
retry_base attempts = min 1800 (10 * 2 ^ (attempts - 1))

abbrev pub retry_delay : (ℕ → ℕ) → ℕ → ℕ
retry_delay jitter attempts = max 5 (jitter (retry_base attempts))

abbrev pub should_retry : Failure → Option Task → Job → Bool
should_retry f task job =
    f.retryable && (ltb job.attempts job.max_attempts && not (is_archived task))

abbrev pub after_failure : (ℕ → ℕ) → Failure → Option Task → Job → Outcome × Job
after_failure jitter f task job =
    let kept = record (unclaimed job) { last_error = some (truncate 4000 f.message) } in
    if should_retry f task job
    then (
      retried,
      record kept {
        status = retry_wait;
        next_attempt_at = f.now + seconds (retry_delay jitter job.attempts);
      },
    )
    else if is_archived task
    then (cancelled_outcome, record kept { status = cancelled; completed_at = some f.now })
    else (failed_outcome, record kept { status = failed; completed_at = some f.now })

unfoldable pub fail_job :
    (ℕ → ℕ) → Failure → Bool → String → ℕ → Option Task → Option Job → Db → Outcome × Db
fail_job jitter f has_lock claim_token job_id task none db = (superseded_outcome, db)
fail_job jitter f has_lock claim_token job_id task (some job) db =
    let (outcome, next) = after_failure jitter f task job in
    if not (is_held claim_token job)
    then (superseded_outcome, db)
    else if not has_lock
    then (lock_lost, db)
    else (
      outcome,
      save_job job_id next (finish_attempt job_id job unsuccessful f.now (some f.error_type) db),
    )

-- The two Booleans are the checks of the Redis lock, before the transaction and in it.
abbrev pub commit_failure : (ℕ → ℕ) → Failure → Bool → Bool → String → ℕ → Db → Outcome × Db
commit_failure jitter f had_lock has_lock claim_token job_id db =
    if had_lock
    then fail_job jitter f has_lock claim_token job_id (lock_job_task job_id db) (db.jobs job_id) db
    else (lock_lost, db)

abbrev pub after_shutdown : Instant → Option Task → Job → Job
after_shutdown now task job =
    if is_archived task
    then record (unclaimed job) {
      status = cancelled;
      next_attempt_at = now;
      last_error = some "AI worker stopped during generation; task was archived";
      completed_at = some now;
    }
    else record (unclaimed job) {
      status = retry_wait;
      next_attempt_at = now;
      last_error = some "AI worker stopped during generation; job was requeued";
    }

unfoldable pub requeue_job : Instant → String → ℕ → Option Task → Option Job → Db → Db
requeue_job now claim_token job_id task none db = db
requeue_job now claim_token job_id task (some job) db =
    if is_held claim_token job
    then save_job job_id (after_shutdown now task job)
        (finish_attempt job_id job interrupted now (some "worker_shutdown") db)
    else db

abbrev pub requeue_cancelled : Instant → Bool → String → ℕ → Db → Db
requeue_cancelled now had_lock claim_token job_id db =
    if had_lock
    then requeue_job now claim_token job_id (lock_job_task job_id db) (db.jobs job_id) db
    else db

-- One round of `_renew_lease` with Redis; `false` is a lease that is lost.
unfoldable pub renew_job : Instant → ℕ → String → ℕ → Option Job → Db → Bool × Db
renew_job now ttl claim_token job_id none db = (false, db)
renew_job now ttl claim_token job_id (some job) db =
    if is_held claim_token job
    then (true, save_job job_id (record job { lease_expires_at = some (now + seconds ttl) }) db)
    else (false, db)

abbrev pub renew_lease : Instant → Bool → ℕ → String → ℕ → Db → Bool × Db
renew_lease now has_lock ttl claim_token job_id db =
    if has_lock then renew_job now ttl claim_token job_id (db.jobs job_id) db else (false, db)
