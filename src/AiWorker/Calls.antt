-- ===== src/AiWorker/Calls.antt =====
-- ai_worker.py: what workers and administrators do to the jobs, in any order.
use auto_x.Prelude.{ℕ, String, Bool, Option, List, [], ◌∷◌, Instant}
use auto_x.AiWorker.{Task, Db, set}
use auto_x.AiWorker.Claim.{Claim, claim, retry_ai_job}
use auto_x.AiWorker.Ends.{expire_lease, Failure, commit_failure, requeue_cancelled, renew_lease}
use auto_x.AiWorker.Success.{Generated, commit_success}

pub data Call : Type 0 where
  claims : Claim → ℕ → Call
  expires : Instant → ℕ → Call
  -- With the random factor of the delay, and the two checks of the lock.
  fails : (ℕ → ℕ) → Failure → Bool → Bool → String → ℕ → Call
  succeeds : (ℕ → Option Instant) → Instant → Generated → Bool → Bool → String → ℕ → Call
  stops : Instant → Bool → String → ℕ → Call
  renews : Instant → Bool → ℕ → String → ℕ → Call
  -- An administrator retries a job, or changes a task.
  retries : Instant → ℕ → Call
  changes_task : ℕ → Option Task → Call

abbrev pub step : Call → Db → Db
step (claims c job_id) db = (claim c job_id db).1
step (expires now job_id) db = expire_lease now job_id db
step (fails jitter f had_lock has_lock claim_token job_id) db =
    (commit_failure jitter f had_lock has_lock claim_token job_id db).1
step (succeeds tweets now g had_lock has_lock claim_token job_id) db =
    (commit_success tweets now g had_lock has_lock claim_token job_id db).1
step (stops now had_lock claim_token job_id) db =
    requeue_cancelled now had_lock claim_token job_id db
step (renews now has_lock ttl claim_token job_id) db =
    (renew_lease now has_lock ttl claim_token job_id db).1
step (retries now job_id) db = (retry_ai_job now job_id db).1
step (changes_task task_id task) db = record db { tasks = set task_id task db.tasks }

unfoldable pub run : List Call → Db → Db
run [] db = db
run (c ∷ cs) db = run cs (step c db)
