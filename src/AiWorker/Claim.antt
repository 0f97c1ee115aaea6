-- ===== src/AiWorker/Claim.antt =====
-- ai_worker.py, `_claim`, and api/routes/ai.py, `retry_ai_job`: how an attempt comes about.
use auto_x.Prelude.{
  ℕ, ◌+◌, max, String, Bool, true, false, not, ◌&&◌, ◌||◌, Option, none, some, List, ◌∷◌, leb, ◌==◌,
  if◌then◌else◌, is_none, length, where_true, Instant, seconds,
}
use auto_x.AiWorker.{
  JobStatus, queued, running, retry_wait, failed, cancelled, is_waiting, Job, Attempt, in_progress,
  Task, is_enabled, is_archived, Db, set, task_of, add_event, unclaimed, save_job,
}

-- What a claim reads elsewhere: the settings, whether a data source is set up, whether the skills of
-- the task are valid (`none` when the service fails), whether the material of the job is there.
pub record Claim : Type 0 where
  pub now : Instant
  pub claim_token : String
  pub worker_id : String
  pub lock_ttl_seconds : ℕ
  pub is_on : Bool
  pub auto_generate : Bool
  pub has_data_source : Bool
  pub skills_valid : Option Bool
  pub material_found : Bool

abbrev pub exceeded : Instant → Job → Job
exceeded now job = record (unclaimed job) {
  status = failed;
  last_error = some "Generation exceeded the maximum attempt count";
  completed_at = some now;
}

abbrev pub started : Claim → Job → Job
started c job = record job {
  status = running;
  attempts = job.attempts + 1;
  lifetime_attempts = job.lifetime_attempts + 1;
  claim_token = some c.claim_token;
  claimed_by = some c.worker_id;
  started_at = some c.now;
  completed_at = none;
  last_error = none;
  lease_expires_at = some (c.now + seconds c.lock_ttl_seconds);
}

abbrev pub is_first : Attempt → Bool
is_first a = a.attempt_number == 1

abbrev pub new_attempt : Claim → Job → List Attempt → Attempt
new_attempt c job attempts = record {
  lifetime_number = job.lifetime_attempts;
  round_number =
      max 1 (length (where_true is_first attempts) + (if job.attempts == 1 then 1 else 0));
  attempt_number = job.attempts;
  started_at = c.now;
  status = in_progress;
  ended_at = none;
  error_type = none;
}

abbrev pub with_attempt : Claim → ℕ → Job → Db → Db
with_attempt c job_id job db = record db {
  jobs = set job_id (some (started c job)) db.jobs;
  attempts =
      set job_id (new_attempt c (started c job) (db.attempts job_id) ∷ db.attempts job_id)
        db.attempts;
  events = add_event job.listen_task_id job_id "execution_started" db.events;
}

-- From the attempt count on. Without the material the call raises, and the job stays as it was.
unfoldable pub start_attempt : Claim → ℕ → Job → Db → Option Job × Db
start_attempt c job_id job db =
    if leb job.max_attempts job.attempts
    then (none, save_job job_id (exceeded c.now job) db)
    else if job.has_skills && not c.material_found
    then (none, db)
    else (some (started c job), with_attempt c job_id job db)

abbrev pub is_due : Instant → Job → Bool
is_due now job = is_waiting job.status && leb job.next_attempt_at now

abbrev pub claim_due : Claim → ℕ → Job → Db → Option Job × Db
claim_due c job_id job db = if is_due c.now job then start_attempt c job_id job db else (none, db)

abbrev pub held : ℕ → Task → Db → Db
held task_id task db = record db {
  tasks =
      set task_id (some (record task { queue_hold_reason = some "skill_invalidated" })) db.tasks;
}

abbrev pub may_run : Task → Bool
may_run task = is_enabled task.desired_state && is_none task.queue_hold_reason

-- The answer of the skill service.
abbrev pub claim_selected : Claim → ℕ → Job → ℕ → Task → Option Bool → Db → Option Job × Db
claim_selected c job_id job task_id task none db = (none, db)
claim_selected c job_id job task_id task (some true) db = claim_due c job_id job db
claim_selected c job_id job task_id task (some false) db = (none, held task_id task db)

-- The guards on the task.
abbrev pub claim_for_task : Claim → ℕ → Job → Option ℕ → Option Task → Db → Option Job × Db
claim_for_task c job_id job none task db = claim_due c job_id job db
claim_for_task c job_id job (some task_id) none db = (none, db)
claim_for_task c job_id job (some task_id) (some task) db =
    if may_run task then claim_selected c job_id job task_id task c.skills_valid db else (none, db)

unfoldable pub claim_job : Claim → ℕ → Option Job → Db → Option Job × Db
claim_job c job_id none db = (none, db)
claim_job c job_id (some job) db =
    if (not job.manual && not c.auto_generate) || not c.has_data_source
    then (none, db)
    else claim_for_task c job_id job job.listen_task_id (task_of job.listen_task_id db) db

unfoldable pub claim : Claim → ℕ → Db → Option Job × Db
claim c job_id db = if c.is_on then claim_job c job_id (db.jobs job_id) db else (none, db)

-- `job.status in {"failed", "retry_wait", "cancelled"}`.
abbrev pub is_retryable : JobStatus → Bool
is_retryable failed = true
is_retryable retry_wait = true
is_retryable cancelled = true
is_retryable _ = false

-- `retry_ai_job` by an administrator who may: the lease of such a job is none already.
abbrev pub requeued : Instant → Job → Job
requeued now job = record job {
  status = queued;
  attempts = 0;
  next_attempt_at = now;
  claim_token = none;
  claimed_by = none;
  last_error = none;
  completed_at = none;
}

abbrev pub task_allows : Option ℕ → Option Task → Bool
task_allows none task = true
task_allows (some task_id) none = false
task_allows (some task_id) (some task) = not (is_archived (some task))

abbrev pub with_retry : Instant → ℕ → Job → Db → Db
with_retry now job_id job db = record db {
  jobs = set job_id (some (requeued now job)) db.jobs;
  events = add_event job.listen_task_id job_id "manual_retry" db.events;
}

unfoldable pub retry_job : Instant → ℕ → Option Job → Db → Bool × Db
retry_job now job_id none db = (false, db)
retry_job now job_id (some job) db =
    if task_allows job.listen_task_id (task_of job.listen_task_id db) && is_retryable job.status
    then (true, with_retry now job_id job db)
    else (false, db)

abbrev pub retry_ai_job : Instant → ℕ → Db → Bool × Db
retry_ai_job now job_id db = retry_job now job_id (db.jobs job_id) db
