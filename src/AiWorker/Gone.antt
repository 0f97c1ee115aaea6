-- ===== src/AiWorker/Gone.antt =====
-- ai_worker.py: a token that a job has lost does not come back.
use auto_x.Prelude.{
  ℕ, ◌+◌, String, ◌≡◌, refl, sym, ap, ◌∙◌, inl, inr, Bool, ◌&&◌, Option, none, some, List, [], ◌∷◌,
  Bool-cases, All, Instant, seconds,
}
use auto_x.AiWorker.{
  AttemptStatus, unsuccessful, interrupted, done, Job, Task, Db, set, task_of, lock_job_task,
  finish_attempt, save_job,
}
use auto_x.AiWorker.Rows.{finish_attempt-jobs}
use auto_x.AiWorker.Claim.{with_retry, is_retryable, requeued, task_allows, retry_job}
use auto_x.AiWorker.Ends.{
  is_held, has_expired, after_expiry, expire_job, Failure, after_failure, fail_job, after_shutdown,
  requeue_job, renew_job,
}
use auto_x.AiWorker.Success.{Generated, store_profile, store_draft, after_success, succeed_job}
use auto_x.AiWorker.Calls.{
  Call, claims, expires, fails, succeeds, stops, renews, retries, changes_task, step, run,
}
use auto_x.AiWorker.Attempts.{Left}
use auto_x.AiWorker.Sound.{
  Left-expiry, Left-failure, Left-shutdown, Left-success, store_profile_kept,
}
use auto_x.AiWorker.Lost.{has_token, IsOther, Gone, Gone-set, no_token, Gone-if, Gone-claim}

-- The job of an id lost the token.
module _ (token : String) (id : ℕ) where
  Gone-end :
      (db written : Db) (k : ℕ) (job job' : Job) (status : AttemptStatus) (now : Instant)
      (error_type : Option String)
      → Gone token id db
      → written.jobs ≡ db.jobs
      → Left job job'
      → Gone token id (save_job k job' (finish_attempt k job status now error_type written))
  Gone-end db written k job job' status now error_type gone same left =
      Gone-set token id db (save_job k job' (finish_attempt k job status now error_type written)) k
        job' gone (λ e. no_token token id job job' left)
        (ap (λ (jobs : ℕ → Option Job). set k (some job') jobs)
          (finish_attempt-jobs k job status now error_type written ∙ same))

  Gone-expire_job :
      (now : Instant) (k : ℕ) (task : Option Task) (o : Option Job) (db : Db)
      → Gone token id db
      → Gone token id (expire_job now k task o db)
  unfolding expire_job
  Gone-expire_job now k task none db gone = gone
  Gone-expire_job now k task (some job) db gone =
      Gone-if token id (has_expired now job) _ db
        (Gone-end db db k job (after_expiry now task job) interrupted now (some "lease_expired")
          gone refl (Left-expiry now task job))
        gone

  Gone-requeue_job :
      (now : Instant) (own : String) (k : ℕ) (task : Option Task) (o : Option Job) (db : Db)
      → Gone token id db
      → Gone token id (requeue_job now own k task o db)
  unfolding requeue_job
  Gone-requeue_job now own k task none db gone = gone
  Gone-requeue_job now own k task (some job) db gone =
      Gone-if token id (is_held own job) _ db
        (Gone-end db db k job (after_shutdown now task job) interrupted now (some "worker_shutdown")
          gone refl (Left-shutdown now task job))
        gone

  Gone-fail_job :
      (jitter : ℕ → ℕ) (f : Failure) (has_lock : Bool) (own : String) (k : ℕ) (task : Option Task)
      (o : Option Job) (db : Db)
      → Gone token id db
      → Gone token id (fail_job jitter f has_lock own k task o db).1
  unfolding fail_job
  Gone-fail_job jitter f has_lock own k task none db gone = gone
  Gone-fail_job jitter f has_lock own k task (some job) db gone =
      elim (Bool-cases (is_held own job)) [
        | inr e ↦ rw e gone
        | inl e ↦ elim (Bool-cases has_lock) [
          | inr lost ↦ rw (e, lost) gone
          | inl on ↦
              rw (e, on)
                (Gone-end db db k job (after_failure jitter f task job).1 unsuccessful f.now
                  (some f.error_type) gone refl (Left-failure jitter f task job))
        ]
      ]

  Gone-succeed_job :
      (tweets : ℕ → Option Instant) (now : Instant) (g : Generated) (has_lock : Bool) (own : String)
      (k : ℕ) (o : Option Job) (db : Db)
      → Gone token id db
      → Gone token id (succeed_job tweets now g has_lock own k o db).1
  unfolding succeed_job
  Gone-succeed_job tweets now g has_lock own k none db gone = gone
  Gone-succeed_job tweets now g has_lock own k (some job) db gone =
      let written = store_profile tweets g job (store_draft g k job db) in
      elim (Bool-cases (is_held own job)) [
        | inr e ↦ rw e gone
        | inl e ↦ elim (Bool-cases has_lock) [
          | inr lost ↦ rw (e, lost) gone
          | inl on ↦
              rw (e, on)
                (Gone-end db written k job (after_success now g job) done now none gone
                  (store_profile_kept tweets g job (store_draft g k job db)).0
                  (Left-success now g job))
        ]
      ]

  Gone-renew_job :
      (now : Instant) (ttl : ℕ) (own : String) (k : ℕ) (o : Option Job) (db : Db)
      → db.jobs k ≡ o
      → Gone token id db
      → Gone token id (renew_job now ttl own k o db).1
  unfolding renew_job
  Gone-renew_job now ttl own k none db there gone = gone
  Gone-renew_job now ttl own k (some job) db there gone = elim (Bool-cases (is_held own job)) [
    | inr e ↦ rw e gone
    | inl e ↦ rw e (
        Gone-set token id db
          (save_job k (record job { lease_expires_at = some (now + seconds ttl) }) db) k
          (record job { lease_expires_at = some (now + seconds ttl) }) gone
          (λ same. ap (has_token token) (sym there ∙ ap db.jobs same) ∙ gone) refl)
  ]

  Gone-retry_job :
      (now : Instant) (k : ℕ) (o : Option Job) (db : Db)
      → Gone token id db
      → Gone token id (retry_job now k o db).1
  unfolding retry_job
  Gone-retry_job now k none db gone = gone
  Gone-retry_job now k (some job) db gone =
      elim (Bool-cases (
        task_allows job.listen_task_id (task_of job.listen_task_id db)
        && is_retryable job.status)) [
          | inr e ↦ rw e gone
          | inl e ↦ rw e (
              Gone-set token id db (with_retry now k job db) k (requeued now job) gone
                (λ same. refl) refl)
        ]

  Gone-step :
      (call : Call) (db : Db) → IsOther token call → Gone token id db → Gone token id (step call db)
  Gone-step (claims c k) db other gone = Gone-claim token id c k db other gone
  Gone-step (expires now k) db other gone =
      Gone-expire_job now k (lock_job_task k db) (db.jobs k) db gone
  Gone-step (fails jitter f had_lock has_lock own k) db other gone = elim (Bool-cases had_lock) [
    | inl e ↦ rw e (Gone-fail_job jitter f has_lock own k (lock_job_task k db) (db.jobs k) db gone)
    | inr e ↦ rw e gone
  ]
  Gone-step (succeeds tweets now g had_lock has_lock own k) db other gone =
      elim (Bool-cases had_lock) [
        | inl e ↦ rw e (Gone-succeed_job tweets now g has_lock own k (db.jobs k) db gone)
        | inr e ↦ rw e gone
      ]
  Gone-step (stops now had_lock own k) db other gone =
      Gone-if token id had_lock (requeue_job now own k (lock_job_task k db) (db.jobs k) db) db
        (Gone-requeue_job now own k (lock_job_task k db) (db.jobs k) db gone) gone
  Gone-step (renews now has_lock ttl own k) db other gone = elim (Bool-cases has_lock) [
    | inl e ↦ rw e (Gone-renew_job now ttl own k (db.jobs k) db refl gone)
    | inr e ↦ rw e gone
  ]
  Gone-step (retries now k) db other gone = Gone-retry_job now k (db.jobs k) db gone
  Gone-step (changes_task task_id task) db other gone = gone

  pub Gone-run :
      (calls : List Call) (db : Db)
      → All (IsOther token) calls
      → Gone token id db
      → Gone token id (run calls db)
  unfolding run
  Gone-run [] db others gone = gone
  Gone-run (c ∷ cs) db (other, others) gone =
      Gone-run cs (step c db) others (Gone-step c db other gone)
