-- ===== src/AiWorker/Backoff.antt =====
-- ai_worker.py, `_commit_failure`: when a job that failed is tried again.
use auto_x.Prelude.{
  ℕ, ◌+◌, ◌≤◌, ◌<◌, String, ◌≡◌, refl, inl, inr, Bool, true, not, ◌&&◌, Option, none, some, arith,
  ltb, ltb→lt, ==_refl, Bool-cases, &&-left, &&-right, Instant, seconds,
}
use auto_x.AiWorker.{retry_wait, Job, Task, is_archived, Db, lock_job_task}
use auto_x.AiWorker.Ends.{
  is_held, Failure, lock_lost, superseded_outcome, retried, cancelled_outcome, failed_outcome,
  retry_base, retry_delay, should_retry, after_failure, fail_job, commit_failure,
}
use auto_x.Poller.Service.Deadlines.{IsJitter}

-- Between five seconds and 36 minutes, up to rounding.
delay_bounds :
    (jitter : ℕ → ℕ) (attempts : ℕ)
    → IsJitter jitter
    → (5 ≤ retry_delay jitter attempts) × (retry_delay jitter attempts ≤ 2160)
delay_bounds jitter attempts j =
    let b = retry_base attempts in
    let high = j.high b in
    let most : b ≤ 1800 = ground arith in (ground arith, ground (arith, high, most))

-- A row that waits for another attempt, of those it may have.
abbrev pub WaitsAgain : Instant → Option Job → Type 0
WaitsAgain now o =
    (job : Job) × (o ≡ some job)
    × (job.status ≡ retry_wait)
    × (job.attempts < job.max_attempts)
    × (now + seconds 5 ≤ job.next_attempt_at)
    × (job.next_attempt_at ≤ now + seconds 2160)

retried_job :
    (jitter : ℕ → ℕ) (f : Failure) (task : Option Task) (job : Job)
    → IsJitter jitter
    → (after_failure jitter f task job).0 ≡ retried
    → WaitsAgain f.now (some (after_failure jitter f task job).1)
retried_job jitter f task job j h = elim (Bool-cases (should_retry f task job)) [
  | inl e ↦
      let (low, high) = delay_bounds jitter job.attempts j in
      let left : ltb job.attempts job.max_attempts ≡ true =
        &&-left (ltb job.attempts job.max_attempts) (not (is_archived task))
          (&&-right f.retryable (ltb job.attempts job.max_attempts && not (is_archived task)) e) in
      rw e (
        _,
        refl,
        refl,
        ltb→lt job.attempts job.max_attempts left,
        omega (arith, low),
        omega (arith, high),
      )
  | inr e ↦ elim (Bool-cases (is_archived task)) [
    | inl old ↦ absurd (cancelled_not (rw (e, old) at h))
    | inr on ↦ absurd (failed_not (rw (e, on) at h))
  ]
]
  where
    cancelled_not : cancelled_outcome ≡ retried → ⊥
    cancelled_not c = cc

    failed_not : failed_outcome ≡ retried → ⊥
    failed_not c = cc

retried_row :
    (jitter : ℕ → ℕ) (f : Failure) (has_lock : Bool) (token : String) (id : ℕ) (task : Option Task)
    (o : Option Job) (db : Db)
    → IsJitter jitter
    → (fail_job jitter f has_lock token id task o db).0 ≡ retried
    → WaitsAgain f.now ((fail_job jitter f has_lock token id task o db).1.jobs id)
unfolding fail_job
retried_row jitter f has_lock token id task none db j h = absurd (superseded_not h)
  where
    superseded_not : superseded_outcome ≡ retried → ⊥
    superseded_not c = cc
retried_row jitter f has_lock token id task (some job) db j h =
    elim (Bool-cases (is_held token job)) [
      | inr e ↦ absurd (superseded_not (rw e at h))
      | inl e ↦ elim (Bool-cases has_lock) [
        | inr gone ↦ absurd (lost_not (rw (e, gone) at h))
        | inl on ↦ rw (e, on, ==_refl id) (retried_job jitter f task job j (rw (e, on) at h))
      ]
    ]
  where
    superseded_not : superseded_outcome ≡ retried → ⊥
    superseded_not c = cc

    lost_not : lock_lost ≡ retried → ⊥
    lost_not c = cc

-- A failure that is reported as one to retry: the job waits, it has had fewer attempts than its
-- maximum, and the next one is at least five seconds and at most 36 minutes away, however many
-- attempts there were, where the random factor lies between 0.8 and 1.2 up to rounding.
pub retry_backoff :
    (jitter : ℕ → ℕ) (f : Failure) (had_lock has_lock : Bool) (token : String) (id : ℕ) (db : Db)
    → IsJitter jitter
    → (commit_failure jitter f had_lock has_lock token id db).0 ≡ retried
    → WaitsAgain f.now ((commit_failure jitter f had_lock has_lock token id db).1.jobs id)
retry_backoff jitter f had_lock has_lock token id db j h = elim (Bool-cases had_lock) [
  | inl e ↦
      rw e
        (retried_row jitter f has_lock token id (lock_job_task id db) (db.jobs id) db j (rw e at h))
  | inr e ↦ absurd (lost_not (rw e at h))
]
  where
    lost_not : lock_lost ≡ retried → ⊥
    lost_not c = cc
