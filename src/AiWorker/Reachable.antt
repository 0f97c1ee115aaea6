-- ===== src/AiWorker/Reachable.antt =====
-- ai_worker.py: the attempts of a job after any calls.
use auto_x.Prelude.{
  ℕ, ◌≤◌, ◌≡◌, refl, inl, inr, Option, none, some, List, [], ◌∷◌, arith, if◌then◌else◌, Bool-cases,
  is_some, length, where_true,
}
use auto_x.AiWorker.{queued, is_running, Job, is_open, Attempt, Db, lock_job_task}
use auto_x.AiWorker.Calls.{
  Call, claims, expires, fails, succeeds, stops, renews, retries, changes_task, step, run,
}
use auto_x.AiWorker.Rows.{numbered_open}
use auto_x.AiWorker.Attempts.{IsSound, Ok, Ok-Sound}
use auto_x.AiWorker.Sound.{Ok-expire_job, Ok-requeue_job, Ok-fail_job, Ok-succeed_job, Ok-renew_job}
use auto_x.AiWorker.Started.{Ok-claim, Ok-retry_job}

Ok-step : (call : Call) (db : Db) → Ok db → Ok (step call db)
Ok-step (claims c id) db ok = Ok-claim c id db ok
Ok-step (expires now id) db ok = Ok-expire_job now id (lock_job_task id db) (db.jobs id) db refl ok
Ok-step (fails jitter f had_lock has_lock token id) db ok = elim (Bool-cases had_lock) [
  | inl e ↦
      rw e (Ok-fail_job jitter f has_lock token id (lock_job_task id db) (db.jobs id) db refl ok)
  | inr e ↦ rw e ok
]
Ok-step (succeeds tweets now g had_lock has_lock token id) db ok = elim (Bool-cases had_lock) [
  | inl e ↦ rw e (Ok-succeed_job tweets now g has_lock token id (db.jobs id) db refl ok)
  | inr e ↦ rw e ok
]
Ok-step (stops now had_lock token id) db ok = elim (Bool-cases had_lock) [
  | inl e ↦ rw e (Ok-requeue_job now token id (lock_job_task id db) (db.jobs id) db refl ok)
  | inr e ↦ rw e ok
]
Ok-step (renews now has_lock ttl token id) db ok = elim (Bool-cases has_lock) [
  | inl e ↦ rw e (Ok-renew_job now ttl token id (db.jobs id) db refl ok)
  | inr e ↦ rw e ok
]
Ok-step (retries now id) db ok = Ok-retry_job now id (db.jobs id) db refl ok
Ok-step (changes_task task_id task) db ok = ok

Ok-run : (calls : List Call) (db : Db) → Ok db → Ok (run calls db)
unfolding run
Ok-run [] db ok = ok
Ok-run (c ∷ cs) db ok = Ok-run cs (step c db) (Ok-step c db ok)

-- A job as it is enqueued.
abbrev pub IsEnqueued : Option Job → List Attempt → Type 0
IsEnqueued none attempts = attempts ≡ []
IsEnqueued (some job) attempts =
    (attempts ≡ [])
    × (job.status ≡ queued)
    × (job.attempts ≡ 0)
    × (job.lifetime_attempts ≡ 0)
    × (job.claim_token ≡ none)
    × (job.lease_expires_at ≡ none)

Sound-enqueued :
    (o : Option Job) (attempts : List Attempt) → IsEnqueued o attempts → IsSound o attempts
Sound-enqueued none attempts h = tt
Sound-enqueued (some job) attempts (no_rows, status, tries, lifetime, token, lease) = record {
  numbered = rw (no_rows, status, lifetime) refl;
  token = rw (token, status) refl;
  lease = rw (lease, status) refl;
  bound = omega (arith, tries);
}

-- From jobs as they are enqueued, after any calls of workers and administrators: a job has as many
-- attempts as it counts over its life, of which one is open if it is running and none otherwise; it
-- has a token and a lease exactly if it is running; and its attempts since the last retry by an
-- administrator are at most its maximum.
pub attempts_match :
    (calls : List Call) (db : Db) (id : ℕ) (job : Job)
    → ((k : ℕ) → IsEnqueued (db.jobs k) (db.attempts k))
    → (run calls db).jobs id ≡ some job
    → (length ((run calls db).attempts id) ≡ job.lifetime_attempts)
      × (length (where_true (λ (a : Attempt). is_open a.status) ((run calls db).attempts id))
          ≡ (if is_running job.status then 1 else 0))
      × (is_some job.claim_token ≡ is_running job.status)
      × (is_some job.lease_expires_at ≡ is_running job.status)
      × (job.attempts ≤ job.max_attempts)
attempts_match calls db id job start there =
    let ok = Ok-run calls db (λ k. Sound-enqueued (db.jobs k) (db.attempts k) (start k)) in
    let s = Ok-Sound (run calls db) id job ok there in
    let (count, open_ones) =
      numbered_open job.lifetime_attempts (is_running job.status) ((run calls db).attempts id)
        s.numbered in
    (count, open_ones, s.token, s.lease, s.bound)
