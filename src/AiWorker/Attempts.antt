-- ===== src/AiWorker/Attempts.antt =====
-- ai_worker.py: what holds of a job and its attempts between two calls.
use auto_x.Prelude.{
  ℕ, ◌≤◌, String, ◌≡◌, refl, ap, ◌∙◌, subst, inl, inr, Bool, true, false, Option, none, some, List,
  ◌==◌, if◌then◌else◌, ==_iff, Bool-cases, is_some, update, Instant,
}
use auto_x.AiWorker.{
  is_running, Job, AttemptStatus, is_open, Attempt, is_current, closed, Db, set, finish_attempt,
  save_job,
}
use auto_x.AiWorker.Rows.{
  IsNumbered, IsNumbered-closed, finish_attempt-jobs, finish_attempt-attempts,
}

-- The attempts are numbered, only that of a running job is open, and only a running job has a token
-- and a lease.
pub record Sound (job : Job) (attempts : List Attempt) : Type 0 where
  pub numbered : IsNumbered job.lifetime_attempts (is_running job.status) attempts
  pub token : is_some job.claim_token ≡ is_running job.status
  pub lease : is_some job.lease_expires_at ≡ is_running job.status
  pub bound : job.attempts ≤ job.max_attempts

abbrev pub IsSound : Option Job → List Attempt → Type 0
IsSound none attempts = Unit
IsSound (some job) attempts = Sound job attempts

abbrev pub Ok : Db → Type 0
Ok db = (id : ℕ) → IsSound (db.jobs id) (db.attempts id)

pub Ok-Sound :
    (db : Db) (id : ℕ) (job : Job) → Ok db → db.jobs id ≡ some job → Sound job (db.attempts id)
Ok-Sound db id job ok there = subst (λ (o : Option Job). IsSound o (db.attempts id)) there (ok id)

-- One job and its attempts are written.
pub Ok-set :
    (db db' : Db) (id : ℕ) (job : Job) (attempts : List Attempt)
    → Ok db
    → Sound job attempts
    → ((k : ℕ) → db'.jobs k ≡ set id (some job) db.jobs k)
    → ((k : ℕ) → db'.attempts k ≡ set id attempts db.attempts k)
    → Ok db'
Ok-set db db' id job attempts ok sound jobs_are attempts_are k = elim (Bool-cases (id == k)) [
  | inl e ↦ rw (jobs_are k, attempts_are k, e) sound
  | inr e ↦ rw (jobs_are k, attempts_are k, e) (ok k)
]

-- The job stays out of the attempts' way.
pub Ok-job :
    (db db' : Db) (id : ℕ) (job : Job)
    → Ok db
    → Sound job (db.attempts id)
    → ((k : ℕ) → db'.jobs k ≡ set id (some job) db.jobs k)
    → ((k : ℕ) → db'.attempts k ≡ db.attempts k)
    → Ok db'
Ok-job db db' id job ok sound jobs_are attempts_are k = elim (Bool-cases (id == k)) [
  | inl e ↦
      rw (jobs_are k, attempts_are k, e)
        (subst (λ n. Sound job (db.attempts n)) ((==_iff id k).0 e) sound)
  | inr e ↦ rw (jobs_are k, attempts_are k, e) (ok k)
]

-- A job that an end leaves behind.
pub record Left (job job' : Job) : Type 0 where
  pub lifetime_kept : job'.lifetime_attempts ≡ job.lifetime_attempts
  pub attempts_kept : job'.attempts ≡ job.attempts
  pub most_kept : job'.max_attempts ≡ job.max_attempts
  pub over : is_running job'.status ≡ false
  pub no_token : job'.claim_token ≡ none
  pub no_lease : job'.lease_expires_at ≡ none

pub Left-if :
    (job : Job) (b : Bool) (x y : Job) → Left job x → Left job y → Left job (if b then x else y)
Left-if job true x y h k = h
Left-if job false x y h k = k

pub Sound-Left :
    (job job' : Job) (status : AttemptStatus) (now : Instant) (error_type : Option String)
    (attempts : List Attempt)
    → Sound job attempts
    → is_running job.status ≡ true
    → is_open status ≡ false
    → Left job job'
    → Sound job' (update (is_current job.lifetime_attempts) (closed status now error_type) attempts)
Sound-Left job job' status now error_type attempts s on ended left = record {
  numbered =
      rw (left.lifetime_kept, left.over)
        (IsNumbered-closed job.lifetime_attempts status now error_type attempts ended
          (subst (λ b. IsNumbered job.lifetime_attempts b attempts) on s.numbered));
  token = rw (left.no_token, left.over) refl;
  lease = rw (left.no_lease, left.over) refl;
  bound = rw (left.attempts_kept, left.most_kept) s.bound;
}

-- An end of the attempt of a running job; the drafts and profiles may differ.
pub Ok-end :
    (db written : Db) (id : ℕ) (job job' : Job) (status : AttemptStatus) (now : Instant)
    (error_type : Option String)
    → Ok db
    → written.jobs ≡ db.jobs
    → written.attempts ≡ db.attempts
    → db.jobs id ≡ some job
    → is_running job.status ≡ true
    → is_open status ≡ false
    → Left job job'
    → Ok (save_job id job' (finish_attempt id job status now error_type written))
Ok-end db written id job job' status now error_type ok jobs_same attempts_same there on ended left =
    Ok-set db (save_job id job' (finish_attempt id job status now error_type written)) id job'
      (update (is_current job.lifetime_attempts) (closed status now error_type) (db.attempts id)) ok
      (Sound-Left job job' status now error_type (db.attempts id) (Ok-Sound db id job ok there) on
        ended left)
      (λ k.
        ap (λ (jobs : ℕ → Option Job). set id (some job') jobs k)
          (finish_attempt-jobs id job status now error_type written ∙ jobs_same))
      (λ k.
        finish_attempt-attempts id job status now error_type written k
        ∙ ap
            (λ (rows : ℕ → List Attempt).
              set id
                (update (is_current job.lifetime_attempts) (closed status now error_type) (rows id))
                rows k)
            attempts_same)
