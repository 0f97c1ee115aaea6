-- ===== src/AiWorker/Started.antt =====
-- ai_worker.py: a claim and a retry keep the jobs and their attempts together.
use auto_x.Prelude.{
  ℕ, suc, ◌+◌, ◌≡◌, refl, sym, ◌∙◌, subst, inl, inr, Bool, true, false, not, ◌&&◌, ◌||◌, Option,
  none, some, List, ◌∷◌, arith, leb, if◌then◌else◌, Bool-cases, &&-left, &&-right, Instant,
}
use auto_x.AiWorker.{
  JobStatus, queued, running, retry_wait, succeeded, failed, cancelled, is_running, is_waiting, Job,
  is_open, Attempt, Task, Db, task_of, save_job,
}
use auto_x.AiWorker.Claim.{
  Claim, exceeded, started, new_attempt, with_attempt, with_retry, start_attempt, is_due, claim_due,
  may_run, claim_selected, claim_for_task, claim_job, claim, is_retryable, requeued, task_allows,
  retry_job,
}
use auto_x.AiWorker.Rows.{IsNumbered, IsNumbered-IsEnded}
use auto_x.AiWorker.Attempts.{Ok, Ok-Sound, Ok-set, Ok-job}

waiting_idle : (status : JobStatus) → is_waiting status ≡ true → is_running status ≡ false
waiting_idle queued h = refl
waiting_idle running h = absurd cc
waiting_idle retry_wait h = refl
waiting_idle succeeded h = refl
waiting_idle failed h = refl
waiting_idle cancelled h = refl

retryable_idle : (status : JobStatus) → is_retryable status ≡ true → is_running status ≡ false
retryable_idle queued h = refl
retryable_idle running h = absurd cc
retryable_idle retry_wait h = refl
retryable_idle succeeded h = refl
retryable_idle failed h = refl
retryable_idle cancelled h = refl

IsNumbered-started :
    (n : ℕ) (a : Attempt) (attempts : List Attempt)
    → a.lifetime_number ≡ n + 1
    → is_open a.status ≡ true
    → IsNumbered n false attempts
    → IsNumbered (n + 1) true (a ∷ attempts)
IsNumbered-started n a attempts number on h =
    let next : n + 1 ≡ suc n = omega arith in
    subst (λ m. IsNumbered m true (a ∷ attempts)) (sym next)
      (number ∙ next, on, IsNumbered-IsEnded n attempts h)

Ok-start_attempt :
    (c : Claim) (id : ℕ) (job : Job) (db : Db)
    → is_waiting job.status ≡ true
    → db.jobs id ≡ some job
    → Ok db
    → Ok (start_attempt c id job db).1
unfolding start_attempt
Ok-start_attempt c id job db due there ok =
    let s = Ok-Sound db id job ok there in
    let idle = waiting_idle job.status due in
    elim (Bool-cases (leb job.max_attempts job.attempts)) [
      | inl e ↦ rw e (
          Ok-job db (save_job id (exceeded c.now job) db) id (exceeded c.now job) ok
            (record {
              numbered =
                  subst (λ b. IsNumbered job.lifetime_attempts b (db.attempts id)) idle s.numbered;
              token = refl;
              lease = refl;
              bound = s.bound;
            })
            (λ k. refl) (λ k. refl))
      | inr e ↦ rw e (elim (Bool-cases (job.has_skills && not c.material_found)) [
        | inl gone ↦ rw gone ok
        | inr here ↦ rw here (
            Ok-set db (with_attempt c id job db) id (started c job)
              (new_attempt c (started c job) (db.attempts id) ∷ db.attempts id) ok
              (record {
                numbered =
                    IsNumbered-started job.lifetime_attempts
                      (new_attempt c (started c job) (db.attempts id)) (db.attempts id) refl refl
                      (subst (λ b. IsNumbered job.lifetime_attempts b (db.attempts id)) idle
                        s.numbered);
                token = refl;
                lease = refl;
                bound = ground arith;
              })
              (λ k. refl) (λ k. refl))
      ])
    ]

Ok-claim_due :
    (c : Claim) (id : ℕ) (job : Job) (db : Db)
    → db.jobs id ≡ some job
    → Ok db
    → Ok (claim_due c id job db).1
Ok-claim_due c id job db there ok = elim (Bool-cases (is_due c.now job)) [
  | inl e ↦ rw e (Ok-start_attempt c id job db (&&-left (is_waiting job.status) _ e) there ok)
  | inr e ↦ rw e ok
]

Ok-claim_for_task :
    (c : Claim) (id : ℕ) (job : Job) (o : Option ℕ) (t : Option Task) (db : Db)
    → db.jobs id ≡ some job
    → Ok db
    → Ok (claim_for_task c id job o t db).1
Ok-claim_for_task c id job none t db there ok = Ok-claim_due c id job db there ok
Ok-claim_for_task c id job (some task_id) none db there ok = ok
Ok-claim_for_task c id job (some task_id) (some task) db there ok =
    elim (Bool-cases (may_run task)) [ inl e ↦ rw e (selected c.skills_valid) | inr e ↦ rw e ok ]
  where
    selected : (valid : Option Bool) → Ok (claim_selected c id job task_id task valid db).1
    selected none = ok
    selected (some true) = Ok-claim_due c id job db there ok
    selected (some false) = ok

Ok-claim_job :
    (c : Claim) (id : ℕ) (o : Option Job) (db : Db)
    → db.jobs id ≡ o
    → Ok db
    → Ok (claim_job c id o db).1
unfolding claim_job
Ok-claim_job c id none db there ok = ok
Ok-claim_job c id (some job) db there ok =
    elim (Bool-cases ((not job.manual && not c.auto_generate) || not c.has_data_source)) [
      | inl e ↦ rw e ok
      | inr e ↦ rw e (
          Ok-claim_for_task c id job job.listen_task_id (task_of job.listen_task_id db) db there ok)
    ]

pub Ok-claim : (c : Claim) (id : ℕ) (db : Db) → Ok db → Ok (claim c id db).1
unfolding claim
Ok-claim c id db ok =
    choose c.is_on (claim_job c id (db.jobs id) db) (Ok-claim_job c id (db.jobs id) db refl ok)
  where
    choose : (b : Bool) (x : Option Job × Db) → Ok x.1 → Ok (if b then x else (none, db)).1
    choose true x h = h
    choose false x h = ok

pub Ok-retry_job :
    (now : Instant) (id : ℕ) (o : Option Job) (db : Db)
    → db.jobs id ≡ o
    → Ok db
    → Ok (retry_job now id o db).1
unfolding retry_job
Ok-retry_job now id none db there ok = ok
Ok-retry_job now id (some job) db there ok =
    let s = Ok-Sound db id job ok there in
    elim (Bool-cases
      (task_allows job.listen_task_id (task_of job.listen_task_id db) && is_retryable job.status)) [
        | inr e ↦ rw e ok
        | inl e ↦
            let idle =
              retryable_idle job.status
                (&&-right (task_allows job.listen_task_id (task_of job.listen_task_id db)) _ e) in
            rw e (
              Ok-job db (with_retry now id job db) id (requeued now job) ok
                (record {
                  numbered =
                      subst (λ b. IsNumbered job.lifetime_attempts b (db.attempts id)) idle
                        s.numbered;
                  token = refl;
                  lease = s.lease ∙ idle;
                  bound = omega arith;
                })
                (λ k. refl) (λ k. refl))
      ]
