-- ===== src/AiWorker/Sound.antt =====
-- ai_worker.py: every call keeps the jobs and their attempts together.
use auto_x.Prelude.{
  ℕ, ◌+◌, String, ◌≡◌, refl, sym, inl, inr, Bool, true, false, Option, none, some, leb, ◌==◌,
  if◌then◌else◌, Bool-cases, opt_str_eq, &&-left, &&-right, Instant, seconds,
}
use auto_x.AiWorker.{
  is_running, Job, unsuccessful, interrupted, done, Task, is_archived, Db, save_job,
}
use auto_x.AiWorker.Ends.{
  is_held, has_expired, after_expiry, expire_job, Failure, should_retry, after_failure, fail_job,
  after_shutdown, requeue_job, renew_job,
}
use auto_x.AiWorker.Success.{Generated, store_profile, store_draft, after_success, succeed_job}
use auto_x.AiWorker.Attempts.{Ok, Ok-Sound, Ok-job, Left, Left-if, Ok-end}

Ok-if : (b : Bool) (x y : Db) → (b ≡ true → Ok x) → Ok y → Ok (if b then x else y)
Ok-if true x y h k = h refl
Ok-if false x y h k = k

held_running :
    (token : String) (job : Job) → is_held token job ≡ true → is_running job.status ≡ true
held_running token job h = &&-right (opt_str_eq job.claim_token (some token)) _ h

expired_running :
    (now : Instant) (job : Job) → has_expired now job ≡ true → is_running job.status ≡ true
expired_running now job h = &&-left (is_running job.status) _ h

Left-fields :
    {job job' : Job}
    → job'.lifetime_attempts ≡ job.lifetime_attempts
    → job'.attempts ≡ job.attempts
    → job'.max_attempts ≡ job.max_attempts
    → is_running job'.status ≡ false
    → job'.claim_token ≡ none
    → job'.lease_expires_at ≡ none
    → Left job job'
Left-fields e f g h k l = record {
  lifetime_kept = e;
  attempts_kept = f;
  most_kept = g;
  over = h;
  no_token = k;
  no_lease = l;
}

pub Left-expiry :
    (now : Instant) (task : Option Task) (job : Job) → Left job (after_expiry now task job)
Left-expiry now task job =
    Left-if job (is_archived task) _ _ (Left-fields refl refl refl refl refl refl) (
      Left-if job (leb job.max_attempts job.attempts) _ _
        (Left-fields refl refl refl refl refl refl) (Left-fields refl refl refl refl refl refl))

pub Left-shutdown :
    (now : Instant) (task : Option Task) (job : Job) → Left job (after_shutdown now task job)
Left-shutdown now task job =
    Left-if job (is_archived task) _ _ (Left-fields refl refl refl refl refl refl)
      (Left-fields refl refl refl refl refl refl)

pub Left-failure :
    (jitter : ℕ → ℕ) (f : Failure) (task : Option Task) (job : Job)
    → Left job (after_failure jitter f task job).1
Left-failure jitter f task job = elim (Bool-cases (should_retry f task job)) [
  | inl e ↦ rw e (Left-fields refl refl refl refl refl refl)
  | inr e ↦ rw e (elim (Bool-cases (is_archived task)) [
    | inl old ↦ rw old (Left-fields refl refl refl refl refl refl)
    | inr on ↦ rw on (Left-fields refl refl refl refl refl refl)
  ])
]

pub Ok-expire_job :
    (now : Instant) (id : ℕ) (task : Option Task) (o : Option Job) (db : Db)
    → db.jobs id ≡ o
    → Ok db
    → Ok (expire_job now id task o db)
unfolding expire_job
Ok-expire_job now id task none db there ok = ok
Ok-expire_job now id task (some job) db there ok =
    Ok-if (has_expired now job) _ db
      (λ e.
        Ok-end db db id job (after_expiry now task job) interrupted now (some "lease_expired") ok
          refl refl there (expired_running now job e) refl (Left-expiry now task job))
      ok

pub Ok-requeue_job :
    (now : Instant) (token : String) (id : ℕ) (task : Option Task) (o : Option Job) (db : Db)
    → db.jobs id ≡ o
    → Ok db
    → Ok (requeue_job now token id task o db)
unfolding requeue_job
Ok-requeue_job now token id task none db there ok = ok
Ok-requeue_job now token id task (some job) db there ok =
    Ok-if (is_held token job) _ db
      (λ e.
        Ok-end db db id job (after_shutdown now task job) interrupted now (some "worker_shutdown")
          ok refl refl there (held_running token job e) refl (Left-shutdown now task job))
      ok

pub Ok-fail_job :
    (jitter : ℕ → ℕ) (f : Failure) (has_lock : Bool) (token : String) (id : ℕ) (task : Option Task)
    (o : Option Job) (db : Db)
    → db.jobs id ≡ o
    → Ok db
    → Ok (fail_job jitter f has_lock token id task o db).1
unfolding fail_job
Ok-fail_job jitter f has_lock token id task none db there ok = ok
Ok-fail_job jitter f has_lock token id task (some job) db there ok =
    elim (Bool-cases (is_held token job)) [
      | inr e ↦ rw e ok
      | inl e ↦ elim (Bool-cases has_lock) [
        | inr gone ↦ rw (e, gone) ok
        | inl there_still ↦
            rw (e, there_still)
              (Ok-end db db id job (after_failure jitter f task job).1 unsuccessful f.now
                (some f.error_type) ok refl refl there (held_running token job e) refl
                (Left-failure jitter f task job))
      ]
    ]

pub store_profile_kept :
    (tweets : ℕ → Option Instant) (g : Generated) (job : Job) (db : Db)
    → ((store_profile tweets g job db).jobs ≡ db.jobs)
      × ((store_profile tweets g job db).attempts ≡ db.attempts)
unfolding store_profile
store_profile_kept tweets g job db = elim (Bool-cases (job.monitored_user_id == 0)) [
  | inl e ↦ rw (e, store_profile) (refl, refl)
  | inr e ↦ rw (e, store_profile) (refl, refl)
]

pub Left-success : (now : Instant) (g : Generated) (job : Job) → Left job (after_success now g job)
Left-success now g job = Left-fields refl refl refl refl refl refl

pub Ok-succeed_job :
    (tweets : ℕ → Option Instant) (now : Instant) (g : Generated) (has_lock : Bool) (token : String)
    (id : ℕ) (o : Option Job) (db : Db)
    → db.jobs id ≡ o
    → Ok db
    → Ok (succeed_job tweets now g has_lock token id o db).1
unfolding succeed_job
Ok-succeed_job tweets now g has_lock token id none db there ok = ok
Ok-succeed_job tweets now g has_lock token id (some job) db there ok =
    let kept = store_profile_kept tweets g job (store_draft g id job db) in
    elim (Bool-cases (is_held token job)) [
      | inr e ↦ rw e ok
      | inl e ↦ elim (Bool-cases has_lock) [
        | inr gone ↦ rw (e, gone) ok
        | inl there_still ↦
            rw (e, there_still)
              (Ok-end db (store_profile tweets g job (store_draft g id job db)) id job
                (after_success now g job) done now none ok kept.0 kept.1 there
                (held_running token job e) refl (Left-fields refl refl refl refl refl refl))
      ]
    ]

pub Ok-renew_job :
    (now : Instant) (ttl : ℕ) (token : String) (id : ℕ) (o : Option Job) (db : Db)
    → db.jobs id ≡ o
    → Ok db
    → Ok (renew_job now ttl token id o db).1
unfolding renew_job
Ok-renew_job now ttl token id none db there ok = ok
Ok-renew_job now ttl token id (some job) db there ok =
    let s = Ok-Sound db id job ok there in
    elim (Bool-cases (is_held token job)) [
      | inr e ↦ rw e ok
      | inl e ↦ rw e (
          Ok-job db (save_job id (record job { lease_expires_at = some (now + seconds ttl) }) db) id
            (record job { lease_expires_at = some (now + seconds ttl) }) ok
            (record {
              numbered = s.numbered;
              token = s.token;
              lease = sym (held_running token job e);
              bound = s.bound;
            })
            (λ k. refl) (λ k. refl))
    ]
