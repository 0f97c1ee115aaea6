-- ===== src/AiWorker/Superseded.antt =====
-- ai_worker.py: a worker that comes late to a job whose lease has expired.
use auto_x.Prelude.{
  ℕ, String, ◌≡◌, refl, Bool, true, false, Option, none, some, List, if◌then◌else◌, ==_refl, All,
  Instant,
}
use auto_x.AiWorker.{Job, Task, Db, lock_job_task}
use auto_x.AiWorker.Ends.{
  is_held, has_expired, expire_job, expire_lease, Failure, lock_lost, fail_job, commit_failure,
  requeue_job, requeue_cancelled, renew_job, renew_lease,
}
use auto_x.AiWorker.Success.{Generated, lost, succeed_job, commit_success}
use auto_x.AiWorker.Calls.{Call, run}
use auto_x.AiWorker.Sound.{Left-expiry}
use auto_x.AiWorker.Lost.{has_token, IsOther}
use auto_x.AiWorker.Gone.{Gone-run}

not_held_by :
    (token : String) (job : Job) → has_token token (some job) ≡ false → is_held token job ≡ false
not_held_by token job h = rw h refl

-- What the calls of a worker do under a token that the job does not have.
late_success :
    (tweets : ℕ → Option Instant) (now : Instant) (g : Generated) (has_lock : Bool) (token : String)
    (id : ℕ) (o : Option Job) (db : Db)
    → has_token token o ≡ false
    → (succeed_job tweets now g has_lock token id o db).1 ≡ db
unfolding succeed_job
late_success tweets now g has_lock token id none db h = refl
late_success tweets now g has_lock token id (some job) db h = rw (not_held_by token job h) refl

late_failure :
    (jitter : ℕ → ℕ) (f : Failure) (has_lock : Bool) (token : String) (id : ℕ) (task : Option Task)
    (o : Option Job) (db : Db)
    → has_token token o ≡ false
    → (fail_job jitter f has_lock token id task o db).1 ≡ db
unfolding fail_job
late_failure jitter f has_lock token id task none db h = refl
late_failure jitter f has_lock token id task (some job) db h = rw (not_held_by token job h) refl

late_requeue :
    (now : Instant) (token : String) (id : ℕ) (task : Option Task) (o : Option Job) (db : Db)
    → has_token token o ≡ false
    → requeue_job now token id task o db ≡ db
unfolding requeue_job
late_requeue now token id task none db h = refl
late_requeue now token id task (some job) db h = rw (not_held_by token job h) refl

late_renewal :
    (now : Instant) (ttl : ℕ) (token : String) (id : ℕ) (o : Option Job) (db : Db)
    → has_token token o ≡ false
    → renew_job now ttl token id o db ≡ (false, db)
unfolding renew_job
late_renewal now ttl token id none db h = refl
late_renewal now ttl token id (some job) db h = rw (not_held_by token job h) refl

either_way {ℓ} :
    {A : Type ℓ} (b : Bool) (a : A) (x : A × Db) (db : Db)
    → x.1 ≡ db
    → (if b then x else (a, db)).1 ≡ db
either_way true a x db h = h
either_way false a x db h = refl

same_either_way {ℓ} : {A : Type ℓ} (b : Bool) (x y : A) → x ≡ y → (if b then x else y) ≡ y
same_either_way true x y h = h
same_either_way false x y h = refl

expired_gone :
    (token : String) (now : Instant) (id : ℕ) (job : Job) (task : Option Task) (db : Db)
    → has_expired now job ≡ true
    → has_token token ((expire_job now id task (some job) db).jobs id) ≡ false
unfolding expire_job
expired_gone token now id job task db over =
    rw (over, expire_job, ==_refl id, (Left-expiry now task job).no_token) refl

-- The lease of a job's worker is over when it is expired. Other calls follow, in which no claim has
-- the worker's token again. Whatever the worker still does, with the Redis lock or without: it
-- stores no draft and no profile, reports no failure, requeues nothing, and learns that its lease
-- is lost; each of these calls leaves all tables as they are.
pub late_worker_ignored :
    (token : String) (id : ℕ) (job : Job) (over now : Instant) (calls : List Call) (db : Db)
    (tweets : ℕ → Option Instant) (g : Generated) (jitter : ℕ → ℕ) (f : Failure) (ttl : ℕ)
    (had_lock has_lock : Bool)
    → db.jobs id ≡ some job
    → has_expired over job ≡ true
    → All (IsOther token) calls
    → ((commit_success tweets now g had_lock has_lock token id
          (run calls (expire_lease over id db))).1
        ≡ run calls (expire_lease over id db))
      × ((commit_failure jitter f had_lock has_lock token id
            (run calls (expire_lease over id db))).1
          ≡ run calls (expire_lease over id db))
      × (requeue_cancelled now had_lock token id (run calls (expire_lease over id db))
          ≡ run calls (expire_lease over id db))
      × (renew_lease now has_lock ttl token id (run calls (expire_lease over id db))
          ≡ (false, run calls (expire_lease over id db)))
late_worker_ignored token id job over now calls db tweets g jitter f ttl had_lock has_lock there
      expired others =
    let after = run calls (expire_lease over id db) in
    let gone : has_token token (after.jobs id) ≡ false =
      Gone-run token id calls (expire_lease over id db) others
        (rw there (expired_gone token over id job (lock_job_task id db) db expired)) in
    let task = lock_job_task id after in
    (
      either_way had_lock lost (succeed_job tweets now g has_lock token id (after.jobs id) after)
          after (late_success tweets now g has_lock token id (after.jobs id) after gone),
      either_way had_lock lock_lost (fail_job jitter f has_lock token id task (after.jobs id) after)
          after (late_failure jitter f has_lock token id task (after.jobs id) after gone),
      same_either_way had_lock (requeue_job now token id task (after.jobs id) after) after
          (late_requeue now token id task (after.jobs id) after gone),
      same_either_way has_lock (renew_job now ttl token id (after.jobs id) after) (false, after)
          (late_renewal now ttl token id (after.jobs id) after gone),
    )
