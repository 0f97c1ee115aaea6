-- ===== src/AiWorker/Lost.antt =====
-- ai_worker.py: no claim brings a token back that a job has lost.
use auto_x.Prelude.{
  ℕ, String, ◌≡◌, refl, inl, inr, Bool, true, false, not, ◌&&◌, ◌||◌, Option, none, some, str_eq,
  leb, ◌==◌, if◌then◌else◌, ==_iff, Bool-cases, opt_str_eq,
}
use auto_x.AiWorker.{Job, Task, Db, set, task_of, save_job}
use auto_x.AiWorker.Claim.{
  Claim, exceeded, started, with_attempt, start_attempt, is_due, claim_due, may_run, claim_selected,
  claim_for_task, claim_job, claim,
}
use auto_x.AiWorker.Calls.{
  Call, claims, expires, fails, succeeds, stops, renews, retries, changes_task,
}
use auto_x.AiWorker.Attempts.{Left}

abbrev pub has_token : String → Option Job → Bool
has_token token none = false
has_token token (some job) = opt_str_eq job.claim_token (some token)

-- A claim under a token of its own; `uuid4` makes a new one for each claim.
abbrev pub IsOther : String → Call → Type 0
IsOther token (claims c id) = str_eq c.claim_token token ≡ false
IsOther token (expires now id) = Unit
IsOther token (fails jitter f had_lock has_lock own id) = Unit
IsOther token (succeeds tweets now g had_lock has_lock own id) = Unit
IsOther token (stops now had_lock own id) = Unit
IsOther token (renews now has_lock ttl own id) = Unit
IsOther token (retries now id) = Unit
IsOther token (changes_task task_id task) = Unit

-- The job of an id lost the token, and the calls do not bring it back.
module _ (token : String) (id : ℕ) where
  abbrev pub Gone : Db → Type 0
  Gone db = has_token token (db.jobs id) ≡ false

  pub Gone-set :
      (db db' : Db) (k : ℕ) (job : Job)
      → Gone db
      → (k ≡ id → has_token token (some job) ≡ false)
      → db'.jobs ≡ set k (some job) db.jobs
      → Gone db'
  Gone-set db db' k job gone other same = elim (Bool-cases (k == id)) [
    | inl e ↦ rw (same, e) (other ((==_iff k id).0 e))
    | inr e ↦ rw (same, e) gone
  ]

  pub no_token : (job job' : Job) → Left job job' → has_token token (some job') ≡ false
  no_token job job' left = rw (left.no_token) refl

  pub Gone-if : (b : Bool) (x y : Db) → Gone x → Gone y → Gone (if b then x else y)
  Gone-if true x y h k = h
  Gone-if false x y h k = k

  Gone-start_attempt :
      (c : Claim) (k : ℕ) (job : Job) (db : Db)
      → str_eq c.claim_token token ≡ false
      → Gone db
      → Gone (start_attempt c k job db).1
  unfolding start_attempt
  Gone-start_attempt c k job db other gone = elim (Bool-cases (leb job.max_attempts job.attempts)) [
    | inl e ↦ rw e (
        Gone-set db (save_job k (exceeded c.now job) db) k (exceeded c.now job) gone (λ same. refl)
          refl)
    | inr e ↦ rw e (elim (Bool-cases (job.has_skills && not c.material_found)) [
      | inl lost ↦ rw lost gone
      | inr here ↦
          rw here
            (Gone-set db (with_attempt c k job db) k (started c job) gone (λ same. other) refl)
    ])
  ]

  Gone-claim_due :
      (c : Claim) (k : ℕ) (job : Job) (db : Db)
      → str_eq c.claim_token token ≡ false
      → Gone db
      → Gone (claim_due c k job db).1
  Gone-claim_due c k job db other gone = elim (Bool-cases (is_due c.now job)) [
    | inl e ↦ rw e (Gone-start_attempt c k job db other gone)
    | inr e ↦ rw e gone
  ]

  Gone-claim_for_task :
      (c : Claim) (k : ℕ) (job : Job) (o : Option ℕ) (t : Option Task) (db : Db)
      → str_eq c.claim_token token ≡ false
      → Gone db
      → Gone (claim_for_task c k job o t db).1
  Gone-claim_for_task c k job none t db other gone = Gone-claim_due c k job db other gone
  Gone-claim_for_task c k job (some task_id) none db other gone = gone
  Gone-claim_for_task c k job (some task_id) (some task) db other gone =
      elim (Bool-cases (may_run task)) [
        | inl e ↦ rw e (selected c.skills_valid)
        | inr e ↦ rw e gone
      ]
    where
      selected : (valid : Option Bool) → Gone (claim_selected c k job task_id task valid db).1
      selected none = gone
      selected (some true) = Gone-claim_due c k job db other gone
      selected (some false) = gone

  pub Gone-claim :
      (c : Claim) (k : ℕ) (db : Db)
      → str_eq c.claim_token token ≡ false
      → Gone db
      → Gone (claim c k db).1
  unfolding claim claim_job
  Gone-claim c k db other gone =
      choose c.is_on (claim_job c k (db.jobs k) db) (job_claim (db.jobs k))
    where
      choose : (b : Bool) (x : Option Job × Db) → Gone x.1 → Gone (if b then x else (none, db)).1
      choose true x h = h
      choose false x h = gone

      job_claim : (o : Option Job) → Gone (claim_job c k o db).1
      job_claim none = gone
      job_claim (some job) =
          elim (Bool-cases ((not job.manual && not c.auto_generate) || not c.has_data_source)) [
            | inl e ↦ rw e gone
            | inr e ↦ rw e (
                Gone-claim_for_task c k job job.listen_task_id (task_of job.listen_task_id db) db
                  other gone)
          ]
