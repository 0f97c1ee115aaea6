-- ===== src/AiWorker/Examples.antt =====
-- A generation job on concrete rows.
use auto_x.Prelude.{
  ℕ, ◌*◌, ◌≤◌, String, ◌≡◌, refl, true, false, Option, none, some, List, [], ◌∷◌, Mem, arith,
  length, All, where_true, Instant,
}
use auto_x.AiWorker.{queued, running, Job, Attempt, is_open, Db, finish_attempt}
use auto_x.AiWorker.Claim.{Claim, claim, claim_job, start_attempt, retry_job}
use auto_x.AiWorker.Ends.{
  Failure, retried, fail_job, commit_failure, expire_lease, requeue_cancelled, renew_lease,
}
use auto_x.AiWorker.Success.{Generated, commit_success}
use auto_x.AiWorker.Calls.{Call, claims, fails, retries, run}
use auto_x.AiWorker.Reachable.{attempts_match}
use auto_x.AiWorker.Superseded.{late_worker_ignored}
use auto_x.AiWorker.Backoff.{WaitsAgain, retry_backoff}
use auto_x.AiWorker.Profiles.{store_all, made_by, IsNewer, profile_newest}
use auto_x.Poller.Service.Deadlines.{IsJitter}

abbrev new_job : Job
new_job = record {
  listen_task_id = none;
  source_tweet_id = 40;
  monitored_user_id = 3;
  manual = false;
  has_skills = false;
  status = queued;
  attempts = 0;
  max_attempts = 3;
  lifetime_attempts = 0;
  next_attempt_at = 10;
  claim_token = none;
  claimed_by = none;
  lease_expires_at = none;
  started_at = none;
  completed_at = none;
  last_error = none;
  prompt_hash = none;
}

-- Every id has such a job.
abbrev db : Db
db = record {
  tasks = λ k. none;
  jobs = λ k. some new_job;
  attempts = λ k. [];
  drafts = λ k. none;
  profiles = λ k. none;
  events = [];
}

abbrev claim_at : ℕ → String → Claim
claim_at now token = record {
  now = now;
  claim_token = token;
  worker_id = "w1";
  lock_ttl_seconds = 60;
  is_on = true;
  auto_generate = true;
  has_data_source = true;
  skills_valid = some true;
  material_found = true;
}

abbrev timeout : ℕ → Failure
timeout now = record { now = now; message = "timeout"; retryable = true; error_type = "http_504" }

abbrev no_jitter : ℕ → ℕ
no_jitter b = b

no_jitter-IsJitter : IsJitter no_jitter
no_jitter-IsJitter = record { low = λ b. omega arith; high = λ b. omega arith }

abbrev text : Generated
text = record {
  title = "t";
  content = "c";
  excerpt = none;
  identity_summary = "i";
  focus_summary = "f";
  relationship_summary = "r";
  prompt_hash = "h";
}

-- A claim and a failure, a retry by an administrator, and a claim that expires.
abbrev calls : List Call
calls =
    claims (claim_at 20 "a") 7
    ∷ fails no_jitter (timeout 30) true true "a" 7
    ∷ retries 40 7
    ∷ claims (claim_at 50 "b") 7
    ∷ []

abbrev after_job : Job
after_job = record new_job {
  status = running;
  attempts = 1;
  lifetime_attempts = 2;
  next_attempt_at = 40;
  claim_token = some "b";
  claimed_by = some "w1";
  lease_expires_at = some 60000050;
  started_at = some 50;
}

calls-result : (run calls db).jobs 7 ≡ some after_job
unfolding run claim claim_job start_attempt fail_job finish_attempt retry_job
calls-result = refl

attempts_match_example :
    (length ((run calls db).attempts 7) ≡ 2)
    × (length (where_true (λ (a : Attempt). is_open a.status) ((run calls db).attempts 7)) ≡ 1)
    × (true ≡ true)
    × (true ≡ true)
    × (1 ≤ 3)
attempts_match_example =
    attempts_match calls db 7 after_job (λ k. (refl, refl, refl, refl, refl, refl)) calls-result

abbrev claimed : Job
claimed = record new_job {
  status = running;
  attempts = 1;
  lifetime_attempts = 1;
  claim_token = some "a";
  claimed_by = some "w1";
  lease_expires_at = some 60000020;
  started_at = some 20;
}

abbrev busy : Db
busy = record db { jobs = λ k. some claimed }

abbrev next_claim : List Call
next_claim = claims (claim_at 60000040 "b") 7 ∷ []

late_worker_ignored_example :
    ((commit_success
        (λ k. none)
        60000050
        text
        true
        true
        "a"
        7
        (run next_claim (expire_lease 60000030 7 busy))).1
      ≡ run next_claim (expire_lease 60000030 7 busy))
    × ((commit_failure no_jitter
          (timeout 60000050)
          true
          true
          "a"
          7
          (run next_claim (expire_lease 60000030 7 busy))).1
        ≡ run next_claim (expire_lease 60000030 7 busy))
    × (requeue_cancelled 60000050 true "a" 7 (run next_claim (expire_lease 60000030 7 busy))
        ≡ run next_claim (expire_lease 60000030 7 busy))
    × (renew_lease 60000050 true 60 "a" 7 (run next_claim (expire_lease 60000030 7 busy))
        ≡ (false, run next_claim (expire_lease 60000030 7 busy)))
late_worker_ignored_example =
    late_worker_ignored "a" 7 claimed 60000030 60000050 next_claim busy (λ k. none) text no_jitter
      (timeout 60000050) 60 true true refl refl (refl, tt)

reported : (commit_failure no_jitter (timeout 30) true true "a" 7 busy).0 ≡ retried
unfolding fail_job
reported = refl

retry_backoff_example :
    WaitsAgain 30 ((commit_failure no_jitter (timeout 30) true true "a" 7 busy).1.jobs 7)
retry_backoff_example =
    retry_backoff no_jitter (timeout 30) true true "a" 7 busy no_jitter-IsJitter reported

-- The post of an id is as old as the id says.
abbrev tweets : ℕ → Option Instant
tweets id = some (id * 10)

abbrev other_text : Generated
other_text = record text { identity_summary = "later" }

profile_newest_example :
    let all : List (Generated × ℕ) = (text, 4) ∷ (other_text, 9) ∷ (text, 6) ∷ [] in
    (x : Generated × ℕ) × (version : ℕ) × Mem x all
    × (store_all tweets all none ≡ some (made_by x version))
    × All (λ (y : Generated × ℕ). IsNewer tweets x.1 y.1) all
profile_newest_example =
    profile_newest tweets text 4 ((other_text, 9) ∷ (text, 6) ∷ []) (refl, (refl, (refl, tt)))
