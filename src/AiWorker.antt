-- ===== src/AiWorker.antt =====
-- ai_worker.py: the generation jobs, their attempts and what a worker does to them (models/ai.py).
-- A table is a function of its key, the attempts of a job the newest first.
use auto_x.Prelude.{
  ℕ, ◌+◌, String, Bool, true, false, ◌&&◌, Option, none, some, List, [], ◌∷◌, ◌++◌, ◌==◌,
  if◌then◌else◌, any_true, update, Instant,
}
pub mod Claim
pub mod Ends
pub mod Success
pub mod Calls
pub mod Rows
pub mod Attempts
pub mod Sound
pub mod Started
pub mod Reachable
pub mod Lost
pub mod Gone
pub mod Superseded
pub mod Backoff
pub mod Profiles
mod Examples

pub data JobStatus : Type 0 where
  queued running retry_wait succeeded failed cancelled : JobStatus

abbrev pub is_running : JobStatus → Bool
is_running running = true
is_running _ = false

-- `status in {"queued", "retry_wait"}`.
abbrev pub is_waiting : JobStatus → Bool
is_waiting queued = true
is_waiting retry_wait = true
is_waiting _ = false

pub record Job : Type 0 where
  pub listen_task_id : Option ℕ
  pub source_tweet_id : ℕ
  pub monitored_user_id : ℕ
  pub manual : Bool
  pub has_skills : Bool
  pub status : JobStatus
  pub attempts : ℕ
  pub max_attempts : ℕ
  pub lifetime_attempts : ℕ
  pub next_attempt_at : Instant
  pub claim_token : Option String
  pub claimed_by : Option String
  pub lease_expires_at : Option Instant
  pub started_at : Option Instant
  pub completed_at : Option Instant
  pub last_error : Option String
  pub prompt_hash : Option String

pub data AttemptStatus : Type 0 where
  in_progress done unsuccessful interrupted : AttemptStatus

abbrev pub is_open : AttemptStatus → Bool
is_open in_progress = true
is_open _ = false

pub record Attempt : Type 0 where
  pub lifetime_number : ℕ
  pub round_number : ℕ
  pub attempt_number : ℕ
  pub started_at : Instant
  pub status : AttemptStatus
  pub ended_at : Option Instant
  pub error_type : Option String

pub data DesiredState : Type 0 where
  enabled disabled archived : DesiredState

pub record Task : Type 0 where
  pub desired_state : DesiredState
  pub queue_hold_reason : Option String

abbrev pub is_enabled : DesiredState → Bool
is_enabled enabled = true
is_enabled _ = false

-- `task is not None and task.desired_state == "archived"`.
abbrev pub is_archived : Option Task → Bool
is_archived none = false
is_archived (some task) = elim task.desired_state [
  | enabled ↦ false
  | disabled ↦ false
  | archived ↦ true
]

pub record TaskEvent : Type 0 where
  pub task_id : ℕ
  pub job_id : ℕ
  pub event_type : String

pub record Draft : Type 0 where
  pub source_tweet_id : ℕ
  pub title : String
  pub content : String
  pub excerpt : Option String
  pub revision : ℕ

pub record Profile : Type 0 where
  pub identity_summary : String
  pub focus_summary : String
  pub relationship_summary : String
  pub version : ℕ
  pub last_source_tweet_id : Option ℕ

-- The attempts and the draft are those of a job id, the profile is that of an account.
pub record Db : Type 0 where
  pub tasks : ℕ → Option Task
  pub jobs : ℕ → Option Job
  pub attempts : ℕ → List Attempt
  pub drafts : ℕ → Option Draft
  pub profiles : ℕ → Option Profile
  pub events : List TaskEvent

abbrev pub set {ℓ} : {A : Type ℓ} → ℕ → A → (ℕ → A) → ℕ → A
set key value table k = if key == k then value else table k

abbrev pub task_of : Option ℕ → Db → Option Task
task_of none db = none
task_of (some task_id) db = db.tasks task_id

-- `_lock_job_task`.
abbrev pub lock_job_task : ℕ → Db → Option Task
lock_job_task job_id db = elim (db.jobs job_id) [
  | none ↦ none
  | some job ↦ task_of job.listen_task_id db
]

abbrev pub add_event : Option ℕ → ℕ → String → List TaskEvent → List TaskEvent
add_event none job_id event_type events = events
add_event (some task_id) job_id event_type events =
    events ++ record { task_id = task_id; job_id = job_id; event_type = event_type } ∷ []

abbrev pub execution_event : AttemptStatus → String
execution_event in_progress = "execution_running"
execution_event done = "execution_succeeded"
execution_event unsuccessful = "execution_failed"
execution_event interrupted = "execution_interrupted"

abbrev pub is_current : ℕ → Attempt → Bool
is_current number a = (a.lifetime_number == number) && is_open a.status

abbrev pub closed : AttemptStatus → Instant → Option String → Attempt → Attempt
closed status now error_type a = record a {
  status = status;
  ended_at = some now;
  error_type = error_type;
}

-- `_finish_attempt`: the attempt of the job's number, if it is running.
unfoldable pub finish_attempt : ℕ → Job → AttemptStatus → Instant → Option String → Db → Db
finish_attempt job_id job status now error_type db =
    if any_true (is_current job.lifetime_attempts) (db.attempts job_id)
    then record db {
      attempts =
          set job_id
            (update (is_current job.lifetime_attempts) (closed status now error_type)
              (db.attempts job_id))
            db.attempts;
      events = add_event job.listen_task_id job_id (execution_event status) db.events;
    }
    else db

-- The claim of a job is given back.
abbrev pub unclaimed : Job → Job
unclaimed job = record job { claim_token = none; claimed_by = none; lease_expires_at = none }

abbrev pub save_job : ℕ → Job → Db → Db
save_job job_id job db = record db { jobs = set job_id (some job) db.jobs }
