-- ===== src/Listening.antt =====
-- ai_jobs.py and ai_listen_backfill.py: the rows that listening tasks work with
-- (backend/app/models/ai.py), without the columns that this code neither reads nor writes. The
-- prompt texts of a job's request, the author's context and the hash of the source text are left
-- out. A stored skill is the text of its snapshot.
use auto_x.Prelude.{ℕ, String, Bool, false, ◌&&◌, Option, List, str_eq, ◌==◌, Instant}
use auto_x.Models.{ListenMode, MonitoredUser, Tweet}
pub mod Wants
pub mod Enqueue
pub mod Jobs
pub mod Added
pub mod Window
pub mod Realtime
pub mod Stream
pub mod Scan
mod Examples

-- The idempotency key of a job, read back from its text: `listen:{task}:tweet:{tweet}`,
-- `auto:{tweet}`, or another one.
pub data JobKey : Type 0 where
  listen : ℕ → ℕ → JobKey
  auto : ℕ → JobKey
  other : String → JobKey

abbrev pub key_eq : JobKey → JobKey → Bool
key_eq (listen task tweet) (listen task' tweet') = (task == task') && (tweet == tweet')
key_eq (auto tweet) (auto tweet') = tweet == tweet'
key_eq (other key) (other key') = str_eq key key'
key_eq _ _ = false

pub record Setting : Type 0 where
  pub enabled : Bool
  pub auto_generate : Bool
  pub provider : String
  pub model_name : String
  pub language : String
  pub tone : String
  pub max_attempts : ℕ
  pub max_output_tokens : ℕ

pub record Feature : Type 0 where
  pub code : String
  pub is_active : Bool

pub record ListenTask : Type 0 where
  pub id : ℕ
  pub desired_state : String
  pub queue_hold_reason : Option String
  pub listen_mode : ListenMode
  pub all_monitored_users : Bool
  pub feature_code : String
  pub auto_publish_channels : List String
  pub owner_admin_id : Option ℕ
  pub qq_bot_id : Option ℕ
  pub qq_group_openids : List String
  pub config_version : ℕ
  pub max_attempts_override : Option ℕ
  pub language_override : Option String
  pub tone_override : Option String
  pub max_output_tokens_override : Option ℕ
  pub activated_at : Option Instant
  pub effective_from : Option Instant
  pub initial_backfill_from : Option Instant
  pub initial_backfill_to : Option Instant

pub record Subscription : Type 0 where
  pub task_id : ℕ
  pub monitored_user_id : ℕ
  pub effective_from : Option Instant

-- The `config_snapshot` of a backfill: a missing key is `none`, or the empty value that the code's
-- `or []` makes of it; `exclude_legacy_generated` is true where it is missing.
pub record Snapshot : Type 0 where
  pub skill_ids : List ℕ
  pub skills : List String
  pub listen_mode : Option ListenMode
  pub all_monitored_users : Bool
  pub monitored_user_ids : List ℕ
  pub feature_code : Option String
  pub auto_publish_channels : List String
  pub owner_admin_id : Option ℕ
  pub qq_bot_id : Option ℕ
  pub qq_group_openids : List String
  pub exclude_legacy_generated : Bool
  pub config_version : Option ℕ
  pub language_override : Option String
  pub tone_override : Option String
  pub max_output_tokens_override : Option ℕ
  pub max_attempts_override : Option ℕ

pub record Job : Type 0 where
  pub id : ℕ
  pub source_tweet_id : ℕ
  pub listen_task_id : Option ℕ
  pub trigger_type : String
  pub task_config_version : Option ℕ
  pub listen_mode : ListenMode
  pub all_monitored_users : Bool
  pub auto_publish_channels : List String
  pub owner_admin_id : Option ℕ
  pub qq_bot_id : Option ℕ
  pub qq_group_openids : List String
  pub feature_code : String
  pub skill_ids : List ℕ
  pub skill_snapshot : List String
  pub idempotency_key : JobKey
  pub status : String
  pub provider : String
  pub model_name : String
  pub language : String
  pub tone : String
  pub max_output_tokens : ℕ
  pub attempts : ℕ
  pub lifetime_attempts : ℕ
  pub max_attempts : ℕ
  pub next_attempt_at : Instant
  pub manual : Bool

pub data TaskEvent : Type 0 where
  -- `jobs_enqueued` of a task, with the count and whether a backfill made them.
  jobs_enqueued : ℕ → ℕ → Bool → TaskEvent
  -- `backfill_batch` and `backfill_completed`, with the counts of the event's details.
  backfill_batch backfill_completed : ℕ → ℕ → ℕ → ℕ → TaskEvent

pub record Backfill : Type 0 where
  pub id : ℕ
  pub task_id : ℕ
  pub from_at : Instant
  pub to_at : Instant
  pub config_snapshot : Snapshot
  pub status : String
  pub cursor_posted_at : Option Instant
  pub cursor_tweet_id : Option ℕ
  pub scanned_count : ℕ
  pub enqueued_count : ℕ
  pub last_error : Option String
  pub updated_at : Instant

pub record Db : Type 0 where
  pub setting : Option Setting
  pub features : List Feature
  pub tasks : List ListenTask
  pub subscriptions : List Subscription
  pub users : List MonitoredUser
  pub tweets : List Tweet
  pub jobs : List Job
  pub next_job_id : ℕ
  pub backfills : List Backfill
  pub events : List TaskEvent

-- skill_client.py: what `resolve_task_skills` returns of a task.
pub record Selection : Type 0 where
  pub valid : Bool
  pub selected_ids : List ℕ
  pub skills : List String
