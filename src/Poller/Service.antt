-- ===== src/Poller/Service.antt =====
-- poller.py: the transactions of `PollingService`. A check of the polling lock is given as its
-- outcome (Poller.Lock has the check itself), and an instant is what the clock returned.
pub mod Commit
pub mod Failure
pub mod Deadlines
use auto_x.Prelude.{
  ℕ, ◌+◌, String, Bool, Option, none, some, List, [], ◌∷◌, ◌++◌, ◌==◌, if◌then◌else◌, truthy, find,
  update, Instant,
}
use auto_x.Models.{MonitoredUser, PollingLog}
use auto_x.Poller.{PollClaim, claim_of, claimed_user}
use auto_x.Poller.Ingest.{Tweets}

-- What a commit starts in other services: AI jobs, screenshots and QQ deliveries for the posts
-- with the given ids, each over the tables `O` of those services.
pub record Downstream (O : Type 0) : Type 0 where
  pub enqueue_jobs : List String → O → O
  pub enqueue_screenshots : List String → O → O
  pub create_deliveries : List String → O → List ℕ × O

pub record Db (O : Type 0) : Type 0 where
  pub users : List MonitoredUser
  pub logs : List PollingLog
  pub next_log_id : ℕ
  pub tweets : Tweets
  pub outbox : O

-- What `_finalize_log` writes; a log that was deleted meanwhile is left alone.
pub record LogEnd : Type 0 where
  pub status : String
  pub finished_at : Instant
  pub duration_ms : ℕ
  pub tweets_fetched : ℕ
  pub tweets_inserted : ℕ
  pub http_status : Option ℕ
  pub error_message : Option String
  pub rate_limit_reset_at : Option Instant

abbrev pub has_id : ℕ → MonitoredUser → Bool
has_id user_id user = user.id == user_id

abbrev pub has_log_id : ℕ → PollingLog → Bool
has_log_id log_id row = row.id == log_id

unfoldable pub trigger_of : MonitoredUser → String
trigger_of user = if truthy user.manual_poll_token then "manual" else "scheduled"

unfoldable pub running_log : String → MonitoredUser → ℕ → PollingLog
unfolding trigger_of
running_log worker_id user log_id = record {
  id = log_id;
  monitored_user_id = user.id;
  trigger = trigger_of user;
  status = "running";
  worker_id = worker_id;
  finished_at = none;
  duration_ms = none;
  tweets_fetched = 0;
  tweets_inserted = 0;
  http_status = none;
  error_message = none;
  rate_limit_reset_at = none;
}

abbrev pub is_pollable : Option MonitoredUser → Option MonitoredUser
is_pollable none = none
is_pollable (some user) = if user.is_active then some user else none

unfoldable pub ended : LogEnd → PollingLog → PollingLog
ended e row = record row {
  status = e.status;
  finished_at = some e.finished_at;
  duration_ms = some e.duration_ms;
  tweets_fetched = e.tweets_fetched;
  tweets_inserted = e.tweets_inserted;
  http_status = e.http_status;
  error_message = e.error_message;
  rate_limit_reset_at = e.rate_limit_reset_at;
}

module _ {O : Type 0} where
  unfoldable pub get_user : ℕ → Db O → Option MonitoredUser
  get_user user_id db = find (has_id user_id) db.users

  -- The write of a row that was read with `get_user`.
  unfoldable pub put_user : MonitoredUser → Db O → Db O
  put_user user db = record db { users = update (has_id user.id) (λ _. user) db.users }

  unfoldable pub claim_user : String → ℕ → Db O → Option PollClaim × Db O
  unfolding trigger_of running_log
  claim_user worker_id user_id db = elim (is_pollable (get_user user_id db)) [
    | none ↦ (none, db)
    | some user ↦ (
      some (claim_of (claimed_user user) db.next_log_id (trigger_of user)),
      record (put_user (claimed_user user) db) {
        logs = db.logs ++ running_log worker_id user db.next_log_id ∷ [];
        next_log_id = db.next_log_id + 1;
      },
    )
  ]

  unfoldable pub finalize_log : ℕ → LogEnd → Db O → Db O
  unfolding ended
  finalize_log log_id e db = record db { logs = update (has_log_id log_id) (ended e) db.logs }

-- `_finalize_log` with the arguments that most calls leave out.
unfoldable pub log_end : String → Instant → ℕ → Option String → LogEnd
log_end status now duration message = record {
  status = status;
  finished_at = now;
  duration_ms = duration;
  tweets_fetched = 0;
  tweets_inserted = 0;
  http_status = none;
  error_message = message;
  rate_limit_reset_at = none;
}

abbrev pub superseded_message : Option String
superseded_message = some "Polling generation was superseded"
