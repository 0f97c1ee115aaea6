-- ===== src/Publish.antt =====
-- services/ai_publish.py and services/xhs_publish_results.py: the automatic posts of drafts, with the
-- rows of models/ai_publish.py and of the publish attempts of models/ai.py. The journal of the
-- browser worker is that of BrowserJobs.
use auto_x.Prelude.{
  ℕ, String, Bool, true, false, Option, none, some, List, str_eq, ◌==◌, if◌then◌else◌, find, update,
  Instant, truncate,
}
use auto_x.BrowserJobs.{Jobs}
pub mod Xhs
pub mod Results
pub mod Operators
pub mod Calls
pub mod Rows
pub mod Sent
pub mod Applied
pub mod Quiet
pub mod Replays
pub mod Submitted
pub mod Once
pub mod Idempotent
pub mod Alone
pub mod Account
mod Examples

pub data Channel : Type 0 where
  xhs qq : Channel

abbrev pub is_xhs : Channel → Bool
is_xhs xhs = true
is_xhs qq = false

pub data DispatchStatus : Type 0 where
  pending retry_wait dispatching reconciling uncertain accepted published failed : DispatchStatus

pub record Dispatch : Type 0 where
  pub id : ℕ
  pub draft_id : ℕ
  pub owner_admin_id : Option ℕ
  -- `payload_snapshot["owner_admin_id"]`.
  pub snapshot_owner_id : Option ℕ
  pub channel : Channel
  pub status : DispatchStatus
  pub attempts : ℕ
  pub rejection_attempts : ℕ
  pub next_attempt_at : Instant
  pub article_publish_attempt_id : Option String
  pub xhs_job_id : Option String
  pub last_error : Option String
  pub reconciliation_result : Option String
  pub published_url : Option String
  pub reconciled_at : Option Instant
  pub started_at : Option Instant
  pub completed_at : Option Instant

pub data AttemptStatus : Type 0 where
  open_attempt published_attempt failed_attempt : AttemptStatus

pub record PublishAttempt : Type 0 where
  pub attempt_id : String
  pub article_id : ℕ
  pub channel : Channel
  pub status : AttemptStatus
  pub delivery_count : ℕ
  pub error : Option String
  pub reconciliation_result : Option String
  pub published_url : Option String
  pub reconciled_at : Option Instant
  pub completed_at : Option Instant

pub record Db : Type 0 where
  pub dispatches : List Dispatch
  pub attempts : List PublishAttempt
  pub jobs : Jobs

abbrev pub has_id : ℕ → Dispatch → Bool
has_id id row = row.id == id

abbrev pub has_attempt_id : String → PublishAttempt → Bool
has_attempt_id attempt_id a = str_eq a.attempt_id attempt_id

-- `status in {"pending", "retry_wait"}`.
abbrev pub is_waiting : DispatchStatus → Bool
is_waiting pending = true
is_waiting retry_wait = true
is_waiting _ = false

abbrev pub is_dispatching : DispatchStatus → Bool
is_dispatching dispatching = true
is_dispatching _ = false

-- `status in ("dispatching", "reconciling")`.
abbrev pub is_active : DispatchStatus → Bool
is_active dispatching = true
is_active reconciling = true
is_active _ = false

-- `status in ("dispatching", "reconciling", "uncertain")`.
abbrev pub is_unsettled : DispatchStatus → Bool
is_unsettled dispatching = true
is_unsettled reconciling = true
is_unsettled uncertain = true
is_unsettled _ = false

abbrev pub is_failed : DispatchStatus → Bool
is_failed failed = true
is_failed _ = false

abbrev pub status_eq : DispatchStatus → DispatchStatus → Bool
status_eq pending pending = true
status_eq retry_wait retry_wait = true
status_eq dispatching dispatching = true
status_eq reconciling reconciling = true
status_eq uncertain uncertain = true
status_eq accepted accepted = true
status_eq published published = true
status_eq failed failed = true
status_eq _ _ = false

abbrev pub is_uncertain : DispatchStatus → Bool
is_uncertain uncertain = true
is_uncertain _ = false

-- The row is written back.
unfoldable pub put_row : Dispatch → Db → Db
put_row row db = record db { dispatches = update (has_id row.id) (λ _. row) db.dispatches }

abbrev pub put_attempt : PublishAttempt → Db → Db
put_attempt a db = record db {
  attempts = update (has_attempt_id a.attempt_id) (λ _. a) db.attempts;
}

abbrev pub attempt_of : Option String → Db → Option PublishAttempt
attempt_of none db = none
attempt_of (some attempt_id) db = find (has_attempt_id attempt_id) db.attempts

abbrev pub is_open_attempt : PublishAttempt → Bool
is_open_attempt a = elim a.status [
  | open_attempt ↦ true
  | published_attempt ↦ false
  | failed_attempt ↦ false
]

abbrev pub attempt_status : DispatchStatus → AttemptStatus
attempt_status published = published_attempt
attempt_status _ = failed_attempt

-- `error[:2000] if error else None`.
abbrev pub cut_text : Option String → Option String
cut_text none = none
cut_text (some error) = if str_eq error "" then none else some (truncate 2000 error)

abbrev pub finished : Instant → DispatchStatus → Option String → Dispatch → Dispatch
finished now status error row = record row {
  status = status;
  last_error = cut_text error;
  completed_at = some now;
}

abbrev pub end_attempt : Instant → DispatchStatus → Option String → Option PublishAttempt → Db → Db
end_attempt now status error none db = db
end_attempt now status error (some a) db =
    if is_open_attempt a
    then put_attempt
        (record a { status = attempt_status status; error = error; completed_at = some now }) db
    else db

-- `_finish`.
unfoldable pub finish : Instant → DispatchStatus → Option String → Dispatch → Db → Db
finish now status error row db = put_row (finished now status error row) (
    end_attempt now status (finished now status error row).last_error
      (attempt_of row.article_publish_attempt_id db) db)
