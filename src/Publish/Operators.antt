-- ===== src/Publish/Operators.antt =====
-- services/ai_publish.py, `retry_failed_dispatch`, and api/routes/ai.py: what administrators decide.
use auto_x.Prelude.{
  ℕ, String, Bool, true, false, not, ◌&&◌, ◌||◌, Option, none, some, str_eq, ◌==◌, if◌then◌else◌,
  opt_eq, is_some, find, Instant,
}
use auto_x.BrowserJobs.{JobState, Row, get}
use auto_x.Publish.{
  Dispatch, is_xhs, pending, uncertain, published, failed, is_failed, is_uncertain, PublishAttempt,
  published_attempt, failed_attempt, Db, has_id, put_row, put_attempt, attempt_of,
}

abbrev pub is_failed_result : Option ℕ → Option Row → Bool
is_failed_result admin_id none = false
is_failed_result admin_id (some result) = elim result.state [
  | JobState.failed ↦ opt_eq ◌==◌ result.admin_id admin_id
  | JobState.running ↦ false
  | JobState.reconciling ↦ false
  | JobState.succeeded ↦ false
  | JobState.uncertain ↦ false
  | JobState.unsupported s ↦ false
]

abbrev pub job_failed : Option ℕ → Option String → Db → Bool
job_failed admin_id none db = false
job_failed admin_id (some job_id) db =
    not (str_eq job_id "") && is_failed_result admin_id (get "xhs" job_id db.jobs)

-- `confirmed_xhs_failure`.
abbrev pub confirmed_xhs_failure : Dispatch → Db → Bool
confirmed_xhs_failure row db =
    is_xhs row.channel && (is_failed row.status && job_failed row.owner_admin_id row.xhs_job_id db)

abbrev pub replayed : Instant → Dispatch → Dispatch
replayed now row = record row {
  status = pending;
  next_attempt_at = now;
  last_error = none;
  completed_at = none;
  rejection_attempts = 0;
  reconciliation_result = none;
  published_url = none;
  reconciled_at = none;
  article_publish_attempt_id = none;
  xhs_job_id = none;
}

unfoldable pub retry_row : Instant → Option Dispatch → Db → Bool × Db
retry_row now none db = (false, db)
retry_row now (some row) db =
    if not (is_failed row.status)
      || (is_some row.article_publish_attempt_id && not (confirmed_xhs_failure row db))
    then (false, db)
    else (true, put_row (replayed now row) db)

abbrev pub retry_failed_dispatch : Instant → ℕ → Db → Bool × Db
retry_failed_dispatch now id db = retry_row now (find (has_id id) db.dispatches) db

pub data Decision : Type 0 where
  found_published found_not_published still_uncertain : Decision

abbrev pub decision_text : Decision → String
decision_text found_published = "published"
decision_text found_not_published = "not_published"
decision_text still_uncertain = "uncertain"

pub record Check : Type 0 where
  pub now : Instant
  pub admin_id : ℕ
  pub decision : Decision
  pub note : Option String
  pub url : Option String

abbrev pub or_text : Option String → Option String → Option String
or_text none other = other
or_text (some note) other = if str_eq note "" then other else some note

abbrev pub checked : Check → Dispatch → Dispatch
checked c row =
    let noted = record row {
      reconciliation_result = some (decision_text c.decision);
      published_url = c.url;
      reconciled_at = some c.now;
    } in
    elim c.decision [
      | found_published ↦ record noted {
        status = published;
        last_error = none;
        completed_at = some c.now;
      }
      | found_not_published ↦ record noted {
        status = failed;
        last_error = or_text c.note (some "人工核对确认平台未发布");
        completed_at = some c.now;
        article_publish_attempt_id = none;
      }
      | still_uncertain ↦ record noted {
        status = uncertain;
        last_error = or_text c.note row.last_error;
      }
    ]

abbrev pub checked_attempt : Check → PublishAttempt → PublishAttempt
checked_attempt c a =
    let noted = record a {
      reconciliation_result = some (decision_text c.decision);
      published_url = c.url;
      reconciled_at = some c.now;
    } in
    elim c.decision [
      | found_published ↦ record noted {
        status = published_attempt;
        error = none;
        completed_at = some c.now;
      }
      | found_not_published ↦ record noted {
        status = failed_attempt;
        error = or_text c.note (some "人工核对确认平台未发布");
        completed_at = some c.now;
      }
      | still_uncertain ↦ noted
    ]

abbrev pub check_with : Check → Dispatch → Option PublishAttempt → Db → Bool × Db
check_with c row none db = (false, db)
check_with c row (some a) db =
    if is_xhs a.channel && (a.article_id == row.draft_id)
    then (true, put_row (checked c row) (put_attempt (checked_attempt c a) db))
    else (false, db)

-- `owner_admin_id or payload_snapshot["owner_admin_id"]`.
abbrev pub owner_of : Dispatch → Option ℕ
owner_of row = elim row.owner_admin_id [
  | none ↦ row.snapshot_owner_id
  | some admin_id ↦ if admin_id == 0 then row.snapshot_owner_id else some admin_id
]

-- The handler of a human check, where the row's draft is found.
unfoldable pub check_row : Check → Option Dispatch → Db → Bool × Db
check_row c none db = (false, db)
check_row c (some row) db =
    if opt_eq ◌==◌ (owner_of row) (some c.admin_id)
      && (is_uncertain row.status && is_xhs row.channel)
    then check_with c row (attempt_of row.article_publish_attempt_id db) db
    else (false, db)

abbrev pub check_dispatch : Check → ℕ → Db → Bool × Db
check_dispatch c id db = check_row c (find (has_id id) db.dispatches) db
