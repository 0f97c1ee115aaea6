-- ===== src/Publish/Results.antt =====
-- services/xhs_publish_results.py, and the recovery of results in services/ai_publish.py. `url_of` is
-- what `_published_url` makes of a job's data.
use auto_x.Prelude.{
  ℕ, ◌+◌, String, Bool, true, false, not, ◌&&◌, ◌||◌, Option, none, some, List, [], ◌∷◌, str_eq,
  ltb, leb, ◌==◌, if◌then◌else◌, opt_eq, is_none, is_some, opt_str_eq, take, where_true, find,
  Instant, seconds, order_by,
}
use auto_x.BrowserJobs.{JobState, is_final, Row, get}
use auto_x.Publish.{
  cut_text, is_xhs, Dispatch, DispatchStatus, reconciling, uncertain, published, failed,
  is_unsettled, status_eq, is_dispatching, PublishAttempt, attempt_status, Db, has_id, put_row,
  put_attempt, attempt_of, finish,
}

-- `channel == "xhs" and xhs_job_id == job_id`.
abbrev pub is_for_job : String → Dispatch → Bool
is_for_job job_id row = is_xhs row.channel && opt_str_eq row.xhs_job_id (some job_id)

-- The early returns on the dispatch and on its attempt.
abbrev pub awaits_result : Row → Dispatch → Bool
awaits_result result row =
    opt_eq ◌==◌ row.owner_admin_id result.admin_id
    && (is_unsettled row.status && (is_none row.reconciled_at && is_none row.reconciliation_result))

abbrev pub is_attempt_of : Dispatch → PublishAttempt → Bool
is_attempt_of row a =
    (a.article_id == row.draft_id)
    && (is_xhs a.channel && (is_none a.reconciled_at && is_none a.reconciliation_result))

abbrev pub settled_status : JobState → DispatchStatus
settled_status JobState.succeeded = published
settled_status JobState.failed = failed
settled_status _ = uncertain

-- `result.error or None`, where the post was not published.
abbrev pub settled_error : JobState → Option String → Option String
settled_error JobState.succeeded error = none
settled_error _ none = none
settled_error _ (some error) = if str_eq error "" then none else some error

abbrev pub or_now : Instant → Option Instant → Instant
or_now now none = now
or_now now (some t) = t

abbrev pub checked_later : Instant → Dispatch → Dispatch
checked_later now row = record row { next_attempt_at = now + seconds 10 }

abbrev pub is_reconciling : JobState → Bool
is_reconciling JobState.reconciling = true
is_reconciling _ = false

-- Without a result, after the time that a job may take and a minute.
abbrev pub is_overdue : Instant → ℕ → Option Instant → Bool
is_overdue now timeout none = false
is_overdue now timeout (some started_at) = ltb (started_at + seconds (timeout + 60)) now

-- The branches on a result that is not applied.
abbrev pub look_up : Instant → ℕ → Option Row → Dispatch → Db → Db
look_up now timeout none row db =
    if is_overdue now timeout row.started_at
    then finish now uncertain (some "未取得 Worker 的持久化结果；系统继续查收原任务，勿重复发布") (checked_later now row) db
    else put_row (checked_later now row) db
look_up now timeout (some result) row db =
    if is_reconciling result.state
    then put_row
        (record (checked_later now row) {
          status = reconciling;
          completed_at = none;
          last_error = some "正在自动获取浏览器原任务的发布结果，请勿重复发布";
        })
        db
    else put_row (checked_later now row) db

-- The rest of the loop's body, on the row as the result has left it.
abbrev pub check_later : Instant → ℕ → String → Bool → Option Dispatch → Db → Db
check_later now timeout job_id applied none db = db
check_later now timeout job_id true (some row) db = put_row (checked_later now row) db
check_later now timeout job_id false (some row) db =
    look_up now timeout (get "xhs" job_id db.jobs) row db

module _ (url_of : String → Option String) where
  abbrev pub settled_url : Row → Option String
  settled_url result = elim result.state [
    | JobState.succeeded ↦ url_of result.document
    | JobState.running ↦ none
    | JobState.reconciling ↦ none
    | JobState.failed ↦ none
    | JobState.uncertain ↦ none
    | JobState.unsupported s ↦ none
  ]

  abbrev pub settled : Instant → Row → Dispatch → Dispatch
  settled now result row = record row {
    status = settled_status result.state;
    last_error = cut_text (settled_error result.state result.error);
    completed_at = some (or_now now result.completed_at);
    published_url = settled_url result;
  }

  abbrev pub settled_attempt : Instant → Row → PublishAttempt → PublishAttempt
  settled_attempt now result a = record a {
    status = attempt_status (settled_status result.state);
    error = cut_text (settled_error result.state result.error);
    completed_at = some (or_now now result.completed_at);
    published_url = settled_url result;
  }

  abbrev pub changes : Row → Dispatch → Bool
  changes result row =
      not (status_eq row.status (settled_status result.state))
      || (not (opt_str_eq row.last_error (settled_error result.state result.error))
          || not (opt_str_eq row.published_url (settled_url result)))

  abbrev pub settle_with : Instant → Row → Dispatch → Option PublishAttempt → Db → Bool × Db
  settle_with now result row none db = (false, db)
  settle_with now result row (some a) db =
      if is_attempt_of row a
      then (
        changes result row,
        put_row (settled now result row) (put_attempt (settled_attempt now result a) db),
      )
      else (false, db)

  unfoldable pub settle_dispatch : Instant → Row → Option Dispatch → Db → Bool × Db
  settle_dispatch now result none db = (false, db)
  settle_dispatch now result (some row) db =
      if awaits_result result row
      then settle_with now result row (attempt_of row.article_publish_attempt_id db) db
      else (false, db)

  unfoldable pub settle_result : Instant → String → Option Row → Db → Bool × Db
  settle_result now job_id none db = (false, db)
  settle_result now job_id (some result) db =
      if is_final result.state
      then settle_dispatch now result (find (is_for_job job_id) db.dispatches) db
      else (false, db)

  abbrev pub apply_xhs_job_result : Instant → String → Db → Bool × Db
  apply_xhs_job_result now job_id db = settle_result now job_id (get "xhs" job_id db.jobs) db

  abbrev pub check_after : Instant → ℕ → ℕ → String → Bool × Db → Db
  check_after now timeout id job_id (applied, db) =
      check_later now timeout job_id applied (find (has_id id) db.dispatches) db

  -- The loop's body for a row that the query has selected.
  abbrev pub reconcile_row : Instant → ℕ → ℕ → Option String → Db → Db
  reconcile_row now timeout id none db = db
  reconcile_row now timeout id (some job_id) db =
      check_after now timeout id job_id (apply_xhs_job_result now job_id db)

  unfoldable pub reconcile_rows : Instant → ℕ → List Dispatch → Db → Db
  reconcile_rows now timeout [] db = db
  reconcile_rows now timeout (row ∷ rows) db =
      reconcile_rows now timeout rows (reconcile_row now timeout row.id row.xhs_job_id db)

abbrev pub is_due_result : Instant → Dispatch → Bool
is_due_result now row =
    is_xhs row.channel
    && (is_some row.xhs_job_id
        && (is_unsettled row.status && (leb row.next_attempt_at now && is_none row.reconciled_at)))

abbrev pub by_attempt : Dispatch → Dispatch → Bool
by_attempt a b =
    ltb a.next_attempt_at b.next_attempt_at
    || ((a.next_attempt_at == b.next_attempt_at) && leb a.id b.id)

-- The query: fifty rows that no other transaction holds.
abbrev pub due_results : Instant → (Dispatch → Bool) → List Dispatch → List Dispatch
due_results now is_held rows =
    take 50
      (order_by by_attempt (where_true (λ row. is_due_result now row && not (is_held row)) rows))

-- `_reconcile_xhs`.
unfoldable pub reconcile_xhs : (String → Option String) → Instant → ℕ → (Dispatch → Bool) → Db → Db
reconcile_xhs url_of now timeout is_held db =
    reconcile_rows url_of now timeout (due_results now is_held db.dispatches) db

abbrev pub started_long_ago : Instant → ℕ → Option Instant → Bool
started_long_ago now timeout none = false
started_long_ago now timeout (some t) = leb (t + seconds (timeout + 60)) now

abbrev pub is_abandoned : Instant → ℕ → Dispatch → Bool
is_abandoned now timeout row =
    is_xhs row.channel
    && (is_dispatching row.status
        && (is_none row.xhs_job_id && started_long_ago now timeout row.started_at))

-- The row is the one that the query has selected, in its present state.
unfoldable pub give_up_row : Instant → Option Dispatch → Db → Db
give_up_row now none db = db
give_up_row now (some row) db = finish now uncertain (some "小红书请求中断，发布结果未知；请先核对账号笔记，勿自动重发") row db

unfoldable pub give_up : Instant → List Dispatch → Db → Db
give_up now [] db = db
give_up now (row ∷ rows) db =
    give_up now rows (give_up_row now (find (has_id row.id) db.dispatches) db)

-- `_mark_abandoned_xhs`: fifty rows, in any order, that no other transaction holds.
unfoldable pub mark_abandoned_xhs : Instant → ℕ → (Dispatch → Bool) → Db → Db
mark_abandoned_xhs now timeout is_held db =
    give_up now
      (take 50
        (where_true (λ row. is_abandoned now timeout row && not (is_held row)) db.dispatches))
      db
