-- ===== src/Publish/Xhs.antt =====
-- services/ai_publish.py: a dispatch to Xiaohongshu is reserved, submitted, rejected or interrupted.
use auto_x.Prelude.{
  ℕ, ◌+◌, ◌-◌, ◌*◌, ◌^◌, min, max, String, Bool, true, false, not, ◌&&◌, Option, none, some, [],
  ◌∷◌, ◌++◌, ltb, leb, ◌==◌, if◌then◌else◌, opt_eq, any_true, find, Instant, seconds, truncate,
}
use auto_x.Publish.{
  Dispatch, xhs, is_xhs, retry_wait, dispatching, reconciling, uncertain, published, failed,
  is_waiting, is_dispatching, is_active, PublishAttempt, open_attempt, failed_attempt, Db, has_id,
  put_row, put_attempt, attempt_of, finish,
}
use auto_x.Publish.Results.{apply_xhs_job_result}

abbrev pub xhs_result_check : ℕ
xhs_result_check = seconds 10

abbrev pub xhs_same_admin_wait : ℕ
xhs_same_admin_wait = seconds 10

-- Another dispatch of the account that a worker may be executing.
abbrev pub is_busy_with : ℕ → ℕ → Dispatch → Bool
is_busy_with admin_id id row =
    is_xhs row.channel
    && (opt_eq ◌==◌ row.owner_admin_id (some admin_id)
        && (is_active row.status && not (row.id == id)))

-- What a reservation brings: the account, whether it is there, and the identifiers of `uuid4`; a job
-- id is there for the HTTP transport.
pub record Reservation : Type 0 where
  pub now : Instant
  pub admin_id : ℕ
  pub has_admin : Bool
  pub attempt_id : String
  pub xhs_job_id : Option String

abbrev pub reserved : Reservation → Dispatch → Dispatch
reserved r row = record row {
  status = dispatching;
  attempts = row.attempts + 1;
  started_at = some r.now;
  article_publish_attempt_id = some r.attempt_id;
  xhs_job_id = r.xhs_job_id;
  next_attempt_at = r.now + xhs_result_check;
  last_error = none;
}

abbrev pub new_attempt : Reservation → Dispatch → PublishAttempt
new_attempt r row = record {
  attempt_id = r.attempt_id;
  article_id = row.draft_id;
  channel = xhs;
  status = open_attempt;
  delivery_count = 1;
  error = none;
  reconciliation_result = none;
  published_url = none;
  reconciled_at = none;
  completed_at = none;
}

abbrev pub queued_behind : Instant → Dispatch → Dispatch
queued_behind now row = record row {
  status = retry_wait;
  next_attempt_at = now + xhs_same_admin_wait;
  last_error = some "同一小红书账号的上一条自动推送仍在执行";
}

abbrev pub with_attempt : PublishAttempt → Db → Db
with_attempt a db = record db { attempts = db.attempts ++ a ∷ [] }

-- The transaction of `_dispatch_xhs` before the post is submitted, which happens where it is `true`.
unfoldable pub reserve_row : Reservation → Option Dispatch → Db → Bool × Db
reserve_row r none db = (false, db)
reserve_row r (some row) db =
    if not (is_waiting row.status)
    then (false, db)
    else if not r.has_admin
    then (false, finish r.now failed (some "归属管理员已不存在") row db)
    else if any_true (is_busy_with r.admin_id row.id) db.dispatches
    then (false, put_row (queued_behind r.now row) db)
    else (true, put_row (reserved r row) (with_attempt (new_attempt r row) db))

abbrev pub reserve : Reservation → ℕ → Db → Bool × Db
reserve r id db = reserve_row r (find (has_id id) db.dispatches) db

-- `min(120, 5 * 2 ** (rejection_attempts - 1))`, or longer where the service asks for it.
abbrev pub rejection_delay : ℕ → Option ℕ → ℕ
rejection_delay rejections none = min 120 (5 * 2 ^ (rejections - 1))
rejection_delay rejections (some retry_after) =
    max (min 120 (5 * 2 ^ (rejections - 1))) (min 120 retry_after)

abbrev pub rejected : Instant → String → Option ℕ → Dispatch → Dispatch
rejected now error retry_after row =
    let rejections = row.rejection_attempts + 1 in
    let kept = record row {
      rejection_attempts = rejections;
      article_publish_attempt_id = none;
      xhs_job_id = none;
      started_at = none;
      last_error = some (truncate 2000 error);
    } in
    if leb 5 rejections
    then record kept { status = failed; completed_at = some now }
    else record kept {
      status = retry_wait;
      next_attempt_at = now + seconds (rejection_delay rejections retry_after);
      completed_at = none;
    }

abbrev pub fail_attempt : Instant → String → Option PublishAttempt → Db → Db
fail_attempt now error none db = db
fail_attempt now error (some a) db =
    put_attempt
      (record a {
        status = failed_attempt;
        error = some (truncate 2000 error);
        completed_at = some now;
      })
      db

-- `_not_accepted`.
unfoldable pub reject_row : Instant → String → Option ℕ → Option Dispatch → Db → Db
reject_row now error retry_after none db = db
reject_row now error retry_after (some row) db =
    if is_dispatching row.status
    then put_row (rejected now error retry_after row)
        (fail_attempt now error (attempt_of row.article_publish_attempt_id db) db)
    else db

abbrev pub not_accepted : Instant → String → Option ℕ → ℕ → Db → Db
not_accepted now error retry_after id db =
    reject_row now error retry_after (find (has_id id) db.dispatches) db

abbrev pub interrupted : Dispatch → Dispatch
interrupted row = record row {
  status = reconciling;
  last_error = some "请求连接中断，系统正在自动查收原任务的发布结果";
  completed_at = none;
}

module _ (url_of : String → Option String) where
  -- The transaction after another error of the submission; `job_id` is that of the reservation.
  unfoldable pub interrupt_row : Instant → Option String → Option Dispatch → Db → Db
  interrupt_row now job_id none db = db
  interrupt_row now none (some row) db =
      if is_dispatching row.status
      then finish now uncertain (some "小红书请求未确认成功；请核对账号笔记后再决定是否重新发布") row db
      else db
  interrupt_row now (some job_id) (some row) db =
      if is_dispatching row.status
      then (apply_xhs_job_result url_of now job_id (put_row (interrupted row) db)).1
      else db

  abbrev pub interrupt : Instant → Option String → ℕ → Db → Db
  interrupt now job_id id db = interrupt_row now job_id (find (has_id id) db.dispatches) db

-- The transaction after a submission that waited for its result.
unfoldable pub complete_row : Instant → Option Dispatch → Db → Db
complete_row now none db = db
complete_row now (some row) db =
    if is_dispatching row.status then finish now published none row db else db

abbrev pub complete : Instant → ℕ → Db → Db
complete now id db = complete_row now (find (has_id id) db.dispatches) db

abbrev pub preflight_retry : Instant → String → Dispatch → Dispatch
preflight_retry now message row = record row {
  attempts = row.attempts + 1;
  status = retry_wait;
  next_attempt_at = now + seconds (min 300 (10 * 2 ^ min 5 row.attempts));
  last_error = some (truncate 2000 message);
}

-- `_preflight_failure`.
unfoldable pub preflight_row : Instant → String → Bool → Option Dispatch → Db → Db
preflight_row now message retry none db = db
preflight_row now message retry (some row) db =
    if not (is_waiting row.status)
    then db
    else if retry && ltb (row.attempts + 1) 12
    then put_row (preflight_retry now message row) db
    else finish now failed (some message) (record row { attempts = row.attempts + 1 }) db

abbrev pub preflight_failure : Instant → String → Bool → ℕ → Db → Db
preflight_failure now message retry id db =
    preflight_row now message retry (find (has_id id) db.dispatches) db
