-- ===== src/Publish/Applied.antt =====
-- services/xhs_publish_results.py and services/ai_publish.py: what results change in
-- the rows of dispatches.
use auto_x.Prelude.{
  ℕ, String, ◌≡◌, refl, inl, inr, Bool, true, false, Option, none, some, List, [], ◌∷◌, Bool-cases,
  find, Instant,
}
use auto_x.BrowserJobs.{Row, is_final, get, JobState}
use auto_x.Publish.{
  Dispatch, uncertain, is_waiting, is_dispatching, PublishAttempt, Db, has_id, attempt_of,
  put_attempt, put_row,
}
use auto_x.Publish.Rows.{
  Keeps, Keeps-refl, Keeps-trans, Keeps-put, Keeps-finish, Change, Change-status, IsClosed,
}
use auto_x.Publish.Xhs.{interrupt_row, interrupted}
use auto_x.Publish.Results.{
  is_for_job, awaits_result, is_attempt_of, settled_status, settled, settled_attempt, settle_with,
  settle_dispatch, settle_result, apply_xhs_job_result, is_reconciling, is_overdue, checked_later,
  look_up, check_later, reconcile_row, reconcile_rows, reconcile_xhs, give_up_row, give_up,
  mark_abandoned_xhs,
}

Change-later : (now : Instant) (row : Dispatch) → Change row (checked_later now row)
Change-later now row = record {
  id = refl;
  owner = refl;
  channel = refl;
  sends = λ s. s;
  job = inr refl;
  attempt = inr refl;
  waits = λ w. w;
}

module _ (p : Dispatch → Bool) (closed : IsClosed p) (url_of : String → Option String) where
  settled_waits : (s : JobState) → is_waiting (settled_status s) ≡ false
  settled_waits JobState.running = refl
  settled_waits JobState.reconciling = refl
  settled_waits JobState.succeeded = refl
  settled_waits JobState.failed = refl
  settled_waits JobState.uncertain = refl
  settled_waits (JobState.unsupported s) = refl

  settled_sends : (s : JobState) → is_dispatching (settled_status s) ≡ false
  settled_sends JobState.running = refl
  settled_sends JobState.reconciling = refl
  settled_sends JobState.succeeded = refl
  settled_sends JobState.failed = refl
  settled_sends JobState.uncertain = refl
  settled_sends (JobState.unsupported s) = refl

  settled-Change :
      (now : Instant) (result : Row) (row : Dispatch) → Change row (settled url_of now result row)
  settled-Change now result row =
      Change-status row (settled url_of now result row) refl refl refl refl refl
        (settled_sends result.state) (settled_waits result.state)

  Keeps-settle_with :
      (now : Instant) (result : Row) (q : Dispatch → Bool) (row : Dispatch)
      (a : Option PublishAttempt) (db : Db)
      → find q db.dispatches ≡ some row
      → Keeps p db (settle_with url_of now result row a db).1
  Keeps-settle_with now result q row none db found = Keeps-refl p db
  Keeps-settle_with now result q row (some a) db found = elim (Bool-cases (is_attempt_of row a)) [
    | inr other ↦ rw other (Keeps-refl p db)
    | inl its ↦ rw its (
        Keeps-put p q row (settled url_of now result row) db
          (put_attempt (settled_attempt url_of now result a) db) found refl refl
          (closed row _ (settled-Change now result row)))
  ]

  Keeps-settle_dispatch :
      (now : Instant) (result : Row) (q : Dispatch → Bool) (o : Option Dispatch) (db : Db)
      → find q db.dispatches ≡ o
      → Keeps p db (settle_dispatch url_of now result o db).1
  unfolding settle_dispatch
  Keeps-settle_dispatch now result q none db found = Keeps-refl p db
  Keeps-settle_dispatch now result q (some row) db found =
      elim (Bool-cases (awaits_result result row)) [
        | inr over ↦ rw over (Keeps-refl p db)
        | inl waits ↦ rw waits (
            Keeps-settle_with now result q row (attempt_of row.article_publish_attempt_id db) db
              found)
      ]

  Keeps-settle_result :
      (now : Instant) (job : String) (o : Option Row) (db : Db)
      → Keeps p db (settle_result url_of now job o db).1
  unfolding settle_result
  Keeps-settle_result now job none db = Keeps-refl p db
  Keeps-settle_result now job (some result) db = elim (Bool-cases (is_final result.state)) [
    | inr runs ↦ rw runs (Keeps-refl p db)
    | inl ends ↦ rw ends (
        Keeps-settle_dispatch now result (is_for_job job) (find (is_for_job job) db.dispatches) db
          refl)
  ]

  pub Keeps-apply :
      (now : Instant) (job : String) (db : Db)
      → Keeps p db (apply_xhs_job_result url_of now job db).1
  Keeps-apply now job db = Keeps-settle_result now job (get "xhs" job db.jobs) db

  pub Keeps-interrupt :
      (now : Instant) (job : Option String) (q : Dispatch → Bool) (o : Option Dispatch) (db : Db)
      → find q db.dispatches ≡ o
      → Keeps p db (interrupt_row url_of now job o db)
  unfolding interrupt_row
  Keeps-interrupt now job q none db found = Keeps-refl p db
  Keeps-interrupt now none q (some row) db found = elim (Bool-cases (is_dispatching row.status)) [
    | inr other ↦ rw other (Keeps-refl p db)
    | inl e ↦ rw e (
        Keeps-finish p q now uncertain (some "小红书请求未确认成功；请核对账号笔记后再决定是否重新发布") row row db found
          (closed row _ (Change-status row _ refl refl refl refl refl refl refl)))
  ]
  Keeps-interrupt now (some job) q (some row) db found =
      elim (Bool-cases (is_dispatching row.status)) [
        | inr other ↦ rw other (Keeps-refl p db)
        | inl e ↦ rw e (
            Keeps-trans p db (put_row (interrupted row) db) _
              (Keeps-put p q row (interrupted row) db db found refl refl
                (closed row _ (Change-status row _ refl refl refl refl refl refl refl)))
              (Keeps-apply now job (put_row (interrupted row) db)))
      ]

  Keeps-look_up :
      (now : Instant) (timeout : ℕ) (result : Option Row) (q : Dispatch → Bool) (row : Dispatch)
      (db : Db)
      → find q db.dispatches ≡ some row
      → Keeps p db (look_up now timeout result row db)
  Keeps-look_up now timeout none q row db found =
      elim (Bool-cases (is_overdue now timeout row.started_at)) [
        | inl e ↦ rw e (
            Keeps-finish p q now uncertain _ row (checked_later now row) db found
              (closed row _ (Change-status row _ refl refl refl refl refl refl refl)))
        | inr e ↦ rw e (
            Keeps-put p q row (checked_later now row) db db found refl refl
              (closed row _ (Change-later now row)))
      ]
  Keeps-look_up now timeout (some result) q row db found =
      elim (Bool-cases (is_reconciling result.state)) [
        | inl e ↦ rw e (
            Keeps-put p q row _ db db found refl refl
              (closed row _ (Change-status row _ refl refl refl refl refl refl refl)))
        | inr e ↦ rw e (
            Keeps-put p q row (checked_later now row) db db found refl refl
              (closed row _ (Change-later now row)))
      ]

  Keeps-check_later :
      (now : Instant) (timeout : ℕ) (job : String) (q : Dispatch → Bool) (applied : Bool)
      (o : Option Dispatch) (db : Db)
      → find q db.dispatches ≡ o
      → Keeps p db (check_later now timeout job applied o db)
  Keeps-check_later now timeout job q applied none db found = Keeps-refl p db
  Keeps-check_later now timeout job q true (some row) db found =
      Keeps-put p q row (checked_later now row) db db found refl refl
        (closed row _ (Change-later now row))
  Keeps-check_later now timeout job q false (some row) db found =
      Keeps-look_up now timeout (get "xhs" job db.jobs) q row db found

  Keeps-reconcile_row :
      (now : Instant) (timeout row_id : ℕ) (job : Option String) (db : Db)
      → Keeps p db (reconcile_row url_of now timeout row_id job db)
  Keeps-reconcile_row now timeout row_id none db = Keeps-refl p db
  Keeps-reconcile_row now timeout row_id (some job) db =
      let applied = apply_xhs_job_result url_of now job db in
      Keeps-trans p db applied.1 _ (Keeps-apply now job db) (
        Keeps-check_later now timeout job (has_id row_id) applied.0
          (find (has_id row_id) applied.1.dispatches) applied.1 refl)

  Keeps-reconcile_rows :
      (now : Instant) (timeout : ℕ) (rows : List Dispatch) (db : Db)
      → Keeps p db (reconcile_rows url_of now timeout rows db)
  unfolding reconcile_rows
  Keeps-reconcile_rows now timeout [] db = Keeps-refl p db
  Keeps-reconcile_rows now timeout (row ∷ rows) db =
      let after = reconcile_row url_of now timeout row.id row.xhs_job_id db in
      Keeps-trans p db after _ (Keeps-reconcile_row now timeout row.id row.xhs_job_id db)
        (Keeps-reconcile_rows now timeout rows after)

  pub Keeps-reconcile :
      (now : Instant) (timeout : ℕ) (is_held : Dispatch → Bool) (db : Db)
      → Keeps p db (reconcile_xhs url_of now timeout is_held db)
  unfolding reconcile_xhs
  Keeps-reconcile now timeout is_held db = Keeps-reconcile_rows now timeout _ db

module _ (p : Dispatch → Bool) (closed : IsClosed p) where
  Keeps-give_up_row :
      (now : Instant) (q : Dispatch → Bool) (o : Option Dispatch) (db : Db)
      → find q db.dispatches ≡ o
      → Keeps p db (give_up_row now o db)
  unfolding give_up_row
  Keeps-give_up_row now q none db found = Keeps-refl p db
  Keeps-give_up_row now q (some row) db found =
      Keeps-finish p q now uncertain _ row row db found
        (closed row _ (Change-status row _ refl refl refl refl refl refl refl))

  Keeps-give_up :
      (now : Instant) (rows : List Dispatch) (db : Db) → Keeps p db (give_up now rows db)
  unfolding give_up
  Keeps-give_up now [] db = Keeps-refl p db
  Keeps-give_up now (row ∷ rows) db =
      let after = give_up_row now (find (has_id row.id) db.dispatches) db in
      Keeps-trans p db after _
        (Keeps-give_up_row now (has_id row.id) (find (has_id row.id) db.dispatches) db refl)
        (Keeps-give_up now rows after)

  pub Keeps-abandon :
      (now : Instant) (timeout : ℕ) (is_held : Dispatch → Bool) (db : Db)
      → Keeps p db (mark_abandoned_xhs now timeout is_held db)
  unfolding mark_abandoned_xhs
  Keeps-abandon now timeout is_held db = Keeps-give_up now _ db
