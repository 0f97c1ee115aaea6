-- ===== src/Publish/Examples.antt =====
-- services/ai_publish.py on concrete tables.
use auto_x.Prelude.{
  ℕ, String, ◌≡◌, refl, true, false, ◌&&◌, Option, none, some, List, [], ◌∷◌, map, arith, find,
  order_by,
}
use auto_x.BrowserJobs.{JobState, Row, Outcome, get, has_key, put, changes, finished, keeps_row}
use auto_x.BrowserJobs
use auto_x.BrowserJobs.Outcomes
use auto_x.Publish.{
  has_id, pending, uncertain, Dispatch, xhs, dispatching, PublishAttempt, open_attempt, Db, put_row,
  finish,
}
use auto_x.Publish.Xhs.{
  interrupted, queued_behind, Reservation, reserve, reserve_row, interrupt_row,
}
use auto_x.Publish.Results.{
  apply_xhs_job_result, settle_result, settle_dispatch, reconcile_xhs, reconcile_rows,
}
use auto_x.Publish.Operators.{retry_row}
use auto_x.Publish.Submitted.{IsSubmitted, has_failed}
use auto_x.Publish.Calls.{Call, run}
use auto_x.Publish.Once.{publish_once}
use auto_x.Publish.Alone.{sends_for}
use auto_x.Publish.Account.{one_post_per_account}
use auto_x.Publish.Idempotent.{callback_idempotent}

abbrev dispatch : Dispatch
dispatch = record {
  id = 5;
  draft_id = 3;
  owner_admin_id = some 7;
  snapshot_owner_id = some 7;
  channel = xhs;
  status = dispatching;
  attempts = 1;
  rejection_attempts = 0;
  next_attempt_at = 11;
  article_publish_attempt_id = some "a1";
  xhs_job_id = some "j1";
  last_error = none;
  reconciliation_result = none;
  published_url = none;
  reconciled_at = none;
  started_at = some 1;
  completed_at = none;
}

abbrev attempt : PublishAttempt
attempt = record {
  attempt_id = "a1";
  article_id = 3;
  channel = xhs;
  status = open_attempt;
  delivery_count = 1;
  error = none;
  reconciliation_result = none;
  published_url = none;
  reconciled_at = none;
  completed_at = none;
}

abbrev result : Row
result = record {
  namespace = "xhs";
  job_id = "j1";
  admin_id = some 7;
  fingerprint = "f1";
  state = JobState.running;
  document = "{}";
  error = none;
  worker_id = some "w1";
  lease_expires_at = none;
  next_recovery_at = none;
  callback_attempts = 0;
  next_callback_at = none;
  callback_delivered_at = none;
  started_at = 2;
  completed_at = none;
  created_at = 2;
  updated_at = 2;
}

abbrev published : Outcome
published = record { state = JobState.succeeded; document = some "note"; error = none }

abbrev tables : Db
tables = record { dispatches = dispatch ∷ []; attempts = attempt ∷ []; jobs = result ∷ [] }

abbrev request : Reservation
request = record {
  now = 90;
  admin_id = 7;
  has_admin = true;
  attempt_id = "a2";
  xhs_job_id = some "j2";
}

abbrev document_url : String → Option String
document_url document = some document

abbrev calls : List Call
calls =
    Call.interrupts 20 (some "j1") 5
    ∷ Call.retries 30 5
    ∷ Call.writes (Outcomes.Call.finish_call 35 "xhs" "j1" published false)
    ∷ Call.reserves request 5
    ∷ Call.reconciles 40 60 (λ row. false)
    ∷ []

published_kept : has_failed (get "xhs" "j1" (run document_url calls tables).jobs) ≡ false
unfolding run get has_key put keeps_row changes finished BrowserJobs.finish finish interrupt_row
    settle_result settle_dispatch reconcile_xhs reconcile_rows retry_row reserve_row put_row
    order_by
published_kept = refl

publish_once_example :
    IsSubmitted 5 "j1" (run document_url calls tables)
    × (reserve request 5 (run document_url calls tables) ≡ (false, run document_url calls tables))
publish_once_example =
    publish_once 5 "j1" document_url calls tables request (refl, tt)
      (refl, (refl, (refl, (refl, (refl, tt))))) published_kept

abbrev lost : Db
lost = record tables {
  jobs =
      record result { state = JobState.uncertain; error = some "timeout"; completed_at = some 30 }
      ∷ [];
}

callback_idempotent_example :
    (apply_xhs_job_result document_url 60 "j1" (apply_xhs_job_result document_url 40 "j1" lost).1).1
    ≡ (apply_xhs_job_result document_url 40 "j1" lost).1
unfolding get has_key
callback_idempotent_example =
    callback_idempotent document_url 40 60 "j1"
      (record result { state = JobState.uncertain; error = some "timeout"; completed_at = some 30 })
      30 lost refl refl

-- The first notification changes the dispatch.
lost_unknown :
    map
      (λ (row : Dispatch). row.status)
      (apply_xhs_job_result document_url 40 "j1" lost).1.dispatches
    ≡ uncertain ∷ []
unfolding get has_key put_row settle_result settle_dispatch
lost_unknown = refl

abbrev account_of : ℕ → ℕ
account_of id = 7

abbrev two : Db
two = record tables { dispatches = dispatch ∷ record dispatch { id = 6; status = pending } ∷ [] }

-- The second dispatch is held up, by the first one, whose submission was interrupted.
abbrev in_turn : List Call
in_turn = Call.reserves request 6 ∷ Call.interrupts 20 (some "j1") 5 ∷ []

abbrev first : Dispatch
first = interrupted dispatch

abbrev second : Dispatch
second = queued_behind 90 (record dispatch { id = 6; status = pending })

first_reconciling : find (has_id 5) (run document_url in_turn two).dispatches ≡ some first
unfolding run get has_key settle_result reserve_row interrupt_row put_row
first_reconciling = refl

second_queued : find (has_id 6) (run document_url in_turn two).dispatches ≡ some second
unfolding run get has_key settle_result reserve_row interrupt_row put_row
second_queued = refl

one_post_per_account_example :
    ((reserve request 6 (run document_url in_turn two)).0 ≡ false)
    × ((sends_for 7 first && sends_for 7 second) ≡ false)
one_post_per_account_example =
    one_post_per_account account_of 5 5 6 document_url in_turn two request first second
      (refl, (refl, tt)) (refl, (refl, tt)) (λ e. absurd (omega arith)) first_reconciling
      second_queued refl
