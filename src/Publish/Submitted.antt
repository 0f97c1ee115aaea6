-- ===== src/Publish/Submitted.antt =====
-- services/ai_publish.py and api/routes/ai.py: a dispatch that was submitted as a job, and what ends
-- that.
use auto_x.Prelude.{
  ℕ, ◌+◌, String, ◌≡◌, refl, sym, ◌∙◌, ◌⊎◌, inl, inr, Bool, true, false, not, ◌&&◌, ◌||◌, Option,
  none, some, arith, str_eq, leb, ◌==◌, ==_iff, clash, Bool-cases, is_some, opt_str_eq,
  opt_str_eq→eq, &&-right, Instant,
}
use auto_x.BrowserJobs.{JobState, Row, get}
use auto_x.Publish.{Dispatch, is_waiting, Db, has_id}
use auto_x.Publish.Rows.{IsClosed, Holds}
use auto_x.Publish.Xhs.{rejected}
use auto_x.Publish.Operators.{
  is_failed_result, job_failed, confirmed_xhs_failure, replayed, Check, found_published,
  found_not_published, still_uncertain, checked,
}
use auto_x.Publish.Replays.{retry_refused}
use auto_x.Publish.Calls.{Call}

-- The row is another dispatch, or it holds the job and an attempt and does not wait.
abbrev pub is_sent : ℕ → String → Dispatch → Bool
is_sent id job_id row =
    not (row.id == id)
    || (opt_str_eq row.xhs_job_id (some job_id)
        && (is_some row.article_publish_attempt_id && not (is_waiting row.status)))

abbrev pub IsSubmitted : ℕ → String → Db → Type 0
IsSubmitted id job_id db = Holds (is_sent id job_id) db

-- A call that says nothing was published: the service has rejected the dispatch, or an administrator
-- has found nothing on the platform.
abbrev pub gives_back : ℕ → Call → Bool
gives_back id (Call.rejects now error retry_after d) = d == id
gives_back id (Call.checks c d) = elim c.decision [
  | found_published ↦ false
  | found_not_published ↦ d == id
  | still_uncertain ↦ false
]
gives_back id _ = false

abbrev pub has_failed : Option Row → Bool
has_failed none = false
has_failed (some row) = elim row.state [
  | JobState.failed ↦ true
  | JobState.running ↦ false
  | JobState.reconciling ↦ false
  | JobState.succeeded ↦ false
  | JobState.uncertain ↦ false
  | JobState.unsupported s ↦ false
]

failed_result :
    (admin_id : Option ℕ) (o : Option Row)
    → is_failed_result admin_id o ≡ true
    → has_failed o ≡ true
failed_result admin_id none h = cc
failed_result admin_id (some row) h = ground arith

pub rejected_id :
    (now : Instant) (error : String) (retry_after : Option ℕ) (row : Dispatch)
    → (rejected now error retry_after row).id ≡ row.id
rejected_id now error retry_after row = elim (Bool-cases (leb 5 (row.rejection_attempts + 1))) [
  | inl e ↦ rw e refl
  | inr e ↦ rw e refl
]

unless_waiting : {b : Bool} → {x y : Option String} → b ≡ false → (b ≡ true) ⊎ (x ≡ y) → x ≡ y
unless_waiting h (inl e) = absurd (clash (sym e ∙ h))
unless_waiting h (inr e) = e

module _ (id : ℕ) (job_id : String) where
  pub sent-Closed : IsClosed (is_sent id job_id)
  sent-Closed row new c sent = elim (Bool-cases (row.id == id)) [
    | inr other ↦ rw (c.id, other) refl
    | inl its ↦
        let waits : is_waiting row.status ≡ false = ground arith in
        let job : opt_str_eq row.xhs_job_id (some job_id) ≡ true = ground arith in
        let attempt : is_some row.article_publish_attempt_id ≡ true = ground arith in
        elim (Bool-cases (is_waiting new.status)) [
          | inl w ↦ absurd (clash (sym (c.waits w) ∙ waits))
          | inr n ↦
              rw
                (
                  c.id,
                  its,
                  unless_waiting waits c.job,
                  job,
                  unless_waiting waits c.attempt,
                  attempt,
                  n,
                )
                refl
        ]
  ]

  -- The journal is read by `confirmed_xhs_failure` of a submitted dispatch.
  failure-job :
      (row : Dispatch) (db : Db)
      → (row.id == id) ≡ true
      → is_sent id job_id row ≡ true
      → confirmed_xhs_failure row db ≡ true
      → has_failed (get "xhs" job_id db.jobs) ≡ true
  failure-job row db its sent h =
      let same : row.xhs_job_id ≡ some job_id =
        opt_str_eq→eq row.xhs_job_id (some job_id) (ground arith) in
      let failure : job_failed row.owner_admin_id row.xhs_job_id db ≡ true = ground arith in
      failed_result row.owner_admin_id (get "xhs" job_id db.jobs)
        (&&-right (not (str_eq job_id "")) _ (rw same at failure))

  elsewhere : (row : Dispatch) → (row.id == id) ≡ false → is_sent id job_id row ≡ true
  elsewhere row h = rw h refl

  pub rejected-sent :
      (now : Instant) (error : String) (retry_after : Option ℕ) (d : ℕ) (row : Dispatch)
      → (d == id) ≡ false
      → has_id d row ≡ true
      → is_sent id job_id (rejected now error retry_after row) ≡ true
  rejected-sent now error retry_after d row other its =
      let there : row.id ≡ d = (==_iff row.id d).0 its in
      elsewhere (rejected now error retry_after row)
        (rw (rejected_id now error retry_after row, there) other)

  -- A row that the guard of a retry lets pass.
  pub retry-sent :
      (now : Instant) (row : Dispatch) (db : Db)
      → has_failed (get "xhs" job_id db.jobs) ≡ false
      → retry_refused row db ≡ false
      → is_sent id job_id row ≡ true
      → is_sent id job_id (replayed now row) ≡ true
  retry-sent now row db unfailed guard sent = elim (Bool-cases (row.id == id)) [
    | inr other ↦ elsewhere (replayed now row) other
    | inl its ↦
        let confirmed : confirmed_xhs_failure row db ≡ true = ground arith in
        absurd (clash (sym (failure-job row db its sent confirmed) ∙ unfailed))
  ]

  pub checked-sent :
      (c : Check) (d : ℕ) (row : Dispatch)
      → gives_back id (Call.checks c d) ≡ false
      → has_id d row ≡ true
      → is_sent id job_id row ≡ true
      → is_sent id job_id (checked c row) ≡ true
  checked-sent c d row keeps its sent =
      let there : row.id ≡ d = (==_iff row.id d).0 its in ground arith
