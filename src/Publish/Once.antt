-- ===== src/Publish/Once.antt =====
-- services/ai_publish.py and api/routes/ai.py: a dispatch that was submitted, over any calls.
use auto_x.Prelude.{
  ℕ, String, ◌≡◌, refl, sym, ap, ◌∙◌, inl, inr, Bool, true, false, not, ◌||◌, Option, none, some,
  List, [], ◌∷◌, arith, ◌==◌, clash, Bool-cases, Option-cases, All, find, find-test, Instant,
  find-All,
}
use auto_x.BrowserJobs.{Row, Jobs, get, is_known}
use auto_x.BrowserJobs.Outcomes
use auto_x.BrowserJobs.Outcomes.{Kept, perform, known_outcome_final}
use auto_x.Publish.{Dispatch, is_waiting, Db, has_id, put_row}
use auto_x.Publish.Rows.{Keeps, Keeps-put}
use auto_x.Publish.Sent.{reserve_row-cases}
use auto_x.Publish.Quiet.{is_quiet, Keeps-quiet}
use auto_x.Publish.Xhs.{Reservation, reserve, reserve_row, reserved, with_attempt, new_attempt}
use auto_x.Publish.Operators.{retry_row}
use auto_x.Publish.Calls.{Call, step, run}
use auto_x.Publish.Replays.{retry_refused, Keeps-reject, Keeps-retry, Keeps-check}
use auto_x.Publish.Submitted.{
  is_sent, IsSubmitted, gives_back, has_failed, sent-Closed, rejected-sent, retry-sent,
  checked-sent,
}

-- What the journal says of a failure stays, whatever is written.
failed_known : (row : Row) → has_failed (some row) ≡ true → is_known row.state ≡ true
failed_known row h = ground arith

write-failed :
    (job_id : String) (c : Outcomes.Call) (jobs : Jobs)
    → has_failed (get "xhs" job_id jobs) ≡ true
    → has_failed (get "xhs" job_id (perform c jobs)) ≡ true
write-failed job_id c jobs h = elim (Option-cases (get "xhs" job_id jobs)) [
  | inl missing ↦ absurd (clash (sym h ∙ ap has_failed missing))
  | inr (row, e) ↦
      let failed : has_failed (some row) ≡ true = sym (ap has_failed e) ∙ h in
      let k = known_outcome_final "xhs" job_id row (c ∷ []) jobs (failed_known row failed) e in
      ap has_failed k.is_found ∙ same_failure row k.found k.same.state ∙ failed
]
  where
    same_failure : (a b : Row) → b.state ≡ a.state → has_failed (some b) ≡ has_failed (some a)
    same_failure a b e = rw e refl

-- A call on a dispatch that was submitted: a failure in the journal stays there, and until there is
-- one the dispatch stays submitted.
record Moves (id : ℕ) (job_id : String) (db after : Db) : Type 0 where
  failure :
      has_failed (get "xhs" job_id db.jobs) ≡ true → has_failed (get "xhs" job_id after.jobs) ≡ true
  sent :
      has_failed (get "xhs" job_id db.jobs) ≡ false
      → IsSubmitted id job_id db
      → IsSubmitted id job_id after

module _ (id : ℕ) (job_id : String) (url_of : String → Option String) where
  moved : (db after : Db) → Keeps (is_sent id job_id) db after → Moves id job_id db after
  moved db after k = record {
    failure = λ h. ap (λ jobs. has_failed (get "xhs" job_id jobs)) k.jobs ∙ h;
    sent = λ u. k.rows;
  }

  retry-jobs :
      (now : Instant) (o : Option Dispatch) (db : Db) → (retry_row now o db).1.jobs ≡ db.jobs
  unfolding retry_row put_row
  retry-jobs now none db = refl
  retry-jobs now (some row) db = elim (Bool-cases (retry_refused row db)) [
    | inl refused ↦ rw refused refl
    | inr passes ↦ rw passes refl
  ]

  -- The row that a reservation takes waits, so it is not a submitted one.
  Keeps-reserve :
      (r : Reservation) (q : Dispatch → Bool) (db : Db)
      → Keeps (is_sent id job_id) db (reserve_row r (find q db.dispatches) db).1
  Keeps-reserve r q db =
      elim (reserve_row-cases (is_sent id job_id) (sent-Closed id job_id) r q (find q db.dispatches)
        db refl) [
          | inl keeps ↦ keeps
          | inr (row, found, reservation) ↦ rw reservation.written (
              Keeps-put (is_sent id job_id) q row (reserved r row) db
                (with_attempt (new_attempt r row) db) found refl refl
                (waiting_free row _ reservation.waits))
        ]
    where
      waiting_free :
          (row : Dispatch) (b : Bool)
          → is_waiting row.status ≡ true
          → is_sent id job_id row ≡ true
          → (not (row.id == id) || b) ≡ true
      waiting_free row b waits sent = ground arith

  Moves-quiet : (c : Call) (db : Db) → is_quiet c ≡ true → Moves id job_id db (step url_of c db)
  Moves-quiet c db h =
      moved db _ (Keeps-quiet (is_sent id job_id) (sent-Closed id job_id) url_of c db h)

  Moves-step :
      (c : Call) (db : Db) → gives_back id c ≡ false → Moves id job_id db (step url_of c db)
  Moves-step (Call.reserves r d) db h = moved db _ (Keeps-reserve r (has_id d) db)
  Moves-step (Call.rejects now error retry_after d) db h = moved db _ (
      Keeps-reject (is_sent id job_id) (has_id d) now error retry_after
        (find (has_id d) db.dispatches) db
        (λ row its s. rejected-sent id job_id now error retry_after d row h its) refl)
  Moves-step (Call.retries now d) db h = record {
    failure = λ f.
        ap (λ jobs. has_failed (get "xhs" job_id jobs))
          (retry-jobs now (find (has_id d) db.dispatches) db)
        ∙ f;
    sent = λ u.
        (Keeps-retry (is_sent id job_id) (has_id d) now (find (has_id d) db.dispatches) db
          (λ row passes s. retry-sent id job_id now row db u passes s) refl).rows;
  }
  Moves-step (Call.checks c d) db h = moved db _ (
      Keeps-check (is_sent id job_id) (has_id d) c (find (has_id d) db.dispatches) db
        (λ row its s. checked-sent id job_id c d row h its s) refl)
  Moves-step (Call.writes c) db h = record {
    failure = λ f. write-failed job_id c db.jobs f;
    sent = λ u s. s;
  }
  Moves-step (Call.interrupts now job d) db h = Moves-quiet (Call.interrupts now job d) db refl
  Moves-step (Call.completes now d) db h = Moves-quiet (Call.completes now d) db refl
  Moves-step (Call.fails_preflight now message retry d) db h =
      Moves-quiet (Call.fails_preflight now message retry d) db refl
  Moves-step (Call.applies now job) db h = Moves-quiet (Call.applies now job) db refl
  Moves-step (Call.reconciles now timeout is_held) db h =
      Moves-quiet (Call.reconciles now timeout is_held) db refl
  Moves-step (Call.abandons now timeout is_held) db h =
      Moves-quiet (Call.abandons now timeout is_held) db refl

  failure_stays :
      (cs : List Call) (db : Db)
      → All (λ c. gives_back id c ≡ false) cs
      → has_failed (get "xhs" job_id db.jobs) ≡ true
      → has_failed (get "xhs" job_id (run url_of cs db).jobs) ≡ true
  unfolding run
  failure_stays [] db h f = f
  failure_stays (c ∷ cs) db h f =
      failure_stays cs (step url_of c db) h.1 ((Moves-step c db h.0).failure f)

  stays_sent :
      (cs : List Call) (db : Db)
      → All (λ c. gives_back id c ≡ false) cs
      → has_failed (get "xhs" job_id (run url_of cs db).jobs) ≡ false
      → IsSubmitted id job_id db
      → IsSubmitted id job_id (run url_of cs db)
  unfolding run
  stays_sent [] db h unfailed s = s
  stays_sent (c ∷ cs) db h unfailed s = elim (Bool-cases (has_failed (get "xhs" job_id db.jobs))) [
    | inl f ↦ absurd (clash (sym (failure_stays (c ∷ cs) db h f) ∙ unfailed))
    | inr u ↦ stays_sent cs (step url_of c db) h.1 unfailed ((Moves-step c db h.0).sent u s)
  ]

  reserve-submitted :
      (r : Reservation) (db : Db) → IsSubmitted id job_id db → reserve r id db ≡ (false, db)
  unfolding reserve_row
  reserve-submitted r db s = elim (Option-cases (find (has_id id) db.dispatches)) [
    | inl missing ↦ rw missing refl
    | inr (row, e) ↦
        let its : (row.id == id) ≡ true = find-test (has_id id) db.dispatches row e in
        let sent : is_sent id job_id row ≡ true =
          find-All (λ (a : Dispatch). is_sent id job_id a ≡ true) (has_id id) db.dispatches row s
            e in
        let settled : is_waiting row.status ≡ false = ground arith in rw (e, settled) refl
  ]

-- A dispatch was submitted to the browser worker as a job: it holds the job and an attempt, and does
-- not wait. Any calls of dispatchers, administrators, callbacks and the worker follow, in any order,
-- among them repeated reservations and retries of the dispatch; but its submission is not rejected,
-- and no administrator decides that it was not published. If the journal then has no failure of the
-- job, the dispatch is still submitted as that job, and a reservation of it submits nothing and
-- changes no row.
pub publish_once :
    (id : ℕ) (job_id : String) (url_of : String → Option String) (calls : List Call) (db : Db)
    (r : Reservation)
    → IsSubmitted id job_id db
    → All (λ c. gives_back id c ≡ false) calls
    → has_failed (get "xhs" job_id (run url_of calls db).jobs) ≡ false
    → IsSubmitted id job_id (run url_of calls db)
      × (reserve r id (run url_of calls db) ≡ (false, run url_of calls db))
publish_once id job_id url_of calls db r sent given unfailed =
    let still = stays_sent id job_id url_of calls db given unfailed sent in
    (still, reserve-submitted id job_id url_of r (run url_of calls db) still)
