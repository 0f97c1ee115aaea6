-- ===== src/Publish/Idempotent.antt =====
-- services/xhs_publish_results.py: the same notification again.
use auto_x.Prelude.{
  String, ◌≡◌, refl, ap, ◌∙◌, ◌⊎◌, inl, inr, Bool, true, false, Option, none, some, ==_refl,
  str_eq_refl, Bool-cases, find, find-test, Instant, find-written, update-twice,
}
use auto_x.BrowserJobs.{Row, is_final, get}
use auto_x.Publish.{
  Dispatch, PublishAttempt, Db, has_id, has_attempt_id, put_row, put_attempt, attempt_of,
}
use auto_x.Publish.Results.{
  is_for_job, awaits_result, is_attempt_of, settled, settled_attempt, settle_dispatch,
  settle_result, apply_xhs_job_result,
}

module _ (url_of : String → Option String) (job_id : String) (result : Row) (t : Instant) where
  -- The two rows that a result writes.
  abbrev written : Instant → Dispatch → PublishAttempt → Db → Db
  written now row a db =
      put_row (settled url_of now result row) (put_attempt (settled_attempt url_of now result a) db)

  -- A row and its attempt that the result is applied to.
  record Applies (db : Db) (row : Dispatch) (a : PublishAttempt) : Type 0 where
    its_job : find (is_for_job job_id) db.dispatches ≡ some row
    awaits : awaits_result result row ≡ true
    its_attempt : attempt_of row.article_publish_attempt_id db ≡ some a
    fits : is_attempt_of row a ≡ true

  abbrev Settles : Db → Option Dispatch → Type 0
  Settles db o =
      ((now : Instant) → (settle_dispatch url_of now result o db).1 ≡ db)
      ⊎ ((row : Dispatch) × (a : PublishAttempt) × Applies db row a
          × ((now : Instant) → (settle_dispatch url_of now result o db).1 ≡ written now row a db))

  Settles-with :
      (db : Db) (row : Dispatch) (a : Option PublishAttempt)
      → find (is_for_job job_id) db.dispatches ≡ some row
      → awaits_result result row ≡ true
      → attempt_of row.article_publish_attempt_id db ≡ a
      → Settles db (some row)
  unfolding settle_dispatch
  Settles-with db row none found awaits there = inl (λ now. rw (awaits, there) refl)
  Settles-with db row (some a) found awaits there = elim (Bool-cases (is_attempt_of row a)) [
    | inr other ↦ inl (λ now. rw (awaits, there, other) refl)
    | inl fits ↦ inr (
      row,
      a,
      record { its_job = found; awaits = awaits; its_attempt = there; fits = fits },
      λ now. rw (awaits, there, fits) refl,
    )
  ]

  settles :
      (db : Db) (o : Option Dispatch) → find (is_for_job job_id) db.dispatches ≡ o → Settles db o
  unfolding settle_dispatch
  settles db none found = inl (λ now. refl)
  settles db (some row) found = elim (Bool-cases (awaits_result result row)) [
    | inr over ↦ inl (λ now. rw over refl)
    | inl awaits ↦
        Settles-with db row (attempt_of row.article_publish_attempt_id db) found awaits refl
  ]

  settled_again :
      (now later : Instant) (row : Dispatch)
      → result.completed_at ≡ some t
      → settled url_of later result (settled url_of now result row) ≡ settled url_of now result row
  settled_again now later row h = rw h refl

  attempt_again :
      (now later : Instant) (a : PublishAttempt)
      → result.completed_at ≡ some t
      → settled_attempt url_of later result (settled_attempt url_of now result a)
        ≡ settled_attempt url_of now result a
  attempt_again now later a h = rw h refl

  written_again :
      (now later : Instant) (row : Dispatch) (a : PublishAttempt) (db : Db)
      → result.completed_at ≡ some t
      → written later
          (settled url_of now result row)
          (settled_attempt url_of now result a)
          (written now row a db)
        ≡ written now row a db
  unfolding put_row
  written_again now later row a db h =
      let rows = update-twice (has_id row.id) (settled url_of now result row) db.dispatches in
      let attempts =
        update-twice (has_attempt_id a.attempt_id) (settled_attempt url_of now result a)
          db.attempts in
      rw (settled_again now later row h, attempt_again now later a h, rows, attempts) refl

  applied-get :
      (now : Instant) (db : Db)
      → get "xhs" job_id db.jobs ≡ some result
      → is_final result.state ≡ true
      → apply_xhs_job_result url_of now job_id db
        ≡ settle_dispatch url_of now result (find (is_for_job job_id) db.dispatches) db
  unfolding settle_result
  applied-get now db h ends = rw (h, settle_result, ends) refl

  attempt-written :
      (now : Instant) (row : Dispatch) (a : PublishAttempt) (db : Db) (attempt_id : Option String)
      → attempt_of attempt_id db ≡ some a
      → attempt_of attempt_id (written now row a db) ≡ some (settled_attempt url_of now result a)
  unfolding put_row
  attempt-written now row a db none h = cc
  attempt-written now row a db (some attempt_id) h =
      find-written (has_attempt_id a.attempt_id) (has_attempt_id attempt_id)
        (settled_attempt url_of now result a) db.attempts a h (str_eq_refl a.attempt_id)
        (find-test (has_attempt_id attempt_id) db.attempts a h)

  -- What the second application finds, and does.
  settle-written :
      (now later : Instant) (row : Dispatch) (a : PublishAttempt) (db : Db)
      → result.completed_at ≡ some t
      → Applies db row a
      → (settle_dispatch url_of later result
          (find (is_for_job job_id) (written now row a db).dispatches)
          (written now row a db)).1
        ≡ written now row a db
  unfolding settle_dispatch put_row
  settle-written now later row a db h applies =
      let found =
        find-written (has_id row.id) (is_for_job job_id) (settled url_of now result row)
          db.dispatches row applies.its_job (==_refl row.id)
          (find-test (is_for_job job_id) db.dispatches row applies.its_job) in
      elim (Bool-cases (awaits_result result (settled url_of now result row))) [
        | inr over ↦ rw (found, over) refl
        | inl awaits ↦
            let attempt =
              attempt-written now row a db row.article_publish_attempt_id applies.its_attempt in
            rw (found, awaits, attempt, applies.fits) (written_again now later row a db h)
      ]

  fixed :
      (later : Instant) (x y : Db)
      → x ≡ y
      → (apply_xhs_job_result url_of later job_id y).1 ≡ y
      → (apply_xhs_job_result url_of later job_id x).1 ≡ x
  fixed later x y e h = rw e h

  apply-runs :
      (now : Instant) (db : Db)
      → get "xhs" job_id db.jobs ≡ some result
      → is_final result.state ≡ false
      → (apply_xhs_job_result url_of now job_id db).1 ≡ db
  unfolding settle_result
  apply-runs now db there runs = rw (there, settle_result, runs) refl

  apply-final :
      (now : Instant) (db after : Db)
      → get "xhs" job_id db.jobs ≡ some result
      → is_final result.state ≡ true
      → (settle_dispatch url_of now result (find (is_for_job job_id) db.dispatches) db).1 ≡ after
      → (apply_xhs_job_result url_of now job_id db).1 ≡ after
  apply-final now db after there ends h =
      ap (λ (x : Bool × Db). x.1) (applied-get now db there ends) ∙ h

  get-written :
      (now : Instant) (row : Dispatch) (a : PublishAttempt) (db : Db)
      → get "xhs" job_id db.jobs ≡ some result
      → get "xhs" job_id (written now row a db).jobs ≡ some result
  unfolding put_row
  get-written now row a db h = h

  apply-twice :
      (now later : Instant) (db : Db)
      → get "xhs" job_id db.jobs ≡ some result
      → result.completed_at ≡ some t
      → is_final result.state ≡ true
      → (apply_xhs_job_result url_of later job_id (apply_xhs_job_result url_of now job_id db).1).1
        ≡ (apply_xhs_job_result url_of now job_id db).1
  apply-twice now later db there h ends =
      elim (settles db (find (is_for_job job_id) db.dispatches) refl) [
        | inl same ↦
            fixed later _ db (apply-final now db db there ends (same now))
              (apply-final later db db there ends (same later))
        | inr (row, a, applies, writes) ↦
            fixed later _ (written now row a db)
              (apply-final now db (written now row a db) there ends (writes now))
              (apply-final later (written now row a db) (written now row a db)
                (get-written now row a db there) ends (settle-written now later row a db h applies))
      ]

-- A final result of the journal has its time of completion. However late its notification comes
-- again, the second one leaves all tables as the first has left them.
pub callback_idempotent :
    (url_of : String → Option String) (now later : Instant) (job_id : String) (result : Row)
    (t : Instant) (db : Db)
    → get "xhs" job_id db.jobs ≡ some result
    → result.completed_at ≡ some t
    → (apply_xhs_job_result url_of later job_id (apply_xhs_job_result url_of now job_id db).1).1
      ≡ (apply_xhs_job_result url_of now job_id db).1
callback_idempotent url_of now later job_id result t db there h =
    elim (Bool-cases (is_final result.state)) [
      | inl ends ↦ apply-twice url_of job_id result t now later db there h ends
      | inr runs ↦
          fixed url_of job_id result t later _ db
            (apply-runs url_of job_id result t now db there runs)
            (apply-runs url_of job_id result t later db there runs)
    ]
