-- ===== src/Publish/Replays.antt =====
-- services/ai_publish.py and api/routes/ai.py: rejections, retries and decisions, on the rows of
-- dispatches.
use auto_x.Prelude.{
  ℕ, String, ◌≡◌, refl, inl, inr, Bool, true, false, not, ◌&&◌, ◌||◌, Option, none, some, ◌==◌,
  Bool-cases, opt_eq, is_some, find, find-test, Instant,
}
use auto_x.Publish.{
  Dispatch, is_failed, is_xhs, is_uncertain, is_dispatching, PublishAttempt, Db, attempt_of,
  put_attempt,
}
use auto_x.Publish.Rows.{Keeps, Keeps-refl, Keeps-put}
use auto_x.Publish.Xhs.{reject_row, rejected, fail_attempt}
use auto_x.Publish.Operators.{
  confirmed_xhs_failure, owner_of, retry_row, replayed, Check, checked, checked_attempt, check_with,
  check_row,
}

fail_attempt_rows :
    (now : Instant) (error : String) (a : Option PublishAttempt) (db : Db)
    → ((fail_attempt now error a db).dispatches ≡ db.dispatches)
      × ((fail_attempt now error a db).jobs ≡ db.jobs)
fail_attempt_rows now error none db = (refl, refl)
fail_attempt_rows now error (some a) db = (refl, refl)

-- The test that refuses a retry.
abbrev pub retry_refused : Dispatch → Db → Bool
retry_refused row db =
    not (is_failed row.status)
    || (is_some row.article_publish_attempt_id && not (confirmed_xhs_failure row db))

module _ (p q : Dispatch → Bool) where
  pub Keeps-reject :
      (now : Instant) (error : String) (retry_after : Option ℕ) (o : Option Dispatch) (db : Db)
      → ((row : Dispatch)
          → q row ≡ true
          → p row ≡ true
          → p (rejected now error retry_after row) ≡ true)
      → find q db.dispatches ≡ o
      → Keeps p db (reject_row now error retry_after o db)
  unfolding reject_row
  Keeps-reject now error retry_after none db keeps found = Keeps-refl p db
  Keeps-reject now error retry_after (some row) db keeps found =
      elim (Bool-cases (is_dispatching row.status)) [
        | inr settled ↦ rw settled (Keeps-refl p db)
        | inl sending ↦
            let same =
              fail_attempt_rows now error (attempt_of row.article_publish_attempt_id db) db in
            rw sending (
              Keeps-put p q row (rejected now error retry_after row) db _ found same.0 same.1
                (keeps row (find-test q db.dispatches row found)))
      ]

  pub Keeps-retry :
      (now : Instant) (o : Option Dispatch) (db : Db)
      → ((row : Dispatch)
          → retry_refused row db ≡ false
          → p row ≡ true
          → p (replayed now row) ≡ true)
      → find q db.dispatches ≡ o
      → Keeps p db (retry_row now o db).1
  unfolding retry_row
  Keeps-retry now none db keeps found = Keeps-refl p db
  Keeps-retry now (some row) db keeps found = elim (Bool-cases (retry_refused row db)) [
    | inl refused ↦ rw refused (Keeps-refl p db)
    | inr passes ↦
        rw passes (Keeps-put p q row (replayed now row) db db found refl refl (keeps row passes))
  ]

  Keeps-check_with :
      (c : Check) (row : Dispatch) (a : Option PublishAttempt) (db : Db)
      → (p row ≡ true → p (checked c row) ≡ true)
      → find q db.dispatches ≡ some row
      → Keeps p db (check_with c row a db).1
  Keeps-check_with c row none db keeps found = Keeps-refl p db
  Keeps-check_with c row (some a) db keeps found =
      elim (Bool-cases (is_xhs a.channel && (a.article_id == row.draft_id))) [
        | inr other ↦ rw other (Keeps-refl p db)
        | inl its ↦ rw its (
            Keeps-put p q row (checked c row) db (put_attempt (checked_attempt c a) db) found refl
              refl keeps)
      ]

  pub Keeps-check :
      (c : Check) (o : Option Dispatch) (db : Db)
      → ((row : Dispatch) → q row ≡ true → p row ≡ true → p (checked c row) ≡ true)
      → find q db.dispatches ≡ o
      → Keeps p db (check_row c o db).1
  unfolding check_row
  Keeps-check c none db keeps found = Keeps-refl p db
  Keeps-check c (some row) db keeps found =
      elim (Bool-cases (
        opt_eq ◌==◌ (owner_of row) (some c.admin_id)
        && (is_uncertain row.status && is_xhs row.channel))) [
          | inr refused ↦ rw refused (Keeps-refl p db)
          | inl passes ↦ rw passes (
              Keeps-check_with c row (attempt_of row.article_publish_attempt_id db) db
                (keeps row (find-test q db.dispatches row found)) found)
        ]
