-- ===== src/Publish/Rows.antt =====
-- services/ai_publish.py: what a transaction may do to a dispatch without a submission, and the
-- predicates of rows that it keeps.
use auto_x.Prelude.{
  String, ◌≡◌, refl, sym, ◌∙◌, subst, ◌⊎◌, inl, inr, Bool, true, false, Option, none, some, clash,
  Bool-cases, All, find, Instant, All-update, find-All,
}
use auto_x.Publish.{
  Dispatch, DispatchStatus, is_waiting, is_dispatching, PublishAttempt, Db, put_row, attempt_of,
  end_attempt, is_open_attempt, finish, finished,
}

-- The row does not become `dispatching`, and unless it waits, it keeps its job and its attempt.
pub record Change (row new : Dispatch) : Type 0 where
  pub id : new.id ≡ row.id
  pub owner : new.owner_admin_id ≡ row.owner_admin_id
  pub channel : new.channel ≡ row.channel
  pub sends : is_dispatching new.status ≡ true → is_dispatching row.status ≡ true
  pub job : (is_waiting row.status ≡ true) ⊎ (new.xhs_job_id ≡ row.xhs_job_id)
  pub attempt :
      (is_waiting row.status ≡ true)
      ⊎ (new.article_publish_attempt_id ≡ row.article_publish_attempt_id)
  pub waits : is_waiting new.status ≡ true → is_waiting row.status ≡ true

abbrev pub IsClosed : (Dispatch → Bool) → Type 0
IsClosed p = (row new : Dispatch) → Change row new → p row ≡ true → p new ≡ true

abbrev pub Holds : (Dispatch → Bool) → Db → Type 0
Holds p db = All (λ row. p row ≡ true) db.dispatches

-- A transaction that leaves the journal alone and keeps what holds of every row.
pub record Keeps (p : Dispatch → Bool) (db after : Db) : Type 0 where
  pub jobs : after.jobs ≡ db.jobs
  pub rows : Holds p db → Holds p after

module _ (p : Dispatch → Bool) where
  pub Keeps-refl : (db : Db) → Keeps p db db
  Keeps-refl db = record { jobs = refl; rows = λ h. h }

  pub Keeps-trans : (a b c : Db) → Keeps p a b → Keeps p b c → Keeps p a c
  Keeps-trans a b c h k = record { jobs = k.jobs ∙ h.jobs; rows = λ s. k.rows (h.rows s) }

  -- A row that a query has found is written, after a change of the attempts.
  pub Keeps-put :
      (q : Dispatch → Bool) (row new : Dispatch) (db mid : Db)
      → find q db.dispatches ≡ some row
      → mid.dispatches ≡ db.dispatches
      → mid.jobs ≡ db.jobs
      → (p row ≡ true → p new ≡ true)
      → Keeps p db (put_row new mid)
  unfolding put_row
  Keeps-put q row new db mid found same jobs keeps = record {
    jobs = jobs;
    rows = λ h.
        let there : p row ≡ true =
          find-All (λ (r : Dispatch). p r ≡ true) q db.dispatches row h found in
        All-update (λ (r : Dispatch). p r ≡ true) _ _ mid.dispatches (λ old k e. keeps there)
          (subst (All (λ (r : Dispatch). p r ≡ true)) (sym same) h);
  }

  end_attempt_rows :
      (now : Instant) (status : DispatchStatus) (error : Option String) (a : Option PublishAttempt)
      (db : Db)
      → ((end_attempt now status error a db).dispatches ≡ db.dispatches)
        × ((end_attempt now status error a db).jobs ≡ db.jobs)
  end_attempt_rows now status error none db = (refl, refl)
  end_attempt_rows now status error (some a) db = elim (Bool-cases (is_open_attempt a)) [
    | inl e ↦ rw e (refl, refl)
    | inr e ↦ rw e (refl, refl)
  ]

  pub Keeps-finish :
      (q : Dispatch → Bool) (now : Instant) (status : DispatchStatus) (error : Option String)
      (row new : Dispatch) (db : Db)
      → find q db.dispatches ≡ some row
      → (p row ≡ true → p (finished now status error new) ≡ true)
      → Keeps p db (finish now status error new db)
  unfolding finish
  Keeps-finish q now status error row new db found keeps =
      let same =
        end_attempt_rows now status (finished now status error new).last_error
          (attempt_of new.article_publish_attempt_id db) db in
      Keeps-put q row (finished now status error new) db _ found same.0 same.1 keeps

-- A row that waits may be written anew.
pub Change-waiting :
    (row new : Dispatch)
    → is_waiting row.status ≡ true
    → new.id ≡ row.id
    → new.owner_admin_id ≡ row.owner_admin_id
    → new.channel ≡ row.channel
    → is_dispatching new.status ≡ false
    → Change row new
Change-waiting row new waits id owner channel idle = record {
  id = id;
  owner = owner;
  channel = channel;
  sends = λ s. absurd (clash (sym s ∙ idle));
  job = inl waits;
  attempt = inl waits;
  waits = λ w. waits;
}

-- Another status, with the same job and attempt.
pub Change-status :
    (row new : Dispatch)
    → new.id ≡ row.id
    → new.owner_admin_id ≡ row.owner_admin_id
    → new.channel ≡ row.channel
    → new.xhs_job_id ≡ row.xhs_job_id
    → new.article_publish_attempt_id ≡ row.article_publish_attempt_id
    → is_dispatching new.status ≡ false
    → is_waiting new.status ≡ false
    → Change row new
Change-status row new id owner channel job attempt idle settled = record {
  id = id;
  owner = owner;
  channel = channel;
  sends = λ s. absurd (clash (sym s ∙ idle));
  job = inr job;
  attempt = inr attempt;
  waits = λ w. absurd (clash (sym w ∙ settled));
}
