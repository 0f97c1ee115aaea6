-- ===== src/BrowserJobs/Outcomes.antt =====
-- browser_job_store.py over time: any sequence of calls, by any worker.
use auto_x.Prelude.{
  ℕ, String, ◌≡◌, refl, ap, ◌∙◌, inl, inr, Bool, true, false, not, ◌&&◌, Option, some, List, [],
  ◌∷◌, arith, if◌then◌else◌, Bool-cases, Option-cases, Instant,
}
use auto_x.BrowserJobs.{
  JobState, Row, Jobs, Request, Outcome, is_final, is_known, has_key, get, put, accept, finish,
  finished, renew, renewable, extended, new_row,
}
use auto_x.BrowserJobs.Queues.{
  reserve, selected, recovery_jobs, recovery_batch, mark_callback, marked, other_state,
}
use auto_x.BrowserJobs.Keys.{get-update, get-append, get-put_cases}

-- A call that writes, with the instant at which it reads the clock. `accept` has the two readings
-- of the table that it makes in other transactions, which may be older or newer.
pub data Call : Type 0 where
  accept_call : Instant → Request → Jobs → Jobs → Call
  finish_call : Instant → String → String → Outcome → Bool → Call
  renew_call : Instant → String → String → String → ℕ → Call
  recovery_call : (String → String → Bool) → Instant → String → ℕ → (Row → Bool) → Call
  mark_call : Instant → String → Bool → Option JobState → Call

abbrev pub perform : Call → Jobs → Jobs
perform (accept_call now r before after) jobs = (accept now r before jobs after).1
perform (finish_call now namespace job_id o expired) jobs =
    (finish now namespace job_id o expired jobs).1
perform (renew_call now namespace job_id worker_id lease) jobs =
    renew now namespace job_id worker_id lease jobs
perform (recovery_call text_le now namespace limit locked) jobs =
    (recovery_jobs text_le now namespace limit locked jobs).1
perform (mark_call now job_id delivered state) jobs = mark_callback now job_id delivered state jobs

abbrev pub perform_all : List Call → Jobs → Jobs
perform_all [] jobs = jobs
perform_all (c ∷ cs) jobs = perform_all cs (perform c jobs)

-- The request and the outcome of a row.
pub record SameOutcome (a b : Row) : Type 0 where
  pub admin_id : b.admin_id ≡ a.admin_id
  pub fingerprint : b.fingerprint ≡ a.fingerprint
  pub state : b.state ≡ a.state
  pub document : b.document ≡ a.document
  pub error : b.error ≡ a.error
  pub completed_at : b.completed_at ≡ a.completed_at

pub record Kept (namespace job_id : String) (row : Row) (jobs : Jobs) : Type 0 where
  pub found : Row
  pub is_found : get namespace job_id jobs ≡ some found
  pub same : SameOutcome row found

pub SameOutcome-refl : (a : Row) → SameOutcome a a
SameOutcome-refl a = record {
  admin_id = refl;
  fingerprint = refl;
  state = refl;
  document = refl;
  error = refl;
  completed_at = refl;
}

SameOutcome-trans : {a b c : Row} → SameOutcome a b → SameOutcome b c → SameOutcome a c
SameOutcome-trans h k = record {
  admin_id = k.admin_id ∙ h.admin_id;
  fingerprint = k.fingerprint ∙ h.fingerprint;
  state = k.state ∙ h.state;
  document = k.document ∙ h.document;
  error = k.error ∙ h.error;
  completed_at = k.completed_at ∙ h.completed_at;
}

pub SameOutcome-if :
    (test : Bool) (a b : Row) → SameOutcome a b → SameOutcome a (if test then b else a)
SameOutcome-if true a b h = h
SameOutcome-if false a b h = SameOutcome-refl a

pub SameOutcome-reserve : (now : Instant) (a : Row) → SameOutcome a (reserve now a)
unfolding reserve
SameOutcome-reserve now a = record {
  admin_id = refl;
  fingerprint = refl;
  state = refl;
  document = refl;
  error = refl;
  completed_at = refl;
}

pub SameOutcome-marked :
    (now : Instant) (delivered : Bool) (a : Row) → SameOutcome a (marked now delivered a)
unfolding marked
SameOutcome-marked now true a = record {
  admin_id = refl;
  fingerprint = refl;
  state = refl;
  document = refl;
  error = refl;
  completed_at = refl;
}
SameOutcome-marked now false a = record {
  admin_id = refl;
  fingerprint = refl;
  state = refl;
  document = refl;
  error = refl;
  completed_at = refl;
}

pub marked_key :
    (now : Instant) (delivered : Bool) (a : Row)
    → ((marked now delivered a).namespace ≡ a.namespace)
      × ((marked now delivered a).job_id ≡ a.job_id)
unfolding marked
marked_key now true a = (refl, refl)
marked_key now false a = (refl, refl)

module _ (namespace job_id : String) (row : Row) where
  kept : (jobs : Jobs) → get namespace job_id jobs ≡ some row → Kept namespace job_id row jobs
  kept jobs h = record { found = row; is_found = h; same = SameOutcome-refl row }

  pub accept-keeps :
      (now : Instant) (r : Request) (before jobs after : Jobs)
      → get namespace job_id jobs ≡ some row
      → get namespace job_id (accept now r before jobs after).1 ≡ some row
  unfolding accept
  accept-keeps now r before jobs after h =
      ground (arith, get-append namespace job_id jobs (new_row now r) row)

  pub recovery-keeps :
      (text_le : String → String → Bool) (now : Instant) (ns : String) (limit : ℕ)
      (locked : Row → Bool) (jobs : Jobs)
      → get namespace job_id jobs ≡ some row
      → Kept namespace job_id row (recovery_jobs text_le now ns limit locked jobs).1
  unfolding recovery_jobs
  recovery-keeps text_le now ns limit locked jobs h = record {
    found = if selected batch row then reserve now row else row;
    is_found =
        get-update namespace job_id (selected batch) (reserve now) jobs row
          (λ a. unfold has_key reserve in refl) h;
    same = SameOutcome-if (selected batch row) row (reserve now row) (SameOutcome-reserve now row);
  }
    where
      batch : Jobs
      batch = recovery_batch text_le now ns limit locked jobs

  pub mark-keeps :
      (now : Instant) (id : String) (delivered : Bool) (state : Option JobState) (jobs : Jobs)
      → get namespace job_id jobs ≡ some row
      → Kept namespace job_id row (mark_callback now id delivered state jobs)
  unfolding mark_callback
  mark-keeps now id delivered state jobs h = elim (Option-cases (get "xhs" id jobs)) [
    | inl missing ↦ rw (missing, mark_callback) (kept jobs h)
    | inr (old, e) ↦ elim (Bool-cases (is_final old.state && not (other_state state old.state))) [
      | inl true_test ↦ rw (e, mark_callback) (rw true_test (written old e))
      | inr false_test ↦ rw (e, mark_callback) (rw false_test (kept jobs h))
    ]
  ]
    where
      written :
          (old : Row)
          → get "xhs" id jobs ≡ some old
          → Kept namespace job_id row (put (marked now delivered old) jobs)
      written old e =
          elim (get-put_cases namespace job_id "xhs" id jobs old (marked now delivered old) row e
            (marked_key now delivered old).0 (marked_key now delivered old).1 h) [
              | inl other ↦ kept (put (marked now delivered old) jobs) other
              | inr (is_row, now_there) ↦ record {
                found = marked now delivered old;
                is_found = now_there;
                same = rw (← is_row) (SameOutcome-marked now delivered old);
              }
            ]

module _ (namespace job_id : String) (row : Row) (known : is_known row.state ≡ true) where
  finish-keeps :
      (now : Instant) (ns id : String) (o : Outcome) (expired : Bool) (jobs : Jobs)
      → get namespace job_id jobs ≡ some row
      → get namespace job_id (finish now ns id o expired jobs).1 ≡ some row
  unfolding finish finished
  finish-keeps now ns id o expired jobs h = elim (Option-cases (get ns id jobs)) [
    | inl missing ↦ ground arith
    | inr (old, e) ↦ ground (
      arith,
      get-put_cases namespace job_id ns id jobs old (finished now old o) row e refl refl h,
    )
  ]

  renew-keeps :
      (now : Instant) (ns id worker_id : String) (lease : ℕ) (jobs : Jobs)
      → get namespace job_id jobs ≡ some row
      → get namespace job_id (renew now ns id worker_id lease jobs) ≡ some row
  unfolding renew renewable
  renew-keeps now ns id worker_id lease jobs h = ground (
    arith,
    get-update namespace job_id (renewable ns id worker_id) (extended now lease) jobs row
        (λ a. unfold has_key extended in refl) h,
  )

  perform-keeps :
      (c : Call) (jobs : Jobs)
      → get namespace job_id jobs ≡ some row
      → Kept namespace job_id row (perform c jobs)
  perform-keeps (accept_call now r before after) jobs h =
      kept namespace job_id row _ (accept-keeps namespace job_id row now r before jobs after h)
  perform-keeps (finish_call now ns id o expired) jobs h =
      kept namespace job_id row _ (finish-keeps now ns id o expired jobs h)
  perform-keeps (renew_call now ns id worker_id lease) jobs h =
      kept namespace job_id row _ (renew-keeps now ns id worker_id lease jobs h)
  perform-keeps (recovery_call text_le now ns limit locked) jobs h =
      recovery-keeps namespace job_id row text_le now ns limit locked jobs h
  perform-keeps (mark_call now id delivered state) jobs h =
      mark-keeps namespace job_id row now id delivered state jobs h

-- Whatever calls follow, by whichever workers, a row with a verified outcome (`succeeded` or
-- `failed`) is still found under its key, with the same request, state, data, error and
-- completion time.
pub known_outcome_final :
    (namespace job_id : String) (row : Row) (calls : List Call) (jobs : Jobs)
    → is_known row.state ≡ true
    → get namespace job_id jobs ≡ some row
    → Kept namespace job_id row (perform_all calls jobs)
known_outcome_final namespace job_id row [] jobs known h = kept namespace job_id row jobs h
known_outcome_final namespace job_id row (c ∷ cs) jobs known h =
    let k = perform-keeps namespace job_id row known c jobs h in
    let later =
      known_outcome_final namespace job_id k.found cs (perform c jobs)
        (ap is_known k.same.state ∙ known) k.is_found in
    record {
      found = later.found;
      is_found = later.is_found;
      same = SameOutcome-trans k.same later.same;
    }
