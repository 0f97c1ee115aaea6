-- ===== src/BrowserJobs/Ownership.antt =====
-- browser_job_store.py: the table decides which of two equal requests executes the job.
use auto_x.Prelude.{
  ℕ, String, ◌≡◌, refl, ◌∙◌, inl, inr, Bool, true, false, not, some, List, [], ◌∷◌, arith,
  if◌then◌else◌, str_eq_refl, Bool-cases, Option-cases, update, find-append, Instant,
}
use auto_x.BrowserJobs.{
  Row, Jobs, Request, Outcome, Result, ok, err, different_request, is_job_state, has_key, get,
  accept, finish, finished, keeps_row, renew, renewable, extended, duplicate, same_request, new_row,
}
use auto_x.BrowserJobs.Keys.{get-put_cases, get-update}
use auto_x.BrowserJobs.Outcomes.{
  Call, accept_call, finish_call, renew_call, recovery_call, mark_call, perform, perform_all, Kept,
  accept-keeps, recovery-keeps, mark-keeps,
}

-- The row of a key after some calls: it is there, and it carries the same request.
pub record Owned (namespace job_id : String) (row : Row) (jobs : Jobs) : Type 0 where
  pub found : Row
  pub is_found : get namespace job_id jobs ≡ some found
  pub admin_id : found.admin_id ≡ row.admin_id
  pub fingerprint : found.fingerprint ≡ row.fingerprint

module _ (namespace job_id : String) (row : Row) where
  Kept→Owned : {jobs : Jobs} → Kept namespace job_id row jobs → Owned namespace job_id row jobs
  Kept→Owned k = record {
    found = k.found;
    is_found = k.is_found;
    admin_id = k.same.admin_id;
    fingerprint = k.same.fingerprint;
  }

  owned :
      (jobs : Jobs) (found : Row)
      → get namespace job_id jobs ≡ some found
      → found.admin_id ≡ row.admin_id
      → found.fingerprint ≡ row.fingerprint
      → Owned namespace job_id row jobs
  owned jobs found h a f = record { found = found; is_found = h; admin_id = a; fingerprint = f }

  finish-Owned :
      (now : Instant) (ns id : String) (o : Outcome) (expired : Bool) (jobs : Jobs)
      → get namespace job_id jobs ≡ some row
      → Owned namespace job_id row (finish now ns id o expired jobs).1
  unfolding finish
  finish-Owned now ns id o expired jobs h = elim (Bool-cases (not (is_job_state o.state))) [
    | inl bad ↦ rw bad (owned jobs row h refl refl)
    | inr good ↦ rw good (elim (Option-cases (get ns id jobs)) [
      | inl missing ↦ rw (missing, finish) (owned jobs row h refl refl)
      | inr (old, e) ↦
          rw (e, finish)
            (elim (Bool-cases (keeps_row now expired old)) [
              | inl kept ↦ rw kept (owned jobs row h refl refl)
              | inr written ↦
                  rw written
                    (elim (get-put_cases namespace job_id ns id jobs old (finished now old o) row e
                      (unfold finished in refl) (unfold finished in refl) h) [
                        | inl other ↦ owned _ row other refl refl
                        | inr (is_row, there) ↦
                            owned _ (finished now old o) there
                              (rw (← is_row) (unfold finished in refl))
                              (rw (← is_row) (unfold finished in refl))
                      ])
            ])
    ])
  ]

  renew-Owned :
      (now : Instant) (ns id worker_id : String) (lease : ℕ) (jobs : Jobs)
      → get namespace job_id jobs ≡ some row
      → Owned namespace job_id row (renew now ns id worker_id lease jobs)
  unfolding renew
  renew-Owned now ns id worker_id lease jobs h = elim (Bool-cases (renewable ns id worker_id row)) [
    | inl t ↦
        owned _ (extended now lease row) (step ∙ rw t) (unfold extended in refl)
          (unfold extended in refl)
    | inr f ↦ owned _ row (step ∙ rw f) refl refl
  ]
    where
      step :
          get namespace job_id (update (renewable ns id worker_id) (extended now lease) jobs)
          ≡ some (if renewable ns id worker_id row then extended now lease row else row)
      step =
          get-update namespace job_id (renewable ns id worker_id) (extended now lease) jobs row
            (λ a. unfold has_key extended in refl) h

  perform-Owned :
      (c : Call) (jobs : Jobs)
      → get namespace job_id jobs ≡ some row
      → Owned namespace job_id row (perform c jobs)
  perform-Owned (accept_call now r before after) jobs h =
      owned _ row (accept-keeps namespace job_id row now r before jobs after h) refl refl
  perform-Owned (finish_call now ns id o expired) jobs h = finish-Owned now ns id o expired jobs h
  perform-Owned (renew_call now ns id worker_id lease) jobs h =
      renew-Owned now ns id worker_id lease jobs h
  perform-Owned (recovery_call text_le now ns limit locked) jobs h =
      Kept→Owned (recovery-keeps namespace job_id row text_le now ns limit locked jobs h)
  perform-Owned (mark_call now id delivered state) jobs h =
      Kept→Owned (mark-keeps namespace job_id row now id delivered state jobs h)

perform_all-Owned :
    (namespace job_id : String) (row : Row) (calls : List Call) (jobs : Jobs)
    → get namespace job_id jobs ≡ some row
    → Owned namespace job_id row (perform_all calls jobs)
perform_all-Owned namespace job_id row [] jobs h = owned namespace job_id row jobs row h refl refl
perform_all-Owned namespace job_id row (c ∷ cs) jobs h =
    let k = perform-Owned namespace job_id row c jobs h in
    let later = perform_all-Owned namespace job_id k.found cs (perform c jobs) k.is_found in
    owned namespace job_id row _ later.found later.is_found (later.admin_id ∙ k.admin_id)
      (later.fingerprint ∙ k.fingerprint)

-- What the second of two requests under one key is told.
abbrev pub told : Row → Request → Row → Result (Row × Bool)
told owner r found =
    if same_request owner r.admin_id r.fingerprint then ok (found, false) else err different_request

new_row-key : (now : Instant) (r : Request) → has_key r.namespace r.job_id (new_row now r) ≡ true
unfolding new_row has_key
new_row-key now r = ground (arith, str_eq_refl r.namespace, str_eq_refl r.job_id)

accept_inserted :
    (now : Instant) (r : Request) (before jobs after : Jobs) (row : Row) (jobs' : Jobs)
    → accept now r before jobs after ≡ (ok (row, true), jobs')
    → get r.namespace r.job_id jobs' ≡ some (new_row now r)
unfolding accept duplicate get
accept_inserted now r before jobs after row jobs' h =
    ground
      (arith, find-append (has_key r.namespace r.job_id) jobs (new_row now r), new_row-key now r)

accept-told :
    (later : Instant) (second : Request) (owner found : Row) (there : Jobs)
    → get second.namespace second.job_id there ≡ some found
    → found.admin_id ≡ owner.admin_id
    → found.fingerprint ≡ owner.fingerprint
    → accept later second there there there ≡ (told owner second found, there)
unfolding accept duplicate same_request
accept-told later second owner found there e a f = ground arith

-- Of the requests under one key at most one is told to execute the job. Once `accept` has inserted
-- the row for `first`, then after any calls a later `accept` of the same key inserts nothing: for the
-- same request it returns the row that is there, with `False`, and for another it raises `ValueError`.
pub accept_once :
    (now later : Instant) (first second : Request) (before jobs after : Jobs) (row : Row)
    (jobs' : Jobs) (calls : List Call)
    → accept now first before jobs after ≡ (ok (row, true), jobs')
    → second.namespace ≡ first.namespace
    → second.job_id ≡ first.job_id
    → let now_jobs = perform_all calls jobs' in
      (found : Row) × (get first.namespace first.job_id now_jobs ≡ some found)
      × (accept later second now_jobs now_jobs now_jobs
          ≡ (told (new_row now first) second found, now_jobs))
accept_once now later first second before jobs after row jobs' calls h e₁ e₂ =
    let k =
      perform_all-Owned first.namespace first.job_id (new_row now first) calls jobs'
        (accept_inserted now first before jobs after row jobs' h) in
    (
      k.found,
      k.is_found,
      accept-told later second (new_row now first) k.found (perform_all calls jobs')
          (rw (e₁, e₂) k.is_found) k.admin_id k.fingerprint,
    )
