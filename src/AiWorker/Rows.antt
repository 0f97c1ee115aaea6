-- ===== src/AiWorker/Rows.antt =====
-- ai_worker.py: the attempts of a job, the newest first, and what closing one does to them.
use auto_x.Prelude.{
  ℕ, zero, suc, String, ◌≡◌, refl, ap, ◌∙◌, inl, inr, Bool, true, false, Option, List, [], ◌∷◌,
  arith, ◌==◌, if◌then◌else◌, ==_iff, ==_refl, Bool-cases, length, where_true, any_true, update,
  Instant,
}
use auto_x.AiWorker.{
  Job, AttemptStatus, is_open, Attempt, is_current, closed, Db, set, finish_attempt,
}

-- Numbered from n down to 1, all ended.
abbrev pub IsEnded : ℕ → List Attempt → Type 0
IsEnded zero [] = Unit
IsEnded (suc n) [] = ⊥
IsEnded zero (a ∷ others) = ⊥
IsEnded (suc n) (a ∷ others) =
    (a.lifetime_number ≡ suc n) × (is_open a.status ≡ false) × IsEnded n others

-- The same, but the newest may be open.
abbrev pub IsNumbered : ℕ → Bool → List Attempt → Type 0
IsNumbered zero b [] = b ≡ false
IsNumbered (suc n) b [] = ⊥
IsNumbered zero b (a ∷ others) = ⊥
IsNumbered (suc n) b (a ∷ others) =
    (a.lifetime_number ≡ suc n) × (is_open a.status ≡ b) × IsEnded n others

pub ended_kept :
    (n m : ℕ) (f : Attempt → Attempt) (attempts : List Attempt)
    → IsEnded n attempts
    → update (is_current m) f attempts ≡ attempts
ended_kept zero m f [] h = refl
ended_kept (suc n) m f [] h = absurd h
ended_kept zero m f (a ∷ attempts) h = absurd h
ended_kept (suc n) m f (a ∷ attempts) (number, over, rest) =
    let same = ended_kept n m f attempts rest in
    elim (Bool-cases (a.lifetime_number == m)) [
      | inl e ↦ rw (e, over, same) refl
      | inr e ↦ rw (e, same) refl
    ]

pub IsNumbered-closed :
    (n : ℕ) (status : AttemptStatus) (now : Instant) (error_type : Option String)
    (attempts : List Attempt)
    → is_open status ≡ false
    → IsNumbered n true attempts
    → IsNumbered n false (update (is_current n) (closed status now error_type) attempts)
IsNumbered-closed zero status now error_type [] over h = absurd cc
IsNumbered-closed (suc n) status now error_type [] over h = absurd h
IsNumbered-closed zero status now error_type (a ∷ attempts) over h = absurd h
IsNumbered-closed (suc n) status now error_type (a ∷ attempts) over (number, on, rest) =
    rw
      (
        number,
        ==_refl (suc n),
        on,
        ended_kept n (suc n) (closed status now error_type) attempts rest,
      )
      (refl, over, rest)

pub ended_open :
    (n : ℕ) (attempts : List Attempt)
    → IsEnded n attempts
    → (length attempts ≡ n) × (length (where_true (λ (a : Attempt). is_open a.status) attempts) ≡ 0)
ended_open zero [] h = (refl, refl)
ended_open (suc n) [] h = absurd h
ended_open zero (a ∷ attempts) h = absurd h
ended_open (suc n) (a ∷ attempts) (number, over, rest) =
    let r = ended_open n attempts rest in (ap suc r.0, rw over r.1)

pub numbered_open :
    (n : ℕ) (b : Bool) (attempts : List Attempt)
    → IsNumbered n b attempts
    → (length attempts ≡ n)
      × (length (where_true (λ (a : Attempt). is_open a.status) attempts) ≡ (if b then 1 else 0))
numbered_open zero b [] h = rw h (refl, refl)
numbered_open (suc n) b [] h = absurd h
numbered_open zero b (a ∷ attempts) h = absurd h
numbered_open (suc n) b (a ∷ attempts) (number, on, rest) =
    let r = ended_open n attempts rest in
    (
      ap suc r.0,
      (elim (Bool-cases b) [ inl e ↦ rw (e, on ∙ e, r.1) refl | inr e ↦ rw (e, on ∙ e, r.1) refl ]),
    )

pub IsNumbered-IsEnded :
    (n : ℕ) (attempts : List Attempt) → IsNumbered n false attempts → IsEnded n attempts
IsNumbered-IsEnded zero [] h = tt
IsNumbered-IsEnded (suc n) [] h = absurd h
IsNumbered-IsEnded zero (a ∷ attempts) h = absurd h
IsNumbered-IsEnded (suc n) (a ∷ attempts) h = h

update_absent :
    (m : ℕ) (f : Attempt → Attempt) (attempts : List Attempt)
    → any_true (is_current m) attempts ≡ false
    → update (is_current m) f attempts ≡ attempts
update_absent m f [] h = refl
update_absent m f (a ∷ attempts) h = ground (arith, update_absent m f attempts)

-- What `_finish_attempt` leaves.
pub finish_attempt-jobs :
    (job_id : ℕ) (job : Job) (status : AttemptStatus) (now : Instant) (error_type : Option String)
    (db : Db)
    → (finish_attempt job_id job status now error_type db).jobs ≡ db.jobs
unfolding finish_attempt
finish_attempt-jobs job_id job status now error_type db =
    elim (Bool-cases (any_true (is_current job.lifetime_attempts) (db.attempts job_id))) [
      | inl e ↦ rw (e, finish_attempt) refl
      | inr e ↦ rw (e, finish_attempt) refl
    ]

pub finish_attempt-attempts :
    (job_id : ℕ) (job : Job) (status : AttemptStatus) (now : Instant) (error_type : Option String)
    (db : Db) (k : ℕ)
    → (finish_attempt job_id job status now error_type db).attempts k
      ≡ set job_id
          (update
            (is_current job.lifetime_attempts)
            (closed status now error_type)
            (db.attempts job_id))
          db.attempts
          k
unfolding finish_attempt
finish_attempt-attempts job_id job status now error_type db k =
    elim (Bool-cases (any_true (is_current job.lifetime_attempts) (db.attempts job_id))) [
      | inl e ↦ rw (e, finish_attempt) refl
      | inr e ↦
          rw
            (
              e,
              finish_attempt,
              update_absent job.lifetime_attempts (closed status now error_type)
                  (db.attempts job_id) e,
            )
            (elim (Bool-cases (job_id == k)) [
              | inl same ↦ rw (same, (==_iff job_id k).0 same) refl
              | inr other ↦ rw other refl
            ])
    ]
