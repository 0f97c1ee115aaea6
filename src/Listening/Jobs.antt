-- ===== src/Listening/Jobs.antt =====
-- ai_jobs.py: which jobs `enqueue_listening_jobs` adds.
use auto_x.Prelude.{
  ℕ, ◌+◌, String, ◌≡◌, refl, sym, ap, ◌∙◌, subst, inl, inr, false, ◌||◌, List, [], ◌∷◌, ◌++◌,
  append-nil, append_assoc, arith, str_eq, eq_iff, Bool-cases, length, length-append, All,
  any_true-append,
}
use auto_x.Listening.{JobKey, listen, auto, other, key_eq, Job}
use auto_x.Listening.Wants.{queued_already, has_key}
use auto_x.Listening.Enqueue.{insert_jobs}

-- No two jobs have one idempotency key.
abbrev pub IsUnique : List Job → Type 0
IsUnique [] = Unit
IsUnique (job ∷ jobs) = (queued_already job.idempotency_key jobs ≡ false) × IsUnique jobs

str_eq_symm : (a b : String) → str_eq a b ≡ false → str_eq b a ≡ false
str_eq_symm a b h = ground (arith, eq_iff a b, eq_iff b a)

key_eq_symm : (a b : JobKey) → key_eq a b ≡ false → key_eq b a ≡ false
key_eq_symm (listen a b) (listen c d) h = ground arith
key_eq_symm (listen a b) (auto c) h = refl
key_eq_symm (listen a b) (other c) h = refl
key_eq_symm (auto a) (listen c d) h = refl
key_eq_symm (auto a) (auto c) h = ground arith
key_eq_symm (auto a) (other c) h = refl
key_eq_symm (other a) (listen c d) h = refl
key_eq_symm (other a) (auto c) h = refl
key_eq_symm (other a) (other c) h = str_eq_symm a c h

queued_already-append :
    (key : JobKey) (jobs : List Job) (job : Job)
    → queued_already key (jobs ++ job ∷ [])
      ≡ (queued_already key jobs || key_eq job.idempotency_key key)
unfolding queued_already
queued_already-append key jobs job = ground (arith, any_true-append (has_key key) jobs (job ∷ []))

first_differs :
    (x : Job) (xs : List Job) (job : Job)
    → queued_already job.idempotency_key (x ∷ xs) ≡ false
    → (key_eq x.idempotency_key job.idempotency_key ≡ false)
      × (queued_already job.idempotency_key xs ≡ false)
unfolding queued_already
first_differs x xs job k = ground arith

IsUnique-append :
    (jobs : List Job) (job : Job)
    → IsUnique jobs
    → queued_already job.idempotency_key jobs ≡ false
    → IsUnique (jobs ++ job ∷ [])
IsUnique-append [] job h k = (unfold queued_already in refl, tt)
IsUnique-append (x ∷ xs) job h k =
    let e = first_differs x xs job k in
    (
      rw (queued_already-append x.idempotency_key xs job, h.0)
          (key_eq_symm x.idempotency_key job.idempotency_key e.0),
      IsUnique-append xs job h.1 e.1,
    )

-- What a change of the jobs is: `count` jobs are added at the end, each with `P`.
pub record Grows (P : Job → Type 0) (jobs : List Job) (count : ℕ) (jobs' : List Job) : Type 0 where
  pub added : List Job
  pub grown : jobs' ≡ jobs ++ added
  pub counted : count ≡ length added
  pub justified : All P added
  pub unique : IsUnique jobs → IsUnique jobs'

pub Grows-none : (P : Job → Type 0) (jobs : List Job) → Grows P jobs 0 jobs
Grows-none P jobs = record {
  added = [];
  grown = sym (append-nil jobs);
  counted = refl;
  justified = tt;
  unique = λ h. h;
}

All-append {κ} :
    {A : Type 0} (P : A → Type κ) (xs ys : List A) → All P xs → All P ys → All P (xs ++ ys)
All-append P [] ys h k = k
All-append P (x ∷ xs) ys h k = (h.0, All-append P xs ys h.1 k)

pub Grows-trans :
    (P : Job → Type 0) (a b c : List Job) (m n : ℕ)
    → Grows P a m b
    → Grows P b n c
    → Grows P a (m + n) c
Grows-trans P a b c m n g h = record {
  added = g.added ++ h.added;
  grown = h.grown ∙ ap (λ x. x ++ h.added) g.grown ∙ append_assoc a g.added h.added;
  counted = omega (arith, g.counted, h.counted, length-append g.added h.added);
  justified = All-append P g.added h.added g.justified h.justified;
  unique = λ u. h.unique (g.unique u);
}

module _ (P : Job → Type 0) (closed : (n : ℕ) (job : Job) → P job → P (record job { id = n })) where
  Grows-insert :
      (jobs : List Job) (n : ℕ) (job : Job)
      → P job
      → queued_already job.idempotency_key jobs ≡ false
      → Grows P jobs 1 (jobs ++ record job { id = n } ∷ [])
  Grows-insert jobs n job p h = record {
    added = record job { id = n } ∷ [];
    grown = refl;
    counted = refl;
    justified = (closed n job p, tt);
    unique = λ u. IsUnique-append jobs (record job { id = n }) u h;
  }

  pub insert_jobs-Grows :
      (values : List Job) (next_id : ℕ) (jobs : List Job)
      → All P values
      → Grows P jobs (insert_jobs values next_id jobs).0 (insert_jobs values next_id jobs).1
  unfolding insert_jobs
  insert_jobs-Grows [] next_id jobs h = Grows-none P jobs
  insert_jobs-Grows (job ∷ rest) next_id jobs h =
      elim (Bool-cases (queued_already job.idempotency_key jobs)) [
        | inl e ↦ rw e (insert_jobs-Grows rest next_id jobs h.1)
        | inr e ↦ rw e (
            let jobs' = jobs ++ record job { id = next_id } ∷ [] in
            let later = insert_jobs rest (next_id + 1) jobs' in
            subst (λ k. Grows P jobs k later.1) (omega arith)
              (Grows-trans P jobs jobs' later.1 1 later.0 (Grows-insert jobs next_id job h.0 e)
                (insert_jobs-Grows rest (next_id + 1) jobs' h.1)))
      ]
