-- ===== src/BrowserJobs/Keys.antt =====
-- Rows by their primary key: what each method's write does to the row that a key finds.
use auto_x.Prelude.{
  String, ◌≡◌, ◌∙◌, ◌⊎◌, inl, inr, Bool, true, some, [], ◌∷◌, ◌++◌, arith, eq_iff, if◌then◌else◌,
  Bool-cases, update, find-update, find-test, find-append,
}
use auto_x.BrowserJobs.{Row, Jobs, has_key, get, put}

-- Rows of one key are the same to every key.
pub has_key-congr :
    (a b : Row) (namespace job_id : String)
    → has_key a.namespace a.job_id b ≡ true
    → has_key namespace job_id a ≡ has_key namespace job_id b
unfolding has_key
has_key-congr a b namespace job_id h =
    ground (arith, eq_iff b.namespace a.namespace, eq_iff b.job_id a.job_id)

pub get-key :
    (namespace job_id : String) (jobs : Jobs) (row : Row)
    → get namespace job_id jobs ≡ some row
    → has_key namespace job_id row ≡ true
unfolding get
get-key namespace job_id jobs row h = find-test (has_key namespace job_id) jobs row h

pub get-put :
    (namespace job_id : String) (row : Row) (jobs : Jobs) (old : Row)
    → get namespace job_id jobs ≡ some old
    → get namespace job_id (put row jobs)
      ≡ some (if has_key row.namespace row.job_id old then row else old)
unfolding get put
get-put namespace job_id row jobs old h = ground (
  arith,
  find-update (has_key row.namespace row.job_id) (has_key namespace job_id) (λ _. row) jobs
      (λ a k. has_key-congr row a namespace job_id k),
)

-- An UPDATE that leaves the key columns alone.
pub get-update :
    (namespace job_id : String) (p : Row → Bool) (f : Row → Row) (jobs : Jobs) (old : Row)
    → ((a : Row) → has_key namespace job_id (f a) ≡ has_key namespace job_id a)
    → get namespace job_id jobs ≡ some old
    → get namespace job_id (update p f jobs) ≡ some (if p old then f old else old)
unfolding get
get-update namespace job_id p f jobs old keep h =
    ground (arith, find-update p (has_key namespace job_id) f jobs (λ a k. keep a))

pub get-append :
    (namespace job_id : String) (jobs : Jobs) (row old : Row)
    → get namespace job_id jobs ≡ some old
    → get namespace job_id (jobs ++ row ∷ []) ≡ some old
unfolding get
get-append namespace job_id jobs row old h =
    ground (arith, find-append (has_key namespace job_id) jobs row)

keys_agree :
    (n j ns id : String) (jobs : Jobs) (old row : Row)
    → get ns id jobs ≡ some old
    → get n j jobs ≡ some row
    → has_key old.namespace old.job_id row ≡ true
    → (ns ≡ n) × (id ≡ j)
unfolding has_key
keys_agree n j ns id jobs old row h k e = ground (
  arith,
  get-key ns id jobs old h,
  get-key n j jobs row k,
  eq_iff old.namespace ns,
  eq_iff old.job_id id,
  eq_iff row.namespace n,
  eq_iff row.job_id j,
  eq_iff row.namespace old.namespace,
  eq_iff row.job_id old.job_id,
)

-- Rows that answer to the same key are the same row of the table.
get-same :
    (n j ns id : String) (jobs : Jobs) (old row : Row)
    → get ns id jobs ≡ some old
    → get n j jobs ≡ some row
    → has_key old.namespace old.job_id row ≡ true
    → old ≡ row
get-same n j ns id jobs old row h k e = let (p, q) = keys_agree n j ns id jobs old row h k e in cc

-- A write to the row `old` that keeps its key, as another key sees it.
pub get-put_cases :
    (n j ns id : String) (jobs : Jobs) (old new row : Row)
    → get ns id jobs ≡ some old
    → new.namespace ≡ old.namespace
    → new.job_id ≡ old.job_id
    → get n j jobs ≡ some row
    → (get n j (put new jobs) ≡ some row) ⊎ ((old ≡ row) × (get n j (put new jobs) ≡ some new))
get-put_cases n j ns id jobs old new row h e₁ e₂ k =
    elim (Bool-cases (has_key new.namespace new.job_id row)) [
      | inl same ↦ inr (
        get-same n j ns id jobs old row h k (rw (← e₁, ← e₂) same),
        get-put n j new jobs row k ∙ rw same,
      )
      | inr other ↦ inl (get-put n j new jobs row k ∙ rw other)
    ]
