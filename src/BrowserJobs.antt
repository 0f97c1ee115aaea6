-- ===== src/BrowserJobs.antt =====
-- backend/app/services/browser_job_store.py and the table of backend/app/models/browser_job.py:
-- the journal of the jobs that browser workers execute, and the outbox of their notifications.
-- A table is the list of its rows. A method takes the instant that it reads from the clock and the
-- table of its transaction, and returns its result and the new table. A JSON document is its text.
pub mod Queues
mod Keys
pub mod Outcomes
pub mod Ownership
pub mod Recovery
mod Examples
use auto_x.Prelude.{
  ℕ, ◌+◌, String, Bool, true, false, not, ◌&&◌, ◌||◌, Option, none, some, List, [], ◌∷◌, ◌++◌,
  str_eq, ltb, ◌==◌, if◌then◌else◌, opt_eq, opt_str_eq, find, update, Instant,
}

-- The strings of JOB_STATES, and any other string that a caller may pass to `finish`.
pub data JobState : Type 0 where
  running reconciling succeeded failed uncertain : JobState
  unsupported : String → JobState

abbrev pub state_eq : JobState → JobState → Bool
state_eq running running = true
state_eq reconciling reconciling = true
state_eq succeeded succeeded = true
state_eq failed failed = true
state_eq uncertain uncertain = true
state_eq (unsupported a) (unsupported b) = str_eq a b
state_eq _ _ = false

abbrev pub is_known : JobState → Bool
is_known succeeded = true
is_known failed = true
is_known _ = false

abbrev pub is_final : JobState → Bool
is_final succeeded = true
is_final failed = true
is_final uncertain = true
is_final _ = false

abbrev pub is_job_state : JobState → Bool
is_job_state (unsupported a) = false
is_job_state _ = true

abbrev pub Document : Type 0
Document = String

pub record Row : Type 0 where
  pub namespace : String
  pub job_id : String
  pub admin_id : Option ℕ
  pub fingerprint : String
  pub state : JobState
  pub document : Document
  pub error : Option String
  pub worker_id : Option String
  pub lease_expires_at : Option Instant
  pub next_recovery_at : Option Instant
  pub callback_attempts : ℕ
  pub next_callback_at : Option Instant
  pub callback_delivered_at : Option Instant
  pub started_at : Instant
  pub completed_at : Option Instant
  pub created_at : Instant
  pub updated_at : Instant

abbrev pub Jobs : Type 0
Jobs = List Row

pub data StoreError : Type 0 where
  different_request unsupported_state integrity_error : StoreError

pub data Result {ℓ} (A : Type ℓ) : Type ℓ where
  ok : A → Result A
  err : StoreError → Result A

-- The primary key (namespace, job_id).
unfoldable pub has_key : String → String → Row → Bool
has_key namespace job_id row = str_eq row.namespace namespace && str_eq row.job_id job_id

unfoldable pub get : String → String → Jobs → Option Row
get namespace job_id jobs = find (has_key namespace job_id) jobs

unfoldable pub put : Row → Jobs → Jobs
put row jobs = update (has_key row.namespace row.job_id) (λ _. row) jobs

unfoldable pub same_request : Row → Option ℕ → String → Bool
same_request row admin_id fingerprint =
    opt_eq ◌==◌ row.admin_id admin_id && str_eq row.fingerprint fingerprint

-- The lease ends at `now` where the caller gives no `lease_seconds`, or zero. The argument, a float
-- number of seconds, is the `timedelta` that the code makes of it, in microseconds.
abbrev pub lease_end : Instant → Option ℕ → Instant
lease_end now none = now
lease_end now (some lease_seconds) = now + lease_seconds

pub record Request : Type 0 where
  pub namespace : String
  pub job_id : String
  pub admin_id : Option ℕ
  pub fingerprint : String
  pub worker_id : Option String
  pub lease_seconds : Option ℕ

unfoldable pub new_row : Instant → Request → Row
new_row now r = record {
  namespace = r.namespace;
  job_id = r.job_id;
  admin_id = r.admin_id;
  fingerprint = r.fingerprint;
  state = running;
  document = "{}";
  error = none;
  worker_id = r.worker_id;
  lease_expires_at = some (lease_end now r.lease_seconds);
  next_recovery_at = none;
  callback_attempts = 0;
  next_callback_at = none;
  callback_delivered_at = none;
  started_at = now;
  completed_at = none;
  created_at = now;
  updated_at = now;
}

-- A duplicate id must have the same input.
unfoldable pub duplicate : Row → Request → Result (Row × Bool)
unfolding same_request
duplicate existing r =
    if same_request existing r.admin_id r.fingerprint
    then ok (existing, false)
    else err different_request

-- `accept` reads the row in one transaction (`before`), inserts in a second one (`jobs`), and after
-- a violated uniqueness constraint reads again in a third one (`after`).
unfoldable pub accept : Instant → Request → Jobs → Jobs → Jobs → Result (Row × Bool) × Jobs
unfolding duplicate
accept now r before jobs after = elim (get r.namespace r.job_id before) [
  | some existing ↦ (duplicate existing r, jobs)
  | none ↦ elim (get r.namespace r.job_id jobs) [
    | none ↦ (ok (new_row now r, true), jobs ++ new_row now r ∷ [])
    | some _ ↦ elim (get r.namespace r.job_id after) [
      | none ↦ (err integrity_error, jobs)
      | some existing ↦ (duplicate existing r, jobs)
    ]
  ]
]

-- `lease is not None and lease > now`
abbrev pub lease_live : Instant → Option Instant → Bool
lease_live now none = false
lease_live now (some lease) = ltb now lease

abbrev pub or_empty : Option Document → Document
or_empty none = "{}"
or_empty (some document) = document

pub record Outcome : Type 0 where
  pub state : JobState
  pub document : Option Document
  pub error : Option String

unfoldable pub changes : Row → Outcome → Bool
changes row o =
    not (state_eq row.state o.state)
    || (not (str_eq row.document (or_empty o.document)) || not (opt_str_eq row.error o.error))

-- The row after the assignments of `finish`.
unfoldable pub finished : Instant → Row → Outcome → Row
unfolding changes
finished now row o =
    let notify = str_eq row.namespace "xhs" && (is_final o.state && changes row o) in
    record row {
      state = o.state;
      document = or_empty o.document;
      error = o.error;
      updated_at = now;
      completed_at = if is_final o.state then some now else none;
      lease_expires_at = if state_eq o.state running then row.lease_expires_at else none;
      callback_attempts = if notify then 0 else row.callback_attempts;
      next_callback_at = if notify then some now else row.next_callback_at;
      callback_delivered_at = if notify then none else row.callback_delivered_at;
    }

-- The two early returns with the row as it is.
unfoldable pub keeps_row : Instant → Bool → Row → Bool
keeps_row now require_expired_lease row =
    is_known row.state
    || (require_expired_lease
        && (state_eq row.state running && lease_live now row.lease_expires_at))

unfoldable pub finish :
    Instant → String → String → Outcome → Bool → Jobs → Result (Option Row) × Jobs
unfolding keeps_row
finish now namespace job_id o require_expired_lease jobs =
    if not (is_job_state o.state)
    then (err unsupported_state, jobs)
    else elim (get namespace job_id jobs) [
      | none ↦ (ok none, jobs)
      | some row ↦
          if keeps_row now require_expired_lease row
          then (ok (some row), jobs)
          else (ok (some (finished now row o)), put (finished now row o) jobs)
    ]

-- The WHERE clause of `renew`.
unfoldable pub renewable : String → String → String → Row → Bool
renewable namespace job_id worker_id row =
    has_key namespace job_id row
    && (opt_str_eq row.worker_id (some worker_id) && state_eq row.state running)

-- The column `updated_at` has `onupdate=utcnow`, so each UPDATE writes it.
unfoldable pub extended : Instant → ℕ → Row → Row
extended now lease_seconds row = record row {
  lease_expires_at = some (now + lease_seconds);
  updated_at = now;
}

unfoldable pub renew : Instant → String → String → String → ℕ → Jobs → Jobs
renew now namespace job_id worker_id lease_seconds jobs =
    update (renewable namespace job_id worker_id) (extended now lease_seconds) jobs
