-- ===== src/BrowserJobs/Queues.antt =====
-- browser_job_store.py: the jobs that wait for recovery, and the outbox of notifications.
use auto_x.Prelude.{
  ℕ, ◌+◌, ◌^◌, min, String, Bool, true, false, not, ◌&&◌, ◌||◌, Option, none, some, List, map,
  str_eq, ltb, leb, if◌then◌else◌, is_none, take, where_true, any_true, update, Instant, seconds,
  order_by,
}
use auto_x.BrowserJobs.{
  JobState, unsupported, running, reconciling, uncertain, state_eq, is_final, Row, Jobs, has_key,
  get, put,
}

-- `column IS NULL OR column <= now`
abbrev pub null_or_due : Instant → Option Instant → Bool
null_or_due now none = true
null_or_due now (some t) = leb t now

unfoldable pub expired_running : Instant → Row → Bool
expired_running now row = state_eq row.state running && null_or_due now row.lease_expires_at

unfoldable pub recoverable : Instant → String → Row → Bool
unfolding expired_running
recoverable now namespace row =
    if str_eq namespace "xhs"
    then expired_running now row || (state_eq row.state reconciling || state_eq row.state uncertain)
    else expired_running now row

unfoldable pub recovery_due : Instant → String → Row → Bool
unfolding recoverable
recovery_due now namespace row =
    str_eq row.namespace namespace
    && (recoverable now namespace row && null_or_due now row.next_recovery_at)

unfoldable pub reserve : Instant → Row → Row
reserve now row = record row { next_recovery_at = some (now + seconds 30); updated_at = now }

-- The row's key is among those of the selected rows.
unfoldable pub selected : Jobs → Row → Bool
selected rows row = any_true (λ (r : Row). has_key r.namespace r.job_id row) rows

-- `next_recovery_at ASC NULLS FIRST`
abbrev null_first_lt : Option Instant → Option Instant → Bool
null_first_lt none none = false
null_first_lt none (some b) = true
null_first_lt (some a) none = false
null_first_lt (some a) (some b) = ltb a b

-- `next_callback_at <= now` is not true of NULL.
abbrev pub callback_time_due : Instant → Option Instant → Bool
callback_time_due now none = false
callback_time_due now (some t) = leb t now

unfoldable pub callback_due : Instant → Row → Bool
callback_due now row =
    str_eq row.namespace "xhs"
    && (is_final row.state
        && (is_none row.callback_delivered_at && callback_time_due now row.next_callback_at))

-- The database's order on texts is a parameter.
module _ (text_le : String → String → Bool) where
  unfoldable pub recovery_before : Row → Row → Bool
  recovery_before a b =
      if null_first_lt a.next_recovery_at b.next_recovery_at
      then true
      else if null_first_lt b.next_recovery_at a.next_recovery_at
      then false
      else if ltb a.updated_at b.updated_at
      then true
      else if ltb b.updated_at a.updated_at
      then false
      else text_le a.job_id b.job_id

  -- SKIP LOCKED: another transaction holds the rows that pass `locked`.
  unfoldable pub recovery_batch : Instant → String → ℕ → (Row → Bool) → Jobs → Jobs
  unfolding recovery_before
  recovery_batch now namespace limit locked jobs = take limit (
      order_by recovery_before
        (where_true (λ row. recovery_due now namespace row && not (locked row)) jobs))

  unfoldable pub recovery_jobs : Instant → String → ℕ → (Row → Bool) → Jobs → List Row × Jobs
  unfolding recovery_batch
  recovery_jobs now namespace limit locked jobs =
      let rows = recovery_batch now namespace limit locked jobs in
      (map (reserve now) rows, update (selected rows) (reserve now) jobs)

  unfoldable pub callback_before : Row → Row → Bool
  callback_before a b =
      if null_first_lt a.next_callback_at b.next_callback_at
      then true
      else if null_first_lt b.next_callback_at a.next_callback_at
      then false
      else text_le a.job_id b.job_id

  unfoldable pub callback_jobs : Instant → ℕ → Jobs → List Row
  unfolding callback_due callback_before
  callback_jobs now limit jobs =
      take limit (order_by callback_before (where_true (callback_due now) jobs))

-- `state and row.state != state`
abbrev pub other_state : Option JobState → JobState → Bool
other_state none state = false
other_state (some (unsupported text)) state =
    not (str_eq text "") && not (state_eq state (unsupported text))
other_state (some expected) state = not (state_eq state expected)

unfoldable pub callback_delay : ℕ → ℕ
callback_delay attempts = seconds (min 300 (2 ^ min attempts 8))

unfoldable pub marked : Instant → Bool → Row → Row
unfolding callback_delay
marked now delivered row =
    if delivered
    then record row {
      callback_attempts = row.callback_attempts + 1;
      callback_delivered_at = some now;
      next_callback_at = none;
      updated_at = now;
    }
    else record row {
      callback_attempts = row.callback_attempts + 1;
      next_callback_at = some (now + callback_delay (row.callback_attempts + 1));
      updated_at = now;
    }

unfoldable pub mark_callback : Instant → String → Bool → Option JobState → Jobs → Jobs
unfolding marked
mark_callback now job_id delivered state jobs = elim (get "xhs" job_id jobs) [
  | none ↦ jobs
  | some row ↦
      if is_final row.state && not (other_state state row.state)
      then put (marked now delivered row) jobs
      else jobs
]
