-- ===== src/BrowserJobs/Recovery.antt =====
-- browser_job_store.py: the batches of `recovery_jobs`, and the outbox of notifications.
use auto_x.Prelude.{
  ℕ, zero, suc, ◌+◌, ◌^◌, ◌≤◌, ◌<◌, min, String, ◌≡◌, refl, ◌⊎◌, inl, inr, Bool, true, false, not,
  ◌&&◌, some, [], ◌∷◌, arith, eq_iff, leb, Bool-cases, All, All-map, update, All-where_true,
  Instant, seconds, order_by-All, take-All,
}
use native.Mathlib.Decide.{dec_lt}
use auto_x.BrowserJobs.{
  is_final, Row, Jobs, Outcome, has_key, get, put, ok, finish, keeps_row, changes, finished,
}
use auto_x.BrowserJobs.Keys.{get-key}
use auto_x.BrowserJobs.Queues.{
  recovery_due, reserve, selected, recovery_before, recovery_batch, recovery_jobs, callback_due,
  callback_delay, marked,
}

module _ (text_le : String → String → Bool) where
  batch_All :
      (P : Row → Type 0) (now : Instant) (namespace : String) (limit : ℕ) (locked : Row → Bool)
      (jobs : Jobs)
      → All P jobs
      → All
          (λ row. P row × ((recovery_due now namespace row && not (locked row)) ≡ true))
          (recovery_batch text_le now namespace limit locked jobs)
  unfolding recovery_batch
  batch_All P now namespace limit locked jobs h = take-All _ limit _ (
      order_by-All (recovery_before text_le) _ _
        (All-where_true (λ row. recovery_due now namespace row && not (locked row)) P jobs h))

  -- What an UPDATE leaves in the table: each row is not selected, or reserved.
  reserved_rows :
      (now : Instant) (rows jobs : Jobs)
      → All
          (λ r. (selected rows r ≡ false) ⊎ (r.next_recovery_at ≡ some (now + seconds 30)))
          (update (selected rows) (reserve now) jobs)
  unfolding reserve
  reserved_rows now rows [] = tt
  reserved_rows now rows (x ∷ xs) = (
    elim (Bool-cases (selected rows x)) [ inl e ↦ rw e (inr refl) | inr e ↦ rw e (inl e) ],
    reserved_rows now rows xs,
  )

  not_yet_due :
      (now t : Instant) (namespace : String) (locked : Row → Bool) (rows : Jobs) (r : Row)
      → t < now + seconds 30
      → ((selected rows r ≡ false) ⊎ (r.next_recovery_at ≡ some (now + seconds 30)))
        × ((recovery_due t namespace r && not (locked r)) ≡ true)
      → selected rows r ≡ false
  unfolding recovery_due
  not_yet_due now t namespace locked rows r soon (inl h, due) = h
  not_yet_due now t namespace locked rows r soon (inr h, due) = ground arith

  -- Batches do not overlap: whatever the two calls of `recovery_jobs` ask for, one that comes less
  -- than 30 seconds after the other returns no row with a key that the other one returned.
  pub recovery_disjoint :
      (now t : Instant) (namespace namespace' : String) (limit limit' : ℕ)
      (locked locked' : Row → Bool) (jobs : Jobs)
      → t < now + seconds 30
      → let first = recovery_batch text_le now namespace limit locked jobs in
        let jobs' = (recovery_jobs text_le now namespace limit locked jobs).1 in
        All
          (λ row. selected first row ≡ false)
          (recovery_batch text_le t namespace' limit' locked' jobs')
  unfolding recovery_jobs
  recovery_disjoint now t namespace namespace' limit limit' locked locked' jobs soon =
      All-map (λ r. not_yet_due now t namespace' locked' first r soon) _
        (batch_All _ t namespace' limit' locked' _ (reserved_rows now first jobs))
    where
      first : Jobs
      first = recovery_batch text_le now namespace limit locked jobs

finish_writes :
    (now : Instant) (job_id : String) (o : Outcome) (expired : Bool) (jobs : Jobs) (row : Row)
    → get "xhs" job_id jobs ≡ some row
    → is_final o.state ≡ true
    → keeps_row now expired row ≡ false
    → finish now "xhs" job_id o expired jobs
      ≡ (ok (some (finished now row o)), put (finished now row o) jobs)
unfolding finish
finish_writes now job_id o expired jobs row found final open_row = ground arith

finished_due :
    (now t : Instant) (row : Row) (o : Outcome)
    → row.namespace ≡ "xhs"
    → is_final o.state ≡ true
    → changes row o ≡ true
    → now ≤ t
    → callback_due t (finished now row o) ≡ true
unfolding finished callback_due
finished_due now t row o xhs final differs later = ground (arith, eq_iff row.namespace "xhs")

finished_attempts :
    (now : Instant) (row : Row) (o : Outcome)
    → row.namespace ≡ "xhs"
    → is_final o.state ≡ true
    → changes row o ≡ true
    → (finished now row o).callback_attempts ≡ 0
unfolding finished
finished_attempts now row o xhs final differs = ground (arith, eq_iff row.namespace "xhs")

namespace_of :
    (namespace job_id : String) (jobs : Jobs) (row : Row)
    → get namespace job_id jobs ≡ some row
    → row.namespace ≡ namespace
unfolding has_key
namespace_of namespace job_id jobs row h =
    ground (arith, get-key namespace job_id jobs row h, eq_iff row.namespace namespace)

-- A final outcome that differs from what is stored puts an XHS job into the outbox: `finish`
-- returns and stores a row that no worker has been told of and that is due from `now` on.
pub finish_notifies :
    (now t : Instant) (job_id : String) (o : Outcome) (expired : Bool) (jobs : Jobs) (row : Row)
    → get "xhs" job_id jobs ≡ some row
    → is_final o.state ≡ true
    → changes row o ≡ true
    → keeps_row now expired row ≡ false
    → now ≤ t
    → (finish now "xhs" job_id o expired jobs
        ≡ (ok (some (finished now row o)), put (finished now row o) jobs))
      × (callback_due t (finished now row o) ≡ true)
      × ((finished now row o).callback_attempts ≡ 0)
finish_notifies now t job_id o expired jobs row found final differs open_row later = (
  finish_writes now job_id o expired jobs row found final open_row,
  finished_due now t row o xhs final differs later,
  finished_attempts now row o xhs final differs,
)
  where
    xhs : row.namespace ≡ "xhs"
    xhs = namespace_of "xhs" job_id jobs row found

abbrev PowerInRange : ℕ → Type 0
PowerInRange n = (2 ≤ 2 ^ suc n) × (2 ^ suc n ≤ 256)

small_powers : (n : ℕ) → n < 8 → PowerInRange n
small_powers zero h = omega arith
small_powers (suc zero) h = omega arith
small_powers (suc (suc zero)) h = omega arith
small_powers (suc (suc (suc zero))) h = omega arith
small_powers (suc (suc (suc (suc zero)))) h = omega arith
small_powers (suc (suc (suc (suc (suc zero))))) h = omega arith
small_powers (suc (suc (suc (suc (suc (suc zero)))))) h = omega arith
small_powers (suc (suc (suc (suc (suc (suc (suc zero))))))) h = omega arith
small_powers (suc (suc (suc (suc (suc (suc (suc (suc n)))))))) h = absurd (omega arith)

min_powers : (n : ℕ) → (2 ≤ 2 ^ min (suc n) 8) × (2 ^ min (suc n) 8 ≤ 256)
min_powers n = elim (dec_lt n 8) [
  | yes h ↦ let e : min (suc n) 8 ≡ suc n = omega arith in rw e (small_powers n h)
  | no h ↦ let e : min (suc n) 8 ≡ 8 = omega arith in rw e (omega arith)
]

callback_delay_bounds :
    (n : ℕ) → (seconds 2 ≤ callback_delay (n + 1)) × (callback_delay (n + 1) ≤ seconds 256)
unfolding callback_delay
callback_delay_bounds n = let e : n + 1 ≡ suc n = omega arith in rw e (omega (arith, min_powers n))

-- After a notification that was not delivered, a row of the outbox is due again exactly when the
-- delay is over, which is between 2 and 256 seconds; after one that was delivered it is never due.
pub callback_schedule :
    (now t : Instant) (row : Row)
    → callback_due now row ≡ true
    → (callback_due t (marked now false row)
        ≡ leb (now + callback_delay (row.callback_attempts + 1)) t)
      × (seconds 2 ≤ callback_delay (row.callback_attempts + 1))
      × (callback_delay (row.callback_attempts + 1) ≤ seconds 256)
      × (callback_due t (marked now true row) ≡ false)
unfolding callback_due marked
callback_schedule now t row due =
    let (low, high) = callback_delay_bounds row.callback_attempts in
    (ground arith, low, high, ground arith)
