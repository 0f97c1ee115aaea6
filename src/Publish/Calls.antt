-- ===== src/Publish/Calls.antt =====
-- services/ai_publish.py: what dispatchers, administrators and the browser worker do, in any order.
use auto_x.Prelude.{ℕ, String, Bool, Option, List, [], ◌∷◌, Instant}
use auto_x.BrowserJobs.Outcomes
use auto_x.Publish.{Dispatch, Db}
use auto_x.Publish.Xhs.{Reservation, reserve, not_accepted, interrupt, complete, preflight_failure}
use auto_x.Publish.Results.{apply_xhs_job_result, reconcile_xhs, mark_abandoned_xhs}
use auto_x.Publish.Operators.{retry_failed_dispatch, Check, check_dispatch}

pub data Call : Type 0 where
  reserves : Reservation → ℕ → Call
  rejects : Instant → String → Option ℕ → ℕ → Call
  interrupts : Instant → Option String → ℕ → Call
  completes : Instant → ℕ → Call
  fails_preflight : Instant → String → Bool → ℕ → Call
  -- A callback, or the look at the result after a submission.
  applies : Instant → String → Call
  reconciles : Instant → ℕ → (Dispatch → Bool) → Call
  abandons : Instant → ℕ → (Dispatch → Bool) → Call
  -- An administrator retries a dispatch, or decides on one.
  retries : Instant → ℕ → Call
  checks : Check → ℕ → Call
  -- The browser worker and its service write the journal.
  writes : Outcomes.Call → Call

module _ (url_of : String → Option String) where
  abbrev pub step : Call → Db → Db
  step (reserves r id) db = (reserve r id db).1
  step (rejects now error retry_after id) db = not_accepted now error retry_after id db
  step (interrupts now job_id id) db = interrupt url_of now job_id id db
  step (completes now id) db = complete now id db
  step (fails_preflight now message retry id) db = preflight_failure now message retry id db
  step (applies now job_id) db = (apply_xhs_job_result url_of now job_id db).1
  step (reconciles now timeout is_held) db = reconcile_xhs url_of now timeout is_held db
  step (abandons now timeout is_held) db = mark_abandoned_xhs now timeout is_held db
  step (retries now id) db = (retry_failed_dispatch now id db).1
  step (checks c id) db = (check_dispatch c id db).1
  step (writes c) db = record db { jobs = Outcomes.perform c db.jobs }

  unfoldable pub run : List Call → Db → Db
  run [] db = db
  run (c ∷ cs) db = run cs (step c db)
