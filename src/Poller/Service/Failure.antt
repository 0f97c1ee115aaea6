-- ===== src/Poller/Service/Failure.antt =====
-- poller.py: `_handle_failure`, the transaction that records a failed poll.
use auto_x.Prelude.{
  ℕ, ◌+◌, ◌*◌, ◌^◌, min, max, String, Bool, not, Option, none, some, if◌then◌else◌, Instant,
  seconds, truncate,
}
use auto_x.Models.{MonitoredUser}
use auto_x.Poller.{PollClaim, effective_interval}
use auto_x.Poller.Service.{
  Db, get_user, put_user, LogEnd, log_end, finalize_log, superseded_message,
}
use auto_x.Poller.Service.Commit.{Settings, rescheduled, current}

pub record Failure : Type 0 where
  pub status : String
  pub message : String
  pub http_status : Option ℕ
  pub proposed_deadline : Option Instant
  pub rate_limit_reset_at : Option Instant
  pub now : Instant
  pub duration_ms : ℕ
  pub lock_message : String

lock_lost_end : Failure → LogEnd
lock_lost_end failure =
    log_end "lock_lost" failure.now failure.duration_ms (some (truncate 4000 failure.lock_message))

-- max(interval, min(3600, 30 * 2 ** min(failures + 1, 7)))
unfoldable pub base_delay : ℕ → ℕ → ℕ
base_delay interval failures = max interval (min 3600 (30 * 2 ^ min (failures + 1) 7))

-- `jitter b` is what `round(b * random.uniform(0.8, 1.2))` returned.
module _ (settings : Settings) (jitter : ℕ → ℕ) where
  unfoldable pub failure_deadline : Failure → MonitoredUser → Instant
  failure_deadline failure user = elim failure.proposed_deadline [
    | some deadline ↦ deadline
    | none ↦
        failure.now
        + seconds (
            max 15 (
              jitter (
                base_delay
                  (effective_interval user.poll_interval_seconds
                    settings.global_poll_interval_seconds)
                  user.consecutive_failures)))
  ]

  unfoldable pub failed_user : PollClaim → Failure → MonitoredUser → MonitoredUser
  failed_user claim failure user =
      rescheduled claim failure.now (failure_deadline failure user) failure.status (record user {
        last_polled_at = some failure.now;
        last_error = some (truncate 2000 failure.message);
        consecutive_failures = user.consecutive_failures + 1;
      })

module _ {O : Type 0} (settings : Settings) (jitter : ℕ → ℕ) where
  -- From the second check of the lock on.
  unfoldable pub fail_current : PollClaim → Failure → Bool → MonitoredUser → Db O → Db O
  unfolding lock_lost_end
  fail_current claim failure still_held user db =
      if not still_held
      then finalize_log claim.log_id (lock_lost_end failure) db
      else finalize_log claim.log_id
          (record (log_end failure.status failure.now failure.duration_ms
            (some (truncate 4000 failure.message))) {
              http_status = failure.http_status;
              rate_limit_reset_at = failure.rate_limit_reset_at;
            })
          (put_user (failed_user settings jitter claim failure user) db)

  -- The method returns `False` on every path. `held` and `still_held` are the outcomes of the two
  -- checks of the lock.
  unfoldable pub handle_failure : PollClaim → Failure → Bool → Bool → Db O → Db O
  unfolding lock_lost_end
  handle_failure claim failure held still_held db =
      if not held
      then finalize_log claim.log_id (lock_lost_end failure) db
      else elim (current claim (get_user claim.user_id db)) [
        | none ↦
            finalize_log claim.log_id
              (log_end "superseded" failure.now failure.duration_ms superseded_message) db
        | some user ↦ fail_current claim failure still_held user db
      ]
