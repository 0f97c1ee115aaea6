-- ===== src/Poller/Service/Deadlines.antt =====
-- poller.py: when an account is polled again.
use auto_x.Prelude.{
  ℕ, ◌+◌, ◌*◌, ◌≤◌, max, String, ◌≡◌, true, false, none, some, arith, opt_str_eq, Instant, seconds,
}
use auto_x.Models.{MonitoredUser}
use auto_x.Poller.{PollClaim, effective_interval, with_pagination}
use auto_x.Poller.Service.Commit.{Settings, Page, rescheduled, polled_user}
use auto_x.Poller.Service.Failure.{Failure, base_delay, failure_deadline, failed_user}

-- A poll that was requested while another one ran is not lost: where the account's request token is
-- not the one that the poll was claimed with, both the end of that poll and its failure keep the
-- token, and queue the account for now.
pub manual_request_kept :
    (settings : Settings) (jitter : ℕ → ℕ) (page : Page) (failure : Failure) (user : MonitoredUser)
    (token : String)
    → user.manual_poll_token ≡ some token
    → opt_str_eq (some token) page.claim.manual_token ≡ false
    → let done = polled_user settings page user in
      let failed = failed_user settings jitter page.claim failure user in
      (done.manual_poll_token ≡ some token)
      × (done.next_poll_at ≡ some page.now)
      × (done.status ≡ "queued")
      × (failed.manual_poll_token ≡ some token)
      × (failed.next_poll_at ≡ some failure.now)
      × (failed.status ≡ "queued")
unfolding polled_user failed_user rescheduled with_pagination
manual_request_kept settings jitter page failure user token requested other =
    (ground arith, ground arith, ground arith, ground arith, ground arith, ground arith)

base_delay_bounds :
    (interval failures : ℕ)
    → (interval ≤ base_delay interval failures) × (base_delay interval failures ≤ max interval 3600)
unfolding base_delay
base_delay_bounds interval failures = (omega arith, omega arith)

default_deadline :
    (settings : Settings) (jitter : ℕ → ℕ) (failure : Failure) (user : MonitoredUser)
    → failure.proposed_deadline ≡ none
    → failure_deadline settings jitter failure user
      ≡ failure.now
        + seconds (
            max 15 (
              jitter (
                base_delay
                  (effective_interval user.poll_interval_seconds
                    settings.global_poll_interval_seconds)
                  user.consecutive_failures)))
unfolding failure_deadline
default_deadline settings jitter failure user plain = rw (plain, failure_deadline)

-- `round(b * random.uniform(0.8, 1.2))` lies within half a second of the range.
pub record IsJitter (jitter : ℕ → ℕ) : Type 0 where
  pub low : (b : ℕ) → 8 * b ≤ 10 * jitter b + 5
  pub high : (b : ℕ) → 10 * jitter b ≤ 12 * b + 5

-- The back-off after a failure with no deadline of its own, of an account with no other deadline:
-- the next poll is at least 15 seconds and (up to rounding) 0.8 intervals away, and at most 1.2
-- times the longer of the interval and an hour, however many polls failed before.
pub failure_backoff :
    (settings : Settings) (jitter : ℕ → ℕ) (claim : PollClaim) (failure : Failure)
    (user : MonitoredUser)
    → IsJitter jitter
    → failure.proposed_deadline ≡ none
    → user.next_poll_at ≡ none
    → opt_str_eq user.manual_poll_token claim.manual_token ≡ true
    → let interval =
        effective_interval user.poll_interval_seconds settings.global_poll_interval_seconds in
      (t : Instant) × ((failed_user settings jitter claim failure user).next_poll_at ≡ some t)
      × (failure.now + seconds 15 ≤ t)
      × (10 * failure.now + seconds (8 * interval) ≤ 10 * t + seconds 5)
      × (10 * t ≤ 10 * failure.now + seconds (12 * max interval 3600 + 5))
unfolding failed_user rescheduled
failure_backoff settings jitter claim failure user j plain free same =
    let interval =
      effective_interval user.poll_interval_seconds settings.global_poll_interval_seconds in
    let base = base_delay interval user.consecutive_failures in
    let e = default_deadline settings jitter failure user plain in
    let (above, below) = base_delay_bounds interval user.consecutive_failures in
    (
      failure_deadline settings jitter failure user,
      ground arith,
      omega arith,
      omega (arith, j.low base),
      omega (arith, j.high base),
    )
