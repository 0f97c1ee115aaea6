-- ===== src/Accounts/History.antt =====
-- monitored_users.py: the high-water mark that a new account starts with.
use auto_x.Prelude.{ℕ, ◌+◌, ◌-◌, ◌*◌, ◌^◌, ◌≤◌, ◌<◌, ◌↔◌, arith}

abbrev pub x_epoch_ms : ℕ
x_epoch_ms = 1288834974657

-- The number whose decimal digits `initial_sync_since_id` returns, for a clock in milliseconds
-- since 1970. Where the difference is negative the source's `max(0, …)` gives 0.
unfoldable pub initial_sync_since_id : ℕ → ℕ → ℕ
initial_sync_since_id unix_ms initial_days =
    (unix_ms - initial_days * 86400000 - x_epoch_ms) * 2 ^ 22 - 1

-- A post id of X: milliseconds since X's epoch, and 22 bits below them.
abbrev pub snowflake : ℕ → ℕ → ℕ
snowflake ms low = (ms - x_epoch_ms) * 2 ^ 22 + low

-- A post is newer than the first high-water mark, and so is fetched by the first poll, exactly if
-- it was made at or after the cutoff, the given number of days before the account was added.
pub initial_sync_exact :
    (unix_ms initial_days ms low : ℕ)
    → x_epoch_ms ≤ ms
    → low < 2 ^ 22
    → 0 < snowflake ms low
    → (initial_sync_since_id unix_ms initial_days < snowflake ms low)
      ↔ (unix_ms ≤ ms + initial_days * 86400000)
unfolding initial_sync_since_id
initial_sync_exact unix_ms initial_days ms low after small positive =
    (λ h. omega arith, λ h. omega arith)
