-- ===== src/Prelude/Time.antt =====
-- Instants are microseconds since `datetime.min` in UTC, which is what `as_utc`
-- (backend/app/core/time.py) makes of every datetime; a `timedelta` is a count of microseconds.
use Prim.Native.Nat.{ℕ, ◌*◌}

abbrev pub Instant : Type 0
Instant = ℕ

abbrev pub seconds : ℕ → ℕ
seconds n = n * 1000000

abbrev pub days : ℕ → ℕ
days n = n * 86400000000
