-- ===== src/Poller/Lock.antt =====
-- poller.py: the polling lock of an account, a key of Redis with a time to live.
use auto_x.Prelude.{
  ℕ, ◌+◌, ◌<◌, String, ◌≡◌, refl, Bool, true, false, not, Option, none, some, List, [], ◌∷◌, arith,
  str_eq, ltb, if◌then◌else◌, str_eq_refl, opt_str_eq, All, Instant, seconds,
}

pub record Lease : Type 0 where
  pub token : String
  pub expires : Instant

-- The key of one account's lock, `none` when it was never set or was deleted.
abbrev pub Lock : Type 0
Lock = Option Lease

-- `get`: a key that has run out is gone.
abbrev pub owner : Instant → Lock → Option String
owner now none = none
owner now (some lease) = if ltb now lease.expires then some lease.token else none

-- `set(key, token, nx=True, ex=ttl)`.
unfoldable pub acquire : Instant → ℕ → String → Lock → Bool × Lock
acquire now ttl token lock = elim (owner now lock) [
  | some other ↦ (false, lock)
  | none ↦ (true, some (record { token = token; expires = now + seconds ttl }))
]

-- RENEW_LOCK_SCRIPT
unfoldable pub renew : Instant → ℕ → String → Lock → Bool × Lock
renew now ttl token lock =
    if opt_str_eq (owner now lock) (some token)
    then (true, some (record { token = token; expires = now + seconds ttl }))
    else (false, lock)

-- RELEASE_LOCK_SCRIPT
unfoldable pub release : Instant → String → Lock → Lock
release now token lock = if opt_str_eq (owner now lock) (some token) then none else lock

-- `_assert_lock`: with `lost` the flag `lost_lock`, whether the check passes and the new flag. Where
-- Redis does not answer (`reachable` false) the flag is set too.
unfoldable pub assert_lock : Instant → ℕ → String → Bool → Bool → Lock → Bool × Bool × Lock
unfolding renew
assert_lock now ttl token lost reachable lock =
    if lost
    then (false, true, lock)
    else if not reachable
    then (false, true, lock)
    else (let renewed = renew now ttl token lock in (renewed.0, not renewed.0, renewed.1))

-- What another worker does to the key, and when.
pub data LockCall : Type 0 where
  try_acquire : Instant → ℕ → String → LockCall
  try_renew : Instant → ℕ → String → LockCall
  try_release : Instant → String → LockCall

abbrev pub call : LockCall → Lock → Lock
call (try_acquire now ttl token) lock = (acquire now ttl token lock).1
call (try_renew now ttl token) lock = (renew now ttl token lock).1
call (try_release now token) lock = release now token lock

abbrev pub calls : List LockCall → Lock → Lock
calls [] lock = lock
calls (c ∷ cs) lock = calls cs (call c lock)

-- A call by another owner than `token`, before the instant `until`.
abbrev pub IsForeign : String → Instant → LockCall → Type 0
IsForeign token until (try_acquire now ttl other) = (now < until) × (str_eq token other ≡ false)
IsForeign token until (try_renew now ttl other) = (now < until) × (str_eq token other ≡ false)
IsForeign token until (try_release now other) = (now < until) × (str_eq token other ≡ false)

foreign_call :
    (lease : Lease) (c : LockCall)
    → IsForeign lease.token lease.expires c
    → call c (some lease) ≡ some lease
unfolding acquire renew release
foreign_call lease (try_acquire now ttl other) h = ground arith
foreign_call lease (try_renew now ttl other) h = ground arith
foreign_call lease (try_release now other) h = ground arith

foreign_calls :
    (lease : Lease) (cs : List LockCall)
    → All (IsForeign lease.token lease.expires) cs
    → calls cs (some lease) ≡ some lease
foreign_calls lease [] h = refl
foreign_calls lease (c ∷ cs) h = rw (foreign_call lease c h.0) (foreign_calls lease cs h.1)

held_lease :
    (now : Instant) (ttl : ℕ) (token : String) (lost reachable : Bool) (lock : Lock)
    → (assert_lock now ttl token lost reachable lock).0 ≡ true
    → (assert_lock now ttl token lost reachable lock).2
      ≡ some (record { token = token; expires = now + seconds ttl })
unfolding assert_lock
held_lease now ttl token lost reachable lock held = ground arith

lease_exclusive :
    (lease : Lease) (later : Instant) (ttl : ℕ) (other : String)
    → later < lease.expires
    → (owner later (some lease) ≡ some lease.token)
      × ((assert_lock later ttl lease.token false true (some lease)).0 ≡ true)
      × ((acquire later ttl other (some lease)).0 ≡ false)
unfolding assert_lock acquire
lease_exclusive lease later ttl other soon =
    (ground arith, ground (arith, str_eq_refl lease.token), ground arith)

-- Mutual exclusion. A worker whose check of the lock passes owns the key for the whole time to live:
-- whatever other workers do before it runs out, the key stays the worker's, the next check passes
-- too, and an attempt of another worker to acquire the lock fails.
pub assert_lock_exclusive :
    (now later : Instant) (ttl : ℕ) (token other : String) (lost reachable : Bool) (lock : Lock)
    (cs : List LockCall)
    → (assert_lock now ttl token lost reachable lock).0 ≡ true
    → All (IsForeign token (now + seconds ttl)) cs
    → later < now + seconds ttl
    → let lock' = calls cs (assert_lock now ttl token lost reachable lock).2 in
      (owner later lock' ≡ some token)
      × ((assert_lock later ttl token false true lock').0 ≡ true)
      × ((acquire later ttl other lock').0 ≡ false)
assert_lock_exclusive now later ttl token other lost reachable lock cs held foreign soon =
    let lease : Lease = record { token = token; expires = now + seconds ttl } in
    let kept = foreign_calls lease cs foreign in
    rw (held_lease now ttl token lost reachable lock held)
      (rw kept (lease_exclusive lease later ttl other soon))
