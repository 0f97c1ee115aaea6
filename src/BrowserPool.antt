-- ===== src/BrowserPool.antt =====
-- xhs_browser_pool.py: the bounded pool of browser sessions. A lease has a number of its own, which
-- stands for the identity of the object, and an administrator's id as its key in the pool.
use auto_x.Prelude.{
  ℕ, zero, suc, ◌+◌, Bool, true, not, ◌&&◌, Option, none, some, List, [], ◌∷◌, ◌++◌, ltb, ◌==◌,
  if◌then◌else◌, length, where_true, find, update, Instant,
}
pub mod Ends
mod Examples

pub record Lease : Type 0 where
  pub number : ℕ
  pub admin_id : ℕ
  pub cookie_version : ℕ
  pub busy : Bool
  pub last_used : Instant

pub record Pool : Type 0 where
  pub leases : List Lease
  pub is_closed : Bool
  pub next_number : ℕ

-- What a round of the loop of `_acquire` comes to.
pub data Round : Type 0 where
  closed : Round
  given : Lease → Pool → Round
  waits : Round
  again : Pool → Round

abbrev pub has_admin : ℕ → Lease → Bool
has_admin admin_id lease = lease.admin_id == admin_id

-- `self._leases.pop(admin_id, None)`; closing the browser is not modelled.
unfoldable pub pop : ℕ → Pool → Pool
pop admin_id pool = record pool {
  leases = where_true (λ l. not (has_admin admin_id l)) pool.leases;
}

abbrev pub taken : Instant → Lease → Lease
taken now lease = record lease { busy = true; last_used = now }

unfoldable pub take_lease : Instant → Lease → Pool → Round
take_lease now lease pool =
    given (taken now lease)
      (record pool { leases = update (has_admin lease.admin_id) (taken now) pool.leases })

abbrev pub new_lease : Instant → ℕ → ℕ → ℕ → Lease
new_lease now number admin_id cookie_version = record {
  number = number;
  admin_id = admin_id;
  cookie_version = cookie_version;
  busy = true;
  last_used = now;
}

unfoldable pub add_lease : Instant → ℕ → ℕ → Pool → Round
add_lease now admin_id cookie_version pool =
    let lease = new_lease now pool.next_number admin_id cookie_version in
    given lease
      (record pool { leases = pool.leases ++ lease ∷ []; next_number = pool.next_number + 1 })

-- `min(idle, key=last_used)`: the first one with the least value.
unfoldable pub oldest : Lease → List Lease → Lease
oldest best [] = best
oldest best (lease ∷ leases) =
    oldest (if ltb lease.last_used best.last_used then lease else best) leases

abbrev pub is_idle : Lease → Bool
is_idle lease = not lease.busy

unfoldable pub evict : Pool → List Lease → Round
evict pool [] = waits
evict pool (first ∷ idle) = again (pop (oldest first idle).admin_id pool)

unfoldable pub acquire_existing : Instant → ℕ → ℕ → Lease → Pool → Round
acquire_existing now admin_id cookie_version existing pool =
    if (existing.cookie_version == cookie_version) && not existing.busy
    then take_lease now existing pool
    else if existing.busy
    then waits
    else again (pop admin_id pool)

unfoldable pub acquire_round : ℕ → Instant → ℕ → ℕ → Pool → Round
acquire_round max_browsers now admin_id cookie_version pool =
    if pool.is_closed then closed else elim (find (has_admin admin_id) pool.leases) [
      | some existing ↦ acquire_existing now admin_id cookie_version existing pool
      | none ↦
          if ltb (length pool.leases) max_browsers
          then add_lease now admin_id cookie_version pool
          else evict pool (where_true is_idle pool.leases)
    ]

-- `_acquire` up to its result or its wait; the lock is held all along. The fuel bounds the rounds.
unfoldable pub acquire : ℕ → ℕ → Instant → ℕ → ℕ → Pool → Option Round
acquire zero max_browsers now admin_id cookie_version pool = none
acquire (suc fuel) max_browsers now admin_id cookie_version pool =
    elim (acquire_round max_browsers now admin_id cookie_version pool) [
      | again pool' ↦ acquire fuel max_browsers now admin_id cookie_version pool'
      | closed ↦ some closed
      | waits ↦ some waits
      | given lease pool' ↦ some (given lease pool')
    ]
