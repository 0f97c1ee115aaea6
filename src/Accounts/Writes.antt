-- ===== src/Accounts/Writes.antt =====
-- What each transaction that locks its row does to the table of accounts.
use auto_x.Prelude.{
  ℕ, ◌≤◌, String, ◌≡◌, refl, inl, inr, Bool, true, false, Option, none, some, arith, Bool-cases,
  Option-cases, any_true, Instant,
}
use auto_x.Models.{MonitoredUser}
use auto_x.Poller.{PollClaim, claimed_user, with_pagination}
use auto_x.Poller.Service.{
  Downstream, Db, get_user, put_user, claim_user, finalize_log, is_pollable,
}
use auto_x.Poller.Service.Commit.{
  commit_current, Settings, Page, owner_elsewhere, commit_success, store_page, superseded, current,
  polled_user, with_identity, rescheduled, XUser,
}
use auto_x.Poller.Service.Failure.{fail_current, Failure, handle_failure, failed_user}
use auto_x.Accounts.{AccountUpdates, updated, archived, paused, resumed, poll_requested, modify}

-- What a writer of a row keeps.
pub record Grows (old new : MonitoredUser) : Type 0 where
  pub id : new.id ≡ old.id
  pub generation : old.poll_generation ≤ new.poll_generation

Grows-claimed_user : (u : MonitoredUser) → Grows u (claimed_user u)
unfolding claimed_user
Grows-claimed_user u = record { id = refl; generation = omega arith }

Grows-rescheduled :
    (claim : PollClaim) (now proposed : Instant) (status : String) (u v : MonitoredUser)
    → Grows u v
    → Grows u (rescheduled claim now proposed status v)
unfolding rescheduled
Grows-rescheduled claim now proposed status u v h = ground arith

Grows-with_identity : (x : Option XUser) (u : MonitoredUser) → Grows u (with_identity x u)
Grows-with_identity none u = record { id = refl; generation = omega arith }
Grows-with_identity (some x) u = record { id = refl; generation = omega arith }

Grows-polled_user :
    (settings : Settings) (page : Page) (u : MonitoredUser) → Grows u (polled_user settings page u)
unfolding polled_user with_pagination
Grows-polled_user settings page u =
    let w = Grows-with_identity page.resolved_user u in
    Grows-rescheduled page.claim page.now _ _ u _ (record { id = w.id; generation = w.generation })

Grows-failed_user :
    (settings : Settings) (jitter : ℕ → ℕ) (claim : PollClaim) (failure : Failure)
    (u : MonitoredUser)
    → Grows u (failed_user settings jitter claim failure u)
unfolding failed_user
Grows-failed_user settings jitter claim failure u =
    Grows-rescheduled claim failure.now _ _ u _ (record { id = refl; generation = omega arith })

pub Grows-updated :
    (now : Instant) (interval : ℕ) (updates : AccountUpdates) (u : MonitoredUser)
    → Grows u (updated now interval updates u)
unfolding updated
Grows-updated now interval updates u = ground arith

pub Grows-paused : (u : MonitoredUser) → Grows u (paused u)
unfolding paused
Grows-paused u = record { id = refl; generation = omega arith }

pub Grows-resumed : (now : Instant) (u : MonitoredUser) → Grows u (resumed now u)
unfolding resumed
Grows-resumed now u = record { id = refl; generation = omega arith }

pub Grows-archived : (now : Instant) (u : MonitoredUser) → Grows u (archived now u)
unfolding archived
Grows-archived now u = record { id = refl; generation = omega arith }

pub Grows-poll_requested :
    (now : Instant) (token : String) (u : MonitoredUser) → Grows u (poll_requested now token u)
unfolding poll_requested
Grows-poll_requested now token u = ground arith

pub is_pollable-eq :
    (o : Option MonitoredUser) (u : MonitoredUser)
    → is_pollable o ≡ some u
    → (o ≡ some u) × (u.is_active ≡ true)
is_pollable-eq none u h = cc
is_pollable-eq (some v) u h = ground arith

pub current-eq :
    (claim : PollClaim) (o : Option MonitoredUser) (u : MonitoredUser)
    → current claim o ≡ some u
    → (o ≡ some u) × (u.poll_generation ≡ claim.generation)
current-eq claim none u h = cc
current-eq claim (some v) u h = ground arith

-- What a transaction does to the table of accounts: nothing, or the write of a row that it read.
pub data Writes {O : Type 0} (db db' : Db O) : Type 0 where
  keeps : db'.users ≡ db.users → Writes db db'
  puts :
      (uid : ℕ) (old new : MonitoredUser)
      → get_user uid db ≡ some old
      → Grows old new
      → db'.users ≡ (put_user new db).users
      → Writes db db'

module _ {O : Type 0} where
  pub Writes-modify :
      (f : MonitoredUser → MonitoredUser) (uid : ℕ) (db : Db O)
      → ((u : MonitoredUser) → Grows u (f u))
      → Writes db (modify f uid db)
  unfolding modify
  Writes-modify f uid db grows = elim (Option-cases (get_user uid db)) [
    | inl gone ↦ rw (gone, modify) (keeps refl)
    | inr (u, there) ↦ rw (there, modify) (puts uid u (f u) there (grows u) refl)
  ]

  pub Writes-claim_user :
      (worker_id : String) (uid : ℕ) (db : Db O) → Writes db (claim_user worker_id uid db).1
  unfolding claim_user
  Writes-claim_user worker_id uid db = elim (Option-cases (is_pollable (get_user uid db))) [
    | inl gone ↦ rw (gone, claim_user) (keeps refl)
    | inr (u, there) ↦
        rw (there, claim_user)
          (puts uid u (claimed_user u) (is_pollable-eq _ u there).0 (Grows-claimed_user u) refl)
  ]

  users-store_page :
      (down : Downstream O) (settings : Settings) (page : Page) (u : MonitoredUser) (db : Db O)
      → (store_page down settings page u db).1.users
        ≡ (put_user (polled_user settings page u) db).users
  unfolding store_page finalize_log put_user
  users-store_page down settings page u db = refl

  Writes-commit_current :
      (down : Downstream O) (settings : Settings) (page : Page) (still_held : Bool)
      (u : MonitoredUser) (db : Db O)
      → get_user page.claim.user_id db ≡ some u
      → Writes db (commit_current down settings page still_held u db).1
  unfolding commit_current
  Writes-commit_current down settings page false u db there = keeps refl
  Writes-commit_current down settings page true u db there =
      elim (Bool-cases (any_true (owner_elsewhere page.claim page.x_user_id) db.users)) [
        | inl conflict ↦ rw conflict (keeps refl)
        | inr free ↦ rw free (
            puts page.claim.user_id u (polled_user settings page u) there
              (Grows-polled_user settings page u) (users-store_page down settings page u db))
      ]

  pub Writes-commit_success :
      (down : Downstream O) (settings : Settings) (page : Page) (held still_held : Bool) (db : Db O)
      → Writes db (commit_success down settings page held still_held db).1
  unfolding commit_success superseded finalize_log
  Writes-commit_success down settings page false still_held db = keeps refl
  Writes-commit_success down settings page true still_held db =
      elim (Option-cases (current page.claim (get_user page.claim.user_id db))) [
        | inl gone ↦ rw (gone, commit_success) (keeps refl)
        | inr (u, there) ↦
            rw (there, commit_success)
              (Writes-commit_current down settings page still_held u db
                (current-eq page.claim _ u there).0)
      ]

  Writes-fail_current :
      (settings : Settings) (jitter : ℕ → ℕ) (claim : PollClaim) (failure : Failure)
      (still_held : Bool) (u : MonitoredUser) (db : Db O)
      → get_user claim.user_id db ≡ some u
      → Writes db (fail_current settings jitter claim failure still_held u db)
  unfolding fail_current finalize_log
  Writes-fail_current settings jitter claim failure false u db there = keeps refl
  Writes-fail_current settings jitter claim failure true u db there =
      puts claim.user_id u (failed_user settings jitter claim failure u) there
        (Grows-failed_user settings jitter claim failure u) refl

  pub Writes-handle_failure :
      (settings : Settings) (jitter : ℕ → ℕ) (claim : PollClaim) (failure : Failure)
      (held still_held : Bool) (db : Db O)
      → Writes db (handle_failure settings jitter claim failure held still_held db)
  unfolding handle_failure finalize_log
  Writes-handle_failure settings jitter claim failure false still_held db = keeps refl
  Writes-handle_failure settings jitter claim failure true still_held db =
      elim (Option-cases (current claim (get_user claim.user_id db))) [
        | inl gone ↦ rw (gone, handle_failure) (keeps refl)
        | inr (u, there) ↦
            rw (there, handle_failure)
              (Writes-fail_current settings jitter claim failure still_held u db
                (current-eq claim _ u there).0)
      ]
