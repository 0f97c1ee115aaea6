-- ===== src/Accounts/Generations.antt =====
-- poller.py and monitored_users.py together: generations decide which poll may write.
use auto_x.Prelude.{
  ℕ, suc, ◌≤◌, String, ◌≡◌, refl, sym, ◌∙◌, inl, inr, Bool, ◌||◌, Option, none, some, List, [], ◌∷◌,
  arith, ◌==◌, Bool-cases, All, find, Instant, find-All,
}
use auto_x.Models.{MonitoredUser}
use auto_x.Poller.{PollClaim}
use auto_x.Poller.Service.{Downstream, Db, get_user, claim_user}
use auto_x.Poller.Service.Commit.{Settings, Page, commit_success}
use auto_x.Poller.Service.Failure.{Failure, handle_failure}
use auto_x.Accounts.{
  AccountUpdates, updated, archived, paused, resumed, poll_requested, update_monitored_user,
  pause_monitored_user, resume_monitored_user, poll_monitored_user_now, delete_monitored_user,
  has_content, store_changes,
}
use auto_x.Accounts.Writes.{
  Grows, Writes, keeps, puts, Writes-modify, Writes-claim_user, Writes-commit_success,
  Writes-handle_failure, Grows-updated, Grows-paused, Grows-resumed, Grows-archived,
  Grows-poll_requested,
}
use auto_x.Accounts.Rows.{
  Generation, put_user-Generation, find-removed, get_user-id, store_changes-Generation,
}

-- A step of a poller or of a handler, by any process. A handler that locks no row takes two: it
-- reads its account under the number of the request, and later it commits what it has changed.
pub data Event : Type 0 where
  claim_event : String → ℕ → Event
  commit_event : Page → Bool → Bool → Event
  failure_event : (ℕ → ℕ) → PollClaim → Failure → Bool → Bool → Event
  read_event : ℕ → ℕ → Event
  update_event : Instant → ℕ → AccountUpdates → ℕ → Event
  pause_event : ℕ → Event
  resume_event : Instant → ℕ → Event
  poll_now_event : Instant → String → ℕ → Event
  delete_event : Instant → Bool → ℕ → Event

-- The tables, and what requests have read, the latest first.
pub record World (O : Type 0) : Type 0 where
  pub db : Db O
  pub reads : List (ℕ × MonitoredUser)

abbrev pub is_request : ℕ → ℕ × MonitoredUser → Bool
is_request request (number, user) = number == request

module _ {O : Type 0} where
  abbrev pub on_db : (Db O → Db O) → World O → World O
  on_db f w = record w { db = f w.db }

  abbrev pub remember : ℕ → Option MonitoredUser → World O → World O
  remember request none w = w
  remember request (some user) w = record w { reads = (request, user) ∷ w.reads }

  -- A handler commits by the row that its request has read.
  abbrev pub with_read :
      (MonitoredUser → Db O → Db O) → Option (ℕ × MonitoredUser) → World O → World O
  with_read handler none w = w
  with_read handler (some (number, user)) w = on_db (handler user) w

  unfoldable pub commit_request : (MonitoredUser → Db O → Db O) → ℕ → World O → World O
  commit_request handler request w = with_read handler (find (is_request request) w.reads) w

module _ {O : Type 0} (down : Downstream O) (settings : Settings) where
  abbrev pub perform : Event → World O → World O
  perform (claim_event worker_id user_id) w = on_db (λ db. (claim_user worker_id user_id db).1) w
  perform (commit_event page held still_held) w =
      on_db (λ db. (commit_success down settings page held still_held db).1) w
  perform (failure_event jitter claim failure held still_held) w =
      on_db (handle_failure settings jitter claim failure held still_held) w
  perform (read_event request user_id) w = remember request (get_user user_id w.db) w
  perform (update_event now interval updates request) w =
      commit_request (update_monitored_user now interval updates) request w
  perform (pause_event request) w = commit_request pause_monitored_user request w
  perform (resume_event now request) w = commit_request (resume_monitored_user now) request w
  perform (poll_now_event now token request) w =
      commit_request (poll_monitored_user_now now token) request w
  perform (delete_event now has_task user_id) w =
      on_db (delete_monitored_user now has_task user_id) w

  abbrev pub perform_all : List Event → World O → World O
  perform_all [] w = w
  perform_all (e ∷ es) w = perform_all es (perform e w)

-- A request has read the account in the generation `g` or a later one, or it has read another one.
abbrev pub IsSince : ℕ → ℕ → ℕ × MonitoredUser → Type 0
IsSince id g (number, user) = user.id ≡ id → g ≤ user.poll_generation

-- The account has at least the generation `h`, and was read at `g` or later.
pub record Moved {O : Type 0} (id g h : ℕ) (w : World O) : Type 0 where
  pub stored : Generation id h w.db
  pub since : All (IsSince id g) w.reads

module _ {O : Type 0} (id g h : ℕ) where
  Writes-Generation : {db db' : Db O} → Writes db db' → Generation id h db → Generation id h db'
  unfolding get_user
  Writes-Generation (keeps e) bound user found = bound user (rw (← e) found)
  Writes-Generation {db} (puts uid old new there grows e) bound user found =
      put_user-Generation id h uid new old db there grows.id grows.generation bound user
        (rw (← e) found)

  delete-Generation :
      (now : Instant) (has_task : Bool) (uid : ℕ) (db : Db O)
      → Generation id h db
      → Generation id h (delete_monitored_user now has_task uid db)
  unfolding delete_monitored_user
  delete-Generation now has_task uid db bound = elim (Bool-cases (has_content uid db || has_task)) [
    | inl kept ↦
        rw kept (Writes-Generation (Writes-modify (archived now) uid db (Grows-archived now)) bound)
    | inr gone ↦
        rw gone (λ user k. bound user (unfold get_user in find-removed id uid db.users user k))
  ]

  Moved-db :
      (w : World O) (db : Db O)
      → Moved id g h w
      → Generation id h db
      → Moved id g h (record w { db = db })
  Moved-db w db m bound = record { stored = bound; since = m.since }

  Moved-read :
      (request uid : ℕ) (w : World O) (o : Option MonitoredUser)
      → get_user uid w.db ≡ o
      → g ≤ h
      → Moved id g h w
      → Moved id g h (remember request o w)
  Moved-read request uid w none found above m = m
  Moved-read request uid w (some user) found above m = record {
    stored = m.stored;
    since = (fresh, m.since);
  }
    where
      fresh : user.id ≡ id → g ≤ user.poll_generation
      fresh own =
          let there : uid ≡ id = sym (get_user-id uid w.db user found) ∙ own in
          let k : h ≤ user.poll_generation = m.stored user (rw (← there) found) in omega arith

  Moved-commit :
      (f : MonitoredUser → MonitoredUser) (request : ℕ) (w : World O)
      → ((u : MonitoredUser) → Grows u (f u))
      → h ≤ suc g
      → Moved id g h w
      → Moved id g h (commit_request (store_changes f) request w)
  unfolding commit_request
  Moved-commit f request w grows close m = by_read (find (is_request request) w.reads) refl
    where
      by_read :
          (o : Option (ℕ × MonitoredUser))
          → find (is_request request) w.reads ≡ o
          → Moved id g h (with_read (store_changes f) o w)
      by_read none found = m
      by_read (some (number, read)) found = Moved-db w (store_changes f read w.db) m (
          store_changes-Generation id g h f read w.db
            (find-All (IsSince id g) (is_request request) w.reads (number, read) m.since found)
            (grows read).generation close m.stored)

  pub Moved-perform :
      (down : Downstream O) (settings : Settings) (e : Event) (w : World O)
      → g ≤ h
      → h ≤ suc g
      → Moved id g h w
      → Moved id g h (perform down settings e w)
  unfolding update_monitored_user pause_monitored_user resume_monitored_user poll_monitored_user_now
  Moved-perform down settings (claim_event worker_id uid) w above close m =
      Moved-db w _ m (Writes-Generation (Writes-claim_user worker_id uid w.db) m.stored)
  Moved-perform down settings (commit_event page held still_held) w above close m =
      Moved-db w _ m
        (Writes-Generation (Writes-commit_success down settings page held still_held w.db) m.stored)
  Moved-perform down settings (failure_event jitter claim failure held still_held) w above close m =
      Moved-db w _ m (
        Writes-Generation (Writes-handle_failure settings jitter claim failure held still_held w.db)
          m.stored)
  Moved-perform down settings (read_event request uid) w above close m =
      Moved-read request uid w (get_user uid w.db) refl above m
  Moved-perform down settings (update_event now interval updates request) w above close m =
      Moved-commit (updated now interval updates) request w (Grows-updated now interval updates)
        close m
  Moved-perform down settings (pause_event request) w above close m =
      Moved-commit paused request w Grows-paused close m
  Moved-perform down settings (resume_event now request) w above close m =
      Moved-commit (resumed now) request w (Grows-resumed now) close m
  Moved-perform down settings (poll_now_event now token request) w above close m =
      Moved-commit (poll_requested now token) request w (Grows-poll_requested now token) close m
  Moved-perform down settings (delete_event now has_task uid) w above close m =
      Moved-db w _ m (delete-Generation now has_task uid w.db m.stored)

  pub Moved-perform_all :
      (down : Downstream O) (settings : Settings) (es : List Event) (w : World O)
      → g ≤ h
      → h ≤ suc g
      → Moved id g h w
      → Moved id g h (perform_all down settings es w)
  Moved-perform_all down settings [] w above close m = m
  Moved-perform_all down settings (e ∷ es) w above close m =
      Moved-perform_all down settings es (perform down settings e w) above close
        (Moved-perform down settings e w above close m)
