-- ===== src/Accounts/Superseding.antt =====
-- poller.py and monitored_users.py together: the steps that raise the generation of an account.
use auto_x.Prelude.{
  ℕ, suc, ◌+◌, String, ◌≡◌, refl, inl, inr, Bool, ◌||◌, some, arith, Bool-cases, Option-cases, find,
  Instant, find-All,
}
use auto_x.Models.{MonitoredUser}
use auto_x.Poller.{PollClaim, claimed_user}
use auto_x.Poller.Service.{Downstream, Db, get_user, put_user, claim_user, is_pollable}
use auto_x.Poller.Service.Commit.{Settings}
use auto_x.Accounts.{
  archived, paused, resumed, modify, store_changes, pause_monitored_user, resume_monitored_user,
  delete_monitored_user, has_content,
}
use auto_x.Accounts.Writes.{is_pollable-eq}
use auto_x.Accounts.Rows.{
  Generation, get_user-put_user_self, find-removed_self, store_changes-raises,
}
use auto_x.Accounts.Generations.{
  Event, claim_event, pause_event, resume_event, delete_event, World, is_request, commit_request,
  perform, IsSince, Moved,
}

-- The steps that put an account into a new generation. A handler that pauses or resumes it has read
-- it before.
pub data Supersedes {O : Type 0} (id : ℕ) (w : World O) : Event → Type 0 where
  claimed_again :
      (worker_id : String) (c : PollClaim)
      → (claim_user worker_id id w.db).0 ≡ some c
      → Supersedes id w (claim_event worker_id id)
  was_paused :
      (request n : ℕ) (read : MonitoredUser)
      → find (is_request request) w.reads ≡ some (n, read)
      → read.id ≡ id
      → Supersedes id w (pause_event request)
  was_resumed :
      (now : Instant) (request n : ℕ) (read : MonitoredUser)
      → find (is_request request) w.reads ≡ some (n, read)
      → read.id ≡ id
      → Supersedes id w (resume_event now request)
  was_deleted : (now : Instant) (has_task : Bool) → Supersedes id w (delete_event now has_task id)

module _ {O : Type 0} (id g : ℕ) where
  written-Generation :
      (db db' : Db O) (old new : MonitoredUser)
      → get_user id db ≡ some old
      → new.id ≡ old.id
      → new.poll_generation ≡ old.poll_generation + 1
      → db'.users ≡ (put_user new db).users
      → Generation id g db
      → Generation id (suc g) db'
  unfolding get_user
  written-Generation db db' old new there same next e bound user h =
      ground (arith, bound old there, get_user-put_user_self id new old db there same)

  modified-Generation :
      (f : MonitoredUser → MonitoredUser) (db : Db O)
      → ((u : MonitoredUser) → (f u).id ≡ u.id)
      → ((u : MonitoredUser) → (f u).poll_generation ≡ u.poll_generation + 1)
      → Generation id g db
      → Generation id (suc g) (modify f id db)
  unfolding modify
  modified-Generation f db same next bound = elim (Option-cases (get_user id db)) [
    | inl gone ↦ rw (gone, modify) (λ user h. cc (gone, h))
    | inr (u, there) ↦
        rw (there, modify) (written-Generation db _ u (f u) there (same u) (next u) refl bound)
  ]

  claimed-Generation :
      (worker_id : String) (c : PollClaim) (db : Db O)
      → (claim_user worker_id id db).0 ≡ some c
      → Generation id g db
      → Generation id (suc g) (claim_user worker_id id db).1
  unfolding claim_user
  claimed-Generation worker_id c db claimed bound =
      elim (Option-cases (is_pollable (get_user id db))) [
        | inl gone ↦ absurd (ground arith)
        | inr (u, there) ↦
            rw (there, claim_user)
              (written-Generation db _ u (claimed_user u) (is_pollable-eq _ u there).0
                (unfold claimed_user in refl) (unfold claimed_user in refl) refl bound)
      ]

  deleted-Generation :
      (now : Instant) (has_task : Bool) (db : Db O)
      → Generation id g db
      → Generation id (suc g) (delete_monitored_user now has_task id db)
  unfolding delete_monitored_user
  deleted-Generation now has_task db bound = elim (Bool-cases (has_content id db || has_task)) [
    | inl kept ↦ rw kept (
        modified-Generation (archived now) db (λ u. unfold archived in refl)
          (λ u. unfold archived in refl) bound)
    | inr gone ↦
        rw gone (λ user h. absurd (unfold get_user in cc (find-removed_self id db.users, h)))
  ]

  committed-Generation :
      (f : MonitoredUser → MonitoredUser) (request n : ℕ) (read : MonitoredUser) (w : World O)
      → ((u : MonitoredUser) → (f u).poll_generation ≡ u.poll_generation + 1)
      → find (is_request request) w.reads ≡ some (n, read)
      → read.id ≡ id
      → Moved id g g w
      → Moved id g (suc g) (commit_request (store_changes f) request w)
  unfolding commit_request
  committed-Generation f request n read w next found own m = rw found (record {
    stored =
        store_changes-raises id g f read w.db own
          (find-All (IsSince id g) (is_request request) w.reads (n, read) m.since found own)
          (next read);
    since = m.since;
  })

  pub Supersedes-Generation :
      (down : Downstream O) (settings : Settings) (e : Event) (w : World O)
      → Supersedes id w e
      → Moved id g g w
      → Moved id g (suc g) (perform down settings e w)
  unfolding pause_monitored_user resume_monitored_user
  Supersedes-Generation down settings e w (claimed_again worker_id c claimed) m = record {
    stored = claimed-Generation worker_id c w.db claimed m.stored;
    since = m.since;
  }
  Supersedes-Generation down settings e w (was_paused request n read found own) m =
      committed-Generation paused request n read w (λ u. unfold paused in refl) found own m
  Supersedes-Generation down settings e w (was_resumed now request n read found own) m =
      committed-Generation (resumed now) request n read w (λ u. unfold resumed in refl) found own m
  Supersedes-Generation down settings e w (was_deleted now has_task) m = record {
    stored = deleted-Generation now has_task w.db m.stored;
    since = m.since;
  }
