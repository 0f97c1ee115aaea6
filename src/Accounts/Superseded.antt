-- ===== src/Accounts/Superseded.antt =====
-- poller.py and monitored_users.py together: a poll whose account has moved on.
use auto_x.Prelude.{
  ℕ, suc, ◌+◌, ◌≤◌, String, ◌≡◌, refl, ◌∙◌, inl, inr, Bool, true, false, none, some, List, [],
  arith, Option-cases,
}
use auto_x.Models.{MonitoredUser}
use auto_x.Poller.{PollClaim, claim_of, claimed_user}
use auto_x.Poller.Service.{
  Downstream, Db, get_user, put_user, claim_user, finalize_log, is_pollable,
}
use auto_x.Poller.Service.Commit.{
  Settings, Page, Commit, lock_lost, identity_conflict, committed, commit_success, superseded,
  current,
}
use auto_x.Poller.Service.Failure.{Failure, handle_failure}
use auto_x.Accounts.Writes.{current-eq, is_pollable-eq}
use auto_x.Accounts.Rows.{Generation, get_user-id, get_user-put_user_self}
use auto_x.Accounts.Generations.{Event, World, perform, perform_all, Moved, Moved-perform_all}
use auto_x.Accounts.Superseding.{Supersedes, Supersedes-Generation}

-- What the poll of a claim finds: the account is not in the claim's generation any more.
moved_on :
    {O : Type 0} (c : PollClaim) (db : Db O)
    → Generation c.user_id (suc c.generation) db
    → current c (get_user c.user_id db) ≡ none
moved_on c db bound = elim (Option-cases (current c (get_user c.user_id db))) [
  | inl gone ↦ gone
  | inr (u, there) ↦
      let e : u.poll_generation ≡ c.generation = (current-eq c (get_user c.user_id db) u there).1 in
      let b : suc c.generation ≤ u.poll_generation =
        bound u (current-eq c (get_user c.user_id db) u there).0 in
      absurd (omega arith)
]

granted_user :
    {O : Type 0} (worker_id : String) (id : ℕ) (c : PollClaim) (db db₁ : Db O)
    → claim_user worker_id id db ≡ (some c, db₁)
    → (u : MonitoredUser) × (get_user id db ≡ some u)
      × (c.user_id ≡ u.id)
      × (c.generation ≡ u.poll_generation + 1)
      × (db₁.users ≡ (put_user (claimed_user u) db).users)
unfolding claim_user claim_of claimed_user
granted_user worker_id id c db db₁ granted = elim (Option-cases (is_pollable (get_user id db))) [
  | inl gone ↦ absurd (ground arith)
  | inr (u, there) ↦ (u, (is_pollable-eq _ u there).0, ground arith, ground arith, ground arith)
]

granted-Generation :
    {O : Type 0} (worker_id : String) (id : ℕ) (c : PollClaim) (db db₁ : Db O)
    → claim_user worker_id id db ≡ (some c, db₁)
    → (c.user_id ≡ id) × Generation id c.generation db₁
granted-Generation worker_id id c db db₁ granted =
    let (u, found, same, next, written) = granted_user worker_id id c db db₁ granted in
    (same ∙ get_user-id id db u found, written_exactly u found next written)
  where
    written_exactly :
        (u : MonitoredUser)
        → get_user id db ≡ some u
        → c.generation ≡ u.poll_generation + 1
        → db₁.users ≡ (put_user (claimed_user u) db).users
        → Generation id c.generation db₁
    written_exactly u found next written user h =
        unfold claimed_user get_user in
        ground (arith, get_user-put_user_self id (claimed_user u) u db found refl)

-- Whether `_commit_success` reports that it applied the page.
abbrev pub was_applied : Commit → Bool
was_applied lock_lost = false
was_applied identity_conflict = false
was_applied (committed result) = result.applied

module _ {O : Type 0} (down : Downstream O) (settings : Settings) where
  -- The tables after what follows a claim. Each request that commits then has read its account since.
  abbrev pub meanwhile : List Event → Event → List Event → Db O → Db O
  meanwhile before e after db =
      (perform_all down settings after (
        perform down settings e
          (perform_all down settings before (record { db = db; reads = [] })))).db

  abbrev pub world_before : List Event → Db O → World O
  world_before before db = perform_all down settings before (record { db = db; reads = [] })

  meanwhile-moved_on :
      (worker_id : String) (id : ℕ) (c : PollClaim) (before after : List Event) (e : Event)
      (db db₁ : Db O)
      → claim_user worker_id id db ≡ (some c, db₁)
      → Supersedes id (world_before before db₁) e
      → current c (get_user c.user_id (meanwhile before e after db₁)) ≡ none
  meanwhile-moved_on worker_id id c before after e db db₁ granted moved =
      let (same, bound) = granted-Generation worker_id id c db db₁ granted in
      let g = c.generation in
      let start : Moved id g g (record { db = db₁; reads = [] }) = record {
        stored = bound;
        since = tt;
      } in
      let now = Moved-perform_all id g g down settings before _ (omega arith) (omega arith) start in
      let next = Supersedes-Generation id g down settings e (world_before before db₁) moved now in
      let last =
        Moved-perform_all id g (suc g) down settings after _ (omega arith) (omega arith) next in
      moved_on c (meanwhile before e after db₁) (rw same last.stored)

  commit_moved_on :
      (page : Page) (held still_held : Bool) (db : Db O)
      → current page.claim (get_user page.claim.user_id db) ≡ none
      → let done = commit_success down settings page held still_held db in
        (done.1.users ≡ db.users)
        × (done.1.tweets ≡ db.tweets)
        × (done.1.outbox ≡ db.outbox)
        × (was_applied done.0 ≡ false)
  unfolding commit_success superseded finalize_log
  commit_moved_on page false still_held db gone = (refl, refl, refl, refl)
  commit_moved_on page true still_held db gone = rw (gone, commit_success) (refl, refl, refl, refl)

  failure_moved_on :
      (jitter : ℕ → ℕ) (c : PollClaim) (failure : Failure) (held still_held : Bool) (db : Db O)
      → current c (get_user c.user_id db) ≡ none
      → (handle_failure settings jitter c failure held still_held db).users ≡ db.users
  unfolding handle_failure finalize_log
  failure_moved_on jitter c failure false still_held db gone = refl
  failure_moved_on jitter c failure true still_held db gone = rw (gone, handle_failure)

  -- A poll claims an account. Any steps of pollers and handlers follow, in any order, where a handler
  -- that locks no row commits what it has read since the claim. If one of them claims the account
  -- again, pauses, resumes, archives or deletes it, the commit of the first poll changes no account,
  -- stores no post, starts nothing in another service, and does not report the page as applied.
  pub late_commit_ignored :
      (worker_id : String) (id : ℕ) (page : Page) (before after : List Event) (e : Event)
      (held still_held : Bool) (db db₁ : Db O)
      → claim_user worker_id id db ≡ (some page.claim, db₁)
      → Supersedes id (world_before before db₁) e
      → let db₂ = meanwhile before e after db₁ in
        let done = commit_success down settings page held still_held db₂ in
        (done.1.users ≡ db₂.users)
        × (done.1.tweets ≡ db₂.tweets)
        × (done.1.outbox ≡ db₂.outbox)
        × (was_applied done.0 ≡ false)
  late_commit_ignored worker_id id page before after e held still_held db db₁ granted moved =
      commit_moved_on page held still_held (meanwhile before e after db₁)
        (meanwhile-moved_on worker_id id page.claim before after e db db₁ granted moved)

  -- The same steps follow a claim, of a poll that failed. If one of them claims the account again,
  -- pauses, resumes, archives or deletes it, the record of the failure changes no account.
  pub late_failure_ignored :
      (worker_id : String) (id : ℕ) (c : PollClaim) (failure : Failure) (jitter : ℕ → ℕ)
      (before after : List Event) (e : Event) (held still_held : Bool) (db db₁ : Db O)
      → claim_user worker_id id db ≡ (some c, db₁)
      → Supersedes id (world_before before db₁) e
      → let db₂ = meanwhile before e after db₁ in
        (handle_failure settings jitter c failure held still_held db₂).users ≡ db₂.users
  late_failure_ignored worker_id id c failure jitter before after e held still_held db db₁ granted
        moved =
      failure_moved_on jitter c failure held still_held (meanwhile before e after db₁)
        (meanwhile-moved_on worker_id id c before after e db db₁ granted moved)
