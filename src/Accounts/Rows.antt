-- ===== src/Accounts/Rows.antt =====
-- Account rows by their id, under the writes of the poller and of the handlers.
use auto_x.Prelude.{
  ℕ, suc, ◌+◌, ◌≤◌, ◌≡◌, refl, sym, ap, ◌∙◌, inl, inr, true, not, Option, none, some, List, [], ◌∷◌,
  arith, ==_iff, Bool-cases, Option-cases, where_true, find, update, changed, find-update,
  find-test,
}
use auto_x.Models.{MonitoredUser}
use auto_x.Accounts.{flushed, store_changes}
use auto_x.Poller.Service.{Db, has_id, get_user, put_user}

-- The account, if it is there, has at least this generation.
abbrev pub Generation : {O : Type 0} → ℕ → ℕ → Db O → Type 0
Generation id g db = (user : MonitoredUser) → get_user id db ≡ some user → g ≤ user.poll_generation

flushed-Generation :
    (g h : ℕ) (read new stored : MonitoredUser)
    → g ≤ read.poll_generation
    → read.poll_generation ≤ new.poll_generation
    → h ≤ suc g
    → h ≤ stored.poll_generation
    → h ≤ (flushed read new stored).poll_generation
unfolding flushed
flushed-Generation g h read new stored since grows close bound = ground arith

flushed_raised :
    (g : ℕ) (read new stored : MonitoredUser)
    → g ≤ read.poll_generation
    → new.poll_generation ≡ read.poll_generation + 1
    → suc g ≤ (flushed read new stored).poll_generation
unfolding flushed
flushed_raised g read new stored since next = ground arith

module _ {O : Type 0} where
  pub get_user-id :
      (id : ℕ) (db : Db O) (user : MonitoredUser) → get_user id db ≡ some user → user.id ≡ id
  unfolding get_user
  get_user-id id db user h = ground (arith, find-test (has_id id) db.users user h)

  get_user-put_user :
      (id : ℕ) (new : MonitoredUser) (db : Db O)
      → get_user id (put_user new db)
        ≡ changed (has_id new.id) (has_id id) (λ _. new) (get_user id db)
  unfolding get_user put_user
  get_user-put_user id new db =
      find-update (has_id new.id) (has_id id) (λ _. new) db.users (λ a k. ground arith)

  pub get_user-put_user_self :
      (id : ℕ) (new old : MonitoredUser) (db : Db O)
      → get_user id db ≡ some old
      → new.id ≡ old.id
      → get_user id (put_user new db) ≡ some new
  get_user-put_user_self id new old db h e =
      ground (arith, get_user-put_user id new db, get_user-id id db old h)

  same_row :
      (id uid : ℕ) (db : Db O) (row old : MonitoredUser)
      → get_user id db ≡ some row
      → get_user uid db ≡ some old
      → row.id ≡ old.id
      → row ≡ old
  same_row id uid db row old h k e =
      let p = get_user-id id db row h in
      let q = get_user-id uid db old k in let same : id ≡ uid = sym p ∙ e ∙ q in cc

  -- A write of a row that was read keeps a bound on generations, if it lowers none.
  pub put_user-Generation :
      (id g uid : ℕ) (new old : MonitoredUser) (db : Db O)
      → get_user uid db ≡ some old
      → new.id ≡ old.id
      → old.poll_generation ≤ new.poll_generation
      → Generation id g db
      → Generation id g (put_user new db)
  put_user-Generation id g uid new old db h e grows bound user found =
      elim (Option-cases (get_user id db)) [
        | inl gone ↦ absurd (ground (arith, get_user-put_user id new db))
        | inr (row, there) ↦ ground (
          arith,
          get_user-put_user id new db,
          bound row there,
          get_user-id id db row there,
          get_user-id uid db old h,
          same_row id uid db row old there h,
        )
      ]

  find-store_changes :
      (id : ℕ) (f : MonitoredUser → MonitoredUser) (read : MonitoredUser) (db : Db O)
      → find (has_id id) (update (has_id read.id) (flushed read (f read)) db.users)
        ≡ changed (has_id read.id) (has_id id) (flushed read (f read)) (find (has_id id) db.users)
  unfolding flushed
  find-store_changes id f read db =
      find-update (has_id read.id) (has_id id) (flushed read (f read)) db.users (λ a k. refl)

  -- The account that is found after the commit of a handler that has read it.
  stored_row :
      (id : ℕ) (f : MonitoredUser → MonitoredUser) (read user row : MonitoredUser) (db : Db O)
      → find (has_id id) (update (has_id read.id) (flushed read (f read)) db.users) ≡ some user
      → find (has_id id) db.users ≡ some row
      → has_id read.id row ≡ true
      → user ≡ flushed read (f read) row
  stored_row id f read user row db found there its =
      ap or_user (sym found ∙ rw (there, its) at (find-store_changes id f read db))
    where
      or_user : Option MonitoredUser → MonitoredUser
      or_user none = read
      or_user (some u) = u

  -- A handler writes the columns that it has changed: a generation that it has raised, above the one
  -- that it read, or else none.
  pub store_changes-Generation :
      (id g h : ℕ) (f : MonitoredUser → MonitoredUser) (read : MonitoredUser) (db : Db O)
      → (read.id ≡ id → g ≤ read.poll_generation)
      → read.poll_generation ≤ (f read).poll_generation
      → h ≤ suc g
      → Generation id h db
      → Generation id h (store_changes f read db)
  unfolding store_changes get_user
  store_changes-Generation id g h f read db since grows close bound user found =
      elim (Option-cases (find (has_id id) db.users)) [
        | inl gone ↦ absurd (ground (arith, find-store_changes id f read db))
        | inr (row, there) ↦ elim (Bool-cases (has_id read.id row)) [
          | inl its ↦
              let same : row.id ≡ id = ground (arith, find-test (has_id id) db.users row there) in
              let own : read.id ≡ id = ground arith in
              let kept =
                flushed-Generation g h read (f read) row (since own) grows close
                  (bound row there) in
              rw (stored_row id f read user row db found there its) kept
          | inr other ↦ ground (arith, find-store_changes id f read db, bound row there)
        ]
      ]

  -- One that raises the generation of its account leaves it above the one that it read.
  pub store_changes-raises :
      (id g : ℕ) (f : MonitoredUser → MonitoredUser) (read : MonitoredUser) (db : Db O)
      → read.id ≡ id
      → g ≤ read.poll_generation
      → (f read).poll_generation ≡ read.poll_generation + 1
      → Generation id (suc g) (store_changes f read db)
  unfolding store_changes get_user
  store_changes-raises id g f read db own since next user found =
      elim (Option-cases (find (has_id id) db.users)) [
        | inl gone ↦ absurd (ground (arith, find-store_changes id f read db))
        | inr (row, there) ↦
            let same : row.id ≡ id = ground (arith, find-test (has_id id) db.users row there) in
            let its : has_id read.id row ≡ true = (==_iff row.id read.id).1 (same ∙ sym own) in
            rw (stored_row id f read user row db found there its)
              (flushed_raised g read (f read) row since next)
      ]

-- DELETE of the row with an id: no row has that id, and the others are as they were.
pub find-removed_self :
    (id : ℕ) (users : List MonitoredUser)
    → find (has_id id) (where_true (λ u. not (has_id id u)) users) ≡ none
find-removed_self id [] = refl
find-removed_self id (x ∷ xs) = ground (arith, find-removed_self id xs)

pub find-removed :
    (id uid : ℕ) (users : List MonitoredUser) (user : MonitoredUser)
    → find (has_id id) (where_true (λ u. not (has_id uid u)) users) ≡ some user
    → find (has_id id) users ≡ some user
find-removed id uid [] user h = h
find-removed id uid (x ∷ xs) user h = ground (
  arith,
  find-removed id uid xs user,
  find-removed_self id xs,
  λ (e : uid ≡ id). removed_eq uid id xs e,
)
  where
    removed_eq :
        (uid id : ℕ) (rows : List MonitoredUser)
        → uid ≡ id
        → where_true (λ u. not (has_id uid u)) rows ≡ where_true (λ u. not (has_id id u)) rows
    removed_eq uid id rows e = rw e
