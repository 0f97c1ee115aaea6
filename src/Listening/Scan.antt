-- ===== src/Listening/Scan.antt =====
-- ai_listen_backfill.py: the scan of stored posts for a requested backfill, a batch at a time.
use auto_x.Prelude.{
  ℕ, ◌+◌, String, Bool, true, false, not, ◌&&◌, ◌||◌, Option, none, some, List, [], ◌∷◌, ◌++◌, map,
  str_eq, ltb, leb, ◌==◌, if◌then◌else◌, is_none, truthy, length, take, where_true, any_true, find,
  update, Instant, order_by,
}
use auto_x.Models.{only, original, MonitoredUser, Tweet}
use auto_x.Listening.{
  ListenTask, Backfill, Snapshot, Feature, TaskEvent, backfill_batch, backfill_completed, Db,
  Selection,
}
use auto_x.Listening.Wants.{contains, accepts, get_or}
use auto_x.Listening.Enqueue.{enqueue_listening_jobs}
pub mod Candidates
pub mod Order
pub mod Batches
pub mod Complete

-- ORDER BY posted_at, id.
unfoldable pub goes_before : Tweet → Tweet → Bool
goes_before a b = ltb a.posted_at b.posted_at || ((a.posted_at == b.posted_at) && leb a.id b.id)

-- The position of a cursor, where the backfill has one.
abbrev pub position : Option Instant → Option ℕ → Option (Instant × ℕ)
position (some posted_at) (some tweet_id) = some (posted_at, tweet_id)
position _ _ = none

abbrev pub cursor_of : Backfill → Option (Instant × ℕ)
cursor_of backfill = position backfill.cursor_posted_at backfill.cursor_tweet_id

unfoldable pub after_cursor : Option (Instant × ℕ) → Tweet → Bool
after_cursor none tweet = true
after_cursor (some cursor) tweet =
    ltb cursor.0 tweet.posted_at || ((tweet.posted_at == cursor.0) && ltb cursor.1 tweet.id)

-- The conditions on a post without the cursor.
unfoldable pub in_scope : Backfill → Tweet → Bool
in_scope backfill tweet =
    contains tweet.monitored_user_id backfill.config_snapshot.monitored_user_ids
    && leb backfill.from_at tweet.posted_at
    && ltb tweet.posted_at backfill.to_at
    && accepts (get_or backfill.config_snapshot.listen_mode (only original)) tweet

unfoldable pub next_rows : ℕ → Backfill → List Tweet → List Tweet
next_rows batch_size backfill tweets = take batch_size (
    order_by goes_before
      (where_true (λ t. in_scope backfill t && after_cursor (cursor_of backfill) t) tweets))

-- `rows[-1]`.
abbrev pub last_of {ℓ} : {A : Type ℓ} → A → List A → A
last_of a [] = a
last_of a (b ∷ rest) = last_of b rest

-- The backfill after a batch, whose rows are the first and the rest.
unfoldable pub advanced : ℕ → Tweet → List Tweet → ℕ → Instant → Backfill → Backfill
advanced batch_size first rest inserted now backfill =
    let last = last_of first rest in
    record backfill {
      cursor_tweet_id = some last.id;
      cursor_posted_at = some last.posted_at;
      scanned_count = backfill.scanned_count + length (first ∷ rest);
      enqueued_count = backfill.enqueued_count + inserted;
      status = if length (first ∷ rest) == batch_size then "running" else "completed";
      last_error = none;
      updated_at = now;
    }

abbrev pub is_open : Backfill → Bool
is_open backfill = str_eq backfill.status "pending" || str_eq backfill.status "running"

-- Writes a backfill, or adds an event.
unfoldable pub save : Backfill → Db → Db
save backfill db = record db {
  backfills = update (λ (b : Backfill). b.id == backfill.id) (λ _. backfill) db.backfills;
}

unfoldable pub add_event : TaskEvent → Db → Db
add_event event db = record db { events = db.events ++ event ∷ [] }

abbrev pub task_by_id : Db → ℕ → Option ListenTask
task_by_id db task_id = find (λ (t : ListenTask). t.id == task_id) db.tasks

abbrev pub held_now : Option ListenTask → Bool
held_now none = false
held_now (some task) = truthy task.queue_hold_reason

-- An account of the snapshot that is not being collected.
abbrev pub is_collected : Option MonitoredUser → Bool
is_collected none = false
is_collected (some user) = user.is_active && is_none user.archived_at

unfoldable pub unavailable : Db → List ℕ → List ℕ
unavailable db user_ids =
    where_true
      (λ user_id. not (is_collected (find (λ (u : MonitoredUser). u.id == user_id) db.users)))
      user_ids

abbrev pub feature_available : Db → Snapshot → Bool
feature_available db snapshot =
    any_true
      (λ (f : Feature).
        str_eq f.code (get_or snapshot.feature_code "article_generation") && f.is_active)
      db.features

-- `status = "pending"` with an error, which `error` gives where there is one to write.
abbrev pub waiting : Option String → Instant → Backfill → Backfill
waiting error now backfill = record backfill {
  status = "pending";
  last_error = error;
  updated_at = now;
}

-- The end of a batch: nothing moves where the enqueue found the task's skills invalid.
unfoldable pub finish_batch : ℕ → Instant → Backfill → Tweet → List Tweet → ℕ × Db → Option ℕ × Db
finish_batch batch_size now backfill first rest (inserted, db) =
    let next = advanced batch_size first rest inserted now backfill in
    let n = length (first ∷ rest) in
    if held_now (task_by_id db backfill.task_id)
    then (none, save (waiting none now backfill) db)
    else (
      some n,
      add_event
          (if n == batch_size
            then backfill_batch backfill.task_id backfill.id next.scanned_count next.enqueued_count
            else backfill_completed backfill.task_id backfill.id next.scanned_count
                next.enqueued_count)
          (save next db),
    )

unfoldable pub scan_batch :
    (ℕ → Selection) → ℕ → Instant → Backfill → List Tweet → Db → Option ℕ × Db
scan_batch resolve batch_size now backfill [] db = (
  none,
  add_event
      (backfill_completed backfill.task_id backfill.id backfill.scanned_count
        backfill.enqueued_count)
      (save (record backfill { status = "completed"; last_error = none; updated_at = now }) db),
)
scan_batch resolve batch_size now backfill (first ∷ rest) db =
    finish_batch batch_size now backfill first rest (
      enqueue_listening_jobs resolve (map (λ (t : Tweet). t.id) (first ∷ rest))
        (some backfill.task_id) (some (backfill.from_at, backfill.to_at))
        (some backfill.config_snapshot) none now db)
