-- ===== src/Accounts.antt =====
-- backend/app/api/routes/monitored_users.py: how an administrator changes a monitored account.
-- A call for an unknown account (HTTP 404) leaves the tables as they are.
pub mod History
mod Rows
mod Examples
mod Writes
pub mod Generations
pub mod Superseding
pub mod Superseded
use auto_x.Prelude.{
  ℕ, zero, suc, ◌+◌, ◌-◌, ◌*◌, ◌/◌, ◌%◌, ◌^◌, ◌≤◌, ◌<◌, min, max, String, ◌≡◌, refl, sym, ap, ◌∙◌,
  subst, ◌≢◌, ◌↔◌, ◌⊎◌, inl, inr, Bool, true, false, not, ◌&&◌, ◌||◌, Option, none, some, List, [],
  ◌∷◌, ◌++◌, map, append-nil, append_assoc, Mem, mem-cons_self, mem-cons_of_mem, arith, str_eq,
  eq_iff, ltb, leb, ◌==◌, if◌then◌else◌, ltb→lt, lt→ltb, leb→le, le→leb, ==_iff, ==_refl,
  str_eq_refl, clash, Bool-cases, Option-cases, opt_eq, is_none, is_some, opt_str_eq,
  opt_str_eq_refl, opt_str_eq→eq, truthy, or_str, &&-left, &&-right, length, take, drop,
  length-append, length-take-le, take-append-drop, length-drop, All, All-map, where_true, any_true,
  find, update, changed, find-update, find-test, find-append, any_true-append, where_true-All,
  All-where_true, Instant, seconds, days, insert_by, order_by, order_by-All, length-order_by,
  take-All, IsSorted, order_by-IsSorted, IsSorted-limit, any_true-order_by, find-written,
  update-twice, keep_if, by_key, has_key_in, IsKeyed, find_absent, find-and, find-where,
  IsKeyed-where, IsKeyed-append, has_key_in-update, IsKeyed-update, find-present, find-where_true,
  has_key_in-find, truncate, All-snoc, All-update, find-All, All-Mem,
}
use auto_x.Models.{MonitoredUser, Tweet, PollingLog}
use auto_x.Poller.{earlier_deadline, effective_interval}
use auto_x.Poller.Service.{Db, has_id, get_user, put_user}

-- The fields that the payload of a PATCH request sets.
pub record AccountUpdates : Type 0 where
  pub poll_interval_seconds : Option (Option ℕ)
  pub include_replies : Option Bool
  pub include_retweets : Option Bool

abbrev pub given {ℓ} : {A : Type ℓ} → Option A → A → A
given none old = old
given (some new) old = new

abbrev pub bool_eq : Bool → Bool → Bool
bool_eq true b = b
bool_eq false b = not b

abbrev pub differs : Option Bool → Bool → Bool
differs none old = false
differs (some new) old = not (bool_eq new old)

unfoldable pub filters_changed : AccountUpdates → MonitoredUser → Bool
filters_changed updates user =
    differs updates.include_replies user.include_replies
    || differs updates.include_retweets user.include_retweets

unfoldable pub refiltered : Instant → MonitoredUser → MonitoredUser
refiltered now user = record user {
  pagination_token = none;
  pagination_since_id = none;
  pagination_newest_id = none;
  poll_generation = user.poll_generation + 1;
  status = if user.is_active then "queued" else user.status;
  next_poll_at = if user.is_active then some now else user.next_poll_at;
}

-- The whole of `update_monitored_user` on the row.
unfoldable pub updated : Instant → ℕ → AccountUpdates → MonitoredUser → MonitoredUser
unfolding filters_changed refiltered
updated now global_interval updates user =
    let set = record user {
      poll_interval_seconds = given updates.poll_interval_seconds user.poll_interval_seconds;
      include_replies = given updates.include_replies user.include_replies;
      include_retweets = given updates.include_retweets user.include_retweets;
    } in
    let queued = if filters_changed updates user then refiltered now set else set in
    if queued.is_active && is_some updates.poll_interval_seconds
    then record queued {
      next_poll_at = some (
          earlier_deadline queued.next_poll_at
            (now + seconds (effective_interval queued.poll_interval_seconds global_interval)));
    }
    else queued

unfoldable pub archived : Instant → MonitoredUser → MonitoredUser
archived now user = record user {
  archived_at = some now;
  is_active = false;
  status = "archived";
  next_poll_at = none;
  manual_poll_token = none;
  poll_generation = user.poll_generation + 1;
}

unfoldable pub paused : MonitoredUser → MonitoredUser
paused user = record user {
  is_active = false;
  status = "paused";
  next_poll_at = none;
  manual_poll_token = none;
  poll_generation = user.poll_generation + 1;
}

unfoldable pub resumed : Instant → MonitoredUser → MonitoredUser
resumed now user = record user {
  is_active = true;
  archived_at = none;
  status = "queued";
  last_error = none;
  next_poll_at = some now;
  poll_generation = user.poll_generation + 1;
}

-- The handler refuses a paused account (HTTP 409). `token` is the new uuid.
unfoldable pub poll_requested : Instant → String → MonitoredUser → MonitoredUser
poll_requested now token user =
    if user.is_active
    then record user { manual_poll_token = some token; next_poll_at = some now; status = "queued" }
    else user

-- A column of an UPDATE is written where the handler has changed the value that it read.
abbrev pub column {ℓ} : {A : Type ℓ} → (A → A → Bool) → A → A → A → A
column eq read new stored = if eq read new then stored else new

-- The columns that the handlers set, each by what was read, what was set, and what is stored by now.
unfoldable pub flushed : MonitoredUser → MonitoredUser → MonitoredUser → MonitoredUser
flushed read new stored = record stored {
  is_active = column bool_eq read.is_active new.is_active stored.is_active;
  include_replies = column bool_eq read.include_replies new.include_replies stored.include_replies;
  include_retweets =
      column bool_eq read.include_retweets new.include_retweets stored.include_retweets;
  poll_interval_seconds =
      column (opt_eq ◌==◌) read.poll_interval_seconds new.poll_interval_seconds
        stored.poll_interval_seconds;
  status = column str_eq read.status new.status stored.status;
  pagination_token =
      column opt_str_eq read.pagination_token new.pagination_token stored.pagination_token;
  pagination_since_id =
      column opt_str_eq read.pagination_since_id new.pagination_since_id stored.pagination_since_id;
  pagination_newest_id =
      column opt_str_eq read.pagination_newest_id new.pagination_newest_id
        stored.pagination_newest_id;
  manual_poll_token =
      column opt_str_eq read.manual_poll_token new.manual_poll_token stored.manual_poll_token;
  poll_generation = column ◌==◌ read.poll_generation new.poll_generation stored.poll_generation;
  next_poll_at = column (opt_eq ◌==◌) read.next_poll_at new.next_poll_at stored.next_poll_at;
  last_error = column opt_str_eq read.last_error new.last_error stored.last_error;
  archived_at = column (opt_eq ◌==◌) read.archived_at new.archived_at stored.archived_at;
}

module _ {O : Type 0} where
  -- A handler reads its row without a lock (`_get_user_or_404`), and commits its changes later, to
  -- the row as others have left it by then. `read` is the row that it has read.
  unfoldable pub store_changes : (MonitoredUser → MonitoredUser) → MonitoredUser → Db O → Db O
  store_changes f read db = record db {
    users = update (has_id read.id) (flushed read (f read)) db.users;
  }

  unfoldable pub update_monitored_user : Instant → ℕ → AccountUpdates → MonitoredUser → Db O → Db O
  update_monitored_user now global_interval updates =
      store_changes (updated now global_interval updates)

  unfoldable pub pause_monitored_user : MonitoredUser → Db O → Db O
  pause_monitored_user = store_changes paused

  unfoldable pub resume_monitored_user : Instant → MonitoredUser → Db O → Db O
  resume_monitored_user now = store_changes (resumed now)

  unfoldable pub poll_monitored_user_now : Instant → String → MonitoredUser → Db O → Db O
  poll_monitored_user_now now token = store_changes (poll_requested now token)

  -- The handler that locks the row that it reads.
  unfoldable pub modify : (MonitoredUser → MonitoredUser) → ℕ → Db O → Db O
  modify f user_id db = elim (get_user user_id db) [ none ↦ db | some user ↦ put_user (f user) db ]

  unfoldable pub has_content : ℕ → Db O → Bool
  has_content user_id db = any_true (λ (t : Tweet). t.monitored_user_id == user_id) db.tweets.rows

  -- An account with posts, or with a listening task (`has_task`), is archived; another is deleted,
  -- and its polling logs with it.
  unfoldable pub delete_monitored_user : Instant → Bool → ℕ → Db O → Db O
  unfolding has_content
  delete_monitored_user now has_task user_id db =
      if has_content user_id db || has_task then modify (archived now) user_id db else record db {
        users = where_true (λ user. not (has_id user_id user)) db.users;
        logs = where_true (λ (row : PollingLog). not (row.monitored_user_id == user_id)) db.logs;
      }
