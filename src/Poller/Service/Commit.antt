-- ===== src/Poller/Service/Commit.antt =====
-- poller.py: `_commit_success`, the transaction that stores a page.
use auto_x.Prelude.{
  ℕ, ◌+◌, String, Bool, true, false, not, ◌&&◌, Option, none, some, List, [], ◌==◌, if◌then◌else◌,
  is_some, opt_str_eq, truthy, length, any_true, Instant, seconds,
}
use auto_x.Models.{MonitoredUser}
use auto_x.Poller.{
  TweetBatch, PollClaim, calculate_pagination_state, earlier_deadline, effective_interval,
  with_pagination,
}
use auto_x.Poller.Ingest.{Post, rows_by_id, upsert_tweets}
use auto_x.Poller.Service.{
  Downstream, Db, get_user, put_user, log_end, finalize_log, superseded_message,
}

-- The settings that a poll reads.
pub record Settings : Type 0 where
  pub global_poll_interval_seconds : ℕ
  pub pagination_resume_delay_seconds : ℕ
  pub tweet_screenshot_enabled : Bool

pub record XUser : Type 0 where
  pub id : String
  pub name : Option String

pub record CommitResult : Type 0 where
  pub status : String
  pub tweets_inserted : ℕ
  pub applied : Bool
  pub qq_delivery_ids : List ℕ

-- An exception rolls the transaction back.
pub data Commit : Type 0 where
  lock_lost : Commit
  identity_conflict : Commit
  committed : CommitResult → Commit

-- The arguments of the call, the page's posts, and the instant and duration that it measures; one
-- reading of the clock serves for the account and for the end of the log.
pub record Page : Type 0 where
  pub claim : PollClaim
  pub x_user_id : String
  pub resolved_user : Option XUser
  pub batch : TweetBatch
  pub posts : List Post
  pub now : Instant
  pub duration_ms : ℕ

abbrev pub owner_elsewhere : PollClaim → String → MonitoredUser → Bool
owner_elsewhere claim x_user_id user =
    opt_str_eq user.x_user_id (some x_user_id) && not (user.id == claim.user_id)

abbrev pub with_identity : Option XUser → MonitoredUser → MonitoredUser
with_identity none user = user
with_identity (some x) user = record user { x_user_id = some x.id; display_name = x.name }

unfoldable pub proposed_deadline : Settings → Page → MonitoredUser → Instant
proposed_deadline settings page user =
    let pagination = calculate_pagination_state page.claim page.batch in
    if truthy pagination.token
    then page.now + seconds settings.pagination_resume_delay_seconds
    else page.now
      + seconds
          (effective_interval user.poll_interval_seconds settings.global_poll_interval_seconds)

-- The end of a poll: a request that came in meanwhile, seen by its new token, is queued at once.
unfoldable pub rescheduled : PollClaim → Instant → Instant → String → MonitoredUser → MonitoredUser
rescheduled claim now proposed status user =
    if not (opt_str_eq user.manual_poll_token claim.manual_token)
    then record user { status = "queued"; next_poll_at = some now }
    else record user {
      manual_poll_token = if is_some claim.manual_token then none else user.manual_poll_token;
      status = status;
      next_poll_at = some (earlier_deadline user.next_poll_at proposed);
    }

-- The account after a page is stored.
unfoldable pub polled_user : Settings → Page → MonitoredUser → MonitoredUser
polled_user settings page user =
    let pagination = calculate_pagination_state page.claim page.batch in
    let identified = with_identity page.resolved_user user in
    let cleared = record identified {
      last_polled_at = some page.now;
      consecutive_failures = 0;
      last_error = none;
    } in
    rescheduled page.claim page.now (proposed_deadline settings page cleared) pagination.status
      (with_pagination cleared pagination)

-- The row, if it is still the one that the claim was made of.
abbrev pub current : PollClaim → Option MonitoredUser → Option MonitoredUser
current claim none = none
current claim (some user) = if user.poll_generation == claim.generation then some user else none

module _ {O : Type 0} (down : Downstream O) (settings : Settings) where
  -- The calls of the other services for the posts that are new.
  unfoldable pub notify : List String → O → List ℕ × O
  notify new_ids outbox =
      let jobs = down.enqueue_jobs new_ids outbox in
      let shots =
        if settings.tweet_screenshot_enabled then down.enqueue_screenshots new_ids jobs else jobs in
      down.create_deliveries new_ids shots

  -- The part of the transaction after its checks.
  unfoldable pub store_page : Page → MonitoredUser → Db O → CommitResult × Db O
  unfolding notify
  store_page page user db =
      let claim = page.claim in
      let rows = rows_by_id claim.user_id page.x_user_id page.now page.posts in
      let (new_ids, tweets) = upsert_tweets rows db.tweets in
      let (deliveries, outbox) = notify new_ids db.outbox in
      let written =
        put_user (polled_user settings page user)
          (record db { tweets = tweets; outbox = outbox }) in
      (
        record {
          status = "success";
          tweets_inserted = length new_ids;
          applied = true;
          qq_delivery_ids = deliveries;
        },
        finalize_log claim.log_id
            (record (log_end "success" page.now page.duration_ms none) {
              tweets_fetched = page.batch.result_count;
              tweets_inserted = length new_ids;
            })
            written,
      )

  unfoldable pub superseded : Page → Db O → Commit × Db O
  superseded page db = (
    committed (record {
      status = "superseded";
      tweets_inserted = 0;
      applied = false;
      qq_delivery_ids = [];
    }),
    finalize_log page.claim.log_id
        (log_end "superseded" page.now page.duration_ms superseded_message) db,
  )

  -- From the second check of the lock on.
  unfoldable pub commit_current : Page → Bool → MonitoredUser → Db O → Commit × Db O
  commit_current page still_held user db =
      if not still_held
      then (lock_lost, db)
      else if any_true (owner_elsewhere page.claim page.x_user_id) db.users
      then (identity_conflict, db)
      else (let stored = store_page page user db in (committed stored.0, stored.1))

  -- `held` and `still_held` are the outcomes of the two checks of the lock.
  unfoldable pub commit_success : Page → Bool → Bool → Db O → Commit × Db O
  commit_success page held still_held db =
      if not held
      then (lock_lost, db)
      else elim (current page.claim (get_user page.claim.user_id db)) [
        | none ↦ superseded page db
        | some user ↦ commit_current page still_held user db
      ]
