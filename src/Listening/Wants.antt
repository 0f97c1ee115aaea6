-- ===== src/Listening/Wants.antt =====
-- ai_jobs.py: the tests of `enqueue_listening_jobs` on a task and a post.
use auto_x.Prelude.{
  ℕ, String, Bool, true, false, not, ◌&&◌, ◌||◌, Option, none, some, List, map, ltb, leb, ◌==◌,
  if◌then◌else◌, is_some, truthy, any_true, find, Instant,
}
use auto_x.Models.{ListenMode, any_type, only, tweet_type_eq, reply, retweet, MonitoredUser, Tweet}
use auto_x.Listening.{JobKey, auto, key_eq, ListenTask, Subscription, Snapshot, Job, Db, Selection}

abbrev pub contains : ℕ → List ℕ → Bool
contains n ns = any_true (λ m. m == n) ns

-- `a or b` on numbers that may be None, and `value if value is not None else default`.
abbrev pub or_nat : Option ℕ → ℕ → ℕ
or_nat none n = n
or_nat (some m) n = if m == 0 then n else m

abbrev pub get_or {ℓ} : {A : Type ℓ} → Option A → A → A
get_or none a = a
get_or (some b) a = b

-- The locals of one round over the tasks that come from the backfill's snapshot or the task.
pub record Plan : Type 0 where
  pub selected_ids : List ℕ
  pub skill_snapshots : List String
  pub task_mode : ListenMode
  pub all_users : Bool
  pub selected_accounts : List ℕ
  pub feature_code : String
  pub auto_publish_channels : List String
  pub owner_admin_id : Option ℕ
  pub qq_bot_id : Option ℕ
  pub qq_group_openids : List String
  pub language_override : Option String
  pub tone_override : Option String
  pub max_output_tokens_override : Option ℕ
  pub config_version : ℕ
  pub max_attempts_override : Option ℕ

abbrev pub or_text : Option String → String → String
or_text a b = if truthy a then get_or a b else b

unfoldable pub plan_of : Option Snapshot → ListenTask → Selection → List Subscription → Plan
plan_of (some snapshot) task selection subscriptions = record {
  selected_ids = snapshot.skill_ids;
  skill_snapshots = snapshot.skills;
  task_mode = get_or snapshot.listen_mode task.listen_mode;
  all_users = snapshot.all_monitored_users;
  selected_accounts = snapshot.monitored_user_ids;
  feature_code = or_text snapshot.feature_code task.feature_code;
  auto_publish_channels = snapshot.auto_publish_channels;
  owner_admin_id = snapshot.owner_admin_id;
  qq_bot_id = snapshot.qq_bot_id;
  qq_group_openids = snapshot.qq_group_openids;
  language_override = snapshot.language_override;
  tone_override = snapshot.tone_override;
  max_output_tokens_override = snapshot.max_output_tokens_override;
  config_version = or_nat snapshot.config_version task.config_version;
  max_attempts_override = snapshot.max_attempts_override;
}
plan_of none task selection subscriptions = record {
  selected_ids = selection.selected_ids;
  skill_snapshots = selection.skills;
  task_mode = task.listen_mode;
  all_users = task.all_monitored_users;
  selected_accounts = map (λ (s : Subscription). s.monitored_user_id) subscriptions;
  feature_code = task.feature_code;
  auto_publish_channels = task.auto_publish_channels;
  owner_admin_id = task.owner_admin_id;
  qq_bot_id = task.qq_bot_id;
  qq_group_openids = task.qq_group_openids;
  language_override = task.language_override;
  tone_override = task.tone_override;
  max_output_tokens_override = task.max_output_tokens_override;
  config_version = task.config_version;
  max_attempts_override = task.max_attempts_override;
}

abbrev pub accepts : ListenMode → Tweet → Bool
accepts any_type tweet = true
accepts (only mode) tweet = tweet_type_eq mode tweet.tweet_type

-- `later > earlier` replaces `earlier`, a missing one too.
abbrev pub later_of : Option Instant → Option Instant → Option Instant
later_of none earlier = earlier
later_of (some later) none = some later
later_of (some later) (some earlier) = if ltb earlier later then some later else some earlier

abbrev pub subscribed_from : Option Subscription → Option Instant
subscribed_from none = none
subscribed_from (some subscription) = subscription.effective_from

-- `effective_from`, the first instant of the posts that the task takes from this account.
unfoldable pub effective_from :
    ListenTask → Bool → MonitoredUser → Option Subscription → Option Instant
effective_from task all_users user subscription =
    let start = if is_some task.effective_from then task.effective_from else task.activated_at in
    if all_users
    then later_of user.created_at start
    else later_of (subscribed_from subscription) start

abbrev pub at_or_before : Option Instant → Option Instant → Bool
at_or_before (some a) (some b) = leb a b
at_or_before _ _ = false

abbrev pub before_end : Instant → Option Instant → Bool
before_end t none = false
before_end t (some end) = ltb t end

unfoldable pub in_initial_window :
    ListenTask → Bool → MonitoredUser → Option Subscription → Tweet → Bool
in_initial_window task all_users user subscription tweet =
    at_or_before task.initial_backfill_from (some tweet.posted_at)
    && before_end tweet.posted_at task.initial_backfill_to
    && ((all_users && at_or_before user.created_at task.initial_backfill_to)
        || at_or_before (subscribed_from subscription) task.initial_backfill_to)

-- What the round keeps of the posts in time: the backfill's window, or the realtime bound.
unfoldable pub in_time :
    Option (Instant × Instant)
    → ListenTask
    → Bool
    → MonitoredUser
    → Option Subscription
    → Tweet
    → Bool
in_time (some window) task all_users user subscription tweet =
    leb window.0 tweet.posted_at && ltb tweet.posted_at window.1
in_time none task all_users user subscription tweet =
    in_initial_window task all_users user subscription tweet
    || at_or_before (effective_from task all_users user subscription) (some tweet.posted_at)

-- The guards of a realtime round: the account's switches and its subscription.
unfoldable pub realtime_allows : Plan → MonitoredUser → Option Subscription → Tweet → Bool
realtime_allows plan user subscription tweet =
    if tweet_type_eq reply tweet.tweet_type && not user.include_replies
    then false
    else if tweet_type_eq retweet tweet.tweet_type && not user.include_retweets
    then false
    else plan.all_users || is_some subscription

unfoldable pub source_allows :
    Option Snapshot → Plan → MonitoredUser → Option Subscription → Tweet → Bool
source_allows none plan user subscription tweet = realtime_allows plan user subscription tweet
source_allows (some snapshot) plan user subscription tweet =
    contains tweet.monitored_user_id plan.selected_accounts

abbrev pub excludes_legacy : Option Snapshot → Bool
excludes_legacy none = false
excludes_legacy (some snapshot) = snapshot.exclude_legacy_generated

abbrev pub has_key : JobKey → Job → Bool
has_key key job = key_eq job.idempotency_key key

unfoldable pub queued_already : JobKey → List Job → Bool
queued_already key jobs = any_true (has_key key) jobs

-- `f"auto:{tweet.id}" in legacy_generated`.
unfoldable pub legacy_generated : Option Snapshot → List Job → Tweet → Bool
legacy_generated snapshot jobs tweet =
    excludes_legacy snapshot && queued_already (auto tweet.id) jobs

abbrev pub subscription_of : List Subscription → ListenTask → Tweet → Option Subscription
subscription_of subscriptions task tweet =
    find
      (λ (s : Subscription).
        (s.task_id == task.id) && (s.monitored_user_id == tweet.monitored_user_id))
      subscriptions

-- The posts for which a round appends a job: the chain of `continue` guards.
unfoldable pub wants_from :
    Option Snapshot
    → Option (Instant × Instant)
    → Db
    → ListenTask
    → Plan
    → Tweet
    → Option MonitoredUser
    → Bool
wants_from snapshot window db task plan tweet none = false
wants_from snapshot window db task plan tweet (some user) =
    let subscription = subscription_of db.subscriptions task tweet in
    if not user.is_active
    then false
    else if not (accepts plan.task_mode tweet)
    then false
    else if legacy_generated snapshot db.jobs tweet
    then false
    else if not (source_allows snapshot plan user subscription tweet)
    then false
    else in_time window task plan.all_users user subscription tweet

abbrev pub user_of : List MonitoredUser → Tweet → Option MonitoredUser
user_of users tweet = find (λ (u : MonitoredUser). u.id == tweet.monitored_user_id) users

unfoldable pub wants :
    Option Snapshot → Option (Instant × Instant) → Db → ListenTask → Plan → Tweet → Bool
wants snapshot window db task plan tweet =
    wants_from snapshot window db task plan tweet (user_of db.users tweet)
