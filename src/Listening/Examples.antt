-- ===== src/Listening/Examples.antt =====
-- A task that listens to one account, and a backfill of two posts.
use auto_x.Prelude.{
  ℕ, ◌≤◌, String, ◌≡◌, refl, true, false, none, some, List, [], ◌∷◌, arith, length, insert_by,
  order_by,
}
use auto_x.Models.{any_type, original, MonitoredUser, Tweet}
use auto_x.Listening.{Setting, ListenTask, Snapshot, Backfill, Db, Selection}
use auto_x.Listening.Wants.{
  plan_of, wants, wants_from, legacy_generated, queued_already, source_allows, realtime_allows,
  in_time, in_initial_window, effective_from,
}
use auto_x.Listening.Enqueue.{
  enqueue_listening_jobs, enqueue_with, get_ai_setting, rounds, round, with_feature, insert_values,
  insert_jobs, values_of, job_of,
}
use auto_x.Listening.Jobs.{Grows}
use auto_x.Listening.Window.{FromWindow, backfill_jobs}
use auto_x.Listening.Scan.{next_rows, advanced, goes_before, in_scope, after_cursor}
use auto_x.Listening.Scan.Batches.{remaining, scan_batches}
use auto_x.Listening.Scan.Complete.{scan_complete, completed_is_done}

abbrev account : MonitoredUser
account = record {
  id = 1;
  username = "alice";
  x_user_id = some "77";
  display_name = none;
  is_active = true;
  include_replies = false;
  include_retweets = false;
  poll_interval_seconds = none;
  status = "idle";
  last_tweet_id = none;
  pagination_token = none;
  pagination_since_id = none;
  pagination_newest_id = none;
  manual_poll_token = none;
  poll_generation = 0;
  last_polled_at = none;
  next_poll_at = none;
  last_error = none;
  consecutive_failures = 0;
  archived_at = none;
  initial_sync_days = none;
  created_at = some 50;
}

abbrev post : ℕ → String → ℕ → Tweet
post n key at = record {
  id = n;
  tweet_id = key;
  monitored_user_id = 1;
  author_id = "77";
  text = "hello";
  tweet_type = original;
  lang = none;
  conversation_id = none;
  posted_at = at;
  like_count = 0;
  retweet_count = 0;
  reply_count = 0;
  quote_count = 0;
  bookmark_count = 0;
  impression_count = 0;
  entities = none;
  attachments = none;
  referenced_tweets = none;
  raw_payload = "{}";
  fetched_at = 200;
}

abbrev posts : List Tweet
posts = post 7 "a" 120 ∷ post 8 "b" 110 ∷ post 9 "c" 300 ∷ []

abbrev task : ListenTask
task = record {
  id = 5;
  desired_state = "enabled";
  queue_hold_reason = none;
  listen_mode = any_type;
  all_monitored_users = false;
  feature_code = "article_generation";
  auto_publish_channels = [];
  owner_admin_id = some 1;
  qq_bot_id = none;
  qq_group_openids = [];
  config_version = 2;
  max_attempts_override = none;
  language_override = some "en";
  tone_override = none;
  max_output_tokens_override = none;
  activated_at = some 90;
  effective_from = none;
  initial_backfill_from = none;
  initial_backfill_to = none;
}

abbrev snapshot : Snapshot
snapshot = record {
  skill_ids = 3 ∷ [];
  skills = "writer" ∷ [];
  listen_mode = some any_type;
  all_monitored_users = false;
  monitored_user_ids = 1 ∷ [];
  feature_code = some "article_generation";
  auto_publish_channels = [];
  owner_admin_id = some 1;
  qq_bot_id = none;
  qq_group_openids = [];
  exclude_legacy_generated = true;
  config_version = some 2;
  language_override = none;
  tone_override = none;
  max_output_tokens_override = none;
  max_attempts_override = none;
}

abbrev backfill : Backfill
backfill = record {
  id = 4;
  task_id = 5;
  from_at = 100;
  to_at = 200;
  config_snapshot = snapshot;
  status = "pending";
  cursor_posted_at = none;
  cursor_tweet_id = none;
  scanned_count = 0;
  enqueued_count = 0;
  last_error = none;
  updated_at = 0;
}

abbrev setting : Setting
setting = record {
  enabled = true;
  auto_generate = true;
  provider = "openai_responses";
  model_name = "m";
  language = "zh-CN";
  tone = "plain";
  max_attempts = 3;
  max_output_tokens = 2500;
}

abbrev db : Db
db = record {
  setting = some setting;
  features = record { code = "article_generation"; is_active = true } ∷ [];
  tasks = task ∷ [];
  subscriptions = record { task_id = 5; monitored_user_id = 1; effective_from = some 95 } ∷ [];
  users = account ∷ [];
  tweets = posts;
  jobs = [];
  next_job_id = 1;
  backfills = backfill ∷ [];
  events = [];
}

abbrev resolve : ℕ → Selection
resolve n = record { valid = true; selected_ids = 3 ∷ []; skills = "writer" ∷ [] }

abbrev ids : List ℕ
ids = 8 ∷ 7 ∷ 9 ∷ []

backfill_jobs_example :
    Grows
      (FromWindow ids (100, 200) snapshot db)
      []
      (enqueue_listening_jobs resolve ids (some 5) (some (100, 200)) (some snapshot) none 400 db).0
      (enqueue_listening_jobs resolve ids
        (some 5)
        (some (100, 200))
        (some snapshot)
        none
        400
        db).1.jobs
backfill_jobs_example = backfill_jobs resolve ids (some 5) (100, 200) snapshot none 400 db

two_queued :
    (enqueue_listening_jobs resolve ids (some 5) (some (100, 200)) (some snapshot) none 400 db).0
    ≡ 2
unfolding enqueue_listening_jobs enqueue_with get_ai_setting rounds round with_feature insert_values
    insert_jobs values_of job_of plan_of wants wants_from legacy_generated queued_already
    source_allows in_time order_by insert_by
two_queued = refl

three_queued : (enqueue_listening_jobs resolve ids none none none none 400 db).0 ≡ 3
unfolding enqueue_listening_jobs enqueue_with get_ai_setting rounds round with_feature insert_values
    insert_jobs values_of job_of plan_of wants wants_from legacy_generated queued_already
    source_allows realtime_allows in_time in_initial_window effective_from order_by insert_by
three_queued = refl

two_left : length (remaining backfill posts) ≤ 2
unfolding order_by insert_by goes_before in_scope after_cursor
two_left = omega arith

whole_batch : next_rows 5 backfill posts ≡ post 8 "b" 110 ∷ post 7 "a" 120 ∷ []
unfolding next_rows order_by insert_by goes_before in_scope after_cursor
whole_batch = refl

batch_completes :
    (advanced 5 (post 8 "b" 110) (post 7 "a" 120 ∷ []) 2 400 backfill).status ≡ "completed"
unfolding advanced
batch_completes = refl

scan_complete_example :
    scan_batches 1 ((1, 400) ∷ (1, 460) ∷ []) backfill posts ≡ remaining backfill posts
scan_complete_example =
    scan_complete 1 ((1, 400) ∷ (1, 460) ∷ []) backfill posts (omega arith)
      ((refl, (refl, tt)), ((refl, tt), (tt, tt))) two_left

completed_is_done_example :
    remaining (advanced 5 (post 8 "b" 110) (post 7 "a" 120 ∷ []) 2 400 backfill) posts ≡ []
completed_is_done_example =
    completed_is_done 5 (post 8 "b" 110) (post 7 "a" 120 ∷ []) 2 400 backfill posts
      ((refl, (refl, tt)), ((refl, tt), (tt, tt))) whole_batch batch_completes
