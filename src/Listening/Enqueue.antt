-- ===== src/Listening/Enqueue.antt =====
-- ai_jobs.py: `enqueue_listening_jobs`. What the skill service resolves a task to is the argument
-- `resolve`; a call that it fails raises, and the caller rolls its transaction back.
use auto_x.Prelude.{
  ℕ, ◌+◌, String, Bool, true, false, not, ◌&&◌, ◌||◌, Option, none, some, List, [], ◌∷◌, ◌++◌, map,
  str_eq, leb, ◌==◌, if◌then◌else◌, opt_eq, is_none, is_some, truthy, length, where_true, find,
  Instant, order_by,
}
use auto_x.Models.{Tweet}
use auto_x.Listening.{
  listen, Setting, Feature, ListenTask, Subscription, Snapshot, Job, jobs_enqueued, Db, Selection,
}
use auto_x.Listening.Wants.{Plan, plan_of, wants, contains, or_nat, get_or, queued_already}

unfoldable pub job_of : Setting → Instant → ListenTask → Plan → Feature → Tweet → Job
job_of setting now task plan feature tweet = record {
  id = 0;
  source_tweet_id = tweet.id;
  listen_task_id = some task.id;
  trigger_type = "listen_task";
  task_config_version = some plan.config_version;
  listen_mode = plan.task_mode;
  all_monitored_users = plan.all_users;
  auto_publish_channels = plan.auto_publish_channels;
  owner_admin_id = plan.owner_admin_id;
  qq_bot_id = plan.qq_bot_id;
  qq_group_openids = plan.qq_group_openids;
  feature_code = feature.code;
  skill_ids = plan.selected_ids;
  skill_snapshot = plan.skill_snapshots;
  idempotency_key = listen task.id tweet.id;
  status = "queued";
  provider = setting.provider;
  model_name = setting.model_name;
  language = get_or plan.language_override setting.language;
  tone = get_or plan.tone_override setting.tone;
  max_output_tokens = get_or plan.max_output_tokens_override setting.max_output_tokens;
  attempts = 0;
  lifetime_attempts = 0;
  max_attempts = or_nat plan.max_attempts_override setting.max_attempts;
  next_attempt_at = now;
  manual = false;
}

-- INSERT … ON CONFLICT DO NOTHING RETURNING id: how many of the rows were new, and the table.
unfoldable pub insert_jobs : List Job → ℕ → List Job → ℕ × List Job
insert_jobs [] next_id jobs = (0, jobs)
insert_jobs (job ∷ rest) next_id jobs =
    let old = insert_jobs rest next_id jobs in
    let new = insert_jobs rest (next_id + 1) (jobs ++ record job { id = next_id } ∷ []) in
    if queued_already job.idempotency_key jobs then old else (new.0 + 1, new.1)

-- What each call has: the posts, the window and the snapshot of a backfill, and the instant.
pub record Call : Type 0 where
  pub setting : Setting
  pub window : Option (Instant × Instant)
  pub snapshot : Option Snapshot
  pub tweets : List Tweet
  pub now : Instant

unfoldable pub values_of : Call → Db → ListenTask → Plan → Feature → List Job
values_of call db task plan feature =
    map (job_of call.setting call.now task plan feature)
      (where_true (wants call.snapshot call.window db task plan) call.tweets)

-- The insertion of one round and its event.
unfoldable pub insert_values : Call → Db → ListenTask → List Job → ℕ × Db
insert_values call db task values =
    let inserted = insert_jobs values db.next_job_id db.jobs in
    (
      inserted.0,
      record db {
        jobs = inserted.1;
        next_job_id = db.next_job_id + inserted.0;
        events =
            if inserted.0 == 0
            then db.events
            else db.events ++ jobs_enqueued task.id inserted.0 (is_some call.window) ∷ [];
      },
    )

abbrev pub get_ai_feature : Db → String → Option Feature
get_ai_feature db code = find (λ (f : Feature). str_eq f.code code && f.is_active) db.features

unfoldable pub with_feature : Call → Db → ListenTask → Plan → Option Feature → ℕ × Db
with_feature call db task plan none = (0, db)
with_feature call db task plan (some feature) =
    insert_values call db task (values_of call db task plan feature)

unfoldable pub hold_task : ℕ → ListenTask → ListenTask
hold_task task_id task =
    if task.id == task_id
    then record task { queue_hold_reason = some "skill_invalidated" }
    else task

-- One round of `for task in tasks`.
unfoldable pub round : (ℕ → Selection) → Call → ListenTask → Db → ℕ × Db
round resolve call task db =
    let subscriptions = where_true (λ (s : Subscription). s.task_id == task.id) db.subscriptions in
    let plan = plan_of call.snapshot task (resolve task.id) subscriptions in
    if truthy task.queue_hold_reason
    then (0, db)
    else if not (resolve task.id).valid
    then (0, record db { tasks = map (hold_task task.id) db.tasks })
    else if (length plan.selected_ids == 0)
        || not (length plan.skill_snapshots == length plan.selected_ids)
    then (0, db)
    else with_feature call db task plan (get_ai_feature db plan.feature_code)

unfoldable pub rounds : (ℕ → Selection) → Call → List ListenTask → Db → ℕ × Db
rounds resolve call [] db = (0, db)
rounds resolve call (task ∷ tasks) db =
    let first = round resolve call task db in
    let later = rounds resolve call tasks first.1 in (first.0 + later.0, later.1)

-- `get_ai_setting`: the row, which is made with `enabled` false where there is none.
abbrev pub default_setting : Setting
default_setting = record {
  enabled = false;
  auto_generate = true;
  provider = "openai_responses";
  model_name = "gpt-5.6-terra";
  language = "zh-CN";
  tone = "专业自然";
  max_attempts = 3;
  max_output_tokens = 2500;
}

unfoldable pub get_ai_setting : Db → Setting × Db
get_ai_setting db = (
  get_or db.setting default_setting,
  record db { setting = some (get_or db.setting default_setting) },
)

abbrev pub is_task : Option ℕ → ListenTask → Bool
is_task task_id task =
    str_eq task.desired_state "enabled" && (is_none task_id || opt_eq ◌==◌ task_id (some task.id))

-- The call with the setting that it was given or read. The tasks are ordered by id.
unfoldable pub enqueue_with :
    (ℕ → Selection)
    → Setting
    → List ℕ
    → Option ℕ
    → Option (Instant × Instant)
    → Option Snapshot
    → Instant
    → Db
    → ℕ × Db
enqueue_with resolve setting tweet_ids task_id window snapshot now db =
    let call : Call = record {
      setting = setting;
      window = window;
      snapshot = snapshot;
      tweets = where_true (λ (t : Tweet). contains t.id tweet_ids) db.tweets;
      now = now;
    } in
    if not setting.enabled || not setting.auto_generate || (length call.tweets == 0)
    then (0, db)
    else rounds resolve call
        (order_by (λ (a b : ListenTask). leb a.id b.id) (where_true (is_task task_id) db.tasks)) db

unfoldable pub enqueue_listening_jobs :
    (ℕ → Selection)
    → List ℕ
    → Option ℕ
    → Option (Instant × Instant)
    → Option Snapshot
    → Option Setting
    → Instant
    → Db
    → ℕ × Db
enqueue_listening_jobs resolve tweet_ids task_id window snapshot given now db =
    let setting = get_ai_setting db in
    if length tweet_ids == 0 then (0, db) else elim given [
      | some s ↦ enqueue_with resolve s tweet_ids task_id window snapshot now db
      | none ↦ enqueue_with resolve setting.0 tweet_ids task_id window snapshot now setting.1
    ]
