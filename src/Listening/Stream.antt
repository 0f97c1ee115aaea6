-- ===== src/Listening/Stream.antt =====
-- ai_jobs.py: the jobs that `enqueue_listening_jobs` adds for newly stored posts.
use auto_x.Prelude.{ℕ, ◌≡◌, ◌⊎◌, true, ◌||◌, Option, some, List, Mem, is_some, where_true}
use auto_x.Models.{reply, retweet, tweet_type_eq, MonitoredUser, Tweet}
use auto_x.Listening.{listen, ListenTask, Job, Db}
use auto_x.Listening.Wants.{contains, in_time, accepts, user_of, subscription_of}
use auto_x.Listening.Realtime.{InInitialWindow, Started}

-- What a realtime job stands for: an enabled task of the table, the one that the call asks for, if
-- it asks for one, and a post of the call that the task listens to, of an active account
-- whose switches allow its type and that the task is subscribed to, made in time.
pub record FromStream (tweet_ids : List ℕ) (task_id : Option ℕ) (start : Db) (job : Job)
    : Type 0 where
  pub task : ListenTask
  pub task_stored : Mem task start.tasks
  pub enabled : task.desired_state ≡ "enabled"
  pub chosen : (n : ℕ) → task_id ≡ some n → task.id ≡ n
  pub tweet : Tweet
  pub user : MonitoredUser
  pub key : job.idempotency_key ≡ listen task.id tweet.id
  pub source : job.source_tweet_id ≡ tweet.id
  pub stored : Mem tweet (where_true (λ (t : Tweet). contains t.id tweet_ids) start.tweets)
  pub found : user_of start.users tweet ≡ some user
  pub active : user.is_active ≡ true
  pub listens : accepts task.listen_mode tweet ≡ true
  pub replies : tweet_type_eq reply tweet.tweet_type ≡ true → user.include_replies ≡ true
  pub retweets : tweet_type_eq retweet tweet.tweet_type ≡ true → user.include_retweets ≡ true
  pub subscribed :
      (task.all_monitored_users || is_some (subscription_of start.subscriptions task tweet)) ≡ true
  pub in_time :
      InInitialWindow task tweet
      ⊎ Started task user (subscription_of start.subscriptions task tweet) tweet
