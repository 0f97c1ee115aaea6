-- ===== src/Models.antt =====
-- The rows that several services share: backend/app/models/monitored_user.py, tweet.py and
-- polling_log.py, without the columns that no modelled code reads (`updated_at` of a user,
-- `started_at` of a log). A JSON column is its text, and a column that may be NULL is an `Option`.
use auto_x.Prelude.{ℕ, String, Bool, true, false, Option, Instant}

-- tweet_types.py: the two `Literal` types.
pub data TweetType : Type 0 where
  original reply retweet : TweetType

pub data ListenMode : Type 0 where
  any_type : ListenMode
  only : TweetType → ListenMode

abbrev pub tweet_type_eq : TweetType → TweetType → Bool
tweet_type_eq original original = true
tweet_type_eq reply reply = true
tweet_type_eq retweet retweet = true
tweet_type_eq _ _ = false

pub record MonitoredUser : Type 0 where
  pub id : ℕ
  pub username : String
  pub x_user_id : Option String
  pub display_name : Option String
  pub is_active : Bool
  pub include_replies : Bool
  pub include_retweets : Bool
  pub poll_interval_seconds : Option ℕ
  pub status : String
  pub last_tweet_id : Option String
  pub pagination_token : Option String
  pub pagination_since_id : Option String
  pub pagination_newest_id : Option String
  pub manual_poll_token : Option String
  pub poll_generation : ℕ
  pub last_polled_at : Option Instant
  pub next_poll_at : Option Instant
  pub last_error : Option String
  pub consecutive_failures : ℕ
  pub archived_at : Option Instant
  pub initial_sync_days : Option ℕ
  pub created_at : Option Instant

pub record Tweet : Type 0 where
  pub id : ℕ
  pub tweet_id : String
  pub monitored_user_id : ℕ
  pub author_id : String
  pub text : String
  pub tweet_type : TweetType
  pub lang : Option String
  pub conversation_id : Option String
  pub posted_at : Instant
  pub like_count : ℕ
  pub retweet_count : ℕ
  pub reply_count : ℕ
  pub quote_count : ℕ
  pub bookmark_count : ℕ
  pub impression_count : ℕ
  pub entities : Option String
  pub attachments : Option String
  pub referenced_tweets : Option String
  pub raw_payload : String
  pub fetched_at : Instant

pub record PollingLog : Type 0 where
  pub id : ℕ
  pub monitored_user_id : ℕ
  pub trigger : String
  pub status : String
  pub worker_id : String
  pub finished_at : Option Instant
  pub duration_ms : Option ℕ
  pub tweets_fetched : ℕ
  pub tweets_inserted : ℕ
  pub http_status : Option ℕ
  pub error_message : Option String
  pub rate_limit_reset_at : Option Instant
