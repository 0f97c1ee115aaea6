-- ===== src/Qq/Deliveries/Examples.antt =====
-- A target that asked for one day of history, with one post inside it and one before.
use auto_x.Prelude.{
  ℕ, String, ◌≡◌, refl, true, false, none, some, List, [], ◌∷◌, ◌++◌, map, All, days,
}
use auto_x.Models.{any_type, original, MonitoredUser, Tweet}
use auto_x.TweetTypes.{target_accepts_tweet}
use auto_x.Qq.Deliveries.{
  Delivery, Db, create_tweet_deliveries, delivery_candidates, admits, is_new, is_active_target,
  target_history_cutoff, delivered, delivery_of, numbered,
}
use auto_x.Qq.Deliveries.Once.{create_tweet_deliveries_once}
use auto_x.Qq.Deliveries.Due.{IsDue, create_tweet_deliveries-IsDue}

abbrev author : MonitoredUser
author = record {
  id = 1;
  username = "bob";
  x_user_id = none;
  display_name = some "Bob";
  is_active = true;
  include_replies = true;
  include_retweets = true;
  poll_interval_seconds = some 300;
  status = "idle";
  last_tweet_id = some "9";
  pagination_token = none;
  pagination_since_id = none;
  pagination_newest_id = none;
  manual_poll_token = none;
  poll_generation = 2;
  last_polled_at = some 1;
  next_poll_at = some 2;
  last_error = none;
  consecutive_failures = 0;
  archived_at = none;
  initial_sync_days = none;
  created_at = none;
}

abbrev note : ℕ → String → ℕ → Tweet
note n key at = record {
  id = n;
  tweet_id = key;
  monitored_user_id = 1;
  author_id = "9";
  text = "note";
  tweet_type = original;
  lang = some "en";
  conversation_id = none;
  posted_at = at;
  like_count = 1;
  retweet_count = 0;
  reply_count = 0;
  quote_count = 0;
  bookmark_count = 0;
  impression_count = 4;
  entities = none;
  attachments = none;
  referenced_tweets = none;
  raw_payload = "{}";
  fetched_at = 0;
}

abbrev db : Db
db = record {
  tweets = note 5 "x5" (days 8) ∷ note 6 "x6" (days 3) ∷ [];
  users = author ∷ [];
  targets =
      record {
        id = 2;
        bot_id = 3;
        is_enabled = true;
        listen_mode = some any_type;
        all_monitored_users = false;
        initial_sync_days = some 1;
        created_at = days 9;
      }
      ∷ [];
  bots = record { id = 3; is_enabled = true } ∷ [];
  bindings = record { target_id = 2; monitored_user_id = 1 } ∷ [];
  deliveries = [];
  next_id = 40;
}

one_delivery : (create_tweet_deliveries ("x5" ∷ "x6" ∷ []) 5 none (days 10) db).0 ≡ 40 ∷ []
unfolding create_tweet_deliveries delivery_candidates admits is_new is_active_target
    target_history_cutoff delivered delivery_of numbered target_accepts_tweet
one_delivery = refl

create_tweet_deliveries_once_example :
    ((create_tweet_deliveries
        ("x5" ∷ "x6" ∷ [])
        7
        none
        (days 11)
        (create_tweet_deliveries ("x5" ∷ "x6" ∷ []) 5 none (days 10) db).1).0
      ≡ [])
    × ((create_tweet_deliveries
          ("x5" ∷ "x6" ∷ [])
          7
          none
          (days 11)
          (create_tweet_deliveries ("x5" ∷ "x6" ∷ []) 5 none (days 10) db).1).1.deliveries
        ≡ (create_tweet_deliveries ("x5" ∷ "x6" ∷ []) 5 none (days 10) db).1.deliveries)
create_tweet_deliveries_once_example =
    create_tweet_deliveries_once ("x5" ∷ "x6" ∷ []) 5 7 none (days 10) (days 11) db

create_tweet_deliveries-IsDue_example :
    (added : List Delivery) × ((create_tweet_deliveries
        ("x5" ∷ "x6" ∷ [])
        5
        none
        (days 10)
        db).1.deliveries
      ≡ [] ++ added)
    × ((create_tweet_deliveries ("x5" ∷ "x6" ∷ []) 5 none (days 10) db).0
        ≡ map (λ (d : Delivery). d.id) added)
    × All (IsDue ("x5" ∷ "x6" ∷ []) none db) added
create_tweet_deliveries-IsDue_example =
    create_tweet_deliveries-IsDue ("x5" ∷ "x6" ∷ []) 5 none (days 10) db
