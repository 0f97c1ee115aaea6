-- ===== src/Poller.antt =====
-- backend/app/services/poller.py: what one poll of an account reads and writes.
pub mod Pagination
pub mod Ingest
pub mod Service
pub mod Lock
pub mod Dispatch
use auto_x.Prelude.{
  ℕ, ◌+◌, min, String, Bool, Option, none, some, ◌==◌, if◌then◌else◌, is_some, truthy, or_str,
  Instant,
}
use auto_x.Models.{MonitoredUser}

-- x_client.py: one page of posts. The posts of the page are those of Poller.Ingest.
pub record TweetBatch : Type 0 where
  pub newest_id : Option String
  pub next_token : Option String
  pub result_count : ℕ

pub record PollClaim : Type 0 where
  pub user_id : ℕ
  pub log_id : ℕ
  pub generation : ℕ
  pub trigger : String
  pub manual_token : Option String
  pub username : String
  pub x_user_id : Option String
  pub since_id : Option String
  pub pagination_token : Option String
  pub pagination_since_id : Option String
  pub pagination_newest_id : Option String
  pub include_replies : Bool
  pub include_retweets : Bool

pub record PaginationState : Type 0 where
  pub last_tweet_id : Option String
  pub token : Option String
  pub since_id : Option String
  pub newest_id : Option String
  pub status : String

-- The `since_id` of the request and of the next page.
unfoldable pub request_since_id : PollClaim → Option String
request_since_id claim =
    if is_some claim.pagination_token then claim.pagination_since_id else claim.since_id

unfoldable pub calculate_pagination_state : PollClaim → TweetBatch → PaginationState
unfolding request_since_id
calculate_pagination_state claim batch =
    let checkpoint_newest = or_str claim.pagination_newest_id batch.newest_id in
    if truthy batch.next_token
    then record {
      last_tweet_id = claim.since_id;
      token = batch.next_token;
      since_id = request_since_id claim;
      newest_id = checkpoint_newest;
      status = "backfilling";
    }
    else record {
      last_tweet_id = or_str checkpoint_newest claim.since_id;
      token = none;
      since_id = none;
      newest_id = none;
      status = "idle";
    }

abbrev pub earlier_deadline : Option Instant → Instant → Instant
earlier_deadline none proposed = proposed
earlier_deadline (some existing) proposed = min existing proposed

-- settings_service.py: an interval of zero counts as none.
abbrev pub effective_interval : Option ℕ → ℕ → ℕ
effective_interval none global_interval = global_interval
effective_interval (some interval) global_interval =
    if interval == 0 then global_interval else interval

-- What `_claim_user` hands out for the row that it has just written.
unfoldable pub claim_of : MonitoredUser → ℕ → String → PollClaim
claim_of user log_id trigger = record {
  user_id = user.id;
  log_id = log_id;
  generation = user.poll_generation;
  trigger = trigger;
  manual_token = user.manual_poll_token;
  username = user.username;
  x_user_id = user.x_user_id;
  since_id = user.last_tweet_id;
  pagination_token = user.pagination_token;
  pagination_since_id = user.pagination_since_id;
  pagination_newest_id = user.pagination_newest_id;
  include_replies = user.include_replies;
  include_retweets = user.include_retweets;
}

-- The row as `_claim_user` leaves it.
unfoldable pub claimed_user : MonitoredUser → MonitoredUser
claimed_user user = record user {
  poll_generation = user.poll_generation + 1;
  status = "polling";
  next_poll_at = none;
  last_error = none;
}

unfoldable pub with_pagination : MonitoredUser → PaginationState → MonitoredUser
with_pagination user pagination = record user {
  last_tweet_id = pagination.last_tweet_id;
  pagination_token = pagination.token;
  pagination_since_id = pagination.since_id;
  pagination_newest_id = pagination.newest_id;
}
