-- ===== src/Qq/Deliveries.antt =====
-- qq_notifications.py: the deliveries that new posts make for the QQ targets, and the rows of
-- models/qq.py that they read and write, without the texts that a delivery copies.
use auto_x.Prelude.{
  ℕ, ◌+◌, ◌-◌, ◌/◌, String, Bool, true, false, not, ◌&&◌, ◌||◌, Option, none, some, List, [], ◌∷◌,
  ◌++◌, map, str_eq, ltb, ◌==◌, if◌then◌else◌, length, where_true, any_true, Instant, days,
}
use auto_x.Models.{ListenMode, MonitoredUser, Tweet}
use auto_x.TweetTypes.{target_accepts_tweet}
pub mod Once
pub mod Due
mod Examples

pub record Target : Type 0 where
  pub id : ℕ
  pub bot_id : ℕ
  pub is_enabled : Bool
  pub listen_mode : Option ListenMode
  pub all_monitored_users : Bool
  pub initial_sync_days : Option ℕ
  pub created_at : Instant

pub record Bot : Type 0 where
  pub id : ℕ
  pub is_enabled : Bool

pub record Binding : Type 0 where
  pub target_id : ℕ
  pub monitored_user_id : ℕ

-- The idempotency key of a delivery, read back from its text: `tweet:{tweet}:target:{target}`, or
-- another one.
pub data DeliveryKey : Type 0 where
  tweet_target : ℕ → ℕ → DeliveryKey
  another : String → DeliveryKey

abbrev pub same_key : DeliveryKey → DeliveryKey → Bool
same_key (tweet_target t g) (tweet_target t' g') = (t == t') && (g == g')
same_key (another k) (another k') = str_eq k k'
same_key _ _ = false

pub record Delivery : Type 0 where
  pub id : ℕ
  pub target_id : ℕ
  pub source_tweet_id : Option ℕ
  pub kind : String
  pub idempotency_key : DeliveryKey
  pub status : String
  pub attempts : ℕ
  pub max_attempts : ℕ
  pub next_attempt_at : Instant

pub record Db : Type 0 where
  pub tweets : List Tweet
  pub users : List MonitoredUser
  pub targets : List Target
  pub bots : List Bot
  pub bindings : List Binding
  pub deliveries : List Delivery
  pub next_id : ℕ

-- The day count is compared with the days since datetime.min, which is instant 0.
unfoldable pub target_history_cutoff : Target → Option Instant
target_history_cutoff target = elim target.initial_sync_days [
  | none ↦ none
  | some n ↦
      if ltb (target.created_at / 86400000000) n then some 0 else some (target.created_at - days n)
]

-- A round of the two loops.
pub record Candidate : Type 0 where
  pub tweet : Tweet
  pub target : Target

abbrev pub key_of : Candidate → DeliveryKey
key_of c = tweet_target c.tweet.id c.target.id

abbrev pub listed_tweet : List String → Tweet → Bool
listed_tweet ids tweet = any_true (λ k. str_eq k tweet.tweet_id) ids

-- The rows of the join: targets that are enabled and whose bot is enabled.
abbrev pub has_bot : Db → Target → Bool
has_bot db target = any_true (λ (b : Bot). (b.id == target.bot_id) && b.is_enabled) db.bots

abbrev pub is_only : Option ℕ → Target → Bool
is_only none target = true
is_only (some id) target = target.id == id

unfoldable pub is_active_target : Db → Option ℕ → Target → Bool
is_active_target db only_target_id target =
    target.is_enabled && has_bot db target && is_only only_target_id target

abbrev pub pairs_with : Tweet → List Target → List Candidate
pairs_with tweet targets = map (λ (g : Target). record { tweet = tweet; target = g }) targets

-- `for tweet in tweets: for target, bot in target_rows`.
abbrev pub pairs : List Tweet → List Target → List Candidate
pairs [] targets = []
pairs (tweet ∷ tweets) targets = pairs_with tweet targets ++ pairs tweets targets

abbrev pub not_too_old : Option Instant → Tweet → Bool
not_too_old none tweet = true
not_too_old (some cutoff) tweet = not (ltb tweet.posted_at cutoff)

abbrev pub is_bound : Db → Target → ℕ → Bool
is_bound db target user_id =
    any_true (λ (b : Binding). (b.target_id == target.id) && (b.monitored_user_id == user_id))
      db.bindings

-- The chain of `continue` guards before the one on the key.
unfoldable pub admits : Db → Candidate → Bool
admits db c =
    if not (any_true (λ (u : MonitoredUser). u.id == c.tweet.monitored_user_id) db.users)
    then false
    else if not (target_accepts_tweet c.target.listen_mode c.tweet.tweet_type)
    then false
    else if not (not_too_old (target_history_cutoff c.target) c.tweet)
    then false
    else c.target.all_monitored_users || is_bound db c.target c.tweet.monitored_user_id

abbrev pub has_delivery_key : DeliveryKey → Delivery → Bool
has_delivery_key key d = same_key d.idempotency_key key

unfoldable pub delivered : DeliveryKey → List Delivery → Bool
delivered key deliveries = any_true (has_delivery_key key) deliveries

unfoldable pub is_new : Db → Candidate → Bool
is_new db c = admits db c && not (delivered (key_of c) db.deliveries)

unfoldable pub delivery_of : ℕ → Instant → Candidate → Delivery
delivery_of max_attempts now c = record {
  id = 0;
  target_id = c.target.id;
  source_tweet_id = some c.tweet.id;
  kind = "tweet";
  idempotency_key = key_of c;
  status = "queued";
  attempts = 0;
  max_attempts = max_attempts;
  next_attempt_at = now;
}

-- The keys that the sequence gives the rows.
unfoldable pub numbered : ℕ → List Delivery → List Delivery
numbered n [] = []
numbered n (d ∷ ds) = record d { id = n } ∷ numbered (n + 1) ds

unfoldable pub delivery_candidates : Db → List String → Option ℕ → List Candidate
delivery_candidates db tweet_x_ids only_target_id =
    pairs (where_true (listed_tweet tweet_x_ids) db.tweets)
      (where_true (is_active_target db only_target_id) db.targets)

-- With no posts or no targets there are no candidates, as where the code returns early.
unfoldable pub create_tweet_deliveries : List String → ℕ → Option ℕ → Instant → Db → List ℕ × Db
create_tweet_deliveries tweet_x_ids max_attempts only_target_id now db =
    let rows = numbered db.next_id (
      map (delivery_of max_attempts now)
        (where_true (is_new db) (delivery_candidates db tweet_x_ids only_target_id))) in
    (
      map (λ (d : Delivery). d.id) rows,
      record db { deliveries = db.deliveries ++ rows; next_id = db.next_id + length rows },
    )
