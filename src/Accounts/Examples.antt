-- ===== src/Accounts/Examples.antt =====
-- The poller, the lock and the handlers of accounts on concrete rows.
use auto_x.Prelude.{
  ℕ, ◌+◌, ◌*◌, ◌≤◌, ◌<◌, ◌≡◌, refl, ◌↔◌, ◌⊎◌, true, false, not, ◌&&◌, ◌||◌, Option, none, some,
  List, [], ◌∷◌, map, arith, ◌==◌, length, take, drop, All, any_true, find, Instant, seconds,
  order_by,
}
use auto_x.Models.{MonitoredUser, Tweet, reply, retweet}
use auto_x.TweetTypes.{Reference, typed, not_a_dict, in_kinds, classify_tweet, classify_tweet_exact}
use auto_x.Poller.{TweetBatch, PollClaim, claim_of, claimed_user, request_since_id}
use auto_x.Poller.Pagination.{next_claim, after_pages, high_water_mark}
use auto_x.Poller.Ingest.{
  Post, Tweets, tweet_values, rows_by_id, upsert_chunks, add_post, dict_set, has_tweet_id, stored,
  upsert_tweets, insert_rows,
}
use auto_x.Poller.Ingest.Upsert.{listed, upsert_tweets_exact, upsert_tweets-insert_rows}
use auto_x.Poller.Lock.{
  owner, acquire, assert_lock, try_acquire, try_release, calls, assert_lock_exclusive,
}
use auto_x.Poller.Dispatch.{
  is_due, due_before, due_queue, run_once, waits_now, IsBefore, count, run_once_fair,
}
use auto_x.Poller.Service.{Downstream, Db, get_user, claim_user, put_user, finalize_log}
use auto_x.Poller.Service.Commit.{Settings, Page, commit_success, commit_current, store_page}
use auto_x.Poller.Service.Failure.{Failure, handle_failure, failed_user}
use auto_x.Poller.Service.Deadlines.{IsJitter, failure_backoff}
use auto_x.Accounts.History.{initial_sync_since_id, snowflake, initial_sync_exact}
use auto_x.Accounts.{paused, pause_monitored_user, store_changes, flushed}
use auto_x.Accounts.Generations.{
  Event, read_event, claim_event, pause_event, resume_event, is_request, commit_request,
  perform_all,
}
use auto_x.Accounts.Superseding.{was_paused}
use auto_x.Accounts.Superseded.{
  was_applied, meanwhile, world_before, late_commit_ignored, late_failure_ignored,
}

abbrev account : MonitoredUser
account = record {
  id = 1;
  username = "alice";
  x_user_id = some "77";
  display_name = none;
  is_active = true;
  include_replies = true;
  include_retweets = false;
  poll_interval_seconds = some 60;
  status = "idle";
  last_tweet_id = some "100";
  pagination_token = none;
  pagination_since_id = none;
  pagination_newest_id = none;
  manual_poll_token = none;
  poll_generation = 4;
  last_polled_at = none;
  next_poll_at = none;
  last_error = none;
  consecutive_failures = 0;
  archived_at = none;
  initial_sync_days = some 7;
  created_at = none;
}

abbrev first_page : TweetBatch
first_page = record { newest_id = some "130"; next_token = some "t1"; result_count = 100 }

abbrev last_page : TweetBatch
last_page = record { newest_id = some "110"; next_token = none; result_count = 20 }

high_water_mark_example :
    ((after_pages account (first_page ∷ [])).last_tweet_id ≡ some "100")
    × (request_since_id (next_claim (after_pages account (first_page ∷ []))) ≡ some "100")
    × ((after_pages account (first_page ∷ last_page ∷ [])).last_tweet_id ≡ some "130")
    × ((after_pages account (first_page ∷ last_page ∷ [])).pagination_token ≡ none)
high_water_mark_example =
    high_water_mark account (first_page ∷ []) last_page refl refl (refl, tt) refl

abbrev post : Post
post = record {
  id = some "110";
  author_id = none;
  text = some "hello";
  note_tweet = none;
  lang = none;
  conversation_id = none;
  posted_at = 5;
  like_count = 0;
  retweet_count = 0;
  reply_count = 0;
  quote_count = 0;
  bookmark_count = 0;
  impression_count = 0;
  entities = none;
  attachments = none;
  referenced_tweets = none;
  references = none;
  raw = "{}";
}

abbrev no_tweets : Tweets
no_tweets = record { rows = []; next_id = 1 }

abbrev page_rows : List Tweet
page_rows = tweet_values 1 "77" "110" post 9 ∷ tweet_values 1 "77" "111" post 9 ∷ []

upsert_tweets_exact_example :
    (listed "110" (upsert_tweets page_rows no_tweets).0
      ≡ (any_true (has_tweet_id "110") page_rows && not (stored "110" no_tweets)))
    × (stored "110" (upsert_tweets page_rows no_tweets).1
        ≡ (stored "110" no_tweets || any_true (has_tweet_id "110") page_rows))
upsert_tweets_exact_example = upsert_tweets_exact "110" page_rows no_tweets

upsert_tweets-insert_rows_example :
    upsert_tweets page_rows no_tweets ≡ insert_rows page_rows no_tweets
upsert_tweets-insert_rows_example = upsert_tweets-insert_rows page_rows no_tweets

new_ids : (upsert_tweets (rows_by_id 1 "77" 9 (post ∷ post ∷ [])) no_tweets).0 ≡ "110" ∷ []
unfolding upsert_tweets rows_by_id upsert_chunks add_post dict_set tweet_values insert_rows stored
new_ids = refl

assert_lock_exclusive_example :
    let lock =
      calls
        (try_acquire 5 30 "b" ∷ try_release 6 "b" ∷ [])
        (assert_lock 3 30 "a" false true (some (record { token = "a"; expires = 10 }))).2 in
    (owner 7 lock ≡ some "a")
    × ((assert_lock 7 30 "a" false true lock).0 ≡ true)
    × ((acquire 7 30 "c" lock).0 ≡ false)
assert_lock_exclusive_example =
    assert_lock_exclusive 3 7 30 "a" "c" false true (some (record { token = "a"; expires = 10 }))
      (try_acquire 5 30 "b" ∷ try_release 6 "b" ∷ []) (unfold assert_lock in refl)
      ((omega arith, refl), ((omega arith, refl), tt)) (omega arith)

abbrev requested : MonitoredUser
requested = record account { id = 2; manual_poll_token = some "m" }

run_once_fair_example :
    let users = account ∷ requested ∷ [] in
    let taken = take 1 (due_queue 10 users) in
    let left = drop 1 (due_queue 10 users) in
    (run_once false 10 1 users ≡ map (λ (u : MonitoredUser). u.id) taken)
    × (length taken ≤ 1)
    × (count (λ u. u.id == 1) taken + count (λ u. u.id == 1) left
        ≡ count (λ u. (u.id == 1) && waits_now 10 u) users)
    × All (λ u. waits_now 10 u ≡ true) taken
    × All (λ u. All (IsBefore u) left) taken
run_once_fair_example = run_once_fair 10 1 (account ∷ requested ∷ []) (λ u. u.id == 1)

requested_first : run_once false 10 1 (account ∷ requested ∷ []) ≡ 2 ∷ []
unfolding run_once order_by is_due due_before
requested_first = refl

abbrev quiet : Downstream Unit
quiet = record {
  enqueue_jobs = λ ids o. o;
  enqueue_screenshots = λ ids o. o;
  create_deliveries = λ ids o. ([], o);
}

abbrev settings : Settings
settings = record {
  global_poll_interval_seconds = 300;
  pagination_resume_delay_seconds = 5;
  tweet_screenshot_enabled = true;
}

abbrev tables : Db Unit
tables = record {
  users = account ∷ [];
  logs = [];
  next_log_id = 1;
  tweets = no_tweets;
  outbox = tt;
}

abbrev claim : PollClaim
claim = claim_of (claimed_user account) 1 "scheduled"

abbrev page : Page
page = record {
  claim = claim;
  x_user_id = "77";
  resolved_user = none;
  batch = last_page;
  posts = post ∷ [];
  now = 50;
  duration_ms = 7;
}

abbrev claimed_tables : Db Unit
claimed_tables = (claim_user "w" 1 tables).1

claim_granted : claim_user "w" 1 tables ≡ (some claim, claimed_tables)
unfolding claim_user get_user
claim_granted = refl

abbrev since : List Event
since = read_event 1 1 ∷ []

abbrev then_resumed : List Event
then_resumed = read_event 2 1 ∷ resume_event 40 2 ∷ []

pause_read :
    find (is_request 1) (world_before quiet settings since claimed_tables).reads
    ≡ some (1, claimed_user account)
unfolding get_user claim_user claimed_user put_user
pause_read = refl

late_commit_ignored_example :
    let db₂ = meanwhile quiet settings since (pause_event 1) then_resumed claimed_tables in
    let done = commit_success quiet settings page true true db₂ in
    (done.1.users ≡ db₂.users)
    × (done.1.tweets ≡ db₂.tweets)
    × (done.1.outbox ≡ db₂.outbox)
    × (was_applied done.0 ≡ false)
late_commit_ignored_example =
    late_commit_ignored quiet settings "w" 1 page since then_resumed (pause_event 1) true true
      tables claimed_tables claim_granted
      (was_paused 1 1 (claimed_user account) pause_read (unfold claimed_user in refl))

-- A pause that has read the account before the claim writes the generation of the claim.
abbrev stale_pause : List Event
stale_pause = read_event 1 1 ∷ claim_event "w" 1 ∷ pause_event 1 ∷ []

stale_pause_ignored :
    was_applied
      (commit_success quiet settings page true true
        (perform_all quiet settings stale_pause (record { db = tables; reads = [] })).db).0
    ≡ true
unfolding get_user claim_user claimed_user put_user commit_request pause_monitored_user
    store_changes flushed paused commit_success commit_current store_page finalize_log claim_of
stale_pause_ignored = refl

abbrev failure : Failure
failure = record {
  status = "error";
  message = "X API request timed out";
  http_status = none;
  proposed_deadline = none;
  rate_limit_reset_at = none;
  now = 60;
  duration_ms = 9;
  lock_message = "";
}

abbrev no_jitter : ℕ → ℕ
no_jitter b = b

late_failure_ignored_example :
    let db₂ = meanwhile quiet settings since (pause_event 1) then_resumed claimed_tables in
    (handle_failure settings no_jitter claim failure true true db₂).users ≡ db₂.users
late_failure_ignored_example =
    late_failure_ignored quiet settings "w" 1 claim failure no_jitter since then_resumed
      (pause_event 1) true true tables claimed_tables claim_granted
      (was_paused 1 1 (claimed_user account) pause_read (unfold claimed_user in refl))

no_jitter-IsJitter : IsJitter no_jitter
no_jitter-IsJitter = record { low = λ b. omega arith; high = λ b. omega arith }

failure_backoff_example :
    (t : Instant) × ((failed_user settings no_jitter claim failure account).next_poll_at ≡ some t)
    × (60 + seconds 15 ≤ t)
    × (600 + seconds 480 ≤ 10 * t + seconds 5)
    × (10 * t ≤ 600 + seconds (12 * 3600 + 5))
failure_backoff_example =
    failure_backoff settings no_jitter claim failure account no_jitter-IsJitter refl refl
      (unfold claim_of claimed_user in refl)

initial_sync_exact_example :
    (initial_sync_since_id 1288835574657 0 < snowflake 1288835574657 3)
    ↔ (1288835574657 ≤ 1288835574657 + 0 * 86400000)
initial_sync_exact_example =
    initial_sync_exact 1288835574657 0 1288835574657 3 (omega arith) (omega arith) (omega arith)

abbrev quoting_reply : Option (List Reference)
quoting_reply = some (typed (some "quoted") ∷ not_a_dict ∷ typed (some "replied_to") ∷ [])

classify_tweet_exact_example :
    ((classify_tweet quoting_reply ≡ retweet) ↔ (
      (in_kinds "retweeted" quoting_reply ≡ true)
      ⊎ ((in_kinds "quoted" quoting_reply ≡ true) × (in_kinds "replied_to" quoting_reply ≡ false))))
    × ((classify_tweet quoting_reply ≡ reply) ↔ (
        (in_kinds "replied_to" quoting_reply ≡ true)
        × (in_kinds "retweeted" quoting_reply ≡ false)))
classify_tweet_exact_example = classify_tweet_exact quoting_reply
