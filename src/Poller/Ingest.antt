-- ===== src/Poller/Ingest.antt =====
-- poller.py: `_tweet_values`, the rows that a page gives, and `_upsert_tweets`.
pub mod Upsert
use auto_x.Prelude.{
  ℕ, zero, suc, ◌+◌, String, Bool, Option, none, some, List, [], ◌∷◌, ◌++◌, str_eq, if◌then◌else◌,
  truthy, or_str, length, take, drop, any_true, Instant,
}
use mathlib.Core.List.{foldl}
use auto_x.Models.{Tweet}
use auto_x.TweetTypes.{Reference, classify_tweet}

-- `note_tweet`, where it is a dict.
pub record Note : Type 0 where
  pub text : Option String
  pub entities : Option String

-- A post as the X API returns it: what `_tweet_values` reads of it. `posted_at` is what
-- `parse_x_datetime` makes of `created_at`; a metric that is missing is 0; `raw` is the whole dict.
pub record Post : Type 0 where
  pub id : Option String
  pub author_id : Option String
  pub text : Option String
  pub note_tweet : Option Note
  pub lang : Option String
  pub conversation_id : Option String
  pub posted_at : Instant
  pub like_count : ℕ
  pub retweet_count : ℕ
  pub reply_count : ℕ
  pub quote_count : ℕ
  pub bookmark_count : ℕ
  pub impression_count : ℕ
  pub entities : Option String
  pub attachments : Option String
  pub referenced_tweets : Option String
  pub references : Option (List Reference)
  pub raw : String

abbrev pub note_text : Option Note → Option String
note_text none = none
note_text (some note) = note.text

abbrev pub note_entities : Option Note → Option String
note_entities none = none
note_entities (some note) = note.entities

abbrev pub or_empty_text : Option String → String
or_empty_text none = ""
or_empty_text (some text) = text

-- The key `id` is the sequence's: `insert_row` writes it.
unfoldable pub tweet_values : ℕ → String → String → Post → Instant → Tweet
tweet_values monitored_user_id x_user_id tweet_id post fetched_at = record {
  id = 0;
  tweet_id = tweet_id;
  monitored_user_id = monitored_user_id;
  author_id = or_empty_text (or_str post.author_id (some x_user_id));
  text = or_empty_text (or_str (or_str (note_text post.note_tweet) post.text) (some ""));
  tweet_type = classify_tweet post.references;
  lang = post.lang;
  conversation_id = post.conversation_id;
  posted_at = post.posted_at;
  like_count = post.like_count;
  retweet_count = post.retweet_count;
  reply_count = post.reply_count;
  quote_count = post.quote_count;
  bookmark_count = post.bookmark_count;
  impression_count = post.impression_count;
  entities = or_str (note_entities post.note_tweet) post.entities;
  attachments = post.attachments;
  referenced_tweets = post.referenced_tweets;
  raw_payload = post.raw;
  fetched_at = fetched_at;
}

-- Python's `d[key] = value` on the values of a dict, in insertion order; the key is `tweet_id`.
unfoldable pub dict_set : Tweet → List Tweet → List Tweet
dict_set row [] = row ∷ []
dict_set row (r ∷ rows) =
    let rest = dict_set row rows in if str_eq r.tweet_id row.tweet_id then row ∷ rows else r ∷ rest

-- One item of the comprehension: posts with no id, or an empty one, are left out.
unfoldable pub add_post : ℕ → String → Instant → List Tweet → Post → List Tweet
add_post user_id x_user_id now rows post =
    if truthy post.id
    then dict_set (tweet_values user_id x_user_id (or_empty_text post.id) post now) rows
    else rows

unfoldable pub rows_by_id : ℕ → String → Instant → List Post → List Tweet
rows_by_id user_id x_user_id now posts = foldl (add_post user_id x_user_id now) [] posts

-- The table `tweets`, with its sequence of keys.
pub record Tweets : Type 0 where
  pub rows : List Tweet
  pub next_id : ℕ

unfoldable pub has_tweet_id : String → Tweet → Bool
has_tweet_id tweet_id row = str_eq row.tweet_id tweet_id

unfoldable pub stored : String → Tweets → Bool
stored tweet_id table = any_true (has_tweet_id tweet_id) table.rows

-- INSERT … ON CONFLICT DO NOTHING RETURNING tweet_id: the ids of the rows that were new.
unfoldable pub insert_row : Tweet → Tweets → Tweets
insert_row row table = record {
  rows = table.rows ++ record row { id = table.next_id } ∷ [];
  next_id = table.next_id + 1;
}

unfoldable pub insert_rows : List Tweet → Tweets → List String × Tweets
insert_rows [] table = ([], table)
insert_rows (row ∷ rows) table =
    let old = insert_rows rows table in
    let new = insert_rows rows (insert_row row table) in
    if stored row.tweet_id table then old else (row.tweet_id ∷ new.0, new.1)

abbrev pub tweet_insert_chunk_size : ℕ
tweet_insert_chunk_size = 150

-- `for offset in range(0, len(rows), size)`; the fuel bounds the number of chunks.
unfoldable pub upsert_chunks : ℕ → ℕ → List Tweet → Tweets → List String × Tweets
upsert_chunks zero size rows table = ([], table)
upsert_chunks (suc fuel) size [] table = ([], table)
upsert_chunks (suc fuel) size (row ∷ rows) table =
    let (new_ids, table') = insert_rows (take size (row ∷ rows)) table in
    let (later_ids, table'') = upsert_chunks fuel size (drop size (row ∷ rows)) table' in
    (new_ids ++ later_ids, table'')

-- The count that the method returns besides is the length of the list.
unfoldable pub upsert_tweets : List Tweet → Tweets → List String × Tweets
upsert_tweets rows table = upsert_chunks (length rows) tweet_insert_chunk_size rows table
