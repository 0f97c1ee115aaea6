-- ===== src/Poller/Ingest/Upsert.antt =====
-- poller.py: what `_upsert_tweets` inserts.
use auto_x.Prelude.{
  ℕ, zero, suc, ◌≤◌, ◌<◌, String, ◌≡◌, refl, sym, ap, ◌∙◌, inl, inr, Bool, not, ◌&&◌, ◌||◌, List,
  [], ◌∷◌, ◌++◌, arith, str_eq, eq_iff, Bool-cases, length, take, drop, take-append-drop,
  length-drop, any_true, any_true-append,
}
use auto_x.Models.{Tweet}
use auto_x.Poller.Ingest.{
  Tweets, has_tweet_id, stored, insert_row, insert_rows, upsert_chunks, upsert_tweets,
  tweet_insert_chunk_size,
}

insert_rows-append :
    (xs ys : List Tweet) (table : Tweets)
    → insert_rows (xs ++ ys) table ≡ (
      (insert_rows xs table).0 ++ (insert_rows ys (insert_rows xs table).1).0,
      (insert_rows ys (insert_rows xs table).1).1,
    )
unfolding insert_rows
insert_rows-append [] ys table = refl
insert_rows-append (x ∷ xs) ys table = elim (Bool-cases (stored x.tweet_id table)) [
  | inl old ↦ rw old (insert_rows-append xs ys table)
  | inr new ↦ rw new (
      ap (λ (r : List String × Tweets). (x.tweet_id ∷ r.0, r.1))
        (insert_rows-append xs ys (insert_row x table)))
]

-- With as much fuel as there are rows, every row is in some chunk.
chunks_enough :
    (fuel size : ℕ) (rows : List Tweet) (table : Tweets)
    → length rows ≤ fuel
    → 0 < size
    → upsert_chunks fuel size rows table ≡ insert_rows rows table
unfolding upsert_chunks
chunks_enough zero size [] table h s = unfold insert_rows in refl
chunks_enough zero size (x ∷ xs) table h s = absurd (omega arith)
chunks_enough (suc fuel) size [] table h s = unfold insert_rows in refl
chunks_enough (suc fuel) size (x ∷ xs) table h s =
    rw
      (chunks_enough fuel size (drop size (x ∷ xs)) (insert_rows (take size (x ∷ xs)) table).1
        (omega (arith, length-drop size (x ∷ xs))) s)
      (sym (insert_rows-append (take size (x ∷ xs)) (drop size (x ∷ xs)) table)
        ∙ ap (λ (r : List Tweet). insert_rows r table) (take-append-drop size (x ∷ xs)))

-- Cutting the rows into statements of 150 changes nothing: `_upsert_tweets` is one insertion.
pub upsert_tweets-insert_rows :
    (rows : List Tweet) (table : Tweets) → upsert_tweets rows table ≡ insert_rows rows table
unfolding upsert_tweets
upsert_tweets-insert_rows rows table =
    chunks_enough (length rows) tweet_insert_chunk_size rows table (omega arith) (omega arith)

abbrev pub listed : String → List String → Bool
listed tweet_id ids = any_true (λ j. str_eq j tweet_id) ids

stored-insert_row :
    (k : String) (row : Tweet) (table : Tweets)
    → stored k (insert_row row table) ≡ (stored k table || str_eq row.tweet_id k)
unfolding stored insert_row has_tweet_id
stored-insert_row k row table = ground (
  arith,
  any_true-append (λ (r : Tweet). str_eq r.tweet_id k) table.rows
      (record row { id = table.next_id } ∷ []),
)

insert_rows_exact :
    (k : String) (rows : List Tweet) (table : Tweets)
    → (listed k (insert_rows rows table).0
        ≡ (any_true (has_tweet_id k) rows && not (stored k table)))
      × (stored k (insert_rows rows table).1 ≡ (stored k table || any_true (has_tweet_id k) rows))
unfolding insert_rows has_tweet_id
insert_rows_exact k [] table = (refl, ground arith)
insert_rows_exact k (row ∷ rows) table =
    let old = insert_rows_exact k rows table in
    let new = insert_rows_exact k rows (insert_row row table) in
    let grown = stored-insert_row k row table in
    ground (arith, old, new, grown, eq_iff row.tweet_id k)

-- The ids that `_upsert_tweets` reports as new are exactly those of the given rows that were not
-- stored; afterwards all the given rows are stored, and what was stored still is.
pub upsert_tweets_exact :
    (k : String) (rows : List Tweet) (table : Tweets)
    → (listed k (upsert_tweets rows table).0
        ≡ (any_true (has_tweet_id k) rows && not (stored k table)))
      × (stored k (upsert_tweets rows table).1 ≡ (stored k table || any_true (has_tweet_id k) rows))
upsert_tweets_exact k rows table = rw upsert_tweets-insert_rows (insert_rows_exact k rows table)
