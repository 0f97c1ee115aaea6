-- ===== src/Qq/Deliveries/Due.antt =====
-- qq_notifications.py: what each delivery that `create_tweet_deliveries` adds is for.
use auto_x.Prelude.{
  ℕ, ◌+◌, ◌≤◌, String, ◌≡◌, refl, inl, inr, true, false, ◌||◌, Option, some, List, [], ◌∷◌, ◌++◌,
  map, Mem, arith, Bool-cases, All, where_true, All-where_true, Instant, days, All-Mem,
}
use auto_x.Models.{Tweet}
use auto_x.TweetTypes.{target_accepts_tweet}
use auto_x.Qq.Deliveries.{
  Target, Candidate, Delivery, tweet_target, Db, key_of, admits, is_new, delivered, delivery_of,
  numbered, pairs, pairs_with, delivery_candidates, create_tweet_deliveries, listed_tweet,
  is_active_target, target_history_cutoff, not_too_old, is_bound,
}

-- A delivery of a listed post of the table to an active target of the table that accepts its type and listens to its account,
-- and the post was not made before the days of history that the target asked for.
pub record IsDue (ids : List String) (only : Option ℕ) (db : Db) (d : Delivery) : Type 0 where
  pub tweet : Tweet
  pub target : Target
  pub tweet_stored : Mem tweet db.tweets
  pub target_stored : Mem target db.targets
  pub key : d.idempotency_key ≡ tweet_target tweet.id target.id
  pub fresh : delivered (tweet_target tweet.id target.id) db.deliveries ≡ false
  pub listed : listed_tweet ids tweet ≡ true
  pub active : is_active_target db only target ≡ true
  pub accepted : target_accepts_tweet target.listen_mode tweet.tweet_type ≡ true
  pub bound : (target.all_monitored_users || is_bound db target tweet.monitored_user_id) ≡ true
  pub recent :
      (n : ℕ) → target.initial_sync_days ≡ some n → target.created_at ≤ tweet.posted_at + days n
  pub queued : d.status ≡ "queued"

admits-guards :
    (db : Db) (c : Candidate)
    → is_new db c ≡ true
    → (target_accepts_tweet c.target.listen_mode c.tweet.tweet_type ≡ true)
      × (not_too_old (target_history_cutoff c.target) c.tweet ≡ true)
      × ((c.target.all_monitored_users || is_bound db c.target c.tweet.monitored_user_id) ≡ true)
      × (delivered (key_of c) db.deliveries ≡ false)
unfolding is_new admits
admits-guards db c h = ground arith

cutoff-recent :
    (target : Target) (tweet : Tweet) (n : ℕ)
    → not_too_old (target_history_cutoff target) tweet ≡ true
    → target.initial_sync_days ≡ some n
    → target.created_at ≤ tweet.posted_at + days n
unfolding target_history_cutoff
cutoff-recent target tweet n h e = ground arith

All-pairs :
    (P : Tweet → Type 0) (Q : Target → Type 0) (tweets : List Tweet) (targets : List Target)
    → All P tweets
    → All Q targets
    → All (λ (c : Candidate). P c.tweet × Q c.target) (pairs tweets targets)
All-pairs P Q [] targets h k = tt
All-pairs P Q (t ∷ tweets) targets h k =
    both (pairs_with t targets) (pairs tweets targets) (with_tweet targets k)
      (All-pairs P Q tweets targets h.1 k)
  where
    both :
        (xs ys : List Candidate)
        → All (λ (c : Candidate). P c.tweet × Q c.target) xs
        → All (λ (c : Candidate). P c.tweet × Q c.target) ys
        → All (λ (c : Candidate). P c.tweet × Q c.target) (xs ++ ys)
    both [] ys a b = b
    both (x ∷ xs) ys a b = (a.0, both xs ys a.1 b)

    with_tweet :
        (gs : List Target)
        → All Q gs
        → All (λ (c : Candidate). P c.tweet × Q c.target) (pairs_with t gs)
    with_tweet [] l = tt
    with_tweet (g ∷ gs) l = ((h.0, l.0), with_tweet gs l.1)

IsDue-row :
    (ids : List String) (m : ℕ) (only : Option ℕ) (now : Instant) (db : Db) (c : Candidate)
    → (Mem c.tweet db.tweets × (listed_tweet ids c.tweet ≡ true))
      × (Mem c.target db.targets × (is_active_target db only c.target ≡ true))
    → is_new db c ≡ true
    → IsDue ids only db (delivery_of m now c)
unfolding delivery_of
IsDue-row ids m only now db c listed new =
    let (accepted, young, bound, fresh) = admits-guards db c new in
    record {
      tweet = c.tweet;
      target = c.target;
      tweet_stored = listed.0.0;
      target_stored = listed.1.0;
      key = refl;
      fresh = fresh;
      listed = listed.0.1;
      active = listed.1.1;
      accepted = accepted;
      bound = bound;
      recent = λ n e. cutoff-recent c.target c.tweet n young e;
      queued = refl;
    }

IsDue-rows :
    (ids : List String) (m : ℕ) (only : Option ℕ) (now : Instant) (db : Db) (cs : List Candidate)
    → All
        (λ (c : Candidate).
          (Mem c.tweet db.tweets × (listed_tweet ids c.tweet ≡ true))
          × (Mem c.target db.targets × (is_active_target db only c.target ≡ true)))
        cs
    → (n : ℕ)
    → All (IsDue ids only db) (numbered n (map (delivery_of m now) (where_true (is_new db) cs)))
unfolding numbered
IsDue-rows ids m only now db [] h n = tt
IsDue-rows ids m only now db (c ∷ cs) h n = elim (Bool-cases (is_new db c)) [
  | inl e ↦ rw e (
    renumbered n (IsDue-row ids m only now db c h.0 e),
    IsDue-rows ids m only now db cs h.1 (n + 1),
  )
  | inr e ↦ rw e (IsDue-rows ids m only now db cs h.1 n)
]
  where
    renumbered :
        {d : Delivery} (k : ℕ) → IsDue ids only db d → IsDue ids only db (record d { id = k })
    renumbered k p = record {
      tweet = p.tweet;
      target = p.target;
      tweet_stored = p.tweet_stored;
      target_stored = p.target_stored;
      key = p.key;
      fresh = p.fresh;
      listed = p.listed;
      active = p.active;
      accepted = p.accepted;
      bound = p.bound;
      recent = p.recent;
      queued = p.queued;
    }

-- The table keeps its deliveries and gets the new ones at the end, as many as ids are returned.
-- Each new one is queued for a post and a target of the tables that had none yet: the post is one of
-- those given and was not made before the days of history that the target asked for; the target and
-- its bot are enabled, and it accepts the post's type and listens to its account.
pub create_tweet_deliveries-IsDue :
    (ids : List String) (max_attempts : ℕ) (only : Option ℕ) (now : Instant) (db : Db)
    → (added : List Delivery) × ((create_tweet_deliveries ids max_attempts only now db).1.deliveries
        ≡ db.deliveries ++ added)
      × ((create_tweet_deliveries ids max_attempts only now db).0
          ≡ map (λ (d : Delivery). d.id) added)
      × All (IsDue ids only db) added
unfolding create_tweet_deliveries delivery_candidates
create_tweet_deliveries-IsDue ids m only now db =
    let tweets = where_true (listed_tweet ids) db.tweets in
    let targets = where_true (is_active_target db only) db.targets in
    (
      numbered db.next_id (map (delivery_of m now) (where_true (is_new db) (pairs tweets targets))),
      refl,
      refl,
      IsDue-rows ids m only now db (pairs tweets targets)
          (All-pairs (λ t. Mem t db.tweets × (listed_tweet ids t ≡ true))
            (λ g. Mem g db.targets × (is_active_target db only g ≡ true)) tweets targets
            (All-where_true (listed_tweet ids) (λ (t : Tweet). Mem t db.tweets) db.tweets
              (All-Mem db.tweets))
            (All-where_true (is_active_target db only) (λ (g : Target). Mem g db.targets) db.targets
              (All-Mem db.targets)))
          db.next_id,
    )
