-- ===== src/TweetTypes.antt =====
-- backend/app/services/tweet_types.py: the type of a post, and which posts a target listens to.
use auto_x.Prelude.{
  String, ◌≡◌, ◌↔◌, ◌⊎◌, Bool, true, false, Option, none, some, List, arith, str_eq, if◌then◌else◌,
  any_true,
}
use auto_x.Models.{TweetType, original, reply, retweet, ListenMode, any_type, only, tweet_type_eq}

-- An item of `referenced_tweets`: a dict with what `get("type")` returns, or something else.
pub data Reference : Type 0 where
  typed : Option String → Reference
  not_a_dict : Reference

abbrev pub has_kind : String → Reference → Bool
has_kind kind (typed (some k)) = str_eq k kind
has_kind kind (typed none) = false
has_kind kind not_a_dict = false

-- `kind in kinds`; `none` stands for a payload whose `referenced_tweets` is not a list.
abbrev pub in_kinds : String → Option (List Reference) → Bool
in_kinds kind none = false
in_kinds kind (some references) = any_true (has_kind kind) references

unfoldable pub classify_tweet : Option (List Reference) → TweetType
classify_tweet references =
    if in_kinds "retweeted" references
    then retweet
    else if in_kinds "replied_to" references
    then reply
    else if in_kinds "quoted" references
    then retweet
    else original

-- A target with no mode listens to all posts.
unfoldable pub target_accepts_tweet : Option ListenMode → TweetType → Bool
target_accepts_tweet none type = true
target_accepts_tweet (some any_type) type = true
target_accepts_tweet (some (only mode)) type = tweet_type_eq mode type

-- A post of each type is exactly: a repost, or a quote that replies to nothing; a reply that
-- reposts nothing; and a post that references neither.
pub classify_tweet_exact :
    (references : Option (List Reference))
    → ((classify_tweet references ≡ retweet) ↔ (
        (in_kinds "retweeted" references ≡ true)
        ⊎ ((in_kinds "quoted" references ≡ true) × (in_kinds "replied_to" references ≡ false))))
      × ((classify_tweet references ≡ reply)
          ↔ ((in_kinds "replied_to" references ≡ true) × (in_kinds "retweeted" references ≡ false)))
unfolding classify_tweet
classify_tweet_exact references = grind arith
