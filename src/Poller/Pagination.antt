-- ===== src/Poller/Pagination.antt =====
-- poller.py: the high-water mark of an account over a chain of pages, a poll for each page.
use auto_x.Prelude.{
  String, ◌≡◌, true, false, Option, none, List, [], ◌∷◌, ◌++◌, arith, if◌then◌else◌, truthy, or_str,
  All,
}
use auto_x.Models.{MonitoredUser}
use auto_x.Poller.{
  TweetBatch, PollClaim, request_since_id, calculate_pagination_state, claim_of, claimed_user,
  with_pagination,
}

-- The claim that a poll of the account works with.
abbrev pub next_claim : MonitoredUser → PollClaim
next_claim user = claim_of (claimed_user user) 0 "scheduled"

-- The account after polls that fetch these pages.
unfoldable pub after_pages : MonitoredUser → List TweetBatch → MonitoredUser
after_pages user [] = user
after_pages user (page ∷ pages) =
    after_pages
      (with_pagination (claimed_user user) (calculate_pagination_state (next_claim user) page))
      pages

-- The first newest id that a page of the chain reports, or else the old mark.
abbrev pub first_newest : List TweetBatch → Option String → Option String
first_newest [] mark = mark
first_newest (page ∷ pages) mark =
    if truthy page.newest_id then page.newest_id else first_newest pages mark

abbrev pub HasMore : TweetBatch → Type 0
HasMore page = truthy page.next_token ≡ true

-- Between two pages of a chain that began at the mark `mark`, with `newest` seen so far.
record InChain (mark newest : Option String) (user : MonitoredUser) : Type 0 where
  marked : user.last_tweet_id ≡ mark
  since : request_since_id (next_claim user) ≡ mark
  seen : user.pagination_newest_id ≡ newest

abbrev fetched : MonitoredUser → TweetBatch → MonitoredUser
fetched user page =
    with_pagination (claimed_user user) (calculate_pagination_state (next_claim user) page)

InChain-fetched :
    (mark newest : Option String) (user : MonitoredUser) (page : TweetBatch)
    → InChain mark newest user
    → HasMore page
    → InChain mark (or_str newest page.newest_id) (fetched user page)
unfolding with_pagination calculate_pagination_state claim_of claimed_user
InChain-fetched mark newest user page c more = ground arith

InChain-after_pages :
    (mark newest : Option String) (user : MonitoredUser) (pages : List TweetBatch)
    → InChain mark newest user
    → All HasMore pages
    → (seen : Option String) × InChain mark seen (after_pages user pages)
unfolding after_pages
InChain-after_pages mark newest user [] c more = (newest, c)
InChain-after_pages mark newest user (page ∷ pages) c more =
    InChain-after_pages mark (or_str newest page.newest_id) (fetched user page) pages
      (InChain-fetched mark newest user page c more.0) more.1

last_page :
    (mark newest : Option String) (user : MonitoredUser) (last : TweetBatch)
    → InChain mark newest user
    → truthy last.next_token ≡ false
    → ((fetched user last).last_tweet_id
        ≡ (if truthy newest then newest else first_newest (last ∷ []) mark))
      × ((fetched user last).pagination_token ≡ none)
unfolding with_pagination calculate_pagination_state claim_of claimed_user
last_page mark newest user last c done = ground arith

chain_end :
    (mark newest : Option String) (user : MonitoredUser) (pages : List TweetBatch)
    (last : TweetBatch)
    → InChain mark newest user
    → All HasMore pages
    → truthy last.next_token ≡ false
    → ((after_pages user (pages ++ last ∷ [])).last_tweet_id
        ≡ (if truthy newest then newest else first_newest (pages ++ last ∷ []) mark))
      × ((after_pages user (pages ++ last ∷ [])).pagination_token ≡ none)
unfolding after_pages
chain_end mark newest user [] last c more done = last_page mark newest user last c done
chain_end mark newest user (page ∷ pages) last c more done = ground (
  arith,
  chain_end mark (or_str newest page.newest_id) (fetched user page) pages last
      (InChain-fetched mark newest user page c more.0) more.1 done,
)

InChain-idle :
    (user : MonitoredUser)
    → user.pagination_token ≡ none
    → user.pagination_newest_id ≡ none
    → InChain user.last_tweet_id none user
unfolding request_since_id claim_of claimed_user
InChain-idle user idle fresh = ground arith

-- The high-water mark of an idle account over a chain of pages that all announce a next page but
-- the last: until the last page is in, the mark stays and each request is made with it; then the
-- mark is the first newest id that a page of the chain reported, or the old mark where none did,
-- and no pagination token is left.
pub high_water_mark :
    (user : MonitoredUser) (pages : List TweetBatch) (last : TweetBatch)
    → user.pagination_token ≡ none
    → user.pagination_newest_id ≡ none
    → All HasMore pages
    → truthy last.next_token ≡ false
    → ((after_pages user pages).last_tweet_id ≡ user.last_tweet_id)
      × (request_since_id (next_claim (after_pages user pages)) ≡ user.last_tweet_id)
      × ((after_pages user (pages ++ last ∷ [])).last_tweet_id
          ≡ first_newest (pages ++ last ∷ []) user.last_tweet_id)
      × ((after_pages user (pages ++ last ∷ [])).pagination_token ≡ none)
high_water_mark user pages last idle fresh more done =
    let c = InChain-idle user idle fresh in
    let (seen, k) = InChain-after_pages user.last_tweet_id none user pages c more in
    let (mark, token) = chain_end user.last_tweet_id none user pages last c more done in
    (k.marked, k.since, mark, token)
