-- ===== src/Listening/Realtime.antt =====
-- ai_jobs.py: the jobs that `enqueue_listening_jobs` adds for newly stored posts.
use auto_x.Prelude.{
  ◌≤◌, ◌<◌, ◌≡◌, refl, ◌⊎◌, inl, inr, Bool, true, false, ◌&&◌, ◌||◌, Option, none, some, arith, ltb,
  if◌then◌else◌, ltb→lt, leb→le, Bool-cases, is_some, &&-left, &&-right, Instant,
}
use auto_x.Models.{MonitoredUser, Tweet}
use auto_x.Listening.{ListenTask, Subscription}
use auto_x.Listening.Wants.{
  in_time, in_initial_window, effective_from, later_of, subscribed_from, at_or_before, before_end,
}

-- The post was not made before a bound.
abbrev pub NotBefore : Option Instant → Tweet → Type 0
NotBefore bound tweet = (t : Instant) → bound ≡ some t → t ≤ tweet.posted_at

-- No bound of the task lies after the post: its own start, and for a task that listens to all
-- accounts the instant the account was added, for another one the start of the subscription.
pub record Started (task : ListenTask) (user : MonitoredUser) (subscription : Option Subscription)
    (tweet : Tweet) : Type 0 where
  pub task_start : NotBefore task.effective_from tweet
  pub account_added : task.all_monitored_users ≡ true → NotBefore user.created_at tweet
  pub subscribed : task.all_monitored_users ≡ false → NotBefore (subscribed_from subscription) tweet

-- The post lies in the window that the task asked for when it was set up.
pub record InInitialWindow (task : ListenTask) (tweet : Tweet) : Type 0 where
  pub start : Instant
  pub stop : Instant
  pub has_start : task.initial_backfill_from ≡ some start
  pub has_stop : task.initial_backfill_to ≡ some stop
  pub after_start : start ≤ tweet.posted_at
  pub before_stop : tweet.posted_at < stop

later_of-bounds :
    (a b : Option Instant) (p : Instant)
    → at_or_before (later_of a b) (some p) ≡ true
    → ((t : Instant) → a ≡ some t → t ≤ p) × ((t : Instant) → b ≡ some t → t ≤ p)
later_of-bounds none none p h = (λ t e. cc, λ t e. cc)
later_of-bounds none (some b) p h = (λ t e. cc, λ t e. grind arith)
later_of-bounds (some a) none p h = (λ t e. grind arith, λ t e. cc)
later_of-bounds (some a) (some b) p h = elim (Bool-cases (ltb b a)) [
  | inl lt ↦ (λ t e. grind (arith, ltb→lt b a lt), λ t e. grind (arith, ltb→lt b a lt))
  | inr ge ↦ (λ t e. grind arith, λ t e. grind arith)
]

bound_of :
    (o : Option Instant) (p : Instant)
    → at_or_before o (some p) ≡ true
    → (t : Instant) × (o ≡ some t) × (t ≤ p)
bound_of none p h = absurd cc
bound_of (some t) p h = (t, refl, leb→le t p h)

end_of :
    (p : Instant) (o : Option Instant)
    → before_end p o ≡ true
    → (t : Instant) × (o ≡ some t) × (p < t)
end_of p none h = absurd cc
end_of p (some t) h = (t, refl, ltb→lt p t h)

in_initial_window-start :
    (task : ListenTask) (all_users : Bool) (user : MonitoredUser)
    (subscription : Option Subscription) (tweet : Tweet)
    → in_initial_window task all_users user subscription tweet ≡ true
    → InInitialWindow task tweet
unfolding in_initial_window
in_initial_window-start task all_users user subscription tweet h =
    let inside =
      &&-left
        (at_or_before task.initial_backfill_from (some tweet.posted_at)
          && before_end tweet.posted_at task.initial_backfill_to)
        ((all_users && at_or_before user.created_at task.initial_backfill_to)
          || at_or_before (subscribed_from subscription) task.initial_backfill_to)
        h in
    let (from, has_from, after) = bound_of task.initial_backfill_from tweet.posted_at (
      &&-left (at_or_before task.initial_backfill_from (some tweet.posted_at))
        (before_end tweet.posted_at task.initial_backfill_to) inside) in
    let (to, has_to, before) = end_of tweet.posted_at task.initial_backfill_to (
      &&-right (at_or_before task.initial_backfill_from (some tweet.posted_at))
        (before_end tweet.posted_at task.initial_backfill_to) inside) in
    record {
      start = from;
      stop = to;
      has_start = has_from;
      has_stop = has_to;
      after_start = after;
      before_stop = before;
    }

Started-cases :
    (all_users : Bool) (a b added subscribed : Option Instant) (p : Instant)
    → at_or_before
        (if all_users
          then later_of added (if is_some a then a else b)
          else later_of subscribed (if is_some a then a else b))
        (some p)
      ≡ true
    → ((t : Instant) → a ≡ some t → t ≤ p)
      × (all_users ≡ true → (t : Instant) → added ≡ some t → t ≤ p)
      × (all_users ≡ false → (t : Instant) → subscribed ≡ some t → t ≤ p)
Started-cases true none b added subscribed p h =
    (λ t e. cc, λ _. (later_of-bounds added b p h).0, λ e. cc)
Started-cases true (some a) b added subscribed p h =
    let bounds = later_of-bounds added (some a) p h in (bounds.1, λ _. bounds.0, λ e. cc)
Started-cases false none b added subscribed p h =
    (λ t e. cc, λ e. cc, λ _. (later_of-bounds subscribed b p h).0)
Started-cases false (some a) b added subscribed p h =
    let bounds = later_of-bounds subscribed (some a) p h in (bounds.1, λ e. cc, λ _. bounds.0)

effective_from-Started :
    (task : ListenTask) (user : MonitoredUser) (subscription : Option Subscription) (tweet : Tweet)
    → at_or_before
        (effective_from task task.all_monitored_users user subscription)
        (some tweet.posted_at)
      ≡ true
    → Started task user subscription tweet
unfolding effective_from
effective_from-Started task user subscription tweet h =
    let (own, added, subscribed) =
      Started-cases task.all_monitored_users task.effective_from task.activated_at user.created_at
        (subscribed_from subscription) tweet.posted_at h in
    record { task_start = own; account_added = added; subscribed = subscribed }

pub in_time-cases :
    (task : ListenTask) (user : MonitoredUser) (subscription : Option Subscription) (tweet : Tweet)
    → in_time none task task.all_monitored_users user subscription tweet ≡ true
    → InInitialWindow task tweet ⊎ Started task user subscription tweet
unfolding in_time
in_time-cases task user subscription tweet h =
    elim (Bool-cases (in_initial_window task task.all_monitored_users user subscription tweet)) [
      | inl inside ↦
          inl (in_initial_window-start task task.all_monitored_users user subscription tweet inside)
      | inr outside ↦ inr (effective_from-Started task user subscription tweet (ground arith))
    ]
