-- ===== src/Listening/Window.antt =====
-- ai_jobs.py: the jobs that `enqueue_listening_jobs` adds for a backfill.
use auto_x.Prelude.{
  ℕ, ◌≤◌, ◌<◌, ◌≡◌, refl, ap, subst, true, false, Option, none, some, List, Mem, arith, ◌==◌,
  where_true, Instant,
}
use auto_x.Models.{ListenMode, MonitoredUser, Tweet}
use auto_x.Listening.{
  listen, Setting, Feature, ListenTask, Subscription, Snapshot, Job, Db, Selection,
}
use auto_x.Listening.Wants.{
  Plan, plan_of, wants, wants_from, contains, source_allows, in_time, accepts, user_of, get_or,
}
use auto_x.Listening.Enqueue.{job_of, enqueue_listening_jobs}
use auto_x.Listening.Jobs.{Grows}
use auto_x.Listening.Added.{enqueue-Adds}

-- What a job of a backfill stands for: a post of the call inside the window, of an account that
-- the snapshot lists and that is active, and of a type that the snapshot listens to.
pub record FromWindow (tweet_ids : List ℕ) (window : Instant × Instant) (snapshot : Snapshot)
    (start : Db) (job : Job) : Type 0 where
  pub task : ℕ
  pub tweet : Tweet
  pub user : MonitoredUser
  pub key : job.idempotency_key ≡ listen task tweet.id
  pub source : job.source_tweet_id ≡ tweet.id
  pub stored : Mem tweet (where_true (λ (t : Tweet). contains t.id tweet_ids) start.tweets)
  pub after_start : window.0 ≤ tweet.posted_at
  pub before_stop : tweet.posted_at < window.1
  pub selected : contains tweet.monitored_user_id snapshot.monitored_user_ids ≡ true
  pub typed : (mode : ListenMode) → snapshot.listen_mode ≡ some mode → accepts mode tweet ≡ true
  pub found : user_of start.users tweet ≡ some user
  pub active : user.is_active ≡ true
  pub queued : job.status ≡ "queued"

wants_from-window :
    (window : Instant × Instant) (snapshot : Snapshot) (db : Db) (task : ListenTask)
    (selection : Selection) (subscriptions : List Subscription) (tweet : Tweet)
    (user : MonitoredUser)
    → wants_from
        (some snapshot)
        (some window)
        db
        task
        (plan_of (some snapshot) task selection subscriptions)
        tweet
        (some user)
      ≡ true
    → (window.0 ≤ tweet.posted_at)
      × (tweet.posted_at < window.1)
      × (contains tweet.monitored_user_id snapshot.monitored_user_ids ≡ true)
      × (user.is_active ≡ true)
unfolding wants_from source_allows in_time plan_of
wants_from-window window snapshot db task selection subscriptions tweet user w = ground arith

no_user :
    (window : Instant × Instant) (snapshot : Snapshot) (db : Db) (task : ListenTask) (plan : Plan)
    (tweet : Tweet)
    → wants_from (some snapshot) (some window) db task plan tweet none ≡ false
unfolding wants_from
no_user window snapshot db task plan tweet = refl

wants_from-typed :
    (window : Instant × Instant) (snapshot : Snapshot) (db : Db) (task : ListenTask)
    (selection : Selection) (subscriptions : List Subscription) (tweet : Tweet)
    (user : MonitoredUser) (mode : ListenMode)
    → wants_from
        (some snapshot)
        (some window)
        db
        task
        (plan_of (some snapshot) task selection subscriptions)
        tweet
        (some user)
      ≡ true
    → snapshot.listen_mode ≡ some mode
    → accepts mode tweet ≡ true
unfolding wants_from plan_of
wants_from-typed window snapshot db task selection subscriptions tweet user mode w m =
    ground (arith, ap (λ o. accepts (get_or o task.listen_mode) tweet) m)

wanted :
    (tweet_ids : List ℕ) (window : Instant × Instant) (snapshot : Snapshot) (now : Instant)
    (start : Db) (setting : Setting) (db : Db) (task : ListenTask) (feature : Feature)
    (tweet : Tweet) (selection : Selection) (subscriptions : List Subscription)
    → Mem tweet (where_true (λ (t : Tweet). contains t.id tweet_ids) start.tweets)
    → (o : Option MonitoredUser) → user_of start.users tweet ≡ o
    → wants_from
        (some snapshot)
        (some window)
        db
        task
        (plan_of (some snapshot) task selection subscriptions)
        tweet
        o
      ≡ true
    → FromWindow tweet_ids window snapshot start (
        job_of setting now task
          (plan_of (some snapshot) task selection subscriptions)
          feature
          tweet)
unfolding job_of
wanted tweet_ids window snapshot now start setting db task feature tweet selection subs m none e w =
    absurd (
      ground (
        arith,
        no_user window snapshot db task (plan_of (some snapshot) task selection subs) tweet,
      ))
wanted tweet_ids window snapshot now start setting db task feature tweet selection subs m
      (some user) e w =
    let (after, before, selected, active) =
      wants_from-window window snapshot db task selection subs tweet user w in
    record {
      task = task.id;
      tweet = tweet;
      user = user;
      key = refl;
      source = refl;
      stored = m;
      after_start = after;
      before_stop = before;
      selected = selected;
      typed = λ mode h. wants_from-typed window snapshot db task selection subs tweet user mode w h;
      found = e;
      active = active;
      queued = refl;
    }

-- A call for a backfill adds jobs at the end of the table, as many as it returns, and two jobs with
-- one key only if there were two before. Each new job is queued under the key of a task and a
-- stored post of the call; the post lies inside the window, has a type that the snapshot asks for,
-- and is of an active account that the snapshot lists.
pub backfill_jobs :
    (resolve : ℕ → Selection) (tweet_ids : List ℕ) (task_id : Option ℕ) (window : Instant × Instant)
    (snapshot : Snapshot) (given : Option Setting) (now : Instant) (db : Db)
    → Grows
        (FromWindow tweet_ids window snapshot db)
        db.jobs
        (enqueue_listening_jobs resolve tweet_ids task_id
          (some window)
          (some snapshot)
          given
          now
          db).0
        (enqueue_listening_jobs resolve tweet_ids task_id
          (some window)
          (some snapshot)
          given
          now
          db).1.jobs
backfill_jobs resolve tweet_ids task_id window snapshot given now db =
    (enqueue-Adds resolve tweet_ids task_id (some window) (some snapshot) now
      (FromWindow tweet_ids window snapshot db)
      (λ n job p. record {
        task = p.task;
        tweet = p.tweet;
        user = p.user;
        key = p.key;
        source = p.source;
        stored = p.stored;
        after_start = p.after_start;
        before_stop = p.before_stop;
        selected = p.selected;
        typed = p.typed;
        found = p.found;
        active = p.active;
        queued = p.queued;
      })
      given db
      (λ setting db' task feature tweet u s i m w.
        wanted tweet_ids window snapshot now db setting db' task feature tweet (resolve task.id)
          (where_true (λ (x : Subscription). x.task_id == task.id) db'.subscriptions) m
          (user_of db.users tweet) refl
          (subst
            (λ users.
              wants_from (some snapshot) (some window) db' task
                (plan_of (some snapshot) task (resolve task.id)
                  (where_true (λ (x : Subscription). x.task_id == task.id) db'.subscriptions))
                tweet (user_of users tweet)
              ≡ true)
            u (unfold wants in w)))).0
