-- ===== src/Listening/Added.antt =====
-- ai_jobs.py: the jobs that the rounds of `enqueue_listening_jobs` add, each for a post of the call
-- that a round wants.
use auto_x.Prelude.{
  ℕ, ◌≡◌, refl, ◌∙◌, inl, inr, Bool, true, false, not, ◌||◌, Option, none, some, List, [], ◌∷◌, map,
  Mem, mem-cons_self, mem-cons_of_mem, leb, ◌==◌, if◌then◌else◌, Bool-cases, truthy, length, All,
  where_true, All-where_true, Instant, order_by, order_by-All, All-Mem,
}
use auto_x.Models.{MonitoredUser, Tweet}
use auto_x.Listening.{Setting, Feature, ListenTask, Subscription, Snapshot, Job, Db, Selection}
use auto_x.Listening.Wants.{Plan, plan_of, wants, contains, get_or}
use auto_x.Listening.Enqueue.{
  is_task, default_setting, get_ai_setting, enqueue_with, enqueue_listening_jobs, job_of, Call,
  values_of, insert_values, with_feature, round, rounds, get_ai_feature,
}
use auto_x.Listening.Jobs.{Grows, Grows-none, Grows-trans, insert_jobs-Grows}

-- The plan of a round for a task.
abbrev pub plan_at : (ℕ → Selection) → Call → Db → ListenTask → Plan
plan_at resolve call db task =
    plan_of call.snapshot task (resolve task.id)
      (where_true (λ (s : Subscription). s.task_id == task.id) db.subscriptions)

All-values :
    (P : Job → Type 0) (call : Call) (db : Db) (task : ListenTask) (plan : Plan) (feature : Feature)
    (tweets : List Tweet)
    → ((tweet : Tweet)
        → Mem tweet tweets
        → wants call.snapshot call.window db task plan tweet ≡ true
        → P (job_of call.setting call.now task plan feature tweet))
    → All P (
        map
          (job_of call.setting call.now task plan feature)
          (where_true (wants call.snapshot call.window db task plan) tweets))
All-values P call db task plan feature [] justify = tt
All-values P call db task plan feature (t ∷ tweets) justify =
    let rest =
      All-values P call db task plan feature tweets
        (λ tweet m. justify tweet (mem-cons_of_mem t m)) in
    elim (Bool-cases (wants call.snapshot call.window db task plan t)) [
      | inl e ↦ rw e (justify t mem-cons_self e, rest)
      | inr e ↦ rw e rest
    ]

-- A round leaves the accounts and the subscriptions alone and only adds jobs.
abbrev pub Adds : (Job → Type 0) → Db → ℕ × Db → Type 0
Adds P db r =
    Grows P db.jobs r.0 r.1.jobs × (r.1.users ≡ db.users) × (r.1.subscriptions ≡ db.subscriptions)

Adds-none : (P : Job → Type 0) (db : Db) → Adds P db (0, db)
Adds-none P db = (Grows-none P db.jobs, refl, refl)

Adds-if :
    (P : Job → Type 0) (db : Db) (b : Bool) (x y : ℕ × Db)
    → Adds P db x
    → Adds P db y
    → Adds P db (if b then x else y)
Adds-if P db true x y h k = h
Adds-if P db false x y h k = k

module _ (resolve : ℕ → Selection) (call : Call) (users : List MonitoredUser)
    (subscriptions : List Subscription) (P : Job → Type 0) (IsTask : ListenTask → Type 0)
    (closed : (n : ℕ) (job : Job) → P job → P (record job { id = n }))
    (justify : (db : Db) (task : ListenTask) (feature : Feature) (tweet : Tweet)
      → db.users ≡ users
      → db.subscriptions ≡ subscriptions
      → IsTask task
      → Mem tweet call.tweets
      → wants call.snapshot call.window db task (plan_at resolve call db task) tweet ≡ true
      → P (job_of call.setting call.now task (plan_at resolve call db task) feature tweet)) where
  with_feature-Adds :
      (db : Db) (task : ListenTask) (o : Option Feature)
      → IsTask task
      → db.users ≡ users
      → db.subscriptions ≡ subscriptions
      → Adds P db (with_feature call db task (plan_at resolve call db task) o)
  unfolding with_feature insert_values values_of
  with_feature-Adds db task none i u s = Adds-none P db
  with_feature-Adds db task (some feature) i u s = (
    insert_jobs-Grows P closed
        (map (job_of call.setting call.now task (plan_at resolve call db task) feature) (
          where_true (wants call.snapshot call.window db task (plan_at resolve call db task))
            call.tweets))
        db.next_job_id db.jobs
        (All-values P call db task (plan_at resolve call db task) feature call.tweets
          (λ tweet m w. justify db task feature tweet u s i m w)),
    refl,
    refl,
  )

  round-Adds :
      (db : Db) (task : ListenTask)
      → IsTask task
      → db.users ≡ users
      → db.subscriptions ≡ subscriptions
      → Adds P db (round resolve call task db)
  unfolding round
  round-Adds db task i u s =
      let plan = plan_at resolve call db task in
      Adds-if P db (truthy task.queue_hold_reason) (0, db) _ (Adds-none P db)
        (Adds-if P db (not (resolve task.id).valid) _ _ (Grows-none P db.jobs, refl, refl)
          (Adds-if P db
            ((length plan.selected_ids == 0)
              || not (length plan.skill_snapshots == length plan.selected_ids))
            (0, db) _ (Adds-none P db)
            (with_feature-Adds db task (get_ai_feature db plan.feature_code) i u s)))

  pub rounds-Adds :
      (tasks : List ListenTask) (db : Db)
      → All IsTask tasks
      → db.users ≡ users
      → db.subscriptions ≡ subscriptions
      → Adds P db (rounds resolve call tasks db)
  unfolding rounds
  rounds-Adds [] db i u s = Adds-none P db
  rounds-Adds (task ∷ tasks) db i u s =
      let first = round-Adds db task i.0 u s in
      let db' = (round resolve call task db).1 in
      let later = rounds-Adds tasks db' i.1 (first.1 ∙ u) (first.2 ∙ s) in
      (
        Grows-trans P db.jobs db'.jobs (rounds resolve call tasks db').1.jobs
            (round resolve call task db).0 (rounds resolve call tasks db').0 first.0 later.0,
        later.1 ∙ first.1,
        later.2 ∙ first.2,
      )

-- A task that a call for `task_id` goes through.
abbrev pub IsCalled : Db → Option ℕ → ListenTask → Type 0
IsCalled start task_id task = Mem task start.tasks × (is_task task_id task ≡ true)

-- The call that the rounds of `enqueue_listening_jobs` have.
abbrev pub call_of :
    Setting → List ℕ → Option (Instant × Instant) → Option Snapshot → Instant → Db → Call
call_of setting tweet_ids window snapshot now db = record {
  setting = setting;
  window = window;
  snapshot = snapshot;
  tweets = where_true (λ (t : Tweet). contains t.id tweet_ids) db.tweets;
  now = now;
}

module _ (resolve : ℕ → Selection) (tweet_ids : List ℕ) (task_id : Option ℕ)
    (window : Option (Instant × Instant)) (snapshot : Option Snapshot) (now : Instant)
    (P : Job → Type 0) (closed : (n : ℕ) (job : Job) → P job → P (record job { id = n })) where
  abbrev pub Justifies : Db → Type 0
  Justifies start =
      (setting : Setting) (db : Db) (task : ListenTask) (feature : Feature) (tweet : Tweet)
      → db.users ≡ start.users
      → db.subscriptions ≡ start.subscriptions
      → IsCalled start task_id task
      → Mem tweet (where_true (λ (t : Tweet). contains t.id tweet_ids) start.tweets)
      → wants snapshot window db task
          (plan_at resolve (call_of setting tweet_ids window snapshot now start) db task) tweet
        ≡ true
      → P (
          job_of setting now task
            (plan_at resolve (call_of setting tweet_ids window snapshot now start) db task) feature
            tweet)

  enqueue_with-Adds :
      (setting : Setting) (db : Db)
      → Justifies db
      → Adds P db (enqueue_with resolve setting tweet_ids task_id window snapshot now db)
  unfolding enqueue_with
  enqueue_with-Adds setting db justify =
      let call = call_of setting tweet_ids window snapshot now db in
      Adds-if P db (not setting.enabled || not setting.auto_generate || (length call.tweets == 0))
        (0, db) _ (Adds-none P db)
        (rounds-Adds resolve call db.users db.subscriptions P (IsCalled db task_id) closed
          (justify setting)
          (order_by (λ (a b : ListenTask). leb a.id b.id) (where_true (is_task task_id) db.tasks))
          db
          (order_by-All (λ (a b : ListenTask). leb a.id b.id) (IsCalled db task_id)
            (where_true (is_task task_id) db.tasks)
            (All-where_true (is_task task_id) (λ (t : ListenTask). Mem t db.tasks) db.tasks
              (All-Mem db.tasks)))
          refl refl)

  pub enqueue-Adds :
      (given : Option Setting) (db : Db)
      → Justifies db
      → Adds P db (enqueue_listening_jobs resolve tweet_ids task_id window snapshot given now db)
  unfolding enqueue_listening_jobs get_ai_setting
  enqueue-Adds (some setting) db justify =
      Adds-if P db (length tweet_ids == 0) (0, db) _ (Adds-none P db)
        (enqueue_with-Adds setting db justify)
  enqueue-Adds none db justify =
      Adds-if P db (length tweet_ids == 0) (0, db) _ (Adds-none P db)
        (enqueue_with-Adds (get_or db.setting default_setting)
          (record db { setting = some (get_or db.setting default_setting) }) justify)
