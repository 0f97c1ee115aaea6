-- ===== src/Lib.antt =====
-- X Sentinel, a self-hosted service that polls X accounts, stores their posts, and turns them into
-- AI drafts, QQ notifications and Xiaohongshu notes (backend/app).
--
-- The parts and how they meet. The worker (worker.py) takes due accounts and polls each of them
-- under a Redis lock (services/poller.py): a poll claims the account, which raises its generation,
-- fetches a page, and commits it, which classifies and stores the posts and hands them to the AI
-- tasks and the QQ targets. Handlers of the API change accounts at any time between. Listening
-- tasks (services/ai_jobs.py) turn stored posts into generation jobs, as they come in or by a
-- backfill over the stored ones (services/ai_listen_backfill.py). AI workers (ai_worker.py) claim
-- the jobs under a lease, and store the drafts. Texts go to QQ in messages of bounded length
-- (services/qq_notifications.py). Logins, tokens and the clients of services are kept by the auth
-- center (control_plane/auth_store.py), whose replicas share the tables. Drafts are published by
-- dispatchers (services/ai_publish.py), which submit each of them as a job of a browser worker. Workers that drive a
-- browser keep their jobs in a journal (services/browser_job_store.py), from which results are
-- recovered and reported.
--
-- The files, with paths below backend/app:
--   Prelude            tests on numbers and texts, lists, queries, sorting, instants
--   Models             models/monitored_user.py, models/tweet.py, models/polling_log.py
--   TweetTypes         services/tweet_types.py
--   BrowserJobs        services/browser_job_store.py, models/browser_job.py
--   BrowserPool        services/xhs_browser_pool.py: how a session is acquired
--   Poller             services/poller.py: the claim, the pages (Pagination), the rows of posts
--                      (Ingest), the ends of a poll (Service), the lock (Lock); worker.py: the
--                      queue of accounts (Dispatch)
--   Accounts           api/routes/monitored_users.py, and its handlers together with polls
--   AiWorker           ai_worker.py: the claims (Claim), ends (Ends) and drafts (Success) of generation
--                      jobs, models/ai.py; api/routes/ai.py: the retry of a job
--   Auth               control_plane/auth_store.py: the sessions of administrators (Sessions), the
--                      signing keys (Keys), the clients of services (Clients), the check of a token
--                      and the start of a replica (Tokens), models/service_auth.py
--   AuthClient         services/auth_center.py: the keys that the backend verifies tokens by, and the
--                      key ids that it does not know
--   Publish            services/ai_publish.py: the dispatches to Xiaohongshu (Xhs), the results of the
--                      journal (Results, services/xhs_publish_results.py), and what administrators
--                      decide (Operators, with a handler of api/routes/ai.py), models/ai_publish.py
--   Qq                 services/qq_notifications.py: the cutting of texts, and what is sent to
--                      which target (Deliveries), models/qq.py
--   Listening          services/ai_jobs.py (Wants, Enqueue), services/ai_listen_backfill.py (Scan,
--                      Scan/Candidates), models/ai.py
--
-- How the state is modelled. A table is a list of rows, or of the AI worker a function of its key,
-- and a transaction is a function on a record of tables; concurrent transactions are sequences of
-- them in any order, where each holds the row locks of what it changes. The handlers of accounts
-- that lock no row are two steps, a read and a commit, which writes the columns that the handler
-- has changed, as SQLAlchemy documents it; other steps may come between. A method of a class keeps
-- its name, a helper that stands for a part of a method says so. An exception is `none` or a
-- constructor of a result. An instant is a number of microseconds since datetime.min in UTC, in
-- AuthClient of a monotonic clock, and the clock is an argument.
--
-- What is a parameter: what other services do with stored posts (Downstream), the random jitter of
-- a failure's delay, the order of texts that the database compares by, which rows other
-- transactions hold (the reading skips them), whether Redis answers, what the skill service
-- resolves a task to, and the texts of error messages that quote a list. Of the auth center: the
-- identifiers that uuid4 makes, the keys that are generated, which keys a replica can decrypt,
-- SHA-256, what json.loads makes of a clients file, whether the database fails in the second import
-- of a start, and whether the old key file can be retired after it. Of its client: the answers of
-- the center. Of publishing: the identifiers that uuid4 makes for a reservation, and the address of
-- a note that a result's data give. The instant of a post is what parse_x_datetime made of it.
--
-- Fuel. The chunks of an insertion are bounded by the number of its rows, the pieces of a paragraph
-- by the number of its characters, and the rounds of an acquisition by the number of sessions; each
-- statement takes a row away, each piece a character, and each further round a session.
--
-- What is not modelled: HTTP, browsers, model providers, encryption and token signatures; metrics
-- and logs; the columns that no modelled code reads; the rest of the auth center, the QQ worker,
-- the dispatches to QQ, agent workflows and skill packages; migrations and the frontend.
pub mod Prelude
pub mod Models
pub mod TweetTypes
pub mod BrowserJobs
pub mod BrowserPool
pub mod Poller
pub mod Accounts
pub mod AiWorker
pub mod Auth
pub mod AuthClient
pub mod Publish
pub mod Qq
pub mod Listening
