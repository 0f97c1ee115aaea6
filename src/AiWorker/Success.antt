-- ===== src/AiWorker/Success.antt =====
-- ai_worker.py, `_commit_success`: the draft, the profile of the author and the end of the job. The
-- dispatches of the draft are another module's, and their failure does not undo it.
use auto_x.Prelude.{
  ℕ, ◌+◌, String, Bool, true, false, not, ◌&&◌, ◌||◌, Option, none, some, ltb, leb, ◌==◌,
  if◌then◌else◌, Instant,
}
use auto_x.AiWorker.{
  succeeded, Job, done, Draft, Profile, Db, set, finish_attempt, unclaimed, save_job,
}
use auto_x.AiWorker.Ends.{is_held}

-- What the provider returned: the payload of the draft and of the profile.
pub record Generated : Type 0 where
  pub title : String
  pub content : String
  pub excerpt : Option String
  pub identity_summary : String
  pub focus_summary : String
  pub relationship_summary : String
  pub prompt_hash : String

abbrev pub stored_draft : Generated → Job → Option Draft → Draft
stored_draft g job none = record {
  source_tweet_id = job.source_tweet_id;
  title = g.title;
  content = g.content;
  excerpt = g.excerpt;
  revision = 1;
}
stored_draft g job (some draft) = record draft {
  title = g.title;
  content = g.content;
  excerpt = g.excerpt;
  revision = draft.revision + 1;
}

-- `(posted_at, id) >= (posted_at, id)`.
abbrev pub not_before : Instant → ℕ → Instant → ℕ → Bool
not_before posted_at id last_posted_at last_id =
    ltb last_posted_at posted_at || ((last_posted_at == posted_at) && leb last_id id)

-- `profile_is_current`, by the posts' instants where the posts are there.
abbrev pub follows : Option Instant → ℕ → Option Instant → ℕ → Bool
follows none id last last_id = false
follows (some posted_at) id none last_id = true
follows (some posted_at) id (some last_posted_at) last_id =
    not_before posted_at id last_posted_at last_id

abbrev pub profile_is_current : (ℕ → Option Instant) → ℕ → Option ℕ → Bool
profile_is_current tweets id none = true
profile_is_current tweets id (some last_id) = follows (tweets id) id (tweets last_id) last_id

unfoldable pub stored_profile :
    (ℕ → Option Instant) → Generated → ℕ → Option Profile → Option Profile
stored_profile tweets g id none = some (record {
  identity_summary = g.identity_summary;
  focus_summary = g.focus_summary;
  relationship_summary = g.relationship_summary;
  version = 1;
  last_source_tweet_id = some id;
})
stored_profile tweets g id (some profile) =
    if profile_is_current tweets id profile.last_source_tweet_id
    then some (record {
      identity_summary = g.identity_summary;
      focus_summary = g.focus_summary;
      relationship_summary = g.relationship_summary;
      version = profile.version + 1;
      last_source_tweet_id = some id;
    })
    else some profile

-- An account id of 0 is none.
unfoldable pub store_profile : (ℕ → Option Instant) → Generated → Job → Db → Db
store_profile tweets g job db = if job.monitored_user_id == 0 then db else record db {
  profiles =
      set job.monitored_user_id
        (stored_profile tweets g job.source_tweet_id (db.profiles job.monitored_user_id))
        db.profiles;
}

abbrev pub store_draft : Generated → ℕ → Job → Db → Db
store_draft g job_id job db = record db {
  drafts = set job_id (some (stored_draft g job (db.drafts job_id))) db.drafts;
}

abbrev pub after_success : Instant → Generated → Job → Job
after_success now g job = record (unclaimed job) {
  status = succeeded;
  prompt_hash = some g.prompt_hash;
  last_error = none;
  completed_at = some now;
}

-- The call raises without the lock, returns False for a claim that is not the job's.
pub data Committed : Type 0 where
  lost not_held committed : Committed

unfoldable pub succeed_job :
    (ℕ → Option Instant)
    → Instant
    → Generated
    → Bool
    → String
    → ℕ
    → Option Job
    → Db
    → Committed × Db
succeed_job tweets now g has_lock claim_token job_id none db = (not_held, db)
succeed_job tweets now g has_lock claim_token job_id (some job) db =
    if not (is_held claim_token job) then (not_held, db) else if not has_lock then (lost, db) else (
      committed,
      save_job job_id (after_success now g job) (
          finish_attempt job_id job done now none
            (store_profile tweets g job (store_draft g job_id job db))),
    )

abbrev pub commit_success :
    (ℕ → Option Instant) → Instant → Generated → Bool → Bool → String → ℕ → Db → Committed × Db
commit_success tweets now g had_lock has_lock claim_token job_id db =
    if had_lock
    then succeed_job tweets now g has_lock claim_token job_id (db.jobs job_id) db
    else (lost, db)
