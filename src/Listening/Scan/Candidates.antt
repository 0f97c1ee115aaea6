-- ===== src/Listening/Scan/Candidates.antt =====
-- ai_listen_backfill.py: which backfill a round of the worker scans.
use auto_x.Prelude.{
  ℕ, String, Bool, false, not, ◌&&◌, ◌||◌, Option, none, some, List, [], ◌∷◌, str_eq, ltb, leb,
  ◌==◌, if◌then◌else◌, is_none, truthy, length, take, where_true, find, Instant, order_by,
}
use auto_x.Listening.{ListenTask, Backfill, Db, Selection}
use auto_x.Listening.Enqueue.{get_ai_setting}
use auto_x.Listening.Scan.{
  is_open, save, task_by_id, unavailable, feature_available, waiting, next_rows, scan_batch,
}

-- `_process_backfill_candidate` once both rows are there and open. `message` is the text of the
-- error about accounts.
unfoldable pub process_open :
    (ℕ → Selection) → (List ℕ → String) → ℕ → Instant → Backfill → Db → Option ℕ × Db
process_open resolve message batch_size now backfill db =
    let user_ids = backfill.config_snapshot.monitored_user_ids in
    let missing = unavailable db user_ids in
    if length user_ids == 0
    then (some 0, save (record backfill { status = "completed"; updated_at = now }) db)
    else if not (length missing == 0)
    then (none, save (waiting (some (message missing)) now backfill) db)
    else if not (feature_available db backfill.config_snapshot)
    then (none, save (waiting (some "AI 功能点暂不可用") now backfill) db)
    else scan_batch resolve batch_size now backfill (next_rows batch_size backfill db.tweets) db

abbrev pub backfill_by_id : Db → ℕ → Option Backfill
backfill_by_id db backfill_id = find (λ (b : Backfill). b.id == backfill_id) db.backfills

-- The backfill's row is skipped where another worker holds it, which `locked` tells.
unfoldable pub process_row :
    (ℕ → Selection)
    → (List ℕ → String)
    → (ℕ → Bool)
    → ℕ
    → Instant
    → Option Backfill
    → Db
    → Option ℕ × Db
process_row resolve message locked batch_size now none db = (none, db)
process_row resolve message locked batch_size now (some backfill) db =
    if locked backfill.id || not (is_open backfill)
    then (none, db)
    else process_open resolve message batch_size now backfill db

abbrev pub may_scan : Option ListenTask → Bool
may_scan none = false
may_scan (some task) = str_eq task.desired_state "enabled" && not (truthy task.queue_hold_reason)

unfoldable pub process_candidate :
    (ℕ → Selection) → (List ℕ → String) → (ℕ → Bool) → ℕ → Instant → Backfill → Db → Option ℕ × Db
process_candidate resolve message locked batch_size now candidate db =
    if may_scan (task_by_id db candidate.task_id)
    then process_row resolve message locked batch_size now (backfill_by_id db candidate.id) db
    else (none, db)

-- The loop over the candidates: the first one that scans something ends it.
unfoldable pub process_candidates :
    (ℕ → Selection) → (List ℕ → String) → (ℕ → Bool) → ℕ → Instant → List Backfill → Db → ℕ × Db
process_candidates resolve message locked batch_size now [] db = (0, db)
process_candidates resolve message locked batch_size now (candidate ∷ candidates) db =
    let first = process_candidate resolve message locked batch_size now candidate db in
    let later = process_candidates resolve message locked batch_size now candidates first.1 in
    elim first.0 [ some scanned ↦ (scanned, first.1) | none ↦ later ]

abbrev pub is_unheld : Option ListenTask → Bool
is_unheld none = false
is_unheld (some task) = str_eq task.desired_state "enabled" && is_none task.queue_hold_reason

abbrev pub older : Backfill → Backfill → Bool
older a b = ltb a.updated_at b.updated_at || ((a.updated_at == b.updated_at) && leb a.id b.id)

unfoldable pub candidates : Db → List Backfill
candidates db = take 32 (
    order_by older (
      where_true (λ (b : Backfill). is_open b && is_unheld (task_by_id db b.task_id)) db.backfills))

-- `process_pending_backfills`, with `none` for its ValueError.
unfoldable pub process_pending_backfills :
    (ℕ → Selection) → (List ℕ → String) → (ℕ → Bool) → ℕ → Instant → Db → Option (ℕ × Db)
process_pending_backfills resolve message locked batch_size now db =
    let setting = get_ai_setting db in
    if not (leb 1 batch_size && leb batch_size 1000)
    then none
    else if not setting.0.enabled || not setting.0.auto_generate
    then some (0, setting.1)
    else some
        (process_candidates resolve message locked batch_size now (candidates setting.1) setting.1)
