-- ===== src/Publish/Quiet.antt =====
-- services/ai_publish.py: the calls that neither reserve a dispatch nor give it back.
use auto_x.Prelude.{String, ◌≡◌, refl, sym, Bool, true, false, Option, clash, find}
use auto_x.Publish.{Dispatch, Db, has_id}
use auto_x.Publish.Rows.{Keeps, IsClosed}
use auto_x.Publish.Sent.{Keeps-preflight, Keeps-complete}
use auto_x.Publish.Applied.{Keeps-apply, Keeps-interrupt, Keeps-reconcile, Keeps-abandon}
use auto_x.Publish.Calls.{Call, step}

abbrev pub is_quiet : Call → Bool
is_quiet (Call.interrupts now job_id id) = true
is_quiet (Call.completes now id) = true
is_quiet (Call.fails_preflight now message retry id) = true
is_quiet (Call.applies now job_id) = true
is_quiet (Call.reconciles now timeout is_held) = true
is_quiet (Call.abandons now timeout is_held) = true
is_quiet _ = false

module _ (p : Dispatch → Bool) (closed : IsClosed p) (url_of : String → Option String) where
  pub Keeps-quiet : (c : Call) (db : Db) → is_quiet c ≡ true → Keeps p db (step url_of c db)
  Keeps-quiet (Call.interrupts now job d) db h =
      Keeps-interrupt p closed url_of now job (has_id d) (find (has_id d) db.dispatches) db refl
  Keeps-quiet (Call.completes now d) db h =
      Keeps-complete p closed now (has_id d) (find (has_id d) db.dispatches) db refl
  Keeps-quiet (Call.fails_preflight now message retry d) db h =
      Keeps-preflight p closed now message retry (has_id d) (find (has_id d) db.dispatches) db refl
  Keeps-quiet (Call.applies now job) db h = Keeps-apply p closed url_of now job db
  Keeps-quiet (Call.reconciles now timeout is_held) db h =
      Keeps-reconcile p closed url_of now timeout is_held db
  Keeps-quiet (Call.abandons now timeout is_held) db h =
      Keeps-abandon p closed now timeout is_held db
  Keeps-quiet (Call.reserves r d) db h = absurd (clash (sym h))
  Keeps-quiet (Call.rejects now error retry_after d) db h = absurd (clash (sym h))
  Keeps-quiet (Call.retries now d) db h = absurd (clash (sym h))
  Keeps-quiet (Call.checks c d) db h = absurd (clash (sym h))
  Keeps-quiet (Call.writes c) db h = absurd (clash (sym h))
