-- ===== src/BrowserJobs/Examples.antt =====
-- browser_job_store.py on concrete tables.
use auto_x.Prelude.{
  ◌+◌, ◌≤◌, String, ◌≡◌, refl, Bool, true, false, none, some, List, [], ◌∷◌, arith, leb, All,
  Instant, seconds, order_by,
}
use auto_x.BrowserJobs.{
  succeeded, uncertain, Row, Request, Outcome, ok, accept, finished, get, new_row, has_key,
}
use auto_x.BrowserJobs.Queues.{
  selected, recovery_due, recovery_batch, recovery_jobs, marked, callback_due, callback_delay,
}
use auto_x.BrowserJobs.Outcomes.{
  Call, finish_call, renew_call, recovery_call, mark_call, perform_all, Kept, known_outcome_final,
}
use auto_x.BrowserJobs.Ownership.{told, accept_once}
use auto_x.BrowserJobs.Recovery.{recovery_disjoint, callback_schedule}

abbrev publish : Request
publish = record {
  namespace = "xhs";
  job_id = "j1";
  admin_id = some 7;
  fingerprint = "f1";
  worker_id = some "w1";
  lease_seconds = some (seconds 60);
}

abbrev other : Request
other = record publish { fingerprint = "f2" }

abbrev published : Outcome
published = record { state = succeeded; document = some "{\"url\":1}"; error = none }

abbrev lost : Outcome
lost = record { state = uncertain; document = none; error = some "timeout" }

abbrev any_order : String → String → Bool
any_order a b = true

abbrev unlocked : Row → Bool
unlocked row = false

abbrev start : Instant
start = 1000

accepted :
    accept start publish [] [] [] ≡ (ok (new_row start publish, true), new_row start publish ∷ [])
unfolding accept get
accepted = refl

one_row : get "xhs" "j1" (new_row start publish ∷ []) ≡ some (new_row start publish)
unfolding get has_key new_row
one_row = refl

accept_once_example :
    (found : Row) × (get "xhs" "j1"
        (perform_all (renew_call 2000 "xhs" "j1" "w1" 5 ∷ []) (new_row start publish ∷ []))
      ≡ some found)
    × (accept 3000 other
          (perform_all (renew_call 2000 "xhs" "j1" "w1" 5 ∷ []) (new_row start publish ∷ []))
          (perform_all (renew_call 2000 "xhs" "j1" "w1" 5 ∷ []) (new_row start publish ∷ []))
          (perform_all (renew_call 2000 "xhs" "j1" "w1" 5 ∷ []) (new_row start publish ∷ []))
        ≡ (
          told (new_row start publish) other found,
          perform_all (renew_call 2000 "xhs" "j1" "w1" 5 ∷ []) (new_row start publish ∷ []),
        ))
accept_once_example =
    accept_once start 3000 publish other [] [] [] (new_row start publish)
      (new_row start publish ∷ []) (renew_call 2000 "xhs" "j1" "w1" 5 ∷ []) accepted refl refl

abbrev done : Row
done = finished 5000 (new_row start publish) published

done_known : done.state ≡ succeeded
unfolding finished
done_known = refl

get-done : get "xhs" "j1" (done ∷ []) ≡ some done
unfolding get has_key finished new_row
get-done = refl

abbrev observers : List Call
observers =
    finish_call 6000 "xhs" "j1" lost true
    ∷ recovery_call any_order 7000 "xhs" 100 unlocked
    ∷ mark_call 8000 "j1" true none
    ∷ []

known_outcome_final_example : Kept "xhs" "j1" done (perform_all observers (done ∷ []))
known_outcome_final_example =
    known_outcome_final "xhs" "j1" done observers (done ∷ []) (unfold finished in refl) get-done

recovery_disjoint_example :
    All
      (λ row.
        selected
          (recovery_batch any_order (seconds 100) "xhs" 100 unlocked (new_row start publish ∷ []))
          row
        ≡ false)
      (recovery_batch any_order
        (seconds 120)
        "xhs"
        100
        unlocked
        (recovery_jobs any_order (seconds 100) "xhs" 100 unlocked (new_row start publish ∷ [])).1)
recovery_disjoint_example =
    recovery_disjoint any_order (seconds 100) (seconds 120) "xhs" "xhs" 100 100 unlocked unlocked
      (new_row start publish ∷ []) (omega arith)

callback_schedule_example :
    (callback_due 90000 (marked 6000 false done)
      ≡ leb (6000 + callback_delay (done.callback_attempts + 1)) 90000)
    × (seconds 2 ≤ callback_delay (done.callback_attempts + 1))
    × (callback_delay (done.callback_attempts + 1) ≤ seconds 256)
    × (callback_due 90000 (marked 6000 true done) ≡ false)
callback_schedule_example =
    callback_schedule 6000 90000 done (unfold callback_due finished new_row in refl)

-- The first retry comes after two seconds, and from the eighth on each waits 256 seconds.
callback_delays :
    (callback_delay 1 ≡ seconds 2)
    × (callback_delay 8 ≡ seconds 256)
    × (callback_delay 40 ≡ seconds 256)
unfolding callback_delay
callback_delays = (refl, refl, refl)

selected_row :
    recovery_batch any_order (seconds 100) "xhs" 100 unlocked (new_row start publish ∷ [])
    ≡ new_row start publish ∷ []
unfolding recovery_batch new_row order_by recovery_due
selected_row = refl
