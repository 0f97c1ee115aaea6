-- ===== src/Publish/Account.antt =====
-- services/ai_publish.py: the dispatches of one account, over any calls.
use auto_x.Prelude.{
  ℕ, String, ◌≡◌, refl, sym, ap, ◌∙◌, ◌≢◌, ◌⊎◌, inl, inr, Bool, true, false, ◌&&◌, Option, some,
  List, [], ◌∷◌, arith, ◌==◌, ==_iff, ==_refl, clash, Bool-cases, Option-cases, opt_eq, All,
  any_true, find, find-test, All-update, find-All,
}
use auto_x.Publish.{
  Dispatch, Db, has_id, put_row, is_xhs, pending, retry_wait, dispatching, reconciling, uncertain,
  accepted, published, failed, is_waiting,
}
use auto_x.Publish.Rows.{Holds, Keeps-put}
use auto_x.Publish.Sent.{IsReserved, reserve_row-cases}
use auto_x.Publish.Quiet.{is_quiet, Keeps-quiet}
use auto_x.Publish.Xhs.{
  Reservation, reserve_row, reserved, with_attempt, new_attempt, reserve, is_busy_with,
}
use auto_x.Publish.Operators.{replayed}
use auto_x.Publish.Calls.{Call, step, run}
use auto_x.Publish.Replays.{Keeps-reject, Keeps-retry, Keeps-check}
use auto_x.Publish.Alone.{
  sends_for, sends_only, names_account, rejected-IsIdle, checked-IsIdle, idle-only, only-Closed,
  only_others, reserved-only, found_only,
}

module _ (account : ℕ → ℕ) (admin_id : ℕ) where
  -- At most one dispatch is sent for the account.
  abbrev IsAlone : Db → Type 0
  IsAlone db = (d : ℕ) × Holds (sends_only account admin_id d) db

  reserved_alone :
      (r : Reservation) (row : Dispatch) (db : Db)
      → r.admin_id ≡ account row.id
      → r.admin_id ≡ admin_id
      → sends_only account admin_id row.id row ≡ true
      → Holds (sends_only account admin_id row.id) db
      → Holds
          (sends_only account admin_id row.id)
          (put_row (reserved r row) (with_attempt (new_attempt r row) db))
  unfolding put_row
  reserved_alone r row db own same its h =
      All-update (λ (a : Dispatch). sends_only account admin_id row.id a ≡ true) (has_id row.id)
        (λ _. reserved r row) db.dispatches (λ a k e. ground (arith, ==_refl row.id)) h

  IsAlone-reserve :
      (r : Reservation) (id : ℕ) (db : Db)
      → r.admin_id ≡ account id
      → IsAlone db
      → IsAlone (reserve_row r (find (has_id id) db.dispatches) db).1
  IsAlone-reserve r id db own (d, h) =
      elim (reserve_row-cases (sends_only account admin_id d) (only-Closed account admin_id d) r
        (has_id id) (find (has_id id) db.dispatches) db refl) [
          | inl keeps ↦ (d, keeps.rows h)
          | inr (row, found, reservation) ↦
              let there : row.id ≡ id =
                (==_iff row.id id).0 (find-test (has_id id) db.dispatches row found) in
              taken row found reservation (own ∙ ap account (sym there))
                (Bool-cases (r.admin_id == admin_id))
        ]
    where
      taken :
          (row : Dispatch)
          → find (has_id id) db.dispatches ≡ some row
          → IsReserved r row db (reserve_row r (find (has_id id) db.dispatches) db).1
          → r.admin_id ≡ account row.id
          → ((r.admin_id == admin_id) ≡ true) ⊎ ((r.admin_id == admin_id) ≡ false)
          → IsAlone (reserve_row r (find (has_id id) db.dispatches) db).1
      taken row found reservation names (inl e) =
          let same : r.admin_id ≡ admin_id = (==_iff r.admin_id admin_id).0 e in
          let others =
            only_others account admin_id d row.id db.dispatches h (rw same at reservation.idle) in
          let its : sends_only account admin_id row.id row ≡ true =
            find-All (λ (a : Dispatch). sends_only account admin_id row.id a ≡ true) (has_id id)
              db.dispatches row others found in
          (row.id, rw reservation.written (reserved_alone r row db names same its others))
      taken row found reservation names (inr other) = (
        d,
        rw reservation.written (
            (Keeps-put (sends_only account admin_id d) (has_id id) row (reserved r row) db
                (with_attempt (new_attempt r row) db) found refl refl
                (reserved-only account admin_id d r row names other)).rows
              h),
      )

  IsAlone-quiet :
      (url_of : String → Option String) (c : Call) (db : Db)
      → is_quiet c ≡ true
      → IsAlone db
      → IsAlone (step url_of c db)
  IsAlone-quiet url_of c db quiet (d, h) = (
    d,
    (Keeps-quiet (sends_only account admin_id d) (only-Closed account admin_id d) url_of c db
          quiet).rows
        h,
  )

  IsAlone-step :
      (url_of : String → Option String) (c : Call) (db : Db)
      → names_account account c ≡ true
      → IsAlone db
      → IsAlone (step url_of c db)
  IsAlone-step url_of (Call.reserves r id) db own h =
      IsAlone-reserve r id db ((==_iff r.admin_id (account id)).0 own) h
  IsAlone-step url_of (Call.rejects now error retry_after id) db own (d, h) = (
    d,
    (Keeps-reject (sends_only account admin_id d) (has_id id) now error retry_after
          (find (has_id id) db.dispatches) db
          (λ row its k.
            idle-only account admin_id d row _ (rejected-IsIdle now error retry_after row) k)
          refl).rows
        h,
  )
  IsAlone-step url_of (Call.retries now id) db own (d, h) = (
    d,
    (Keeps-retry (sends_only account admin_id d) (has_id id) now (find (has_id id) db.dispatches) db
          (λ row passes k.
            idle-only account admin_id d row (replayed now row)
              (record { id = refl; owner = refl; idle = refl }) k)
          refl).rows
        h,
  )
  IsAlone-step url_of (Call.checks c id) db own (d, h) = (
    d,
    (Keeps-check (sends_only account admin_id d) (has_id id) c (find (has_id id) db.dispatches) db
          (λ row its k. idle-only account admin_id d row _ (checked-IsIdle c row) k) refl).rows
        h,
  )
  IsAlone-step url_of (Call.writes c) db own h = h
  IsAlone-step url_of (Call.interrupts now job d) db own h =
      IsAlone-quiet url_of (Call.interrupts now job d) db refl h
  IsAlone-step url_of (Call.completes now d) db own h =
      IsAlone-quiet url_of (Call.completes now d) db refl h
  IsAlone-step url_of (Call.fails_preflight now message retry d) db own h =
      IsAlone-quiet url_of (Call.fails_preflight now message retry d) db refl h
  IsAlone-step url_of (Call.applies now job) db own h =
      IsAlone-quiet url_of (Call.applies now job) db refl h
  IsAlone-step url_of (Call.reconciles now timeout is_held) db own h =
      IsAlone-quiet url_of (Call.reconciles now timeout is_held) db refl h
  IsAlone-step url_of (Call.abandons now timeout is_held) db own h =
      IsAlone-quiet url_of (Call.abandons now timeout is_held) db refl h

  IsAlone-run :
      (url_of : String → Option String) (cs : List Call) (db : Db)
      → All (λ c. names_account account c ≡ true) cs
      → IsAlone db
      → IsAlone (run url_of cs db)
  unfolding run
  IsAlone-run url_of [] db own h = h
  IsAlone-run url_of (c ∷ cs) db own h =
      IsAlone-run url_of cs (step url_of c db) own.1 (IsAlone-step url_of c db own.0 h)

-- A dispatch that a worker may be executing for the account: `dispatching` or `reconciling`.
abbrev pub executes_for : ℕ → Dispatch → Bool
executes_for admin_id row =
    is_xhs row.channel
    && (opt_eq ◌==◌ row.owner_admin_id (some admin_id) && (elim row.status [
      | pending ↦ false
      | retry_wait ↦ false
      | dispatching ↦ true
      | reconciling ↦ true
      | uncertain ↦ false
      | accepted ↦ false
      | published ↦ false
      | failed ↦ false
    ]))

any_true-find :
    (p q : Dispatch → Bool) (rows : List Dispatch) (a : Dispatch)
    → find q rows ≡ some a
    → p a ≡ true
    → any_true p rows ≡ true
any_true-find p q rows a there holds = elim (Bool-cases (any_true p rows)) [
  | inl e ↦ e
  | inr e ↦ absurd (
      clash (
        sym holds
        ∙ find-All (λ (row : Dispatch). p row ≡ false) q rows a (none_passes rows e) there))
]
  where
    none_passes : (rows : List Dispatch) → any_true p rows ≡ false → All (λ row. p row ≡ false) rows
    none_passes [] e = tt
    none_passes (x ∷ rows) e = (ground arith, none_passes rows (ground arith))

reserve-busy :
    (r : Reservation) (i k : ℕ) (db : Db) (a : Dispatch)
    → k ≢ i
    → find (has_id i) db.dispatches ≡ some a
    → executes_for r.admin_id a ≡ true
    → (reserve r k db).0 ≡ false
unfolding reserve_row
reserve-busy r i k db a differ at_i executes = elim (Option-cases (find (has_id k) db.dispatches)) [
  | inl missing ↦ rw missing refl
  | inr (row, at_k) ↦
      let there : a.id ≡ i = (==_iff a.id i).0 (find-test (has_id i) db.dispatches a at_i) in
      let own : row.id ≡ k = (==_iff row.id k).0 (find-test (has_id k) db.dispatches row at_k) in
      let other : (a.id == row.id) ≡ false = rw (there, own) (differs differ) in
      let busy =
        any_true-find (is_busy_with r.admin_id row.id) (has_id i) db.dispatches a at_i
          (ground arith) in
      elim (Bool-cases (is_waiting row.status)) [
        | inr settled ↦ rw (at_k, settled) refl
        | inl waits ↦ elim (Bool-cases r.has_admin) [
          | inr gone ↦ rw (at_k, waits, gone) refl
          | inl admin ↦ rw (at_k, waits, admin, busy) refl
        ]
      ]
]
  where
    differs : k ≢ i → (i == k) ≡ false
    differs h = ground arith

not_both : (a b : Bool) → ((a ≡ true) → (b ≡ true) → ⊥) → (a && b) ≡ false
not_both false b h = refl
not_both true false h = refl
not_both true true h = absurd (h refl refl)

-- Each dispatch has its account as the owner, and at most the dispatch `d` is `dispatching` for an
-- account. Any calls of dispatchers, administrators, callbacks and the worker follow, in which a
-- reservation names the account of its dispatch. While a dispatch is then `dispatching` or
-- `reconciling` for the account, no other one is reserved for it, and two dispatches are not
-- `dispatching` for it at once.
pub one_post_per_account :
    (account : ℕ → ℕ) (d i k : ℕ) (url_of : String → Option String) (calls : List Call) (db : Db)
    (r : Reservation) (a b : Dispatch)
    → Holds (sends_only account r.admin_id d) db
    → All (λ c. names_account account c ≡ true) calls
    → k ≢ i
    → find (has_id i) (run url_of calls db).dispatches ≡ some a
    → find (has_id k) (run url_of calls db).dispatches ≡ some b
    → executes_for r.admin_id a ≡ true
    → ((reserve r k (run url_of calls db)).0 ≡ false)
      × ((sends_for r.admin_id a && sends_for r.admin_id b) ≡ false)
one_post_per_account account d i k url_of calls db r a b start own differ at_i at_k executes =
    let (e, h) = IsAlone-run account r.admin_id url_of calls db own (d, start) in
    (
      reserve-busy r i k (run url_of calls db) a differ at_i executes,
      not_both (sends_for r.admin_id a) (sends_for r.admin_id b) (λ x y. differ (
          found_only account r.admin_id e k _ b at_k y h
          ∙ sym (found_only account r.admin_id e i _ a at_i x h))),
    )
