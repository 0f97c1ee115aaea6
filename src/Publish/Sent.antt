-- ===== src/Publish/Sent.antt =====
-- services/ai_publish.py: what dispatchers change in the rows of dispatches.
use auto_x.Prelude.{
  ◌+◌, String, ◌≡◌, refl, ◌⊎◌, inl, inr, Bool, true, false, ◌&&◌, Option, none, some, ltb,
  Bool-cases, any_true, find, Instant,
}
use auto_x.Publish.{Dispatch, Db, failed, published, is_waiting, is_dispatching, put_row}
use auto_x.Publish.Rows.{
  Keeps, Keeps-refl, Keeps-put, Keeps-finish, Change-waiting, Change-status, IsClosed,
}
use auto_x.Publish.Xhs.{
  Reservation, reserve_row, reserved, queued_behind, new_attempt, with_attempt, is_busy_with,
  complete_row, preflight_row, preflight_retry,
}

module _ (p : Dispatch → Bool) (closed : IsClosed p) where
  pub Keeps-preflight :
      (now : Instant) (message : String) (retry : Bool) (q : Dispatch → Bool) (o : Option Dispatch)
      (db : Db)
      → find q db.dispatches ≡ o
      → Keeps p db (preflight_row now message retry o db)
  unfolding preflight_row
  Keeps-preflight now message retry q none db found = Keeps-refl p db
  Keeps-preflight now message retry q (some row) db found =
      elim (Bool-cases (is_waiting row.status)) [
        | inr settled ↦ rw settled (Keeps-refl p db)
        | inl waits ↦ elim (Bool-cases (retry && ltb (row.attempts + 1) 12)) [
          | inl again ↦
              rw (waits, again)
                (Keeps-put p q row (preflight_retry now message row) db db found refl refl (
                  closed row (preflight_retry now message row)
                    (Change-waiting row _ waits refl refl refl refl)))
          | inr over ↦
              rw (waits, over)
                (Keeps-finish p q now failed (some message) row _ db found
                  (closed row _ (Change-waiting row _ waits refl refl refl refl)))
        ]
      ]

  pub Keeps-complete :
      (now : Instant) (q : Dispatch → Bool) (o : Option Dispatch) (db : Db)
      → find q db.dispatches ≡ o
      → Keeps p db (complete_row now o db)
  unfolding complete_row
  Keeps-complete now q none db found = Keeps-refl p db
  Keeps-complete now q (some row) db found = elim (Bool-cases (is_dispatching row.status)) [
    | inl e ↦ rw e (
        Keeps-finish p q now published none row row db found
          (closed row _ (Change-status row _ refl refl refl refl refl refl refl)))
    | inr e ↦ rw e (Keeps-refl p db)
  ]

-- A reservation reserves a row that waits, whose account has no other row that a worker may be
-- executing; or it keeps what holds of every row.
pub record IsReserved (r : Reservation) (row : Dispatch) (db after : Db) : Type 0 where
  pub waits : is_waiting row.status ≡ true
  pub idle : any_true (is_busy_with r.admin_id row.id) db.dispatches ≡ false
  pub written : after ≡ put_row (reserved r row) (with_attempt (new_attempt r row) db)

pub reserve_row-cases :
    (p : Dispatch → Bool)
    → IsClosed p
    → (r : Reservation) (q : Dispatch → Bool) (o : Option Dispatch) (db : Db)
    → find q db.dispatches ≡ o
    → Keeps p db (reserve_row r o db).1
      ⊎ ((row : Dispatch) × (o ≡ some row) × IsReserved r row db (reserve_row r o db).1)
unfolding reserve_row
reserve_row-cases p closed r q none db found = inl (Keeps-refl p db)
reserve_row-cases p closed r q (some row) db found = elim (Bool-cases (is_waiting row.status)) [
  | inr settled ↦ inl (rw settled (Keeps-refl p db))
  | inl waits ↦ elim (Bool-cases r.has_admin) [
    | inr gone ↦ inl (
        rw (waits, gone)
          (Keeps-finish p q r.now failed (some "归属管理员已不存在") row row db found
            (closed row _ (Change-waiting row _ waits refl refl refl refl))))
    | inl there ↦ elim (Bool-cases (any_true (is_busy_with r.admin_id row.id) db.dispatches)) [
      | inl busy ↦ inl (
          rw (waits, there, busy)
            (Keeps-put p q row (queued_behind r.now row) db db found refl refl (
              closed row (queued_behind r.now row)
                (Change-waiting row _ waits refl refl refl refl))))
      | inr idle ↦
          inr (
            row,
            refl,
            record { waits = waits; idle = idle; written = rw (waits, there, idle) refl },
          )
    ]
  ]
]
