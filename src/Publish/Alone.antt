-- ===== src/Publish/Alone.antt =====
-- services/ai_publish.py: the dispatches of one account, and which of them is `dispatching`.
use auto_x.Prelude.{
  ℕ, ◌+◌, String, ◌≡◌, refl, sym, ◌∙◌, inl, inr, Bool, true, false, not, ◌&&◌, ◌||◌, Option, none,
  some, List, [], ◌∷◌, arith, leb, ◌==◌, ==_iff, Bool-cases, opt_eq, All, any_true, find, find-test,
  Instant, find-All,
}
use auto_x.Publish.{Dispatch, is_xhs, is_dispatching, is_active, has_id}
use auto_x.Publish.Rows.{IsClosed}
use auto_x.Publish.Xhs.{Reservation, reserved, is_busy_with, rejected}
use auto_x.Publish.Operators.{
  Check, Decision, found_published, found_not_published, still_uncertain, checked,
}
use auto_x.Publish.Calls.{Call}

-- A dispatch of the account to Xiaohongshu that is `dispatching`.
abbrev pub sends_for : ℕ → Dispatch → Bool
sends_for admin_id row =
    is_xhs row.channel
    && (opt_eq ◌==◌ row.owner_admin_id (some admin_id) && is_dispatching row.status)

-- The owner of a dispatch is its account, and only the dispatch `d` may be `dispatching` for `admin_id`.
abbrev pub sends_only : (ℕ → ℕ) → ℕ → ℕ → Dispatch → Bool
sends_only account admin_id d row =
    opt_eq ◌==◌ row.owner_admin_id (some (account row.id))
    && (not (sends_for admin_id row) || (row.id == d))

-- A reservation names the account of its dispatch.
abbrev pub names_account : (ℕ → ℕ) → Call → Bool
names_account account (Call.reserves r id) = r.admin_id == account id
names_account account _ = true

-- Another status than `dispatching` under the same id, for the same account.
pub record IsIdle (row new : Dispatch) : Type 0 where
  pub id : new.id ≡ row.id
  pub owner : new.owner_admin_id ≡ row.owner_admin_id
  pub idle : is_dispatching new.status ≡ false

pub rejected-IsIdle :
    (now : Instant) (error : String) (retry_after : Option ℕ) (row : Dispatch)
    → IsIdle row (rejected now error retry_after row)
rejected-IsIdle now error retry_after row = elim (Bool-cases (leb 5 (row.rejection_attempts + 1))) [
  | inl e ↦ rw e (record { id = refl; owner = refl; idle = refl })
  | inr e ↦ rw e (record { id = refl; owner = refl; idle = refl })
]

pub checked-IsIdle : (c : Check) (row : Dispatch) → IsIdle row (checked c row)
checked-IsIdle c row = decided c.decision refl
  where
    decided : (s : Decision) → c.decision ≡ s → IsIdle row (checked c row)
    decided found_published e = rw e (record { id = refl; owner = refl; idle = refl })
    decided found_not_published e = rw e (record { id = refl; owner = refl; idle = refl })
    decided still_uncertain e = rw e (record { id = refl; owner = refl; idle = refl })

idle_free : (a b c : Bool) → (not (a && (b && false)) || c) ≡ true
idle_free a b c = ground arith

module _ (account : ℕ → ℕ) (admin_id d : ℕ) where
  pub idle-only :
      (row new : Dispatch)
      → IsIdle row new
      → sends_only account admin_id d row ≡ true
      → sends_only account admin_id d new ≡ true
  idle-only row new c h =
      let owned : opt_eq ◌==◌ row.owner_admin_id (some (account row.id)) ≡ true = ground arith in
      rw (c.owner, c.id, owned, c.idle)
        (idle_free (is_xhs new.channel) (opt_eq ◌==◌ row.owner_admin_id (some admin_id)) _)

  pub only-Closed : IsClosed (sends_only account admin_id d)
  only-Closed row new c h = elim (Bool-cases (is_dispatching new.status)) [
    | inr idle ↦ idle-only row new (record { id = c.id; owner = c.owner; idle = idle }) h
    | inl sends ↦
        let before : is_dispatching row.status ≡ true = c.sends sends in
        rw (c.owner, c.id, c.channel, sends) (ground arith)
  ]

  pub only_others :
      (id : ℕ) (rows : List Dispatch)
      → All (λ row. sends_only account admin_id d row ≡ true) rows
      → any_true (is_busy_with admin_id id) rows ≡ false
      → All (λ row. sends_only account admin_id id row ≡ true) rows
  only_others id [] h free = tt
  only_others id (row ∷ rows) h free =
      (alone row h.0 (ground arith), only_others id rows h.1 (ground arith))
    where
      active : (row : Dispatch) → is_dispatching row.status ≡ true → is_active row.status ≡ true
      active row e = ground arith

      alone :
          (row : Dispatch)
          → sends_only account admin_id d row ≡ true
          → is_busy_with admin_id id row ≡ false
          → sends_only account admin_id id row ≡ true
      alone row h free = elim (Bool-cases (is_dispatching row.status)) [
        | inl e ↦ let a = active row e in ground arith
        | inr e ↦ ground arith
      ]

  pub reserved-only :
      (r : Reservation) (row : Dispatch)
      → r.admin_id ≡ account row.id
      → (r.admin_id == admin_id) ≡ false
      → sends_only account admin_id d row ≡ true
      → sends_only account admin_id d (reserved r row) ≡ true
  reserved-only r row own other h =
      let owned : opt_eq ◌==◌ row.owner_admin_id (some (account row.id)) ≡ true = ground arith in
      let e : (account row.id == admin_id) ≡ false = rw (← own) other in
      let foreign : opt_eq ◌==◌ row.owner_admin_id (some admin_id) ≡ false =
        other_owner row.owner_admin_id (account row.id) owned e in
      rw (owned, foreign) (foreign_free (is_xhs row.channel) _)
    where
      foreign_free : (a c : Bool) → (not (a && false) || c) ≡ true
      foreign_free a c = ground arith

      other_owner :
          (o : Option ℕ) (b : ℕ)
          → opt_eq ◌==◌ o (some b) ≡ true
          → (b == admin_id) ≡ false
          → opt_eq ◌==◌ o (some admin_id) ≡ false
      other_owner none b h e = refl
      other_owner (some a) b h e = ground arith

  pub found_only :
      (i : ℕ) (rows : List Dispatch) (a : Dispatch)
      → find (has_id i) rows ≡ some a
      → sends_for admin_id a ≡ true
      → All (λ row. sends_only account admin_id d row ≡ true) rows
      → i ≡ d
  found_only i rows a there sends h =
      let only : sends_only account admin_id d a ≡ true =
        find-All (λ (row : Dispatch). sends_only account admin_id d row ≡ true) (has_id i) rows a h
          there in
      let same : a.id ≡ i = (==_iff a.id i).0 (find-test (has_id i) rows a there) in
      let its : (a.id == d) ≡ true = ground arith in sym same ∙ (==_iff a.id d).0 its
