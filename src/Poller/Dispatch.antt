-- ===== src/Poller/Dispatch.antt =====
-- backend/app/worker.py: the accounts that `run_once` polls.
use auto_x.Prelude.{
  ℕ, zero, suc, ◌+◌, ◌≤◌, ◌≡◌, refl, sym, ap, ◌∙◌, inl, inr, Bool, true, false, not, ◌&&◌, ◌||◌,
  Option, none, some, List, [], ◌∷◌, map, arith, ltb, leb, if◌then◌else◌, leb→le, Bool-cases,
  is_some, length, take, drop, length-take-le, All, All-map, where_true, where_true-All, Instant,
  insert_by, order_by, order_by-All, take-All, order_by-IsSorted, IsSorted-limit,
}
use auto_x.Models.{MonitoredUser}

-- `next_poll_at IS NULL OR next_poll_at <= now`
abbrev pub never_or_due : Instant → Option Instant → Bool
never_or_due now none = true
never_or_due now (some t) = leb t now

unfoldable pub is_due : Instant → MonitoredUser → Bool
is_due now user =
    user.is_active && (is_some user.manual_poll_token || never_or_due now user.next_poll_at)

-- `next_poll_at ASC`, where PostgreSQL puts NULL last.
abbrev pub null_last_le : Option Instant → Option Instant → Bool
null_last_le none none = true
null_last_le none (some b) = false
null_last_le (some a) none = true
null_last_le (some a) (some b) = leb a b

-- Requested polls first, then the earliest deadline.
unfoldable pub due_before : MonitoredUser → MonitoredUser → Bool
due_before a b =
    if is_some a.manual_poll_token
    then if is_some b.manual_poll_token then null_last_le a.next_poll_at b.next_poll_at else true
    else if is_some b.manual_poll_token
    then false
    else null_last_le a.next_poll_at b.next_poll_at

unfoldable pub due_queue : Instant → List MonitoredUser → List MonitoredUser
due_queue now users = order_by due_before (where_true (is_due now) users)

-- The ids of one scan; an active gate of the X API (`gate`) stops the dispatch.
unfoldable pub run_once : Bool → Instant → ℕ → List MonitoredUser → List ℕ
unfolding due_queue
run_once gate now batch_size users =
    if gate then [] else map (λ (u : MonitoredUser). u.id) (take batch_size (due_queue now users))

due_before_total : (a b : MonitoredUser) → due_before a b ≡ false → due_before b a ≡ true
unfolding due_before
due_before_total a b h = ground arith

due_before_trans :
    (a b c : MonitoredUser) → due_before a b ≡ true → due_before b c ≡ true → due_before a c ≡ true
unfolding due_before
due_before_trans a b c h k = ground arith

-- Whether an account is to be polled now: it is active, and a poll of it was requested, or it was
-- never planned, or its instant has come.
abbrev pub waits_now : Instant → MonitoredUser → Bool
waits_now now user = elim user.is_active [
  | false ↦ false
  | true ↦ elim user.manual_poll_token [
    | some token ↦ true
    | none ↦ elim user.next_poll_at [ none ↦ true | some t ↦ not (ltb now t) ]
  ]
]

-- The account `u` is polled before `v`: a requested poll before a planned one, and of two of a kind
-- the one whose instant is earlier, with those that have none at the end.
pub record IsBefore (u v : MonitoredUser) : Type 0 where
  pub requested : is_some v.manual_poll_token ≡ true → is_some u.manual_poll_token ≡ true
  pub earlier :
      is_some u.manual_poll_token ≡ is_some v.manual_poll_token
      → (t : Instant) → v.next_poll_at ≡ some t
      → (s : Instant) × (u.next_poll_at ≡ some s) × (s ≤ t)

IsBefore-due_before : (u v : MonitoredUser) → due_before u v ≡ true → IsBefore u v
unfolding due_before
IsBefore-due_before u v h = record {
  requested = λ k. ground arith;
  earlier = λ same t e. deadline u.next_poll_at v.next_poll_at (ground arith) t e;
}
  where
    or_zero : Option ℕ → ℕ
    or_zero none = 0
    or_zero (some t) = t

    deadline :
        (a b : Option Instant)
        → null_last_le a b ≡ true
        → (t : Instant) → b ≡ some t
        → (s : Instant) × (a ≡ some s) × (s ≤ t)
    deadline none none h t e = absurd (nothing t e)
      where
        nothing : (t : ℕ) → ◌≡◌ {A = Option ℕ} none (some t) → ⊥
        nothing t e = cc
    deadline none (some b) h t e = absurd cc
    deadline (some a) none h t e = absurd (nothing t e)
      where
        nothing : (t : ℕ) → ◌≡◌ {A = Option ℕ} none (some t) → ⊥
        nothing t e = cc
    deadline (some a) (some b) h t e =
        let same : b ≡ t = ap or_zero e in (a, refl, omega (arith, leb→le a b h))

is_due-waits_now : (now : Instant) (user : MonitoredUser) → is_due now user ≡ waits_now now user
unfolding is_due
is_due-waits_now now user = ground arith

-- How many rows pass a test.
abbrev pub count : (MonitoredUser → Bool) → List MonitoredUser → ℕ
count p rows = length (where_true p rows)

count-insert :
    (p : MonitoredUser → Bool) (a : MonitoredUser) (rows : List MonitoredUser)
    → count p (insert_by due_before a rows) ≡ count p (a ∷ rows)
unfolding insert_by
count-insert p a [] = refl
count-insert p a (x ∷ rows) = ground (arith, count-insert p a rows)

count-queue :
    (now : Instant) (p : MonitoredUser → Bool) (users : List MonitoredUser)
    → count p (due_queue now users) ≡ count (λ u. p u && waits_now now u) users
unfolding due_queue order_by
count-queue now p [] = refl
count-queue now p (u ∷ users) = elim (Bool-cases (is_due now u)) [
  | inl e ↦
      let w : waits_now now u ≡ true = sym (is_due-waits_now now u) ∙ e in
      rw (e, w) (count-insert p u (due_queue now users) ∙ head (count-queue now p users))
  | inr e ↦
      let w : waits_now now u ≡ false = sym (is_due-waits_now now u) ∙ e in
      rw (e, w) (skip (count-queue now p users))
]
  where
    head :
        count p (due_queue now users) ≡ count (λ v. p v && waits_now now v) users
        → count p (u ∷ due_queue now users)
          ≡ length (
              if p u && true
              then u ∷ where_true (λ v. p v && waits_now now v) users
              else where_true (λ v. p v && waits_now now v) users)
    head h = elim (Bool-cases (p u)) [ inl t ↦ rw t (ap suc h) | inr f ↦ rw f h ]

    skip :
        count p (due_queue now users) ≡ count (λ v. p v && waits_now now v) users
        → count p (due_queue now users)
          ≡ length (
              if p u && false
              then u ∷ where_true (λ v. p v && waits_now now v) users
              else where_true (λ v. p v && waits_now now v) users)
    skip h = elim (Bool-cases (p u)) [ inl t ↦ rw t h | inr f ↦ rw f h ]

count-limit :
    (p : MonitoredUser → Bool) (n : ℕ) (rows : List MonitoredUser)
    → count p (take n rows) + count p (drop n rows) ≡ count p rows
count-limit p zero rows = omega arith
count-limit p (suc n) [] = refl
count-limit p (suc n) (x ∷ rows) = ground (arith, count-limit p n rows)

-- A scan takes at most `batch_size` accounts and leaves the others that are to be polled for a later
-- one: of those for which any test `p` holds, as many are taken or left as there are in the table.
-- Each one that is taken is to be polled, and goes before every one that is left.
pub run_once_fair :
    (now : Instant) (batch_size : ℕ) (users : List MonitoredUser) (p : MonitoredUser → Bool)
    → let taken = take batch_size (due_queue now users) in
      let left = drop batch_size (due_queue now users) in
      (run_once false now batch_size users ≡ map (λ (u : MonitoredUser). u.id) taken)
      × (length taken ≤ batch_size)
      × (count p taken + count p left ≡ count (λ u. p u && waits_now now u) users)
      × All (λ u. waits_now now u ≡ true) taken
      × All (λ u. All (IsBefore u) left) taken
unfolding run_once due_queue
run_once_fair now batch_size users p = (
  refl,
  length-take-le batch_size _,
  count-limit p batch_size (due_queue now users) ∙ count-queue now p users,
  take-All _ batch_size _ (
      order_by-All due_before _ _
        (All-map (λ u h. sym (is_due-waits_now now u) ∙ h) _ (where_true-All (is_due now) users))),
  All-map (λ u h. All-map (λ v e. IsBefore-due_before u v e) _ h) _
      (IsSorted-limit due_before batch_size _
        (order_by-IsSorted due_before due_before_total due_before_trans _)),
)
