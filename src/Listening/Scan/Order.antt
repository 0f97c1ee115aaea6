-- ===== src/Listening/Scan/Order.antt =====
-- ai_listen_backfill.py: the order of the scan, by instant and id.
use auto_x.Prelude.{
  ℕ, zero, suc, ◌≡◌, refl, ap, ◌∙◌, inl, inr, Bool, true, false, ◌&&◌, some, List, [], ◌∷◌, arith,
  ◌==◌, if◌then◌else◌, Bool-cases, take, drop, All, All-map, where_true, insert_by, order_by,
  order_by-All,
}
use auto_x.Models.{Tweet}
use auto_x.Listening.Scan.{goes_before, after_cursor, last_of}

-- Strictly before, in the order of the scan.
abbrev pub strictly : Tweet → Tweet → Bool
strictly a b = after_cursor (some (a.posted_at, a.id)) b

-- No two rows of the table have one id.
abbrev pub Distinct : List Tweet → Type 0
Distinct [] = Unit
Distinct (t ∷ ts) = All (λ (u : Tweet). (t.id == u.id) ≡ false) ts × Distinct ts

-- Sorted, each row strictly before those that follow.
abbrev pub Ascending : List Tweet → Type 0
Ascending [] = Unit
Ascending (t ∷ ts) = All (λ u. strictly t u ≡ true) ts × Ascending ts

insert-All :
    (P : Tweet → Type 0) (t : Tweet) (ts : List Tweet)
    → P t
    → All P ts
    → All P (insert_by goes_before t ts)
unfolding insert_by
insert-All P t [] h hs = (h, tt)
insert-All P t (u ∷ us) h hs = elim (Bool-cases (goes_before t u)) [
  | inl e ↦ rw e (h, hs)
  | inr e ↦ rw e (hs.0, insert-All P t us h hs.1)
]

strictly_trans : (a b c : Tweet) → strictly a b ≡ true → strictly b c ≡ true → strictly a c ≡ true
unfolding after_cursor
strictly_trans a b c h k = grind arith

goes_before-strictly :
    (a b : Tweet) → goes_before a b ≡ true → (a.id == b.id) ≡ false → strictly a b ≡ true
unfolding goes_before after_cursor
goes_before-strictly a b h d = grind arith

after-strictly : (a b : Tweet) → goes_before a b ≡ false → strictly b a ≡ true
unfolding goes_before after_cursor
after-strictly a b h = grind arith

insert-Ascending :
    (t : Tweet) (ts : List Tweet)
    → All (λ (u : Tweet). (t.id == u.id) ≡ false) ts
    → Ascending ts
    → Ascending (insert_by goes_before t ts)
unfolding insert_by
insert-Ascending t [] d h = (tt, tt)
insert-Ascending t (u ∷ us) d h = elim (Bool-cases (goes_before t u)) [
  | inl e ↦ rw e (
      let first = goes_before-strictly t u e d.0 in
      ((first, All-map (λ v k. strictly_trans t u v first k) us h.0), h))
  | inr e ↦ rw e (
    insert-All (λ v. strictly u v ≡ true) t us (after-strictly t u e) h.0,
    insert-Ascending t us d.1 h.1,
  )
]

order-All : (P : Tweet → Type 0) (ts : List Tweet) → All P ts → All P (order_by goes_before ts)
order-All P ts h = order_by-All goes_before P ts h

pub order-Ascending : (ts : List Tweet) → Distinct ts → Ascending (order_by goes_before ts)
unfolding order_by
order-Ascending [] d = tt
order-Ascending (t ∷ ts) d =
    insert-Ascending t (order_by goes_before ts)
      (order-All (λ (u : Tweet). (t.id == u.id) ≡ false) ts d.0) (order-Ascending ts d.1)

-- A row before all others goes in front.
insert-front :
    (t : Tweet) (ts : List Tweet)
    → All (λ u. goes_before t u ≡ true) ts
    → insert_by goes_before t ts ≡ t ∷ ts
unfolding insert_by
insert-front t [] h = refl
insert-front t (u ∷ us) h = rw h.0 refl

goes_before_trans :
    (a b c : Tweet) → goes_before a b ≡ true → strictly b c ≡ true → goes_before a c ≡ true
unfolding goes_before after_cursor
goes_before_trans a b c h k = grind arith

pub where-All :
    (P : Tweet → Type 0) (p : Tweet → Bool) (ts : List Tweet) → All P ts → All P (where_true p ts)
where-All P p [] h = tt
where-All P p (t ∷ ts) h = elim (Bool-cases (p t)) [
  | inl e ↦ rw e (h.0, where-All P p ts h.1)
  | inr e ↦ rw e (where-All P p ts h.1)
]

pub where-Ascending :
    (p : Tweet → Bool) (ts : List Tweet) → Ascending ts → Ascending (where_true p ts)
where-Ascending p [] h = tt
where-Ascending p (t ∷ ts) h = elim (Bool-cases (p t)) [
  | inl e ↦ rw e (where-All (λ u. strictly t u ≡ true) p ts h.0, where-Ascending p ts h.1)
  | inr e ↦ rw e (where-Ascending p ts h.1)
]

where-insert-front :
    (p : Tweet → Bool) (t : Tweet) (ts : List Tweet)
    → All (λ u. goes_before t u ≡ true) ts
    → where_true p (t ∷ ts)
      ≡ (if p t then insert_by goes_before t (where_true p ts) else where_true p ts)
where-insert-front p t ts h =
    rw (insert-front t (where_true p ts) (where-All (λ u. goes_before t u ≡ true) p ts h)) refl

insert-later :
    (t u : Tweet) (us : List Tweet)
    → goes_before t u ≡ false
    → insert_by goes_before t (u ∷ us) ≡ u ∷ insert_by goes_before t us
unfolding insert_by
insert-later t u us h = rw h refl

-- The two cases of a row that does not go to the front: the row before it is kept or left out.
where-insert-later :
    (p : Tweet → Bool) (t u : Tweet) (us : List Tweet)
    → goes_before t u ≡ false
    → where_true p (insert_by goes_before t us)
      ≡ (if p t then insert_by goes_before t (where_true p us) else where_true p us)
    → where_true p (u ∷ insert_by goes_before t us)
      ≡ (if p t then insert_by goes_before t (where_true p (u ∷ us)) else where_true p (u ∷ us))
where-insert-later p t u us h ih = elim (Bool-cases (p u)) [
  | inl keep ↦ elim (Bool-cases (p t)) [
    | inl e ↦ rw (keep, ih, e, insert-later t u (where_true p us) h) refl
    | inr e ↦ rw (keep, ih, e) refl
  ]
  | inr drop_it ↦ rw (drop_it, ih) refl
]

first-goes_before :
    (t u : Tweet) (us : List Tweet)
    → goes_before t u ≡ true
    → Ascending (u ∷ us)
    → All (λ v. goes_before t v ≡ true) (u ∷ us)
first-goes_before t u us e h = (e, All-map (λ v k. goes_before_trans t u v e k) us h.0)

where-insert :
    (p : Tweet → Bool) (t : Tweet) (ts : List Tweet)
    → Ascending ts
    → where_true p (insert_by goes_before t ts)
      ≡ (if p t then insert_by goes_before t (where_true p ts) else where_true p ts)
where-insert p t [] h = unfold insert_by in refl
where-insert p t (u ∷ us) h = elim (Bool-cases (goes_before t u)) [
  | inl e ↦
      let front = first-goes_before t u us e h in
      ap (where_true p) (insert-front t (u ∷ us) front) ∙ where-insert-front p t (u ∷ us) front
  | inr e ↦
      ap (where_true p) (insert-later t u us e)
      ∙ where-insert-later p t u us e (where-insert p t us h.1)
]

-- Sorting and filtering commute.
pub where-order :
    (p : Tweet → Bool) (ts : List Tweet)
    → Distinct ts
    → where_true p (order_by goes_before ts) ≡ order_by goes_before (where_true p ts)
unfolding order_by
where-order p [] d = refl
where-order p (t ∷ ts) d =
    let moved = where-insert p t (order_by goes_before ts) (order-Ascending ts d.1) in
    let ih = where-order p ts d.1 in
    elim (Bool-cases (p t)) [
      | inl e ↦ rw e (moved ∙ rw e (ap (insert_by goes_before t) ih))
      | inr e ↦ rw e (moved ∙ rw e ih)
    ]

pub where-both :
    (p q r : Tweet → Bool) (ts : List Tweet)
    → ((t : Tweet) → p t ≡ (q t && r t))
    → where_true p ts ≡ where_true r (where_true q ts)
where-both p q r [] h = refl
where-both p q r (t ∷ ts) h = elim (Bool-cases (q t)) [
  | inl e ↦ rw (h t, e, where-both p q r ts h) refl
  | inr e ↦ rw (h t, e, where-both p q r ts h) refl
]

pub last-All :
    (P : Tweet → Type 0) (n : ℕ) (t : Tweet) (ts : List Tweet)
    → P t
    → All P ts
    → P (last_of t (take n ts))
last-All P zero t ts h hs = h
last-All P (suc n) t [] h hs = h
last-All P (suc n) t (u ∷ us) h hs = last-All P n u us hs.0 hs.1

keeps_everything :
    (p : Tweet → Bool) (ts : List Tweet) → All (λ t. p t ≡ true) ts → where_true p ts ≡ ts
keeps_everything p [] h = refl
keeps_everything p (t ∷ ts) h = rw (h.0, keeps_everything p ts h.1) refl

strictly_irrefl : (a : Tweet) → strictly a a ≡ false
unfolding after_cursor
strictly_irrefl a = grind arith

strictly_asymm : (a b : Tweet) → strictly a b ≡ true → strictly b a ≡ false
unfolding after_cursor
strictly_asymm a b h = grind arith

-- Of an ascending list, the rows after the last one of a prefix are those that the prefix leaves.
pub where-last :
    (n : ℕ) (t : Tweet) (ts : List Tweet)
    → Ascending (t ∷ ts)
    → where_true (strictly (last_of t (take n ts))) (t ∷ ts) ≡ drop n ts
where-last zero t ts h = rw (strictly_irrefl t) (keeps_everything (strictly t) ts h.0)
where-last (suc n) t [] h = rw (strictly_irrefl t) refl
where-last (suc n) t (u ∷ us) h =
    rw
      (strictly_asymm t (last_of u (take n us))
        (last-All (λ v. strictly t v ≡ true) n u us h.0.0 h.0.1))
      (where-last n u us h.1)
