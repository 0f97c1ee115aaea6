-- ===== src/Listening/Scan/Batches.antt =====
-- ai_listen_backfill.py: the batches of a backfill, one after the other.
use auto_x.Prelude.{
  ℕ, zero, suc, ◌<◌, ◌≡◌, refl, sym, ap, ◌∙◌, subst, inl, inr, Bool, true, false, ◌&&◌, Option,
  none, some, List, [], ◌∷◌, ◌++◌, arith, ◌==◌, Bool-cases, &&-right, length, take, drop, All,
  All-map, where_true, where_true-All, Instant, order_by, order_by-All,
}
use auto_x.Models.{Tweet}
use auto_x.Listening.{Backfill}
use auto_x.Listening.Scan.{
  goes_before, cursor_of, after_cursor, in_scope, next_rows, last_of, advanced,
}
use auto_x.Listening.Scan.Order.{
  strictly, Distinct, Ascending, order-Ascending, where-order, where-both, where-All, where-last,
  last-All,
}

-- The posts that the backfill has still to scan, in the order of the scan.
abbrev pub is_left : Backfill → Tweet → Bool
is_left backfill tweet = in_scope backfill tweet && after_cursor (cursor_of backfill) tweet

abbrev pub remaining : Backfill → List Tweet → List Tweet
remaining backfill tweets = order_by goes_before (where_true (is_left backfill) tweets)

-- The posts that one batch after the other scans, with what each of them enqueued and when it ran.
unfoldable pub scan_batches : ℕ → List (ℕ × Instant) → Backfill → List Tweet → List Tweet
scan_batches batch_size [] backfill tweets = []
scan_batches batch_size ((inserted, now) ∷ rounds) backfill tweets =
    elim (next_rows batch_size backfill tweets) [
      | [] ↦ []
      | first ∷ rest ↦
          (first ∷ rest)
          ++ scan_batches batch_size rounds (advanced batch_size first rest inserted now backfill)
              tweets
    ]

Distinct-where : (p : Tweet → Bool) (ts : List Tweet) → Distinct ts → Distinct (where_true p ts)
Distinct-where p [] d = tt
Distinct-where p (t ∷ ts) d = elim (Bool-cases (p t)) [
  | inl e ↦
      rw e (where-All (λ (u : Tweet). (t.id == u.id) ≡ false) p ts d.0, Distinct-where p ts d.1)
  | inr e ↦ rw e (Distinct-where p ts d.1)
]

-- The last row of a list, with a value for the empty one.
abbrev last_or : Tweet → List Tweet → Tweet
last_or t [] = t
last_or t (first ∷ rest) = last_of first rest

cut_last :
    (n : ℕ) (ts : List Tweet) (first : Tweet) (rest : List Tweet)
    → Ascending ts
    → take n ts ≡ first ∷ rest
    → where_true (strictly (last_of first rest)) ts ≡ drop n ts
cut_last zero ts first rest h e = absurd cc
cut_last (suc n) [] first rest h e = absurd cc
cut_last (suc n) (t ∷ ts) first rest h e =
    subst (λ last. where_true (strictly last) (t ∷ ts) ≡ drop n ts) (ap (last_or t) e)
      (where-last n t ts h)

last_kept :
    (P : Tweet → Type 0) (n : ℕ) (ts : List Tweet) (first : Tweet) (rest : List Tweet)
    → All P ts
    → take n ts ≡ first ∷ rest
    → P (last_of first rest)
last_kept P zero ts first rest h e = absurd cc
last_kept P (suc n) [] first rest h e = absurd cc
last_kept P (suc n) (t ∷ ts) first rest h e = subst P (ap (last_or t) e) (last-All P n t ts h.0 h.1)

after_cursor_last :
    (c : Option (Instant × ℕ)) (last t : Tweet)
    → after_cursor c last ≡ true
    → strictly last t ≡ (after_cursor c t && strictly last t)
unfolding after_cursor
after_cursor_last none last t h = refl
after_cursor_last (some c) last t h = grind arith

is_left-advanced :
    (n : ℕ) (first : Tweet) (rest : List Tweet) (inserted : ℕ) (now : Instant) (backfill : Backfill)
    (t : Tweet)
    → after_cursor (cursor_of backfill) (last_of first rest) ≡ true
    → is_left (advanced n first rest inserted now backfill) t
      ≡ (is_left backfill t && strictly (last_of first rest) t)
unfolding advanced in_scope
is_left-advanced n first rest inserted now backfill t h =
    ground (arith, after_cursor_last (cursor_of backfill) (last_of first rest) t h)

remaining-after :
    (backfill : Backfill) (tweets : List Tweet)
    → All (λ t. after_cursor (cursor_of backfill) t ≡ true) (remaining backfill tweets)
remaining-after backfill tweets =
    order_by-All goes_before (λ t. after_cursor (cursor_of backfill) t ≡ true)
      (where_true (is_left backfill) tweets)
      (All-map (λ t k. &&-right (in_scope backfill t) (after_cursor (cursor_of backfill) t) k)
        (where_true (is_left backfill) tweets) (where_true-All (is_left backfill) tweets))

-- A batch scans the first of the remaining posts and leaves the others.
pub remaining-advanced :
    (n : ℕ) (first : Tweet) (rest : List Tweet) (inserted : ℕ) (now : Instant) (backfill : Backfill)
    (tweets : List Tweet)
    → Distinct tweets
    → take n (remaining backfill tweets) ≡ first ∷ rest
    → remaining (advanced n first rest inserted now backfill) tweets
      ≡ drop n (remaining backfill tweets)
remaining-advanced n first rest inserted now backfill tweets d e =
    let last = last_of first rest in
    let left = where_true (is_left backfill) tweets in
    let distinct = Distinct-where (is_left backfill) tweets d in
    let after =
      last_kept (λ t. after_cursor (cursor_of backfill) t ≡ true) n (remaining backfill tweets)
        first rest (remaining-after backfill tweets) e in
    ap (order_by goes_before) (
      where-both (is_left (advanced n first rest inserted now backfill)) (is_left backfill)
        (strictly last) tweets (λ t. is_left-advanced n first rest inserted now backfill t after))
    ∙ sym (where-order (strictly last) left distinct)
    ∙ cut_last n (remaining backfill tweets) first rest (order-Ascending left distinct) e

pub take_none : (n : ℕ) (ts : List Tweet) → 0 < n → take n ts ≡ [] → ts ≡ []
take_none zero ts h e = absurd (omega arith)
take_none (suc n) [] h e = refl
take_none (suc n) (t ∷ ts) h e = absurd cc

pub take_short : (n : ℕ) (ts : List Tweet) → (length (take n ts) == n) ≡ false → drop n ts ≡ []
take_short zero ts h = absurd cc
take_short (suc n) [] h = refl
take_short (suc n) (t ∷ ts) h = take_short n ts (ground arith)
