-- ===== src/Listening/Scan/Complete.antt =====
-- ai_listen_backfill.py: what the batches of a backfill scan in all.
use auto_x.Prelude.{
  ℕ, suc, ◌≤◌, ◌<◌, String, ◌≡◌, refl, sym, ap, ◌∙◌, subst, ◌⊎◌, inl, inr, Bool, true, false, List,
  [], ◌∷◌, ◌++◌, arith, ◌==◌, if◌then◌else◌, length, take, drop, take-append-drop, length-drop,
  Instant,
}
use auto_x.Models.{Tweet}
use auto_x.Listening.{Backfill}
use auto_x.Listening.Scan.{next_rows, advanced}
use auto_x.Listening.Scan.Order.{Distinct}
use auto_x.Listening.Scan.Batches.{
  remaining, remaining-advanced, scan_batches, take_none, take_short,
}

List-cases : (ts : List Tweet) → (ts ≡ []) ⊎ ((t : Tweet) × (us : List Tweet) × (ts ≡ t ∷ us))
List-cases [] = inl refl
List-cases (t ∷ us) = inr (t, us, refl)

next_rows-take :
    (n : ℕ) (backfill : Backfill) (tweets : List Tweet)
    → next_rows n backfill tweets ≡ take n (remaining backfill tweets)
unfolding next_rows
next_rows-take n backfill tweets = refl

shorter : (n k : ℕ) (ts : List Tweet) → 0 < n → length ts ≤ suc k → length (drop n ts) ≤ k
shorter n k ts h l = omega (arith, length-drop n ts)

empty_is_nil : (ts : List Tweet) → length ts ≤ 0 → ts ≡ []
empty_is_nil [] h = refl
empty_is_nil (t ∷ ts) h = absurd (omega arith)

-- A table of posts that stays the same, with no id twice: batches of any size but 0, as many as
-- there are posts left, scan the posts in the backfill's window, accounts and types that its cursor
-- has not passed, each once, ordered by instant and id.
pub scan_complete :
    (batch_size : ℕ) (rounds : List (ℕ × Instant)) (backfill : Backfill) (tweets : List Tweet)
    → 0 < batch_size
    → Distinct tweets
    → length (remaining backfill tweets) ≤ length rounds
    → scan_batches batch_size rounds backfill tweets ≡ remaining backfill tweets
unfolding scan_batches
scan_complete n [] backfill tweets h d l = sym (empty_is_nil (remaining backfill tweets) l)
scan_complete n ((inserted, now) ∷ rounds) backfill tweets h d l =
    elim (List-cases (next_rows n backfill tweets)) [
      | inl e ↦
          rw (e, scan_batches)
            (sym (
              take_none n (remaining backfill tweets) h
                (sym (next_rows-take n backfill tweets) ∙ e)))
      | inr (first, rest, e) ↦
          let left = remaining backfill tweets in
          let taken = sym (next_rows-take n backfill tweets) ∙ e in
          let next = advanced n first rest inserted now backfill in
          let rest_left = remaining-advanced n first rest inserted now backfill tweets d taken in
          rw (e, scan_batches)
            (ap (λ ts. (first ∷ rest) ++ ts)
                (scan_complete n rounds next tweets h d (
                    subst (λ ts. length ts ≤ length rounds) (sym rest_left)
                      (shorter n (length rounds) left h l))
                  ∙ rest_left)
              ∙ ap (λ ts. ts ++ drop n left) (sym taken)
              ∙ take-append-drop n left)
    ]

status_test :
    (b : Bool) → ◌≡◌ {A = String} (if b then "running" else "completed") "completed" → b ≡ false
status_test true s = cc
status_test false s = refl

completed-length :
    (n : ℕ) (first : Tweet) (rest : List Tweet) (inserted : ℕ) (now : Instant) (backfill : Backfill)
    → (advanced n first rest inserted now backfill).status ≡ "completed"
    → (length (first ∷ rest) == n) ≡ false
unfolding advanced
completed-length n first rest inserted now backfill s = status_test (length (first ∷ rest) == n) s

-- A backfill that a batch marks as completed has no post left to scan: no post of the table is in
-- its window, accounts and types and after its cursor.
pub completed_is_done :
    (batch_size : ℕ) (first : Tweet) (rest : List Tweet) (inserted : ℕ) (now : Instant)
    (backfill : Backfill) (tweets : List Tweet)
    → Distinct tweets
    → next_rows batch_size backfill tweets ≡ first ∷ rest
    → (advanced batch_size first rest inserted now backfill).status ≡ "completed"
    → remaining (advanced batch_size first rest inserted now backfill) tweets ≡ []
completed_is_done n first rest inserted now backfill tweets d e s =
    let taken = sym (next_rows-take n backfill tweets) ∙ e in
    remaining-advanced n first rest inserted now backfill tweets d taken
    ∙ take_short n (remaining backfill tweets) (
        subst (λ ts. (length ts == n) ≡ false) (sym taken)
          (completed-length n first rest inserted now backfill s))
