-- ===== src/Prelude/Every.antt =====
-- What holds of every row of a table: after an insertion, after an update, and of what a query finds.
use mathlib.Core.Path.{◌≡◌, ap, subst}
use mathlib.Core.Bool.{Bool, true}
use mathlib.Core.Option.{Option, none, some}
use mathlib.Core.List.{List, [], ◌∷◌, ◌++◌, Mem, mem-cons_self, mem-cons_of_mem}
use mathlib.Core.Logic.{inl, inr}
use auto_x.Prelude.Tests.{Bool-cases}
use auto_x.Prelude.Lists.{All, All-map, find, update}

module _ {ℓ} {A : Type ℓ} where
  pub All-snoc {κ} : (P : A → Type κ) (xs : List A) (a : A) → All P xs → P a → All P (xs ++ a ∷ [])
  All-snoc P [] a h k = (k, tt)
  All-snoc P (x ∷ xs) a h k = (h.0, All-snoc P xs a h.1 k)

  pub All-update {κ} :
      (P : A → Type κ) (p : A → Bool) (f : A → A) (xs : List A)
      → ((a : A) → P a → p a ≡ true → P (f a))
      → All P xs
      → All P (update p f xs)
  All-update P p f [] h k = tt
  All-update P p f (x ∷ xs) h k = elim (Bool-cases (p x)) [
    | inl e ↦ rw e (h x k.0 e, All-update P p f xs h k.1)
    | inr e ↦ rw e (k.0, All-update P p f xs h k.1)
  ]

  pub find-All {κ} :
      (P : A → Type κ) (p : A → Bool) (xs : List A) (a : A) → All P xs → find p xs ≡ some a → P a
  find-All P p [] a h e = absurd (nothing a e)
    where
      nothing : (a : A) → ◌≡◌ {A = Option A} none (some a) → ⊥
      nothing a e = cc
  find-All P p (x ∷ xs) a h e = elim (Bool-cases (p x)) [
    | inl t ↦ subst P (same x a (rw t at e)) h.0
    | inr f ↦ find-All P p xs a h.1 (rw f at e)
  ]
    where
      or_self : A → Option A → A
      or_self a none = a
      or_self a (some b) = b

      same : (a b : A) → ◌≡◌ {A = Option A} (some a) (some b) → a ≡ b
      same a b e = ap (or_self a) e

  -- Each row of a table is one of its rows.
  pub All-Mem : (xs : List A) → All (λ a. Mem a xs) xs
  All-Mem [] = tt
  All-Mem (x ∷ xs) = (mem-cons_self, All-map (λ a m. mem-cons_of_mem x m) xs (All-Mem xs))
