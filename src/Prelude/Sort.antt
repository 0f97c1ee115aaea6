-- ===== src/Prelude/Sort.antt =====
-- ORDER BY: a stable insertion sort by a test "the first row stays before the second".
use Prim.Native.Nat.{ℕ, zero, suc}
use mathlib.Core.Path.{◌≡◌, refl, ap, ◌∙◌}
use mathlib.Core.Bool.{Bool, true, false}
use mathlib.Core.List.{List, [], ◌∷◌}
use mathlib.Core.Logic.{inl, inr}
use native.Mathlib.Omega.{arith}
use auto_x.Prelude.Tests.{if◌then◌else◌, Bool-cases}
use auto_x.Prelude.Lists.{any_true, length, All, All-map, take, drop}

module _ {ℓ} {A : Type ℓ} (before : A → A → Bool) where
  unfoldable pub insert_by : A → List A → List A
  insert_by a [] = a ∷ []
  insert_by a (x ∷ xs) = let rest = insert_by a xs in if before a x then a ∷ x ∷ xs else x ∷ rest

  unfoldable pub order_by : List A → List A
  unfolding insert_by
  order_by [] = []
  order_by (x ∷ xs) = insert_by x (order_by xs)

  insert_by-All {κ} :
      (P : A → Type κ) (a : A) (xs : List A) → P a → All P xs → All P (insert_by a xs)
  unfolding insert_by
  insert_by-All P a [] h hs = (h, tt)
  insert_by-All P a (x ∷ xs) h hs = elim (Bool-cases (before a x)) [
    | inl e ↦ rw e (h, hs)
    | inr e ↦ rw e (hs.0, insert_by-All P a xs h hs.1)
  ]

  pub order_by-All {κ} : (P : A → Type κ) (xs : List A) → All P xs → All P (order_by xs)
  unfolding order_by
  order_by-All P [] h = tt
  order_by-All P (x ∷ xs) h = insert_by-All P x (order_by xs) h.0 (order_by-All P xs h.1)

  length-insert_by : (a : A) (xs : List A) → length (insert_by a xs) ≡ suc (length xs)
  unfolding insert_by
  length-insert_by a [] = refl
  length-insert_by a (x ∷ xs) = ground (arith, length-insert_by a xs)

  pub length-order_by : (xs : List A) → length (order_by xs) ≡ length xs
  unfolding order_by
  length-order_by [] = refl
  length-order_by (x ∷ xs) = length-insert_by x (order_by xs) ∙ ap suc (length-order_by xs)

pub take-All {ℓ κ} :
    {A : Type ℓ} (P : A → Type κ) (n : ℕ) (xs : List A) → All P xs → All P (take n xs)
take-All P zero xs h = tt
take-All P (suc n) [] h = tt
take-All P (suc n) (x ∷ xs) h = (h.0, take-All P n xs h.1)

-- With a test that is a total preorder the result is sorted, and what a LIMIT keeps goes before
-- what it leaves out.
module _ {ℓ} {A : Type ℓ} (before : A → A → Bool) where
  abbrev pub IsSorted : List A → Type 0
  IsSorted [] = Unit
  IsSorted (x ∷ xs) = All (λ y. before x y ≡ true) xs × IsSorted xs

  module _ (total : (a b : A) → before a b ≡ false → before b a ≡ true)
      (trans : (a b c : A) → before a b ≡ true → before b c ≡ true → before a c ≡ true) where
    insert_by-IsSorted : (a : A) (xs : List A) → IsSorted xs → IsSorted (insert_by before a xs)
    unfolding insert_by
    insert_by-IsSorted a [] h = (tt, tt)
    insert_by-IsSorted a (x ∷ xs) h = elim (Bool-cases (before a x)) [
      | inl e ↦ rw e ((e, All-map (λ y k. trans a x y e k) xs h.0), h)
      | inr e ↦ rw e (
        insert_by-All before (λ y. before x y ≡ true) a xs (total a x e) h.0,
        insert_by-IsSorted a xs h.1,
      )
    ]

    pub order_by-IsSorted : (xs : List A) → IsSorted (order_by before xs)
    unfolding order_by
    order_by-IsSorted [] = tt
    order_by-IsSorted (x ∷ xs) = insert_by-IsSorted x (order_by before xs) (order_by-IsSorted xs)

  drop-All {κ} : (P : A → Type κ) (n : ℕ) (xs : List A) → All P xs → All P (drop n xs)
  drop-All P zero xs h = h
  drop-All P (suc n) [] h = tt
  drop-All P (suc n) (x ∷ xs) h = drop-All P n xs h.1

  pub IsSorted-limit :
      (n : ℕ) (xs : List A)
      → IsSorted xs
      → All (λ u. All (λ v. before u v ≡ true) (drop n xs)) (take n xs)
  IsSorted-limit zero xs h = tt
  IsSorted-limit (suc n) [] h = tt
  IsSorted-limit (suc n) (x ∷ xs) h =
      (drop-All (λ v. before x v ≡ true) n xs h.0, IsSorted-limit n xs h.1)

  any_true-insert_by :
      (p : A → Bool) (a : A) (xs : List A)
      → any_true p (insert_by before a xs) ≡ any_true p (a ∷ xs)
  unfolding insert_by
  any_true-insert_by p a [] = refl
  any_true-insert_by p a (x ∷ xs) = ground (arith, any_true-insert_by p a xs)

  pub any_true-order_by :
      (p : A → Bool) (xs : List A) → any_true p (order_by before xs) ≡ any_true p xs
  unfolding order_by
  any_true-order_by p [] = refl
  any_true-order_by p (x ∷ xs) =
      any_true-insert_by p x (order_by before xs) ∙ ground (arith, any_true-order_by p xs)
