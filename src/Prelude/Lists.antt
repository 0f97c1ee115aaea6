-- ===== src/Prelude/Lists.antt =====
-- Lists measured by native numbers, and the queries that the services make of a table of rows.
use Prim.Native.Nat.{ℕ, zero, suc, ◌+◌, ◌-◌, ◌≤◌}
use mathlib.Core.Path.{◌≡◌, refl}
use mathlib.Core.Bool.{Bool, true, false, ◌||◌}
use mathlib.Core.Option.{Option, none, some}
use mathlib.Core.List.{List, [], ◌∷◌, ◌++◌}
use native.Mathlib.Omega.{arith}
use mathlib.Core.Logic.{inl, inr}
use auto_x.Prelude.Tests.{if◌then◌else◌, Bool-cases}

module _ {ℓ} {A : Type ℓ} where
  abbrev pub length : List A → ℕ
  length [] = 0
  length (x ∷ xs) = suc (length xs)

  abbrev pub take : ℕ → List A → List A
  take zero xs = []
  take (suc n) [] = []
  take (suc n) (x ∷ xs) = x ∷ take n xs

  abbrev pub drop : ℕ → List A → List A
  drop zero xs = xs
  drop (suc n) [] = []
  drop (suc n) (x ∷ xs) = drop n xs

  pub length-append : (xs ys : List A) → length (xs ++ ys) ≡ length xs + length ys
  length-append [] ys = omega arith
  length-append (x ∷ xs) ys = omega (arith, length-append xs ys)

  pub length-take-le : (n : ℕ) (xs : List A) → length (take n xs) ≤ n
  length-take-le zero xs = omega arith
  length-take-le (suc n) [] = omega arith
  length-take-le (suc n) (x ∷ xs) = omega (arith, length-take-le n xs)

  pub take-append-drop : (n : ℕ) (xs : List A) → take n xs ++ drop n xs ≡ xs
  take-append-drop zero xs = refl
  take-append-drop (suc n) [] = refl
  take-append-drop (suc n) (x ∷ xs) = rw (take-append-drop n xs)

  pub length-drop : (n : ℕ) (xs : List A) → length (drop n xs) ≡ length xs - n
  length-drop zero xs = omega arith
  length-drop (suc n) [] = omega arith
  length-drop (suc n) (x ∷ xs) = omega (arith, length-drop n xs)

  -- Every item satisfies `P`.
  abbrev pub All {κ} : (A → Type κ) → List A → Type κ
  All P [] = Unit
  All P (x ∷ xs) = P x × All P xs

  pub All-map {κ ι} :
      {P : A → Type κ} {Q : A → Type ι}
      → ((a : A) → P a → Q a)
      → (xs : List A) → All P xs
      → All Q xs
  All-map f [] h = tt
  All-map f (x ∷ xs) h = (f x h.0, All-map f xs h.1)

  -- `[x for x in xs if test(x)]`, and the WHERE clause of a query.
  abbrev pub where_true : (A → Bool) → List A → List A
  where_true p [] = []
  where_true p (x ∷ xs) = let rest = where_true p xs in if p x then x ∷ rest else rest

  abbrev pub any_true : (A → Bool) → List A → Bool
  any_true p [] = false
  any_true p (x ∷ xs) = let rest = any_true p xs in if p x then true else rest

  -- The row that a query by a key returns.
  abbrev pub find : (A → Bool) → List A → Option A
  find p [] = none
  find p (x ∷ xs) = let rest = find p xs in if p x then some x else rest

  -- UPDATE … WHERE: a new value for each row that passes the test.
  abbrev pub update : (A → Bool) → (A → A) → List A → List A
  update p f [] = []
  update p f (x ∷ xs) = (if p x then f x else x) ∷ update p f xs

-- A query by a key after an update that keeps the key of each row it changes.
module _ {ℓ} {A : Type ℓ} (p q : A → Bool) (f : A → A) where
  abbrev pub changed : Option A → Option A
  changed none = none
  changed (some a) = some (if p a then f a else a)

  pub find-update :
      (rows : List A)
      → ((a : A) → p a ≡ true → q (f a) ≡ q a)
      → find q (update p f rows) ≡ changed (find q rows)
  find-update [] keep = refl
  find-update (x ∷ xs) keep = ground (arith, keep x, find-update xs keep)

-- What a query by a key finds passes the test.
module _ {ℓ} {A : Type ℓ} (p : A → Bool) where
  pub find-test : (rows : List A) (a : A) → find p rows ≡ some a → p a ≡ true
  find-test [] a h = cc
  find-test (x ∷ xs) a h = ground (arith, find-test xs a)

  pub find-append :
      (rows : List A) (a : A)
      → find p (rows ++ a ∷ [])
        ≡ (elim (find p rows) [ none ↦ (if p a then some a else none) | some b ↦ some b ])
  find-append [] a = refl
  find-append (x ∷ xs) a = ground (arith, find-append xs a)

  pub any_true-append : (xs ys : List A) → any_true p (xs ++ ys) ≡ (any_true p xs || any_true p ys)
  any_true-append [] ys = refl
  any_true-append (x ∷ xs) ys = ground (arith, any_true-append xs ys)

  pub where_true-All : (rows : List A) → All (λ a. p a ≡ true) (where_true p rows)
  where_true-All [] = tt
  where_true-All (x ∷ xs) = elim (Bool-cases (p x)) [
    | inl e ↦ rw e (e, where_true-All xs)
    | inr e ↦ rw e (where_true-All xs)
  ]

  pub All-where_true {κ} :
      (Q : A → Type κ) (rows : List A)
      → All Q rows
      → All (λ a. Q a × (p a ≡ true)) (where_true p rows)
  All-where_true Q [] h = tt
  All-where_true Q (x ∷ xs) h = elim (Bool-cases (p x)) [
    | inl e ↦ rw e ((h.0, e), All-where_true Q xs h.1)
    | inr e ↦ rw e (All-where_true Q xs h.1)
  ]
