-- ===== src/Prelude/Written.antt =====
-- A row that is written over the ones with its key.
use mathlib.Core.Path.{◌≡◌, refl, ap}
use mathlib.Core.Bool.{Bool, true}
use mathlib.Core.Option.{Option, none, some}
use mathlib.Core.List.{List, [], ◌∷◌}
use mathlib.Core.Logic.{inl, inr}
use auto_x.Prelude.Tests.{Bool-cases}
use auto_x.Prelude.Lists.{find, update}

module _ {ℓ} {A : Type ℓ} (p q : A → Bool) (new : A) where
  -- A row that passes the query's test is written over the one that the query found.
  pub find-written :
      (rows : List A) (row : A)
      → find q rows ≡ some row
      → p row ≡ true
      → q new ≡ true
      → find q (update p (λ _. new) rows) ≡ some new
  find-written [] row found its passes = absurd (nothing row found)
    where
      nothing : (a : A) → ◌≡◌ {A = Option A} none (some a) → ⊥
      nothing a e = cc
  find-written (x ∷ rows) row found its passes = elim (Bool-cases (q x)) [
    | inl e ↦ let same : x ≡ row = ap (or_self x) (rw e at found) in rw (same, its, passes) refl
    | inr e ↦ elim (Bool-cases (p x)) [
      | inl t ↦ rw (t, passes) refl
      | inr f ↦ rw (f, e) (find-written rows row (rw e at found) its passes)
    ]
  ]
    where
      or_self : A → Option A → A
      or_self a none = a
      or_self a (some b) = b

module _ {ℓ} {A : Type ℓ} (p : A → Bool) (new : A) where
  pub update-twice :
      (rows : List A) → update p (λ _. new) (update p (λ _. new) rows) ≡ update p (λ _. new) rows
  update-twice [] = refl
  update-twice (x ∷ rows) = elim (Bool-cases (p x)) [
    | inl e ↦ elim (Bool-cases (p new)) [
      | inl t ↦ rw (e, t, update-twice rows) refl
      | inr f ↦ rw (e, f, update-twice rows) refl
    ]
    | inr e ↦ rw (e, e, update-twice rows) refl
  ]
