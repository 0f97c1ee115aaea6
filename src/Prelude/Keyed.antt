-- ===== src/Prelude/Keyed.antt =====
-- Tables with a primary key: a query by the key and further conditions, and what keeps keys unique.
use mathlib.Core.Path.{◌≡◌, refl, sym, ap, ◌∙◌}
use mathlib.Core.Bool.{Bool, true, false, ◌&&◌}
use mathlib.Core.Option.{Option, none, some}
use mathlib.Core.List.{List, [], ◌∷◌, ◌++◌}
use mathlib.Core.Logic.{inl, inr}
use Prim.Native.String.{String}
use native.Mathlib.Omega.{arith}
use text.Mathlib.Text.{◌==◌ as str_eq}
use text.Mathlib.TextEquality.{eq_iff}
use auto_x.Prelude.Tests.{if◌then◌else◌, Bool-cases, clash, &&-left, &&-right, str_eq_refl, is_some}
use auto_x.Prelude.Lists.{find, any_true, where_true, update}

-- The row if it passes a further condition.
abbrev pub keep_if {ℓ} : {A : Type ℓ} → (A → Bool) → Option A → Option A
keep_if p none = none
keep_if p (some a) = if p a then some a else none

module _ {ℓ} {A : Type ℓ} (key : A → String) where
  abbrev pub by_key : String → A → Bool
  by_key k a = str_eq (key a) k

  abbrev pub has_key_in : List A → String → Bool
  has_key_in rows k = any_true (by_key k) rows

  abbrev pub IsKeyed : List A → Type 0
  IsKeyed [] = Unit
  IsKeyed (a ∷ rows) = (has_key_in rows (key a) ≡ false) × IsKeyed rows

  pub find_absent :
      (rows : List A) (k : String) → has_key_in rows k ≡ false → find (by_key k) rows ≡ none
  find_absent [] k h = refl
  find_absent (a ∷ rows) k h = ground (arith, find_absent rows k)

  find-none :
      (p : A → Bool) (rows : List A) (k : String)
      → has_key_in rows k ≡ false
      → find (λ a. by_key k a && p a) rows ≡ none
  find-none p [] k h = refl
  find-none p (a ∷ rows) k h = ground (arith, find-none p rows k)

  same_key_absent :
      (rows : List A) (k k' : String) → str_eq k k' ≡ true → has_key_in rows k ≡ has_key_in rows k'
  same_key_absent rows k k' h = ap (has_key_in rows) ((eq_iff k k').0 h)

  -- A query by the key and a condition is the query by the key, and then the condition.
  pub find-and :
      (p : A → Bool) (rows : List A) (k : String)
      → IsKeyed rows
      → find (λ a. by_key k a && p a) rows ≡ keep_if p (find (by_key k) rows)
  find-and p [] k h = refl
  find-and p (a ∷ rows) k h = elim (Bool-cases (by_key k a)) [
    | inl e ↦ rw (e, find-none p rows k (sym (same_key_absent rows (key a) k e) ∙ h.0)) refl
    | inr e ↦ rw e (find-and p rows k h.1)
  ]

  has_key_in-where :
      (p : A → Bool) (rows : List A) (k : String)
      → has_key_in rows k ≡ false
      → has_key_in (where_true p rows) k ≡ false
  has_key_in-where p [] k h = refl
  has_key_in-where p (a ∷ rows) k h = ground (arith, has_key_in-where p rows k)

  -- A DELETE with a condition.
  pub find-where :
      (p : A → Bool) (rows : List A) (k : String)
      → IsKeyed rows
      → find (by_key k) (where_true p rows) ≡ keep_if p (find (by_key k) rows)
  find-where p [] k h = refl
  find-where p (a ∷ rows) k h = elim (Bool-cases (by_key k a)) [
    | inl e ↦ elim (Bool-cases (p a)) [
      | inl t ↦ rw (e, t, e) refl
      | inr f ↦
          rw (e, f)
            (find_absent (where_true p rows) k
              (has_key_in-where p rows k (sym (same_key_absent rows (key a) k e) ∙ h.0)))
    ]
    | inr e ↦ elim (Bool-cases (p a)) [
      | inl t ↦ rw (e, t, e) (find-where p rows k h.1)
      | inr f ↦ rw (e, f) (find-where p rows k h.1)
    ]
  ]

  pub IsKeyed-where : (p : A → Bool) (rows : List A) → IsKeyed rows → IsKeyed (where_true p rows)
  IsKeyed-where p [] h = tt
  IsKeyed-where p (a ∷ rows) h = elim (Bool-cases (p a)) [
    | inl e ↦ rw e (has_key_in-where p rows (key a) h.0, IsKeyed-where p rows h.1)
    | inr e ↦ rw e (IsKeyed-where p rows h.1)
  ]

  has_key_in-append :
      (rows : List A) (a : A) (k : String)
      → has_key_in rows k ≡ false
      → str_eq (key a) k ≡ false
      → has_key_in (rows ++ a ∷ []) k ≡ false
  has_key_in-append [] a k h e = rw e refl
  has_key_in-append (x ∷ rows) a k h e = ground (arith, has_key_in-append rows a k)

  str_eq_symm : (a b : String) → str_eq a b ≡ false → str_eq b a ≡ false
  str_eq_symm a b h = ground (arith, eq_iff a b, eq_iff b a)

  pub IsKeyed-append :
      (rows : List A) (a : A)
      → IsKeyed rows
      → has_key_in rows (key a) ≡ false
      → IsKeyed (rows ++ a ∷ [])
  IsKeyed-append [] a h e = (refl, tt)
  IsKeyed-append (x ∷ rows) a h e =
      let differs : str_eq (key x) (key a) ≡ false = ground arith in
      (
        has_key_in-append rows a (key x) h.0 (str_eq_symm (key x) (key a) differs),
        IsKeyed-append rows a h.1 (ground arith),
      )

  pub has_key_in-update :
      (p : A → Bool) (f : A → A) (rows : List A) (k : String)
      → ((a : A) → key (f a) ≡ key a)
      → has_key_in (update p f rows) k ≡ has_key_in rows k
  has_key_in-update p f [] k h = refl
  has_key_in-update p f (a ∷ rows) k h = elim (Bool-cases (p a)) [
    | inl e ↦ rw (e, h a, has_key_in-update p f rows k h) refl
    | inr e ↦ rw (e, has_key_in-update p f rows k h) refl
  ]

  pub IsKeyed-update :
      (p : A → Bool) (f : A → A) (rows : List A)
      → ((a : A) → key (f a) ≡ key a)
      → IsKeyed rows
      → IsKeyed (update p f rows)
  IsKeyed-update p f [] h k = tt
  IsKeyed-update p f (a ∷ rows) h k = elim (Bool-cases (p a)) [
    | inl e ↦ rw (e, h a, has_key_in-update p f rows (key a) h) (k.0, IsKeyed-update p f rows h k.1)
    | inr e ↦ rw (e, has_key_in-update p f rows (key a) h) (k.0, IsKeyed-update p f rows h k.1)
  ]

  pub find-present :
      (rows : List A) (k : String) (a : A)
      → find (by_key k) rows ≡ some a
      → has_key_in rows k ≡ true
  find-present [] k a h = cc
  find-present (x ∷ rows) k a h = ground (arith, find-present rows k a)

  -- A row of the table is what a query by its key finds.
  pub find-where_true :
      (p q : A → Bool) (rows : List A)
      → IsKeyed rows
      → any_true q (where_true p rows) ≡ true
      → (a : A) × (find (by_key (key a)) rows ≡ some a) × (p a ≡ true) × (q a ≡ true)
  find-where_true p q [] h k = absurd cc
  find-where_true p q (x ∷ rows) h k = elim (Bool-cases (p x && q x)) [
    | inl e ↦ (x, rw (str_eq_refl (key x)) refl, &&-left (p x) (q x) e, &&-right (p x) (q x) e)
    | inr e ↦
        let (a, there, pa, qa) = find-where_true p q rows h.1 (ground arith) in
        (a, skip x a there h.0, pa, qa)
  ]
    where
      skip :
          (x a : A)
          → find (by_key (key a)) rows ≡ some a
          → has_key_in rows (key x) ≡ false
          → find (by_key (key a)) (x ∷ rows) ≡ some a
      skip x a there absent = elim (Bool-cases (str_eq (key x) (key a))) [
        | inl e ↦ absurd (
            clash (
              sym (find-present rows (key a) a there)
              ∙ sym (same_key_absent rows (key x) (key a) e)
              ∙ absent))
        | inr e ↦ rw e there
      ]

  pub has_key_in-find :
      (rows : List A) (k : String) → has_key_in rows k ≡ is_some (find (by_key k) rows)
  has_key_in-find [] k = refl
  has_key_in-find (a ∷ rows) k = ground (arith, has_key_in-find rows k)
