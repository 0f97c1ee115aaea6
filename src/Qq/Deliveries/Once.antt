-- ===== src/Qq/Deliveries/Once.antt =====
-- qq_notifications.py: which deliveries `create_tweet_deliveries` adds, and that a second call adds
-- none.
use auto_x.Prelude.{
  ℕ, ◌+◌, String, ◌≡◌, refl, sym, ◌∙◌, subst, inl, inr, Bool, true, false, ◌||◌, Option, List, [],
  ◌∷◌, ◌++◌, map, append-nil, arith, str_eq_refl, Bool-cases, All, All-map, where_true,
  any_true-append, Instant,
}
use auto_x.Qq.Deliveries.{
  Candidate, Delivery, DeliveryKey, tweet_target, another, same_key, Db, key_of, admits, is_new,
  delivered, has_delivery_key, delivery_of, numbered, delivery_candidates, create_tweet_deliveries,
  is_active_target,
}

same_key_refl : (k : DeliveryKey) → same_key k k ≡ true
same_key_refl (tweet_target t g) = ground arith
same_key_refl (another k) = str_eq_refl k

or_true : (b : Bool) → (b || true) ≡ true
or_true true = refl
or_true false = refl

delivered-append :
    (k : DeliveryKey) (xs ys : List Delivery)
    → delivered k (xs ++ ys) ≡ (delivered k xs || delivered k ys)
unfolding delivered
delivered-append k xs ys = any_true-append (has_delivery_key k) xs ys

delivered-numbered :
    (k : DeliveryKey) (n : ℕ) (ds : List Delivery) → delivered k (numbered n ds) ≡ delivered k ds
unfolding delivered numbered
delivered-numbered k n [] = refl
delivered-numbered k n (d ∷ ds) = ground (arith, delivered-numbered k (n + 1) ds)

-- The rows of the candidates that pass a test, and the key of each such candidate among them.
abbrev rows_of : (Candidate → Bool) → ℕ → Instant → List Candidate → List Delivery
rows_of p m now cs = map (delivery_of m now) (where_true p cs)

abbrev IsServed : (Candidate → Bool) → List Delivery → Candidate → Type 0
IsServed p ds c = p c ≡ true → delivered (key_of c) ds ≡ true

IsServed-later :
    (p : Candidate → Bool) (m : ℕ) (now : Instant) (x : Candidate) (cs : List Candidate)
    (c : Candidate)
    → IsServed p (rows_of p m now cs) c
    → IsServed p (rows_of p m now (x ∷ cs)) c
IsServed-later p m now x cs c h t = elim (Bool-cases (p x)) [
  | inl e ↦ rw e (rest_served e)
  | inr e ↦ rw e (h t)
]
  where
    rest_served :
        p x ≡ true → delivered (key_of c) (delivery_of m now x ∷ rows_of p m now cs) ≡ true
    rest_served e =
        delivered-append (key_of c) (delivery_of m now x ∷ []) (rows_of p m now cs)
        ∙ rw (h t) (or_true (delivered (key_of c) (delivery_of m now x ∷ [])))

All-IsServed :
    (p : Candidate → Bool) (m : ℕ) (now : Instant) (cs : List Candidate)
    → All (IsServed p (rows_of p m now cs)) cs
All-IsServed p m now [] = tt
All-IsServed p m now (c ∷ cs) = (
  λ t. rw t (unfold delivered in (unfold delivery_of in (rw (same_key_refl (key_of c)) refl))),
  All-map (λ x h. IsServed-later p m now c cs x h) cs (All-IsServed p m now cs),
)

nothing_left :
    (p : Candidate → Bool) (cs : List Candidate) → All (λ c. p c ≡ false) cs → where_true p cs ≡ []
nothing_left p [] h = refl
nothing_left p (c ∷ cs) h = rw h.0 (nothing_left p cs h.1)

rows : List String → ℕ → Option ℕ → Instant → Db → List Delivery
rows ids m only now db = rows_of (is_new db) m now (delivery_candidates db ids only)

not_new :
    (ids : List String) (m : ℕ) (only : Option ℕ) (now : Instant) (db : Db) (c : Candidate)
    → IsServed (is_new db) (rows ids m only now db) c
    → is_new (create_tweet_deliveries ids m only now db).1 c ≡ false
unfolding create_tweet_deliveries is_new admits rows
not_new ids m only now db c h = ground (
  arith,
  h,
  delivered-append (key_of c) db.deliveries (numbered db.next_id (rows ids m only now db)),
  delivered-numbered (key_of c) db.next_id (rows ids m only now db),
)

same_candidates :
    (ids : List String) (m : ℕ) (only : Option ℕ) (now : Instant) (db : Db)
    → delivery_candidates (create_tweet_deliveries ids m only now db).1 ids only
      ≡ delivery_candidates db ids only
unfolding create_tweet_deliveries delivery_candidates is_active_target
same_candidates ids m only now db = refl

creates_nothing :
    (ids : List String) (m : ℕ) (only : Option ℕ) (now : Instant) (db : Db)
    → where_true (is_new db) (delivery_candidates db ids only) ≡ []
    → ((create_tweet_deliveries ids m only now db).0 ≡ [])
      × ((create_tweet_deliveries ids m only now db).1.deliveries ≡ db.deliveries)
unfolding create_tweet_deliveries numbered
creates_nothing ids m only now db h = rw h (refl, append-nil db.deliveries)

again_none :
    (ids : List String) (m : ℕ) (only : Option ℕ) (now : Instant) (db : Db)
    → All
        (λ c. is_new (create_tweet_deliveries ids m only now db).1 c ≡ false)
        (delivery_candidates (create_tweet_deliveries ids m only now db).1 ids only)
again_none ids m only now db =
    subst (All (λ c. is_new (create_tweet_deliveries ids m only now db).1 c ≡ false))
      (sym (same_candidates ids m only now db))
      (All-map (λ c h. not_new ids m only now db c h) (delivery_candidates db ids only)
        (unfold rows in (All-IsServed (is_new db) m now (delivery_candidates db ids only))))

-- The same posts given again, whatever the attempts and the instant: no delivery is added, and no
-- id is returned.
pub create_tweet_deliveries_once :
    (ids : List String) (max_attempts max_attempts' : ℕ) (only : Option ℕ) (now later : Instant)
    (db : Db)
    → ((create_tweet_deliveries ids max_attempts' only later
          (create_tweet_deliveries ids max_attempts only now db).1).0
        ≡ [])
      × ((create_tweet_deliveries ids max_attempts' only later
            (create_tweet_deliveries ids max_attempts only now db).1).1.deliveries
          ≡ (create_tweet_deliveries ids max_attempts only now db).1.deliveries)
create_tweet_deliveries_once ids m m' only now later db =
    let next = (create_tweet_deliveries ids m only now db).1 in
    creates_nothing ids m' only later next (
      nothing_left (is_new next) (delivery_candidates next ids only) (again_none ids m only now db))
