-- ===== src/BrowserPool/Ends.antt =====
-- xhs_browser_pool.py: the loop of `_acquire` ends, and keeps the pool bounded.
use auto_x.Prelude.{
  ℕ, zero, suc, ◌≤◌, ◌<◌, ◌≡◌, refl, ◌∙◌, ◌⊎◌, inl, inr, Bool, true, false, not, ◌&&◌, some, List,
  [], ◌∷◌, arith, ltb, ◌==◌, if◌then◌else◌, ltb→lt, Bool-cases, Option-cases, length, length-append,
  All, All-map, where_true, any_true, find, update, Instant,
}
use auto_x.BrowserPool.{
  Lease, Pool, Round, closed, given, waits, again, has_admin, pop, take_lease, add_lease, new_lease,
  taken, oldest, is_idle, evict, acquire_existing, acquire_round, acquire,
}

abbrev In : List Lease → Lease → Type 0
In leases l = any_true (has_admin l.admin_id) leases ≡ true

In-cons : (l : Lease) (ls : List Lease) (x : Lease) → In ls x → In (l ∷ ls) x
In-cons l ls x h = ground arith

All-In : (ls : List Lease) → All (In ls) ls
All-In [] = tt
All-In (l ∷ ls) = (ground arith, All-map (In-cons l ls) ls (All-In ls))

oldest-All :
    (P : Lease → Type 0) (best : Lease) (ls : List Lease) → P best → All P ls → P (oldest best ls)
unfolding oldest
oldest-All P best [] h hs = h
oldest-All P best (l ∷ ls) h hs = elim (Bool-cases (ltb l.last_used best.last_used)) [
  | inl e ↦ rw e (oldest-All P l ls hs.0 hs.1)
  | inr e ↦ rw e (oldest-All P best ls h hs.1)
]

where-All {ℓ κ} :
    {A : Type ℓ} (P : A → Type κ) (p : A → Bool) (xs : List A) → All P xs → All P (where_true p xs)
where-All P p [] h = tt
where-All P p (x ∷ xs) h = elim (Bool-cases (p x)) [
  | inl e ↦ rw e (h.0, where-All P p xs h.1)
  | inr e ↦ rw e (where-All P p xs h.1)
]

length-where_le : (p : Lease → Bool) (ls : List Lease) → length (where_true p ls) ≤ length ls
length-where_le p [] = omega arith
length-where_le p (l ∷ ls) = ground (arith, length-where_le p ls)

length-pop :
    (a : ℕ) (ls : List Lease)
    → any_true (has_admin a) ls ≡ true
    → length (where_true (λ l. not (has_admin a l)) ls) < length ls
length-pop a [] h = absurd cc
length-pop a (l ∷ ls) h =
    ground (arith, length-where_le (λ x. not (has_admin a x)) ls, length-pop a ls)

length-update :
    (p : Lease → Bool) (f : Lease → Lease) (ls : List Lease) → length (update p f ls) ≡ length ls
length-update p f [] = refl
length-update p f (l ∷ ls) = omega (arith, length-update p f ls)

-- What a round guarantees for a pool of at most `bound` leases: the next pool of the loop has fewer
-- leases, and the pool with a lease handed out has at most the bound.
abbrev RoundFits : ℕ → Pool → Round → Type 0
RoundFits bound pool closed = Unit
RoundFits bound pool waits = Unit
RoundFits bound pool (again pool') = length pool'.leases < length pool.leases
RoundFits bound pool (given lease pool') = (length pool'.leases ≤ bound) × (lease.busy ≡ true)

evict-RoundFits :
    (bound : ℕ) (pool : Pool) (idle : List Lease)
    → All (In pool.leases) idle
    → RoundFits bound pool (evict pool idle)
unfolding evict pop
evict-RoundFits bound pool [] h = tt
evict-RoundFits bound pool (first ∷ idle) h =
    length-pop (oldest first idle).admin_id pool.leases
      (oldest-All (In pool.leases) first idle h.0 h.1)

RoundFits-if :
    (bound : ℕ) (pool : Pool) (b : Bool) (x y : Round)
    → RoundFits bound pool x
    → RoundFits bound pool y
    → RoundFits bound pool (if b then x else y)
RoundFits-if bound pool true x y h k = h
RoundFits-if bound pool false x y h k = k

find-any :
    (p : Lease → Bool) (ls : List Lease) (l : Lease) → find p ls ≡ some l → any_true p ls ≡ true
find-any p [] l h = cc
find-any p (x ∷ xs) l h = ground (arith, find-any p xs l)

existing-RoundFits :
    (bound : ℕ) (now : Instant) (a v : ℕ) (existing : Lease) (pool : Pool)
    → length pool.leases ≤ bound
    → any_true (has_admin a) pool.leases ≡ true
    → RoundFits bound pool (acquire_existing now a v existing pool)
unfolding acquire_existing take_lease pop
existing-RoundFits bound now a v existing pool h k =
    RoundFits-if bound pool ((existing.cookie_version == v) && not existing.busy) _ _
      (omega (arith, length-update (has_admin existing.admin_id) (taken now) pool.leases), refl)
      (RoundFits-if bound pool existing.busy waits (again (pop a pool)) tt
        (length-pop a pool.leases k))

add-RoundFits :
    (bound : ℕ) (now : Instant) (a v : ℕ) (pool : Pool)
    → ltb (length pool.leases) bound ≡ true
    → RoundFits bound pool (add_lease now a v pool)
unfolding add_lease
add-RoundFits bound now a v pool h = (
  omega (
    arith,
    ltb→lt (length pool.leases) bound h,
    length-append pool.leases (new_lease now pool.next_number a v ∷ []),
  ),
  refl,
)

room-RoundFits :
    (bound : ℕ) (now : Instant) (a v : ℕ) (pool : Pool)
    → RoundFits bound pool (
        if ltb (length pool.leases) bound
        then add_lease now a v pool
        else evict pool (where_true is_idle pool.leases))
room-RoundFits bound now a v pool = elim (Bool-cases (ltb (length pool.leases) bound)) [
  | inl e ↦ rw e (add-RoundFits bound now a v pool e)
  | inr e ↦ rw e (
      evict-RoundFits bound pool (where_true is_idle pool.leases)
        (where-All (In pool.leases) is_idle pool.leases (All-In pool.leases)))
]

round-RoundFits :
    (bound : ℕ) (now : Instant) (a v : ℕ) (pool : Pool)
    → length pool.leases ≤ bound
    → RoundFits bound pool (acquire_round bound now a v pool)
unfolding acquire_round
round-RoundFits bound now a v pool h =
    RoundFits-if bound pool pool.is_closed closed _ tt
      (elim (Option-cases (find (has_admin a) pool.leases)) [
        | inl gone ↦ rw gone (room-RoundFits bound now a v pool)
        | inr (l, there) ↦
            rw there (
              existing-RoundFits bound now a v l pool h
                (find-any (has_admin a) pool.leases l there))
      ])

-- A result of the loop: the pool is closed, the caller waits, or it has a busy lease of a pool of
-- at most `bound` leases.
abbrev pub IsResult : ℕ → Round → Type 0
IsResult bound closed = Unit
IsResult bound waits = Unit
IsResult bound (again pool) = 1 ≤ 0
IsResult bound (given lease pool) = (length pool.leases ≤ bound) × (lease.busy ≡ true)

round_cases :
    (bound : ℕ) (pool : Pool) (r : Round)
    → RoundFits bound pool r
    → ((pool' : Pool) × (r ≡ again pool') × (length pool'.leases < length pool.leases))
      ⊎ (IsResult bound r)
round_cases bound pool closed h = inr tt
round_cases bound pool waits h = inr tt
round_cases bound pool (again pool') h = inl (pool', refl, h)
round_cases bound pool (given lease pool') h = inr h

finished :
    (fuel bound : ℕ) (now : Instant) (a v : ℕ) (pool : Pool) (r : Round)
    → acquire_round bound now a v pool ≡ r
    → IsResult bound r
    → (r' : Round) × (acquire (suc fuel) bound now a v pool ≡ some r') × IsResult bound r'
unfolding acquire
finished fuel bound now a v pool closed e h = (closed, rw (e, acquire) refl, tt)
finished fuel bound now a v pool waits e h = (waits, rw (e, acquire) refl, tt)
finished fuel bound now a v pool (again pool') e h = absurd (omega (arith, h))
finished fuel bound now a v pool (given lease pool') e h =
    (given lease pool', rw (e, acquire) refl, h)

continued :
    (fuel bound : ℕ) (now : Instant) (a v : ℕ) (pool pool' : Pool)
    → acquire_round bound now a v pool ≡ again pool'
    → acquire (suc fuel) bound now a v pool ≡ acquire fuel bound now a v pool'
unfolding acquire
continued fuel bound now a v pool pool' e = rw (e, acquire) refl

-- A pool of at most `bound` leases, and one round more than it has leases: the loop ends, closed,
-- waiting, or with a lease that is marked busy, in a pool of at most `bound` leases.
pub acquire_ends :
    (fuel bound : ℕ) (now : Instant) (admin_id cookie_version : ℕ) (pool : Pool)
    → length pool.leases ≤ bound
    → length pool.leases < fuel
    → (r : Round) × (acquire fuel bound now admin_id cookie_version pool ≡ some r)
      × IsResult bound r
acquire_ends zero bound now a v pool h k = absurd (omega arith)
acquire_ends (suc fuel) bound now a v pool h k =
    elim (round_cases bound pool (acquire_round bound now a v pool)
      (round-RoundFits bound now a v pool h)) [
        | inr done ↦ finished fuel bound now a v pool (acquire_round bound now a v pool) refl done
        | inl (pool', e, shorter) ↦
            let (r, later, good) =
              acquire_ends fuel bound now a v pool' (omega (arith, shorter))
                (omega (arith, shorter)) in
            (r, continued fuel bound now a v pool pool' e ∙ later, good)
      ]
