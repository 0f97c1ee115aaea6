-- ===== src/AiWorker/Profiles.antt =====
-- ai_worker.py, `_commit_success`: which post the profile of an author rests on.
use auto_x.Prelude.{
  ℕ, ◌+◌, ◌≤◌, ◌<◌, ◌≡◌, refl, sym, ap, ◌∙◌, subst, ◌⊎◌, inl, inr, Bool, true, false, Option, none,
  some, List, [], ◌∷◌, Mem, mem-cons_self, mem-cons_of_mem, arith, if◌then◌else◌, Bool-cases,
  is_some, All, Instant,
}
use auto_x.AiWorker.{Profile}
use auto_x.AiWorker.Success.{Generated, not_before, follows, stored_profile}

not_before_trans :
    (a i b j c k : ℕ)
    → not_before a i b j ≡ true
    → not_before b j c k ≡ true
    → not_before a i c k ≡ true
not_before_trans a i b j c k h l = ground arith

not_before_total : (a i b j : ℕ) → not_before a i b j ≡ false → not_before b j a i ≡ true
not_before_total a i b j h = ground arith

not_before_refl : (a i : ℕ) → not_before a i a i ≡ true
not_before_refl a i = ground arith

-- Jobs of one author complete, in the order of the list, each with the post that it is about.
unfoldable pub store_all :
    (ℕ → Option Instant) → List (Generated × ℕ) → Option Profile → Option Profile
store_all tweets [] profile = profile
store_all tweets ((g, id) ∷ jobs) profile =
    store_all tweets jobs (stored_profile tweets g id profile)

-- The profile that a job makes: its summaries, and the post that it is about.
abbrev pub made_by : Generated × ℕ → ℕ → Profile
made_by (g, id) version = record {
  identity_summary = g.identity_summary;
  focus_summary = g.focus_summary;
  relationship_summary = g.relationship_summary;
  version = version;
  last_source_tweet_id = some id;
}

abbrev pub IsThere : (ℕ → Option Instant) → ℕ → Type 0
IsThere tweets id = is_some (tweets id) ≡ true

abbrev NotOlder : (ℕ → Option Instant) → ℕ → ℕ → Type 0
NotOlder tweets id other = follows (tweets id) id (tweets other) other ≡ true

module _ (tweets : ℕ → Option Instant) where
  NotOlder-trans :
      (a b c : ℕ)
      → IsThere tweets b
      → NotOlder tweets a b
      → NotOlder tweets b c
      → NotOlder tweets a c
  NotOlder-trans a b c there h k = trans (tweets a) (tweets b) (tweets c) there h k
    where
      trans :
          (x y z : Option Instant)
          → is_some y ≡ true
          → follows x a y b ≡ true
          → follows y b z c ≡ true
          → follows x a z c ≡ true
      trans none y z t h k = h
      trans (some x) none z t h k = absurd cc
      trans (some x) (some y) none t h k = refl
      trans (some x) (some y) (some z) t h k = not_before_trans x a y b z c h k

  NotOlder-refl : (a : ℕ) → IsThere tweets a → NotOlder tweets a a
  NotOlder-refl a there = own (tweets a) there
    where
      own : (x : Option Instant) → is_some x ≡ true → follows x a x a ≡ true
      own none t = absurd cc
      own (some x) t = not_before_refl x a

  NotOlder-total :
      (a b : ℕ) → IsThere tweets a → follows (tweets a) a (tweets b) b ≡ false → NotOlder tweets b a
  NotOlder-total a b there h = total (tweets a) (tweets b) there h
    where
      total :
          (x y : Option Instant)
          → is_some x ≡ true
          → follows x a y b ≡ false
          → follows y b x a ≡ true
      total none y t h = absurd cc
      total (some x) none t h = absurd cc
      total (some x) (some y) t h = not_before_total x a y b h

  -- From a profile that a job has made: the one that stays is the job's or that of a later one.
  Newest : Generated × ℕ → List (Generated × ℕ) → Option Profile → Type 0
  Newest first jobs profile =
      (x : Generated × ℕ) × (version : ℕ) × ((x ≡ first) ⊎ Mem x jobs)
      × (profile ≡ some (made_by x version))
      × IsThere tweets x.1
      × NotOlder tweets x.1 first.1
      × All (λ (y : Generated × ℕ). NotOlder tweets x.1 y.1) jobs

  stored :
      (g g₀ : Generated) (id m version : ℕ) (b : Bool)
      → follows (tweets id) id (tweets m) m ≡ b
      → stored_profile tweets g id (some (made_by (g₀, m) version))
        ≡ (if b then some (made_by (g, id) (version + 1)) else some (made_by (g₀, m) version))
  unfolding stored_profile
  stored g g₀ id m version b e =
      ap
        (λ (c : Bool).
          if c then some (made_by (g, id) (version + 1)) else some (made_by (g₀, m) version))
        e

  Newest-from :
      (jobs : List (Generated × ℕ)) (g₀ : Generated) (m version : ℕ)
      → IsThere tweets m
      → All (λ (x : Generated × ℕ). IsThere tweets x.1) jobs
      → Newest (g₀, m) jobs (store_all tweets jobs (some (made_by (g₀, m) version)))
  unfolding store_all Newest
  Newest-from [] g₀ m version there h =
      ((g₀, m), version, inl refl, refl, there, NotOlder-refl m there, tt)
  Newest-from ((g, id) ∷ jobs) g₀ m version there (id_there, h) =
      elim (Bool-cases (follows (tweets id) id (tweets m) m)) [
        | inl e ↦
            let (x, w, from, last, x_there, not_older, others) =
              Newest-from jobs g id (version + 1) id_there h in
            (
              x,
              w,
              inr (later x from),
              ap (store_all tweets jobs) (stored g g₀ id m version true e) ∙ last,
              x_there,
              NotOlder-trans x.1 id m id_there not_older e,
              (not_older, others),
            )
        | inr e ↦
            let (x, w, from, last, x_there, not_older, others) =
              Newest-from jobs g₀ m version there h in
            (
              x,
              w,
              same x from,
              ap (store_all tweets jobs) (stored g g₀ id m version false e) ∙ last,
              x_there,
              not_older,
              (NotOlder-trans x.1 m id there not_older (NotOlder-total id m id_there e), others),
            )
      ]
    where
      later : (x : Generated × ℕ) → (x ≡ (g, id)) ⊎ Mem x jobs → Mem x ((g, id) ∷ jobs)
      later x (inl e) = subst (λ (y : Generated × ℕ). Mem y ((g, id) ∷ jobs)) (sym e) mem-cons_self
      later x (inr k) = mem-cons_of_mem (g, id) k

      same :
          (x : Generated × ℕ) → (x ≡ (g₀, m)) ⊎ Mem x jobs → (x ≡ (g₀, m)) ⊎ Mem x ((g, id) ∷ jobs)
      same x (inl e) = inl e
      same x (inr k) = inr (mem-cons_of_mem (g, id) k)

-- The post `n` was made after the post `m`, or at the same instant, and then its id is not lower.
pub record IsNewer (tweets : ℕ → Option Instant) (n m : ℕ) : Type 0 where
  pub at_n : Instant
  pub at_m : Instant
  pub is_n : tweets n ≡ some at_n
  pub is_m : tweets m ≡ some at_m
  pub newer : (at_m < at_n) ⊎ ((at_m ≡ at_n) × (m ≤ n))

IsNewer-NotOlder :
    (tweets : ℕ → Option Instant) (n m : ℕ)
    → IsThere tweets n
    → IsThere tweets m
    → NotOlder tweets n m
    → IsNewer tweets n m
IsNewer-NotOlder tweets n m n_there m_there h =
    made (tweets n) (tweets m) refl refl n_there m_there h
  where
    made :
        (a b : Option Instant)
        → tweets n ≡ a
        → tweets m ≡ b
        → is_some a ≡ true
        → is_some b ≡ true
        → follows a n b m ≡ true
        → IsNewer tweets n m
    made none b is_n is_m s t h = absurd cc
    made (some a) none is_n is_m s t h = absurd cc
    made (some a) (some b) is_n is_m s t h = record {
      at_n = a;
      at_m = b;
      is_n = is_n;
      is_m = is_m;
      newer = ground arith;
    }

IsNewer-rows :
    (tweets : ℕ → Option Instant) (n : ℕ) (jobs : List (Generated × ℕ))
    → IsThere tweets n
    → All (λ (x : Generated × ℕ). IsThere tweets x.1) jobs
    → All (λ (x : Generated × ℕ). NotOlder tweets n x.1) jobs
    → All (λ (x : Generated × ℕ). IsNewer tweets n x.1) jobs
IsNewer-rows tweets n [] there h k = tt
IsNewer-rows tweets n (x ∷ jobs) there h k =
    (IsNewer-NotOlder tweets n x.1 there h.0 k.0, IsNewer-rows tweets n jobs there h.1 k.1)

-- Jobs of one author complete in any order, and the posts they are about are stored. The profile is
-- then the one that one of them has made, with its summaries and its post, and that post was made
-- after that of each job, or at the same instant, and then its id is not lower.
pub profile_newest :
    (tweets : ℕ → Option Instant) (g : Generated) (id : ℕ) (jobs : List (Generated × ℕ))
    → All (λ (x : Generated × ℕ). IsThere tweets x.1) ((g, id) ∷ jobs)
    → (x : Generated × ℕ) × (version : ℕ) × Mem x ((g, id) ∷ jobs)
      × (store_all tweets ((g, id) ∷ jobs) none ≡ some (made_by x version))
      × All (λ (y : Generated × ℕ). IsNewer tweets x.1 y.1) ((g, id) ∷ jobs)
unfolding store_all stored_profile Newest
profile_newest tweets g id jobs (there, h) =
    let (x, version, from, last, x_there, not_older, others) =
      Newest-from tweets jobs g id 1 there h in
    (
      x,
      version,
      made_there x from,
      last,
      IsNewer-rows tweets x.1 ((g, id) ∷ jobs) x_there (there, h) (not_older, others),
    )
  where
    made_there : (x : Generated × ℕ) → (x ≡ (g, id)) ⊎ Mem x jobs → Mem x ((g, id) ∷ jobs)
    made_there x (inl e) =
        subst (λ (y : Generated × ℕ). Mem y ((g, id) ∷ jobs)) (sym e) mem-cons_self
    made_there x (inr k) = mem-cons_of_mem (g, id) k
