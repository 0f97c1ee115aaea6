-- ===== src/AuthClient/Cooldown.antt =====
-- services/auth_center.py: how often an unknown key id makes the backend ask for the keys.
use auto_x.Prelude.{
  ℕ, ◌+◌, ◌≤◌, ◌<◌, String, ◌≡◌, refl, inl, inr, Bool, true, false, not, ◌&&◌, ◌||◌, Option, none,
  some, List, [], ◌∷◌, arith, ltb, lt→ltb, Bool-cases, All, any_true, find, Instant,
}
use auto_x.AuthClient.{
  Key, KeyCache, Fetched, is_key, remember_unknown_kid, Refresh, unchanged, refreshed, unavailable,
  cooling, fetch, is_fresh, fetch_unless, refresh_jwks, cool_down, Lookup, key_or_remember,
  after_second, after_hit, after_refresh, after_first, find_key, negative_until,
  unknown_kid_refresh_cooldown,
}
use auto_x.AuthClient.Bounds.{find_keys}

abbrev Raises : KeyCache → KeyCache → Type 0
Raises c c' = c.unknown_refresh_allowed_at ≤ c'.unknown_refresh_allowed_at

-- An answer comes after its request.
abbrev pub IsOrderly : Instant → Option Fetched → Type 0
IsOrderly now none = Unit
IsOrderly now (some f) = now ≤ f.refreshed_at

abbrev pub IsOrderlyLookup : Lookup × String → Type 0
IsOrderlyLookup (l, kid) = IsOrderly l.now l.answer × IsOrderly l.later l.second_answer

remember-Raises :
    (now : Instant) (kid : String) (c : KeyCache) → Raises c (remember_unknown_kid now kid c)
unfolding remember_unknown_kid
remember-Raises now kid c = omega arith

fetch-Raises :
    (force : Bool) (now : Instant) (answer : Option Fetched) (c : KeyCache)
    → Raises c (fetch_unless force now none answer c).1
fetch-Raises force now answer c = elim (Bool-cases (not force && is_fresh now c)) [
  | inl e ↦ rw e (omega arith)
  | inr e ↦ rw e (answered answer)
]
  where
    answered : (answer : Option Fetched) → Raises c (fetch none answer c).1
    answered none = omega arith
    answered (some f) = omega arith

-- From the instant of the request on.
unknown-Raises :
    (force : Bool) (now : Instant) (kid : String) (answer : Option Fetched) (c : KeyCache)
    → IsOrderly now answer
    → Raises (cooling now c) (fetch_unless force now (some kid) answer (cooling now c)).1
unknown-Raises force now kid answer c orderly =
    elim (Bool-cases (not force && is_fresh now (cooling now c))) [
      | inl e ↦ rw e (omega arith)
      | inr e ↦ rw e (answered answer orderly)
    ]
  where
    answered :
        (answer : Option Fetched)
        → IsOrderly now answer
        → Raises (cooling now c) (fetch (some kid) answer (cooling now c)).1
    answered none h = omega arith
    answered (some f) h = elim (Bool-cases (any_true (is_key kid) f.keys)) [
      | inl e ↦ rw e (omega (arith, h))
      | inr e ↦ rw e (unfold remember_unknown_kid in omega (arith, h))
    ]

refresh-Raises :
    (force : Bool) (now : Instant) (unknown : Option String) (answer : Option Fetched)
    (c : KeyCache)
    → IsOrderly now answer
    → Raises c (refresh_jwks force now unknown answer c).1
unfolding refresh_jwks
refresh-Raises force now none answer c orderly = fetch-Raises force now answer c
refresh-Raises force now (some kid) answer c orderly =
    elim (Bool-cases
      (ltb now (negative_until kid c.unknown_kids) || ltb now c.unknown_refresh_allowed_at)) [
        | inl e ↦ rw e (omega arith)
        | inr e ↦ rw e (
            over (ltb now (negative_until kid c.unknown_kids)) e
              (unknown-Raises force now kid answer c orderly))
      ]
  where
    over :
        (b : Bool) {n : ℕ}
        → (b || ltb now c.unknown_refresh_allowed_at) ≡ false
        → now + unknown_kid_refresh_cooldown ≤ n
        → c.unknown_refresh_allowed_at ≤ n
    over b h k = ground arith

find-Raises :
    (l : Lookup) (kid : String) (c : KeyCache)
    → IsOrderlyLookup (l, kid)
    → Raises c (find_key l kid c).1.1
unfolding find_key
find-Raises l kid c (orderly, orderly') =
    first (refresh_jwks false l.now none l.answer c)
      (refresh-Raises false l.now none l.answer c orderly)
  where
    remembered :
        (o : Option Key) (d : KeyCache) → Raises c d → Raises c (key_or_remember l kid o d).1.1
    remembered none d h = omega (arith, h, remember-Raises l.at_end kid d)
    remembered (some key) d h = h

    second : (r : Refresh × KeyCache) → Raises c r.1 → Raises c (after_second l kid r).1.1
    second (unavailable, d) h = h
    second (unchanged, d) h = remembered (find (is_key kid) d.keys) d h
    second (refreshed, d) h = remembered (find (is_key kid) d.keys) d h

    hit : (o : Option Key) (d : KeyCache) → Raises c d → Raises c (after_hit l kid o d).1.1
    hit (some key) d h = h
    hit none d h =
        second (refresh_jwks true l.later (some kid) l.second_answer d)
          (omega (arith, h, refresh-Raises true l.later (some kid) l.second_answer d orderly'))

    brought : (o : Option Key) (d : KeyCache) → Raises c d → Raises c (after_refresh l kid o d).1.1
    brought (some key) d h = h
    brought none d h = remembered none (cool_down l.at_end d) (unfold cool_down in omega (arith, h))

    first : (r : Refresh × KeyCache) → Raises c r.1 → Raises c (after_first l kid r).1.1
    first (unavailable, d) h = h
    first (unchanged, d) h = hit (find (is_key kid) d.keys) d h
    first (refreshed, d) h = brought (find (is_key kid) d.keys) d h

find_keys-Raises :
    (lookups : List (Lookup × String)) (c : KeyCache)
    → All IsOrderlyLookup lookups
    → Raises c (find_keys lookups c)
unfolding find_keys
find_keys-Raises [] c h = omega arith
find_keys-Raises ((l, kid) ∷ rest) c (orderly, h) =
    omega (arith, find-Raises l kid c orderly, find_keys-Raises rest (find_key l kid c).1.1 h)

-- The center was asked, whatever it answered.
abbrev pub asked : Refresh → Bool
asked unchanged = false
asked refreshed = true
asked unavailable = true

cooled :
    (now : Instant) (kid : String) (answer : Option Fetched) (c : KeyCache)
    → IsOrderly now answer
    → asked (refresh_jwks true now (some kid) answer c).0 ≡ true
    → now + unknown_kid_refresh_cooldown
      ≤ (refresh_jwks true now (some kid) answer c).1.unknown_refresh_allowed_at
unfolding refresh_jwks
cooled now kid answer c orderly h =
    elim (Bool-cases
      (ltb now (negative_until kid c.unknown_kids) || ltb now c.unknown_refresh_allowed_at)) [
        | inl e ↦ absurd (not_asked (rw e at h))
        | inr e ↦ rw e (unknown-Raises true now kid answer c orderly)
      ]
  where
    not_asked : false ≡ true → ⊥
    not_asked k = cc

-- A key id that is not known made the backend ask the authentication center, which may have failed
-- to answer. Checks of other tokens follow, in which an answer comes after its request. Within five
-- seconds of the first request, no key id that is not known makes it ask again, and the cache stays
-- as it is.
pub unknown_refresh_cooldown :
    (now later : Instant) (kid other : String) (answer second_answer : Option Fetched)
    (c : KeyCache) (lookups : List (Lookup × String))
    → IsOrderly now answer
    → asked (refresh_jwks true now (some kid) answer c).0 ≡ true
    → All IsOrderlyLookup lookups
    → later < now + unknown_kid_refresh_cooldown
    → refresh_jwks true later
        (some other)
        second_answer
        (find_keys lookups (refresh_jwks true now (some kid) answer c).1)
      ≡ (unchanged, find_keys lookups (refresh_jwks true now (some kid) answer c).1)
unfolding refresh_jwks
unknown_refresh_cooldown now later kid other answer second_answer c lookups orderly did_ask others
      soon =
    let after = find_keys lookups (refresh_jwks true now (some kid) answer c).1 in
    let raised = find_keys-Raises lookups (refresh_jwks true now (some kid) answer c).1 others in
    let cool = cooled now kid answer c orderly did_ask in
    waits after (lt→ltb later after.unknown_refresh_allowed_at (omega (arith, raised, cool, soon)))
  where
    either : (b : Bool) (d : Bool) → d ≡ true → (b || d) ≡ true
    either b d h = ground arith

    waits :
        (d : KeyCache)
        → ltb later d.unknown_refresh_allowed_at ≡ true
        → refresh_jwks true later (some other) second_answer d ≡ (unchanged, d)
    waits d h =
        rw
          (
            refresh_jwks,
            either (ltb later (negative_until other d.unknown_kids))
                (ltb later d.unknown_refresh_allowed_at) h,
          )
          refl
