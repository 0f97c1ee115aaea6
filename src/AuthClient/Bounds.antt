-- ===== src/AuthClient/Bounds.antt =====
-- services/auth_center.py: how many unknown key ids are remembered.
use auto_x.Prelude.{
  suc, ◌+◌, ◌≤◌, min, String, ◌≡◌, refl, inl, inr, Bool, true, false, not, ◌&&◌, ◌||◌, Option, none,
  some, List, [], ◌∷◌, arith, ltb, leb, if◌then◌else◌, Bool-cases, length, where_true, any_true,
  find, Instant,
}
use auto_x.AuthClient.{
  Key, UnknownKid, KeyCache, Fetched, is_key, is_unknown, lives, set_unknown, without_first,
  room_for, remember_unknown_kid, Refresh, unchanged, refreshed, unavailable, still_unknown,
  with_keys, cooling, store, fetch, is_fresh, fetch_unless, refresh_jwks, cool_down, Lookup,
  key_or_remember, after_second, after_hit, after_refresh, after_first, find_key, negative_until,
  unknown_kid_refresh_cooldown,
}

abbrev pub IsSmall : List UnknownKid → Type 0
IsSmall us = length us ≤ 256

length-where_true :
    (p : UnknownKid → Bool) (us : List UnknownKid) → length (where_true p us) ≤ length us
length-where_true p [] = omega arith
length-where_true p (u ∷ us) = ground (arith, length-where_true p us)

length-set_unknown :
    (kid : String) (at : Instant) (us : List UnknownKid)
    → length (set_unknown kid at us)
      ≡ (if any_true (is_unknown kid) us then length us else suc (length us))
unfolding set_unknown
length-set_unknown kid at [] = refl
length-set_unknown kid at (u ∷ us) = ground (arith, length-set_unknown kid at us)

set-IsSmall :
    (kid : String) (at : Instant) (us : List UnknownKid)
    → IsSmall us
    → IsSmall (set_unknown kid at (room_for kid us))
set-IsSmall kid at us h = elim (Bool-cases (any_true (is_unknown kid) us)) [
  | inl e ↦ rw (e, length-set_unknown kid at us, e) h
  | inr e ↦ elim (Bool-cases (leb 256 (length us))) [
    | inl full ↦ rw (e, full) (grows kid at (without_first us) (without_first-IsSmall us h))
    | inr free ↦ rw (e, free) (grows kid at us (ground arith))
  ]
]
  where
    grows :
        (kid : String) (at : Instant) (us : List UnknownKid)
        → suc (length us) ≤ 256
        → length (set_unknown kid at us) ≤ 256
    grows kid at us h = elim (Bool-cases (any_true (is_unknown kid) us)) [
      | inl e ↦ rw (length-set_unknown kid at us, e) (omega (arith, h))
      | inr e ↦ rw (length-set_unknown kid at us, e) h
    ]

    without_first-IsSmall :
        (us : List UnknownKid) → length us ≤ 256 → suc (length (without_first us)) ≤ 256
    without_first-IsSmall [] h = omega arith
    without_first-IsSmall (u ∷ us) h = h

where-IsSmall :
    (p : UnknownKid → Bool) (us : List UnknownKid) → IsSmall us → IsSmall (where_true p us)
where-IsSmall p us h = omega (arith, length-where_true p us, h)

abbrev pub IsBounded : KeyCache → Type 0
IsBounded c = IsSmall c.unknown_kids

remember-IsBounded :
    (now : Instant) (kid : String) (c : KeyCache)
    → IsBounded c
    → IsBounded (remember_unknown_kid now kid c)
unfolding remember_unknown_kid
remember-IsBounded now kid c h =
    let small = where-IsSmall (lives now) c.unknown_kids h in
    choose (leb (min (now + unknown_kid_refresh_cooldown) c.keys_expire_at) now) _ _ small (
      set-IsSmall kid (min (now + unknown_kid_refresh_cooldown) c.keys_expire_at)
        (where_true (lives now) c.unknown_kids) small)
  where
    choose :
        (b : Bool) (x y : List UnknownKid) → IsSmall x → IsSmall y → IsSmall (if b then x else y)
    choose true x y h k = h
    choose false x y h k = k

store-IsBounded :
    (unknown : Option String) (f : Fetched) (c : KeyCache)
    → IsBounded c
    → IsBounded (store unknown f c)
store-IsBounded none f c h = where-IsSmall (still_unknown f) c.unknown_kids h
store-IsBounded (some kid) f c h =
    let small = where-IsSmall (still_unknown f) c.unknown_kids h in
    elim (Bool-cases (any_true (is_key kid) f.keys)) [
      | inl e ↦ rw e small
      | inr e ↦
          rw e
            (remember-IsBounded f.refreshed_at kid (cooling f.refreshed_at (with_keys f c)) small)
    ]

fetch-IsBounded :
    (force : Bool) (now : Instant) (unknown : Option String) (answer : Option Fetched)
    (c : KeyCache)
    → IsBounded c
    → IsBounded (fetch_unless force now unknown answer c).1
fetch-IsBounded force now unknown answer c h = elim (Bool-cases (not force && is_fresh now c)) [
  | inl e ↦ rw e h
  | inr e ↦ rw e (answered answer)
]
  where
    answered : (answer : Option Fetched) → IsBounded (fetch unknown answer c).1
    answered none = h
    answered (some f) = store-IsBounded unknown f c h

pub refresh-IsBounded :
    (force : Bool) (now : Instant) (unknown : Option String) (answer : Option Fetched)
    (c : KeyCache)
    → IsBounded c
    → IsBounded (refresh_jwks force now unknown answer c).1
unfolding refresh_jwks
refresh-IsBounded force now none answer c h = fetch-IsBounded force now none answer c h
refresh-IsBounded force now (some kid) answer c h =
    elim (Bool-cases
      (ltb now (negative_until kid c.unknown_kids) || ltb now c.unknown_refresh_allowed_at)) [
        | inl e ↦ rw e h
        | inr e ↦ rw e (fetch-IsBounded force now (some kid) answer (cooling now c) h)
      ]

find-IsBounded :
    (l : Lookup) (kid : String) (c : KeyCache) → IsBounded c → IsBounded (find_key l kid c).1.1
unfolding find_key
find-IsBounded l kid c h =
    first (refresh_jwks false l.now none l.answer c)
      (refresh-IsBounded false l.now none l.answer c h)
  where
    remembered :
        (o : Option Key) (c : KeyCache) → IsBounded c → IsBounded (key_or_remember l kid o c).1.1
    remembered none c h = remember-IsBounded l.at_end kid c h
    remembered (some key) c h = h

    second : (r : Refresh × KeyCache) → IsBounded r.1 → IsBounded (after_second l kid r).1.1
    second (unavailable, c) h = h
    second (unchanged, c) h = remembered (find (is_key kid) c.keys) c h
    second (refreshed, c) h = remembered (find (is_key kid) c.keys) c h

    hit : (o : Option Key) (c : KeyCache) → IsBounded c → IsBounded (after_hit l kid o c).1.1
    hit (some key) c h = h
    hit none c h =
        second (refresh_jwks true l.later (some kid) l.second_answer c)
          (refresh-IsBounded true l.later (some kid) l.second_answer c h)

    brought :
        (o : Option Key) (c : KeyCache) → IsBounded c → IsBounded (after_refresh l kid o c).1.1
    brought (some key) c h = h
    brought none c h = unfold cool_down in remember-IsBounded l.at_end kid (cool_down l.at_end c) h

    first : (r : Refresh × KeyCache) → IsBounded r.1 → IsBounded (after_first l kid r).1.1
    first (unavailable, c) h = h
    first (unchanged, c) h = hit (find (is_key kid) c.keys) c h
    first (refreshed, c) h = brought (find (is_key kid) c.keys) c h

abbrev pub empty : KeyCache
empty = record { keys = []; keys_expire_at = 0; unknown_kids = []; unknown_refresh_allowed_at = 0 }

-- Checks of tokens, one after another.
unfoldable pub find_keys : List (Lookup × String) → KeyCache → KeyCache
find_keys [] c = c
find_keys ((l, kid) ∷ rest) c = find_keys rest (find_key l kid c).1.1

find_keys-IsBounded :
    (lookups : List (Lookup × String)) (c : KeyCache)
    → IsBounded c
    → IsBounded (find_keys lookups c)
unfolding find_keys
find_keys-IsBounded [] c h = h
find_keys-IsBounded ((l, kid) ∷ rest) c h =
    find_keys-IsBounded rest (find_key l kid c).1.1 (find-IsBounded l kid c h)

-- However many tokens with key ids that do not exist are checked, at any instants and with any
-- answers of the authentication center: the cache remembers at most 256 of them.
pub unknown_kids_bounded :
    (lookups : List (Lookup × String)) → length (find_keys lookups empty).unknown_kids ≤ 256
unknown_kids_bounded lookups = find_keys-IsBounded lookups empty (omega arith)
