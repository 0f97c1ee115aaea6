-- ===== src/AuthClient.antt =====
-- services/auth_center.py: the cache of public keys of the backend, and the key ids it does not know.
-- What the authentication center answers is an argument: `none` for each error that is raised.
use auto_x.Prelude.{
  ℕ, ◌+◌, min, max, String, Bool, true, false, not, ◌&&◌, ◌||◌, Option, none, some, List, [], ◌∷◌,
  str_eq, ltb, leb, if◌then◌else◌, length, where_true, any_true, find, Instant, seconds,
}
pub mod Bounds
pub mod Cooldown
mod Examples

pub record Key : Type 0 where
  pub kid : String
  pub public_key : String

pub record UnknownKid : Type 0 where
  pub kid : String
  pub expires_at : Instant

pub record KeyCache : Type 0 where
  pub keys : List Key
  pub keys_expire_at : Instant
  pub unknown_kids : List UnknownKid
  pub unknown_refresh_allowed_at : Instant

-- An answer with at least one key, when it came (and was stored, at once), and the lifetime that its
-- headers allow.
pub record Fetched : Type 0 where
  pub keys : List Key
  pub refreshed_at : Instant
  pub ttl : ℕ

abbrev pub unknown_kid_refresh_cooldown : ℕ
unknown_kid_refresh_cooldown = seconds 5

abbrev pub unknown_kid_cache_max_entries : ℕ
unknown_kid_cache_max_entries = 256

abbrev pub is_key : String → Key → Bool
is_key kid key = str_eq key.kid kid

abbrev pub is_unknown : String → UnknownKid → Bool
is_unknown kid u = str_eq u.kid kid

abbrev pub lives : Instant → UnknownKid → Bool
lives now u = ltb now u.expires_at

abbrev pub negative_until : String → List UnknownKid → Instant
negative_until kid unknown_kids = elim (find (is_unknown kid) unknown_kids) [
  | none ↦ 0
  | some u ↦ u.expires_at
]

-- `self._unknown_kids[kid] = expires_at` of a dict.
unfoldable pub set_unknown : String → Instant → List UnknownKid → List UnknownKid
set_unknown kid expires_at [] = record { kid = kid; expires_at = expires_at } ∷ []
set_unknown kid expires_at (u ∷ us) =
    let rest = set_unknown kid expires_at us in
    if is_unknown kid u then record u { expires_at = expires_at } ∷ us else u ∷ rest

-- `self._unknown_kids.pop(next(iter(self._unknown_kids)))`.
abbrev pub without_first : List UnknownKid → List UnknownKid
without_first [] = []
without_first (u ∷ us) = us

abbrev pub room_for : String → List UnknownKid → List UnknownKid
room_for kid us =
    if not (any_true (is_unknown kid) us) && leb unknown_kid_cache_max_entries (length us)
    then without_first us
    else us

unfoldable pub remember_unknown_kid : Instant → String → KeyCache → KeyCache
remember_unknown_kid now kid c =
    let living = where_true (lives now) c.unknown_kids in
    let expires_at = min (now + unknown_kid_refresh_cooldown) c.keys_expire_at in
    record c {
      unknown_kids =
          if leb expires_at now then living else set_unknown kid expires_at (room_for kid living);
    }

-- `False`, `True`, and an error.
pub data Refresh : Type 0 where
  unchanged refreshed unavailable : Refresh

abbrev pub still_unknown : Fetched → UnknownKid → Bool
still_unknown f u = ltb f.refreshed_at u.expires_at && not (any_true (is_key u.kid) f.keys)

abbrev pub with_keys : Fetched → KeyCache → KeyCache
with_keys f c = record c {
  keys = f.keys;
  keys_expire_at = f.refreshed_at + f.ttl;
  unknown_kids = where_true (still_unknown f) c.unknown_kids;
}

abbrev pub cooling : Instant → KeyCache → KeyCache
cooling now c = record c { unknown_refresh_allowed_at = now + unknown_kid_refresh_cooldown }

-- The answer, for a request that an unknown key id caused, or none.
abbrev pub store : Option String → Fetched → KeyCache → KeyCache
store none f c = with_keys f c
store (some kid) f c =
    if any_true (is_key kid) f.keys
    then cooling f.refreshed_at (with_keys f c)
    else remember_unknown_kid f.refreshed_at kid (cooling f.refreshed_at (with_keys f c))

abbrev pub fetch : Option String → Option Fetched → KeyCache → Refresh × KeyCache
fetch unknown none c = (unavailable, c)
fetch unknown (some f) c = (refreshed, store unknown f c)

abbrev pub is_fresh : Instant → KeyCache → Bool
is_fresh now c = not (leb (length c.keys) 0) && ltb now c.keys_expire_at

abbrev pub fetch_unless :
    Bool → Instant → Option String → Option Fetched → KeyCache → Refresh × KeyCache
fetch_unless force now unknown answer c =
    if not force && is_fresh now c then (unchanged, c) else fetch unknown answer c

unfoldable pub refresh_jwks :
    Bool → Instant → Option String → Option Fetched → KeyCache → Refresh × KeyCache
refresh_jwks force now none answer c = fetch_unless force now none answer c
refresh_jwks force now (some kid) answer c =
    if ltb now (negative_until kid c.unknown_kids) || ltb now c.unknown_refresh_allowed_at
    then (unchanged, c)
    else fetch_unless force now (some kid) answer (cooling now c)

-- The end of the search in `verify_user_token` after a refresh that did not bring the key.
unfoldable pub cool_down : Instant → KeyCache → KeyCache
cool_down now c = record c {
  unknown_refresh_allowed_at =
      max c.unknown_refresh_allowed_at (now + unknown_kid_refresh_cooldown);
}

-- The answers of the two refreshes and the instants of a check.
pub record Lookup : Type 0 where
  pub now : Instant
  pub answer : Option Fetched
  pub later : Instant
  pub second_answer : Option Fetched
  pub at_end : Instant

-- Nothing is found for an unknown key, and for an error; the flag tells the error.
abbrev pub key_or_remember :
    Lookup → String → Option Key → KeyCache → Bool × (Option Key × KeyCache)
key_or_remember l kid none c = (true, (none, remember_unknown_kid l.at_end kid c))
key_or_remember l kid (some key) c = (true, (some key, c))

abbrev pub after_second : Lookup → String → Refresh × KeyCache → Bool × (Option Key × KeyCache)
after_second l kid (unavailable, c) = (false, (none, c))
after_second l kid (unchanged, c) = key_or_remember l kid (find (is_key kid) c.keys) c
after_second l kid (refreshed, c) = key_or_remember l kid (find (is_key kid) c.keys) c

abbrev pub after_hit : Lookup → String → Option Key → KeyCache → Bool × (Option Key × KeyCache)
after_hit l kid (some key) c = (true, (some key, c))
after_hit l kid none c = after_second l kid (refresh_jwks true l.later (some kid) l.second_answer c)

abbrev pub after_refresh : Lookup → String → Option Key → KeyCache → Bool × (Option Key × KeyCache)
after_refresh l kid (some key) c = (true, (some key, c))
after_refresh l kid none c = key_or_remember l kid none (cool_down l.at_end c)

abbrev pub after_first : Lookup → String → Refresh × KeyCache → Bool × (Option Key × KeyCache)
after_first l kid (unavailable, c) = (false, (none, c))
after_first l kid (unchanged, c) = after_hit l kid (find (is_key kid) c.keys) c
after_first l kid (refreshed, c) = after_refresh l kid (find (is_key kid) c.keys) c

-- `verify_user_token` up to the key of the token's header.
unfoldable pub find_key : Lookup → String → KeyCache → Bool × (Option Key × KeyCache)
find_key l kid c = after_first l kid (refresh_jwks false l.now none l.answer c)
