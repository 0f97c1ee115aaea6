-- ===== src/Auth/Tokens.antt =====
-- control_plane/auth_store.py: the check of a token and the start of a replica, which join sessions,
-- keys and clients. A token is what PyJWT makes of it: the key id of its header, and the claims that
-- it yields under a public key with the audience and the issuer of users.
use auto_x.Prelude.{
  ℕ, zero, suc, ◌+◌, ◌-◌, ◌*◌, ◌/◌, ◌%◌, ◌^◌, ◌≤◌, ◌<◌, min, max, String, ◌≡◌, refl, sym, ap, ◌∙◌,
  subst, ◌≢◌, ◌↔◌, ◌⊎◌, inl, inr, Bool, true, false, not, ◌&&◌, ◌||◌, Option, none, some, List, [],
  ◌∷◌, ◌++◌, map, append-nil, append_assoc, Mem, mem-cons_self, mem-cons_of_mem, arith, str_eq,
  eq_iff, ltb, leb, ◌==◌, if◌then◌else◌, ltb→lt, lt→ltb, leb→le, le→leb, ==_iff, ==_refl,
  str_eq_refl, clash, Bool-cases, Option-cases, opt_eq, is_none, is_some, opt_str_eq,
  opt_str_eq_refl, opt_str_eq→eq, truthy, or_str, &&-left, &&-right, length, take, drop,
  length-append, length-take-le, take-append-drop, length-drop, All, All-map, where_true, any_true,
  find, update, changed, find-update, find-test, find-append, any_true-append, where_true-All,
  All-where_true, Instant, seconds, days, insert_by, order_by, order_by-All, length-order_by,
  take-All, IsSorted, order_by-IsSorted, IsSorted-limit, any_true-order_by, find-written,
  update-twice, keep_if, by_key, has_key_in, IsKeyed, find_absent, find-and, find-where,
  IsKeyed-where, IsKeyed-append, has_key_in-update, IsKeyed-update, find-present, find-where_true,
  has_key_in-find, truncate, All-snoc, All-update, find-All,
}
use auto_x.Auth.{Admin, Cache, SessionDb}
use auto_x.Auth.Sessions.{validate_user_session}
use auto_x.Auth.Keys.{
  SigningKey, SigningMaterial, NewKey, ensure_active_signing_key, verifies, key_by_kid,
}
use auto_x.Auth.Clients.{
  ClientDb, LegacyClient, bootstrap_legacy_clients, bootstrap_xhs_result_grant,
}
pub mod Accepted
pub mod Started
mod Examples

-- `uid` is what `int` makes of the claim, `none` for an error, and for a negative number, an id that
-- no row has; `scopes` are the words of the claim.
pub record Claims : Type 0 where
  pub kind : String
  pub kid : String
  pub scopes : List String
  pub sid : String
  pub jti : String
  pub uid : Option ℕ

abbrev pub is_word : String → String → Bool
is_word word w = str_eq w word

-- The tests on the claims that follow `jwt.decode`.
unfoldable pub is_user : String → Claims → Bool
is_user kid claims =
    str_eq claims.kind "user" && (str_eq claims.kid kid && any_true (is_word "admin") claims.scopes)

abbrev pub with_claims : Claims → Option Admin × SessionDb → Option (Claims × Admin) × SessionDb
with_claims claims (none, db) = (none, db)
with_claims claims (some admin, db) = (some (claims, admin), db)

-- The session of the claims, for `int` that does not fail.
unfoldable pub validate_claims :
    Instant
    → List Admin
    → Option Cache
    → Claims
    → Option ℕ
    → SessionDb
    → Option (Claims × Admin) × SessionDb
validate_claims now admins redis claims none db = (none, db)
validate_claims now admins redis claims (some uid) db =
    with_claims claims (validate_user_session now admins redis claims.sid claims.jti uid db)

unfoldable pub check_claims :
    Instant
    → List Admin
    → Option Cache
    → String
    → Option Claims
    → SessionDb
    → Option (Claims × Admin) × SessionDb
check_claims now admins redis kid none db = (none, db)
check_claims now admins redis kid (some claims) db =
    if is_user kid claims then validate_claims now admins redis claims claims.uid db else (none, db)

abbrev pub public_key_of : Option SigningKey → String
public_key_of none = ""
public_key_of (some key) = key.public_key_pem

unfoldable pub check_kid :
    (String → Option Claims)
    → Instant
    → Instant
    → List Admin
    → Option Cache
    → Option String
    → List SigningKey
    → SessionDb
    → Option (Claims × Admin) × SessionDb
check_kid decode now later admins redis none keys db = (none, db)
check_kid decode now later admins redis (some kid) keys db =
    if verifies now (key_by_kid kid keys)
    then check_claims later admins redis kid (decode (public_key_of (key_by_kid kid keys))) db
    else (none, db)

-- The key is read at one instant, the session at a later one.
unfoldable pub decode_and_validate_user_token :
    (String → Option String)
    → (String → String → Option Claims)
    → Instant
    → Instant
    → List Admin
    → Option Cache
    → String
    → List SigningKey
    → SessionDb
    → Option (Claims × Admin) × SessionDb
decode_and_validate_user_token header_kid decode now later admins redis token keys db =
    check_kid (decode token) now later admins redis (header_kid token) keys db

-- What a replica brings to its start: the key it would make, the files with their hashes, whether
-- the database fails in the transaction of the grant, and for which key id
-- `_retire_legacy_private_key` returns; it raises for a file that it can neither load nor skip.
pub record Replica : Type 0 where
  pub decrypt : String → String → Option String
  pub rotation_after : ℕ
  pub overlap : ℕ
  pub new_key : NewKey
  pub label : String
  pub clients_file : Option (String × List LegacyClient)
  pub grant_source : String
  pub grant_fails : Bool
  pub retires : String → Bool

-- Each transaction that raises is rolled back and ends the start; the earlier ones stay.
abbrev pub grant_after :
    Instant
    → Replica
    → SigningMaterial
    → List SigningKey
    → ClientDb
    → Option ClientDb
    → Bool × (List SigningKey × ClientDb)
grant_after now r m keys db none = (false, (keys, db))
grant_after now r m keys db (some db') =
    if r.grant_fails
    then (false, (keys, db'))
    else (r.retires m.kid, (keys, bootstrap_xhs_result_grant now r.grant_source db'))

abbrev pub start_after :
    Instant
    → Replica
    → List SigningKey
    → ClientDb
    → Option (SigningMaterial × List SigningKey)
    → Bool × (List SigningKey × ClientDb)
start_after now r keys db none = (false, (keys, db))
start_after now r keys db (some (m, keys')) =
    grant_after now r m keys' db (bootstrap_legacy_clients now r.label r.clients_file db)

unfoldable pub initialize :
    Instant → Replica → List SigningKey × ClientDb → Bool × (List SigningKey × ClientDb)
initialize now r (keys, db) =
    start_after now r keys db
      (ensure_active_signing_key r.decrypt r.rotation_after r.overlap now false r.new_key keys)
