-- ===== src/Auth/Sessions.antt =====
-- control_plane/auth_store.py: the sessions of administrators.
use auto_x.Prelude.{
  ℕ, ◌+◌, ◌-◌, ◌/◌, max, String, Bool, true, false, not, ◌&&◌, ◌||◌, Option, none, some, List, [],
  ◌∷◌, ◌++◌, map, str_eq, ltb, leb, ◌==◌, if◌then◌else◌, is_none, is_some, where_true, any_true,
  find, update, Instant, seconds,
}
use auto_x.Auth.{
  Admin, Session, Revocation, CacheEntry, Cache, SessionDb, has_sid, has_jti, has_admin_id,
  session_by_sid, is_denied,
}
pub mod Rows
pub mod Spec
pub mod Live
pub mod Denied
pub mod Reachable
pub mod Steps
pub mod Created
pub mod Revoked
pub mod RevokedAll
pub mod Refinement

-- `create_user_session`; the two identifiers are what `uuid4` returns.
unfoldable pub create_user_session : Instant → String → String → ℕ → ℕ → SessionDb → SessionDb
create_user_session now sid jti admin_id lifetime db = record db {
  sessions =
      db.sessions
      ++ record {
        sid = sid;
        admin_id = admin_id;
        jti = jti;
        expires_at = now + lifetime;
        revoked_at = none;
        revoke_reason = none;
        created_at = now;
        last_seen_at = none;
      }
        ∷ [];
}

-- The WHERE clause of `validate_user_session`.
unfoldable pub validates : Instant → String → String → ℕ → Session → Bool
validates now sid jti admin_id row =
    has_sid sid row
    && (str_eq row.jti jti
        && ((row.admin_id == admin_id) && (is_none row.revoked_at && ltb now row.expires_at)))

-- Redis answers "revoked" for the session. With no Redis, or one that fails, the answer is not used.
abbrev pub is_cached : Instant → String → Option Cache → Bool
is_cached now sid none = false
is_cached now sid (some cache) =
    any_true (λ (e : CacheEntry). str_eq e.sid sid && ltb now e.until) cache

abbrev pub active_admin : ℕ → List Admin → Option Admin
active_admin admin_id admins = elim (find (has_admin_id admin_id) admins) [
  | none ↦ none
  | some admin ↦ if admin.is_active then some admin else none
]

abbrev pub seen_at : Instant → Session → Session
seen_at now row = record row { last_seen_at = some now }

unfoldable pub admit :
    Instant → String → String → ℕ → Option Admin → SessionDb → Option Admin × SessionDb
admit now sid jti admin_id none db = (none, db)
admit now sid jti admin_id (some admin) db = (
  some admin,
  record db { sessions = update (validates now sid jti admin_id) (seen_at now) db.sessions },
)

unfoldable pub validate_user_session :
    Instant → List Admin → Option Cache → String → String → ℕ → SessionDb → Option Admin × SessionDb
validate_user_session now admins redis sid jti admin_id db =
    if is_cached now sid redis
    then (none, db)
    else if is_none (find (validates now sid jti admin_id) db.sessions) || is_denied jti db
    then (none, db)
    else admit now sid jti admin_id (active_admin admin_id admins) db

abbrev pub revoked : Instant → String → Session → Session
revoked now reason row = record row { revoked_at = some now; revoke_reason = some reason }

-- INSERT … ON CONFLICT (jti) DO NOTHING.
unfoldable pub deny : Instant → String → Session → List Revocation → List Revocation
deny now reason row revocations =
    if any_true (has_jti row.jti) revocations
    then revocations
    else revocations
      ++ record {
        jti = row.jti;
        sid = row.sid;
        expires_at = row.expires_at;
        revoked_at = now;
        reason = reason;
      }
        ∷ []

-- The time to live is the whole seconds up to the expiry, and at least one.
unfoldable pub cache_revoked : Instant → String → Instant → Cache → Cache
cache_revoked now sid expires_at cache =
    record { sid = sid; until = now + seconds (max 1 ((expires_at - now) / 1000000)) } ∷ cache

unfoldable pub revoke_row : Instant → String → Session → SessionDb → SessionDb
revoke_row now reason row db = if is_some row.revoked_at then db else record {
  sessions = update (has_sid row.sid) (revoked now reason) db.sessions;
  revocations = deny now reason row db.revocations;
}

abbrev pub cache_one : Instant → String → Instant → Option Cache → Option Cache
cache_one now sid expires_at none = none
cache_one now sid expires_at (some cache) = some (cache_revoked now sid expires_at cache)

unfoldable pub revoke_session :
    Instant → String → String → SessionDb × Option Cache → Bool × (SessionDb × Option Cache)
revoke_session now sid reason (db, redis) = elim (session_by_sid sid db) [
  | none ↦ (false, (db, redis))
  | some row ↦ (true, (revoke_row now reason row db, cache_one now sid row.expires_at redis))
]

-- The WHERE clause of `revoke_admin_sessions_in_transaction`.
unfoldable pub is_open_of : Instant → ℕ → Session → Bool
is_open_of now admin_id row =
    (row.admin_id == admin_id) && (is_none row.revoked_at && ltb now row.expires_at)

unfoldable pub deny_all : Instant → String → List Session → List Revocation → List Revocation
deny_all now reason [] revocations = revocations
deny_all now reason (row ∷ rows) revocations =
    deny_all now reason rows (deny now reason row revocations)

unfoldable pub revoke_admin_sessions_in_transaction :
    Instant → ℕ → String → SessionDb → List Session × SessionDb
revoke_admin_sessions_in_transaction now admin_id reason db =
    let rows = where_true (is_open_of now admin_id) db.sessions in
    (
      rows,
      record {
        sessions = update (is_open_of now admin_id) (revoked now reason) db.sessions;
        revocations = deny_all now reason rows db.revocations;
      },
    )

unfoldable pub cache_revoked_sessions : Instant → List Session → Option Cache → Option Cache
cache_revoked_sessions now [] redis = redis
cache_revoked_sessions now (row ∷ rows) redis =
    cache_revoked_sessions now rows (cache_one now row.sid row.expires_at redis)

-- The two instants are those of the transaction and of the writes to the cache.
unfoldable pub revoke_admin_sessions :
    Instant
    → Instant
    → ℕ
    → String
    → SessionDb × Option Cache
    → List String × (SessionDb × Option Cache)
revoke_admin_sessions now later admin_id reason (db, redis) =
    let (rows, db') = revoke_admin_sessions_in_transaction now admin_id reason db in
    (map (λ (r : Session). r.sid) rows, (db', cache_revoked_sessions later rows redis))

-- `cleanup_expired` on the sessions and the deny-list.
unfoldable pub cleanup_sessions : Instant → SessionDb → SessionDb
cleanup_sessions now db = record {
  sessions = where_true (λ (r : Session). not (leb r.expires_at now)) db.sessions;
  revocations = where_true (λ (r : Revocation). not (leb r.expires_at now)) db.revocations;
}
