-- ===== src/Auth/Sessions/Spec.antt =====
-- control_plane/auth_store.py: what the sessions promise, on a map from session ids, and the calls.
use auto_x.Prelude.{
  ℕ, ◌+◌, String, Bool, true, false, ◌&&◌, Option, none, some, List, [], ◌∷◌, str_eq, ltb, ◌==◌,
  if◌then◌else◌, Instant,
}
use auto_x.Auth.{Admin, Cache, SessionDb}
use auto_x.Auth.Sessions.{
  create_user_session, active_admin, validate_user_session, revoke_session, revoke_admin_sessions,
  cleanup_sessions,
}

-- A session that nobody has revoked.
pub record Login : Type 0 where
  pub jti : String
  pub admin_id : ℕ
  pub expires_at : Instant

abbrev pub Logins : Type 0
Logins = String → Option Login

pub data Call : Type 0 where
  -- An administrator logs in: the instant, the two identifiers, the administrator, the lifetime.
  creates : Instant → String → String → ℕ → ℕ → Call
  -- A check of a token, with or without Redis, on the administrators as they are then.
  checks : Instant → Bool → List Admin → String → String → ℕ → Call
  -- A logout, with or without Redis, and one of all sessions of an administrator.
  revokes : Instant → Bool → String → String → Call
  revokes_all : Instant → Instant → Bool → ℕ → String → Call
  cleans : Instant → Call

pub record State : Type 0 where
  pub db : SessionDb
  pub cache : Cache

abbrev pub empty : State
empty = record { db = record { sessions = []; revocations = [] }; cache = [] }

abbrev pub reached : Bool → Cache → Option Cache
reached true cache = some cache
reached false cache = none

-- What a call leaves of the cache: what it wrote, where it reached it.
abbrev pub with_cache : Cache → SessionDb × Option Cache → State
with_cache old (db, none) = record { db = db; cache = old }
with_cache old (db, some cache) = record { db = db; cache = cache }

unfoldable pub step : Call → State → State
step (creates now sid jti admin_id lifetime) s = record s {
  db = create_user_session now sid jti admin_id lifetime s.db;
}
step (checks now redis admins sid jti admin_id) s = record s {
  db = (validate_user_session now admins (reached redis s.cache) sid jti admin_id s.db).1;
}
step (revokes now redis sid reason) s =
    with_cache s.cache (revoke_session now sid reason (s.db, reached redis s.cache)).1
step (revokes_all now later redis admin_id reason) s =
    with_cache s.cache
      (revoke_admin_sessions now later admin_id reason (s.db, reached redis s.cache)).1
step (cleans now) s = record s { db = cleanup_sessions now s.db }

unfoldable pub run : List Call → State → State
run [] s = s
run (c ∷ cs) s = run cs (step c s)

-- The same calls on the map.
abbrev pub set_login : String → Option Login → Logins → Logins
set_login sid login logins s = if str_eq sid s then login else logins s

abbrev pub without_admin : Instant → ℕ → Option Login → Option Login
without_admin now admin_id none = none
without_admin now admin_id (some login) =
    if (login.admin_id == admin_id) && ltb now login.expires_at then none else some login

abbrev pub replay : Call → Logins → Logins
replay (creates now sid jti admin_id lifetime) logins =
    set_login sid (some (record { jti = jti; admin_id = admin_id; expires_at = now + lifetime }))
      logins
replay (checks now redis admins sid jti admin_id) logins = logins
replay (revokes now redis sid reason) logins = set_login sid none logins
replay (revokes_all now later redis admin_id reason) logins =
    λ s. without_admin now admin_id (logins s)
replay (cleans now) logins = logins

abbrev pub replay_all : List Call → Logins → Logins
replay_all [] logins = logins
replay_all (c ∷ cs) logins = replay_all cs (replay c logins)

-- Whom a token is good for: the session is there, of this token and administrator, not expired, and
-- the administrator is active.
abbrev pub answer_of : Instant → List Admin → String → ℕ → Option Login → Option Admin
answer_of now admins jti admin_id none = none
answer_of now admins jti admin_id (some login) =
    if str_eq login.jti jti && ((login.admin_id == admin_id) && ltb now login.expires_at)
    then active_admin admin_id admins
    else none

abbrev pub instant_of : Call → Instant
instant_of (creates now sid jti admin_id lifetime) = now
instant_of (checks now redis admins sid jti admin_id) = now
instant_of (revokes now redis sid reason) = now
instant_of (revokes_all now later redis admin_id reason) = now
instant_of (cleans now) = now
