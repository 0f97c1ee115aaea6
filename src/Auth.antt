-- ===== src/Auth.antt =====
-- control_plane/auth_store.py: the tables of the authentication center (models/service_auth.py) and
-- their queries. Signatures and encryption are outside: a token is what jwt.decode makes of it.
use auto_x.Prelude.{ℕ, String, Bool, Option, List, str_eq, ◌==◌, any_true, find, Instant}
pub mod Sessions
pub mod Clients
pub mod Keys
pub mod Tokens
mod Examples

pub record Admin : Type 0 where
  pub id : ℕ
  pub is_active : Bool

pub record Session : Type 0 where
  pub sid : String
  pub admin_id : ℕ
  pub jti : String
  pub expires_at : Instant
  pub revoked_at : Option Instant
  pub revoke_reason : Option String
  pub created_at : Instant
  pub last_seen_at : Option Instant

pub record Revocation : Type 0 where
  pub jti : String
  pub sid : String
  pub expires_at : Instant
  pub revoked_at : Instant
  pub reason : String

-- The key `xsentinel:auth:session:{sid}` with the value "revoked", which Redis drops at an instant.
pub record CacheEntry : Type 0 where
  pub sid : String
  pub until : Instant

abbrev pub Cache : Type 0
Cache = List CacheEntry

pub record SessionDb : Type 0 where
  pub sessions : List Session
  pub revocations : List Revocation

abbrev pub has_sid : String → Session → Bool
has_sid sid row = str_eq row.sid sid

abbrev pub has_jti : String → Revocation → Bool
has_jti jti row = str_eq row.jti jti

abbrev pub has_admin_id : ℕ → Admin → Bool
has_admin_id admin_id admin = admin.id == admin_id

-- `session.get(ServiceAuthSession, sid)` and `session.get(ServiceAuthRevocation, jti)`.
abbrev pub session_by_sid : String → SessionDb → Option Session
session_by_sid sid db = find (has_sid sid) db.sessions

abbrev pub is_denied : String → SessionDb → Bool
is_denied jti db = any_true (has_jti jti) db.revocations
