-- ===== src/Auth/Sessions/Live.antt =====
-- control_plane/auth_store.py: which sessions are live, before and after each call.
use auto_x.Prelude.{
  ℕ, ◌≤◌, String, ◌≡◌, refl, inl, inr, Bool, true, ◌&&◌, Option, none, some, List, arith, ltb,
  if◌then◌else◌, Bool-cases, is_none, is_some, Instant, keep_if,
}
use auto_x.Auth.{Admin, Session}
use auto_x.Auth.Sessions.{is_open_of, seen_at}
use auto_x.Auth.Sessions.Rows.{mapped, revoked_if, unexpired}
use auto_x.Auth.Sessions.Spec.{Login, without_admin, answer_of}

abbrev pub login_of : Session → Login
login_of row = record { jti = row.jti; admin_id = row.admin_id; expires_at = row.expires_at }

-- What a row is good for at an instant, and what an entry of the map is.
abbrev pub live : Instant → Option Session → Option Login
live now none = none
live now (some row) =
    if is_none row.revoked_at && ltb now row.expires_at then some (login_of row) else none

abbrev pub alive : Instant → Option Login → Option Login
alive now none = none
alive now (some login) = if ltb now login.expires_at then some login else none

-- The two agree from an instant on.
abbrev pub Agrees : Instant → Option Session → Option Login → Type 0
Agrees t row login = (now : Instant) → t ≤ now → live now row ≡ alive now login

abbrev pub ended : Option Session → Bool
ended none = true
ended (some row) = is_some row.revoked_at

pub ended-live : (now : Instant) (o : Option Session) → ended o ≡ true → live now o ≡ none
ended-live now none h = refl
ended-live now (some row) h = ground arith

pub Agrees-later :
    (t t' : Instant) (row : Option Session) (login : Option Login)
    → t ≤ t'
    → Agrees t row login
    → Agrees t' row login
Agrees-later t t' row login h a = λ now k. a now (omega arith)

pub Agrees-seen :
    (t now : Instant) (f : Session → Bool) (row : Option Session) (login : Option Login)
    → Agrees t row login
    → Agrees t (mapped (λ r. if f r then seen_at now r else r) row) login
Agrees-seen t now f none login a = a
Agrees-seen t now f (some row) login a = elim (Bool-cases (f row)) [
  | inl e ↦ rw e a
  | inr e ↦ rw e a
]

pub Agrees-cleanup :
    (t : Instant) (row : Option Session) (login : Option Login)
    → Agrees t row login
    → Agrees t (keep_if (unexpired t) row) login
Agrees-cleanup t none login a = a
Agrees-cleanup t (some row) login a = λ now h. ground (arith, a now h)

open_case :
    (t now : Instant) (admin_id : ℕ) (reason : String) (row : Session) (login : Option Login)
    → t ≤ now
    → live t (some row) ≡ alive t login
    → live now (some row) ≡ alive now login
    → live now (some (revoked_if (is_open_of t admin_id) t reason row))
      ≡ alive now (without_admin t admin_id login)
unfolding is_open_of
open_case t now admin_id reason row none h at_t at_now = ground arith
open_case t now admin_id reason row (some login) h at_t at_now = grind arith

pub Agrees-revoke_admin :
    (t : Instant) (admin_id : ℕ) (reason : String) (row : Option Session) (login : Option Login)
    → Agrees t row login
    → Agrees t
        (mapped (revoked_if (is_open_of t admin_id) t reason) row)
        (without_admin t admin_id login)
Agrees-revoke_admin t admin_id reason none none a = λ now h. refl
Agrees-revoke_admin t admin_id reason none (some login) a =
    λ now h. ground (arith, a t (omega arith), a now h)
Agrees-revoke_admin t admin_id reason (some row) login a =
    λ now h. open_case t now admin_id reason row login h (a t (omega arith)) (a now h)

-- The answer to a token depends on what is alive only.
pub answer_of-alive :
    (now : Instant) (admins : List Admin) (jti : String) (admin_id : ℕ) (login : Option Login)
    → answer_of now admins jti admin_id login ≡ answer_of now admins jti admin_id (alive now login)
answer_of-alive now admins jti admin_id none = refl
answer_of-alive now admins jti admin_id (some login) = ground arith
