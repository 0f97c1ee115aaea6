-- ===== src/Auth/Sessions/Steps.antt =====
-- control_plane/auth_store.py: each call keeps the states that calls reach.
use auto_x.Prelude.{
  ℕ, ◌≤◌, String, ◌≡◌, refl, sym, ap, ◌∙◌, subst, inl, inr, Bool, true, not, List, [], ◌∷◌, arith,
  leb, if◌then◌else◌, Bool-cases, is_some, where_true, Instant, IsKeyed-where,
}
use auto_x.Auth.{Admin, Session, Revocation, session_by_sid}
use auto_x.Auth.Sessions.{validate_user_session, cleanup_sessions, seen_at}
use auto_x.Auth.Sessions.Rows.{sid_of, unexpired, row-cleanup, Seen-validate}
use auto_x.Auth.Sessions.Spec.{Logins, checks, cleans, State, reached, step}
use auto_x.Auth.Sessions.Live.{Agrees, Agrees-later, Agrees-seen, Agrees-cleanup}
use auto_x.Auth.Sessions.Denied.{on_list}
use auto_x.Auth.Sessions.Reachable.{Good, Shrinks-mapped, Shrinks-cleanup, Good-Shrinks}

seen_jti :
    (f : Session → Bool) (now : Instant) (r : Session)
    → (if f r then seen_at now r else r).jti ≡ r.jti
seen_jti f now r = elim (Bool-cases (f r)) [ inl e ↦ rw e refl | inr e ↦ rw e refl ]

seen_revoked :
    (f : Session → Bool) (now : Instant) (r : Session)
    → (if f r then seen_at now r else r).revoked_at ≡ r.revoked_at
seen_revoked f now r = elim (Bool-cases (f r)) [ inl e ↦ rw e refl | inr e ↦ rw e refl ]

pub Good-checks :
    (t now : Instant) (redis : Bool) (admins : List Admin) (sid jti : String) (admin_id : ℕ)
    (s : State) (logins : Logins)
    → t ≤ now
    → Good t s logins
    → Good now (step (checks now redis admins sid jti admin_id) s) logins
unfolding step
Good-checks t now redis admins sid jti admin_id s logins h g =
    let (f, rows, revs, table) =
      Seen-validate now admins (reached redis s.cache) sid jti admin_id s.db in
    let db' = (validate_user_session now admins (reached redis s.cache) sid jti admin_id s.db).1 in
    Good-Shrinks t now s (record s { db = db' }) logins logins g
      (Shrinks-mapped s.db db' (λ r. if f r then seen_at now r else r) rows (seen_jti f now)
        (λ r w. ap is_some (seen_revoked f now r) ∙ w))
      (table g.table)
      (λ x.
        subst (λ o. Agrees now o (logins x)) (sym (rows x))
          (Agrees-seen now now f (session_by_sid x s.db) (logins x)
            (Agrees-later t now (session_by_sid x s.db) (logins x) h (g.agrees x))))
      (λ x k. inl k) (λ x j r k there e. inl (subst (λ revs. on_list j revs ≡ true) revs k))

pub Good-cleans :
    (t now : Instant) (s : State) (logins : Logins)
    → t ≤ now
    → Good t s logins
    → Good now (step (cleans now) s) logins
unfolding step cleanup_sessions
Good-cleans t now s logins h g =
    Good-Shrinks t now s (record s { db = cleanup_sessions now s.db }) logins logins g
      (Shrinks-cleanup now s.db g.table)
      (IsKeyed-where sid_of (unexpired now) s.db.sessions g.table)
      (λ x.
        subst (λ o. Agrees now o (logins x)) (sym (row-cleanup now s.db x g.table))
          (Agrees-cleanup now (session_by_sid x s.db) (logins x)
            (Agrees-later t now (session_by_sid x s.db) (logins x) h (g.agrees x))))
      (λ x k. inl k) (λ x j r k there e. inl (kept_denied j s.db.revocations k))
  where
    kept_denied :
        (j : String) (revs : List Revocation)
        → on_list j (where_true (λ (r : Revocation). not (leb r.expires_at now)) revs) ≡ true
        → on_list j revs ≡ true
    kept_denied j [] k = k
    kept_denied j (r ∷ revs) k = ground (arith, kept_denied j revs)
