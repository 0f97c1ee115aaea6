-- ===== src/Auth/Sessions/RevokedAll.antt =====
-- control_plane/auth_store.py: a logout of all sessions keeps the states that calls reach.
use auto_x.Prelude.{
  ℕ, ◌≤◌, String, ◌≡◌, refl, sym, subst, ◌⊎◌, inl, inr, Bool, true, false, none, some, List, [],
  ◌∷◌, arith, str_eq, eq_iff, Bool-cases, is_some, where_true, any_true, Instant, IsKeyed-update,
  find-where_true,
}
use auto_x.Auth.{Session, Cache, SessionDb, has_sid, session_by_sid, is_denied}
use auto_x.Auth.Sessions.{
  revoked, is_open_of, revoke_admin_sessions_in_transaction, cache_revoked, cache_revoked_sessions,
  revoke_admin_sessions,
}
use auto_x.Auth.Sessions.Rows.{sid_of, mapped, revoked_if, row-revoke_admin}
use auto_x.Auth.Sessions.Spec.{Logins, revokes_all, State, with_cache, step, replay, without_admin}
use auto_x.Auth.Sessions.Live.{Agrees, ended, Agrees-later, Agrees-revoke_admin}
use auto_x.Auth.Sessions.Denied.{in_cache, deny_all_new, cache_new}
use auto_x.Auth.Sessions.Reachable.{Good, Shrinks, Shrinks-mapped, Good-Shrinks}

if_jti :
    (p : Session → Bool) (now : Instant) (reason : String) (r : Session)
    → (revoked_if p now reason r).jti ≡ r.jti
if_jti p now reason r = elim (Bool-cases (p r)) [ inl e ↦ rw e refl | inr e ↦ rw e refl ]

if_kept :
    (p : Session → Bool) (now : Instant) (reason : String) (r : Session)
    → is_some r.revoked_at ≡ true
    → is_some (revoked_if p now reason r).revoked_at ≡ true
if_kept p now reason r h = elim (Bool-cases (p r)) [ inl e ↦ rw e refl | inr e ↦ rw e h ]

-- An open row that the query found is revoked.
if_own :
    (p : Session → Bool) (now : Instant) (reason : String) (r : Session)
    → p r ≡ true
    → ended (mapped (revoked_if p now reason) (some r)) ≡ true
if_own p now reason r h = rw h refl

module _ (t now : Instant) (admin_id : ℕ) (reason : String) (s : State) (logins : Logins)
    (cache' : Cache) (later : t ≤ now) (g : Good t s logins)
    (wrote : (x : String)
      → in_cache x cache' ≡ true
      → (in_cache x s.cache ≡ true)
        ⊎ (any_true (has_sid x) (where_true (is_open_of now admin_id) s.db.sessions) ≡ true)) where
  db' : SessionDb
  db' = (revoke_admin_sessions_in_transaction now admin_id reason s.db).1

  row_after :
      (x : String)
      → session_by_sid x db'
        ≡ mapped (revoked_if (is_open_of now admin_id) now reason) (session_by_sid x s.db)
  unfolding db'
  row_after x = row-revoke_admin now admin_id reason s.db x

  found_ended :
      (r : Session)
      → session_by_sid r.sid s.db ≡ some r
      → is_open_of now admin_id r ≡ true
      → ended (session_by_sid r.sid db') ≡ true
  found_ended r there is_open =
      rw (row_after r.sid, there) (if_own (is_open_of now admin_id) now reason r is_open)

  cached_after :
      (x : String)
      → in_cache x cache' ≡ true
      → (in_cache x s.cache ≡ true) ⊎ (ended (session_by_sid x db') ≡ true)
  cached_after x h = elim (wrote x h) [
    | inl old ↦ inl old
    | inr new ↦
        let (r, there, is_open, same) =
          find-where_true sid_of (is_open_of now admin_id) (has_sid x) s.db.sessions g.table new in
        inr (
          subst (λ y. ended (session_by_sid y db') ≡ true) ((eq_iff r.sid x).0 same)
            (found_ended r there is_open))
  ]

  shrinks : Shrinks s.db db'
  shrinks =
      Shrinks-mapped s.db db' (revoked_if (is_open_of now admin_id) now reason) row_after
        (if_jti (is_open_of now admin_id) now reason) (if_kept (is_open_of now admin_id) now reason)

  denied_after :
      (x j : String) (r : Session)
      → is_denied j db' ≡ true
      → session_by_sid x db' ≡ some r
      → str_eq r.jti j ≡ true
      → (is_denied j s.db ≡ true) ⊎ (is_some r.revoked_at ≡ true)
  unfolding db' revoke_admin_sessions_in_transaction
  denied_after x j r h here e =
      elim (deny_all_new now reason (where_true (is_open_of now admin_id) s.db.sessions)
        s.db.revocations j h) [
          | inl old ↦ inl old
          | inr new ↦
              let (row, there, is_open, own) =
                find-where_true sid_of (is_open_of now admin_id) (λ (q : Session). str_eq q.jti j)
                  s.db.sessions g.table new in
              let (r0, before, same, kept) = shrinks x r here in
              let one : row.sid ≡ x =
                g.tokens row.sid x row r0 there before
                  (ground (arith, eq_iff row.jti j, eq_iff r.jti j, eq_iff row.jti r0.jti, same)) in
              inr (
                rw here at (
                  subst (λ y. ended (session_by_sid y db') ≡ true) one
                    (found_ended row there is_open)))
        ]

  pub Good-revoke_rows :
      Good now
        (record {
          db = (revoke_admin_sessions_in_transaction now admin_id reason s.db).1;
          cache = cache';
        })
        (λ x. without_admin now admin_id (logins x))
  unfolding db' revoke_admin_sessions_in_transaction
  Good-revoke_rows =
      Good-Shrinks t now s (record { db = db'; cache = cache' }) logins
        (λ x. without_admin now admin_id (logins x)) g shrinks
        (IsKeyed-update sid_of (is_open_of now admin_id) (revoked now reason) s.db.sessions
          (λ r. refl) g.table)
        (λ x.
          subst (λ o. Agrees now o (without_admin now admin_id (logins x))) (sym (row_after x))
            (Agrees-revoke_admin now admin_id reason (session_by_sid x s.db) (logins x)
              (Agrees-later t now (session_by_sid x s.db) (logins x) later (g.agrees x))))
        cached_after denied_after

cache_stays : (now : Instant) (rows : List Session) → cache_revoked_sessions now rows none ≡ none
unfolding cache_revoked_sessions
cache_stays now [] = refl
cache_stays now (row ∷ rows) = cache_stays now rows

cache_written :
    (now : Instant) (rows : List Session) (cache : Cache)
    → (cache' : Cache) × (cache_revoked_sessions now rows (some cache) ≡ some cache')
unfolding cache_revoked_sessions
cache_written now [] cache = (cache, refl)
cache_written now (row ∷ rows) cache =
    cache_written now rows (cache_revoked now row.sid row.expires_at cache)

pub Good-revokes_all :
    (t now later : Instant) (redis : Bool) (admin_id : ℕ) (reason : String) (s : State)
    (logins : Logins)
    → t ≤ now
    → Good t s logins
    → Good now
        (step (revokes_all now later redis admin_id reason) s)
        (replay (revokes_all now later redis admin_id reason) logins)
unfolding step revoke_admin_sessions revoke_admin_sessions_in_transaction
Good-revokes_all t now later true admin_id reason s logins h g =
    let rows = where_true (is_open_of now admin_id) s.db.sessions in
    let (cache', wrote) = cache_written later rows s.cache in
    subst
      (λ o.
        Good now
          (with_cache s.cache
            ((revoke_admin_sessions_in_transaction now admin_id reason s.db).1, o))
          (λ x. without_admin now admin_id (logins x)))
      (sym wrote)
      (Good-revoke_rows t now admin_id reason s logins cache' h g
        (λ x k. cache_new later rows s.cache cache' x wrote k))
Good-revokes_all t now later false admin_id reason s logins h g =
    subst
      (λ o.
        Good now
          (with_cache s.cache
            ((revoke_admin_sessions_in_transaction now admin_id reason s.db).1, o))
          (λ x. without_admin now admin_id (logins x)))
      (sym (cache_stays later (where_true (is_open_of now admin_id) s.db.sessions)))
      (Good-revoke_rows t now admin_id reason s logins s.cache h g (λ x k. inl k))
