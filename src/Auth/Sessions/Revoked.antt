-- ===== src/Auth/Sessions/Revoked.antt =====
-- control_plane/auth_store.py: a logout keeps the states that calls reach.
use auto_x.Prelude.{
  ◌≤◌, String, ◌≡◌, refl, sym, ap, ◌∙◌, subst, ◌⊎◌, inl, inr, Bool, true, false, not, ◌&&◌, Option,
  none, some, arith, str_eq, eq_iff, if◌then◌else◌, str_eq_refl, Bool-cases, Option-cases, is_some,
  find-test, Instant, IsKeyed-update,
}
use auto_x.Auth.{Session, Cache, SessionDb, has_sid, session_by_sid, is_denied}
use auto_x.Auth.Sessions.{revoked, revoke_row, cache_revoked, cache_one, revoke_session}
use auto_x.Auth.Sessions.Rows.{sid_of, IsTable, mapped, row-revoke}
use auto_x.Auth.Sessions.Spec.{Logins, revokes, State, reached, with_cache, step, replay, set_login}
use auto_x.Auth.Sessions.Live.{live, Agrees, ended, ended-live}
use auto_x.Auth.Sessions.Denied.{in_cache, deny_new}
use auto_x.Auth.Sessions.Reachable.{Good, Shrinks, Shrinks-mapped, Good-Shrinks}

-- What `revoke_row` makes of each row.
abbrev ends : Instant → String → Session → Session → Session
ends now reason row r =
    if str_eq r.sid row.sid && not (is_some row.revoked_at) then revoked now reason r else r

ends_jti : (now : Instant) (reason : String) (row r : Session) → (ends now reason row r).jti ≡ r.jti
ends_jti now reason row r =
    elim (Bool-cases (str_eq r.sid row.sid && not (is_some row.revoked_at))) [
      | inl e ↦ rw e refl
      | inr e ↦ rw e refl
    ]

ends_kept :
    (now : Instant) (reason : String) (row r : Session)
    → is_some r.revoked_at ≡ true
    → is_some (ends now reason row r).revoked_at ≡ true
ends_kept now reason row r h =
    elim (Bool-cases (str_eq r.sid row.sid && not (is_some row.revoked_at))) [
      | inl e ↦ rw e refl
      | inr e ↦ rw e h
    ]

ends_own :
    (now : Instant) (reason : String) (row : Session)
    → is_some (ends now reason row row).revoked_at ≡ true
ends_own now reason row = elim (Bool-cases (is_some row.revoked_at)) [
  | inl e ↦ ends_kept now reason row row e
  | inr e ↦ rw (str_eq_refl row.sid, e) refl
]

ends_other :
    (now : Instant) (reason : String) (row : Session) (o : Option Session)
    → ((r : Session) → o ≡ some r → str_eq r.sid row.sid ≡ false)
    → mapped (ends now reason row) o ≡ o
ends_other now reason row none h = refl
ends_other now reason row (some r) h = rw (h r refl) refl

module _ (t now : Instant) (sid reason : String) (row : Session) (s : State) (logins : Logins)
    (cache' : Cache) (later : t ≤ now) (g : Good t s logins)
    (there : session_by_sid sid s.db ≡ some row)
    (wrote : (x : String)
      → in_cache x cache' ≡ true
      → (in_cache x s.cache ≡ true) ⊎ (str_eq sid x ≡ true)) where
  db' : SessionDb
  db' = revoke_row now reason row s.db

  row_after :
      (x : String) → session_by_sid x db' ≡ mapped (ends now reason row) (session_by_sid x s.db)
  unfolding db'
  row_after x = row-revoke now reason row s.db x

  own_sid : row.sid ≡ sid
  own_sid = (eq_iff row.sid sid).0 (find-test (has_sid sid) s.db.sessions row there)

  own_ended : (x : String) → str_eq sid x ≡ true → ended (session_by_sid x db') ≡ true
  own_ended x e =
      subst (λ y. ended (session_by_sid y db') ≡ true) ((eq_iff sid x).0 e)
        (rw (row_after sid, there) (ends_own now reason row))

  other_row : (x : String) → str_eq sid x ≡ false → session_by_sid x db' ≡ session_by_sid x s.db
  other_row x e =
      row_after x
      ∙ ends_other now reason row (session_by_sid x s.db)
          (λ r h. differs r.sid ((eq_iff r.sid x).0 (find-test (has_sid x) s.db.sessions r h)))
    where
      differs : (k : String) → k ≡ x → str_eq k row.sid ≡ false
      differs k same = ground (arith, eq_iff k row.sid, eq_iff sid x, own_sid, same)

  logins_after : (x : String) → Agrees now (session_by_sid x db') (set_login sid none logins x)
  logins_after x = elim (Bool-cases (str_eq sid x)) [
    | inl e ↦ λ n h. ended-live n (session_by_sid x db') (own_ended x e) ∙ rw e refl
    | inr e ↦ λ n h. rw (other_row x e, e) (g.agrees x n (omega (arith, later)))
  ]

  shrinks : Shrinks s.db db'
  shrinks =
      Shrinks-mapped s.db db' (ends now reason row) row_after (ends_jti now reason row)
        (ends_kept now reason row)

  rows_after : IsTable db'
  unfolding db' revoke_row
  rows_after = elim (Bool-cases (is_some row.revoked_at)) [
    | inl e ↦ rw e g.table
    | inr e ↦ rw e (
        IsKeyed-update sid_of (has_sid row.sid) (revoked now reason) s.db.sessions (λ r. refl)
          g.table)
  ]

  newly_denied :
      (j : String) → is_denied j db' ≡ true → (is_denied j s.db ≡ true) ⊎ (str_eq row.jti j ≡ true)
  unfolding db' revoke_row
  newly_denied j h = elim (Bool-cases (is_some row.revoked_at)) [
    | inl e ↦ inl (rw e at h)
    | inr e ↦ deny_new now reason row s.db.revocations j (rw e at h)
  ]

  denied_after :
      (x j : String) (r : Session)
      → is_denied j db' ≡ true
      → session_by_sid x db' ≡ some r
      → str_eq r.jti j ≡ true
      → (is_denied j s.db ≡ true) ⊎ (is_some r.revoked_at ≡ true)
  denied_after x j r h here e = elim (newly_denied j h) [
    | inl old ↦ inl old
    | inr own ↦
        let (r0, before, same, kept) = shrinks x r here in
        let one : sid ≡ x =
          g.tokens sid x row r0 there before
            (ground (arith, eq_iff row.jti j, eq_iff r.jti j, eq_iff row.jti r0.jti, same)) in
        inr (rw here at (own_ended x (ground (arith, eq_iff sid x, one))))
  ]

  pub Good-revoke_row :
      Good now
        (record { db = revoke_row now reason row s.db; cache = cache' })
        (set_login sid none logins)
  unfolding db'
  Good-revoke_row =
      Good-Shrinks t now s (record { db = db'; cache = cache' }) logins (set_login sid none logins)
        g shrinks rows_after logins_after
        (λ x h. elim (wrote x h) [ inl old ↦ inl old | inr own ↦ inr (own_ended x own) ])
        denied_after

cache_revoked_new :
    (now : Instant) (sid : String) (expires_at : Instant) (cache : Cache) (x : String)
    → in_cache x (cache_revoked now sid expires_at cache) ≡ true
    → (in_cache x cache ≡ true) ⊎ (str_eq sid x ≡ true)
unfolding cache_revoked
cache_revoked_new now sid expires_at cache x h = ground arith

-- A session that is not there: no map entry is alive for it.
absent_login :
    (t now : Instant) (sid : String) (s : State) (logins : Logins)
    → t ≤ now
    → Good t s logins
    → session_by_sid sid s.db ≡ none
    → (x : String) → Agrees now (session_by_sid x s.db) (set_login sid none logins x)
absent_login t now sid s logins h g gone x = elim (Bool-cases (str_eq sid x)) [
  | inl e ↦ λ n k.
      ap (live n) (ap (λ y. session_by_sid y s.db) (sym ((eq_iff sid x).0 e)) ∙ gone) ∙ rw e refl
  | inr e ↦ λ n k. rw e (g.agrees x n (omega arith))
]

Good-absent :
    (t now : Instant) (sid : String) (s : State) (logins : Logins)
    → t ≤ now
    → Good t s logins
    → session_by_sid sid s.db ≡ none
    → Good now s (set_login sid none logins)
Good-absent t now sid s logins h g gone = record {
  table = g.table;
  agrees = absent_login t now sid s logins h g gone;
  cached = g.cached;
  denied = g.denied;
  tokens = g.tokens;
}

revoke_absent :
    (now : Instant) (sid reason : String) (db : SessionDb) (redis : Option Cache)
    → session_by_sid sid db ≡ none
    → revoke_session now sid reason (db, redis) ≡ (false, (db, redis))
unfolding revoke_session
revoke_absent now sid reason db redis h = rw (h, revoke_session) refl

revoke_present :
    (now : Instant) (sid reason : String) (db : SessionDb) (redis : Option Cache) (row : Session)
    → session_by_sid sid db ≡ some row
    → revoke_session now sid reason (db, redis)
      ≡ (true, (revoke_row now reason row db, cache_one now sid row.expires_at redis))
unfolding revoke_session
revoke_present now sid reason db redis row h = rw (h, revoke_session) refl

-- The state after a logout, with Redis and without.
Good-absent_cache :
    (t now : Instant) (redis : Bool) (sid : String) (s : State) (logins : Logins)
    → t ≤ now
    → Good t s logins
    → session_by_sid sid s.db ≡ none
    → Good now (with_cache s.cache (s.db, reached redis s.cache)) (set_login sid none logins)
Good-absent_cache t now true sid s logins h g gone = Good-absent t now sid s logins h g gone
Good-absent_cache t now false sid s logins h g gone = Good-absent t now sid s logins h g gone

Good-present_cache :
    (t now : Instant) (redis : Bool) (sid reason : String) (row : Session) (s : State)
    (logins : Logins)
    → t ≤ now
    → Good t s logins
    → session_by_sid sid s.db ≡ some row
    → Good now
        (with_cache s.cache (
          revoke_row now reason row s.db,
          cache_one now sid row.expires_at (reached redis s.cache),
        ))
        (set_login sid none logins)
Good-present_cache t now true sid reason row s logins h g there =
    Good-revoke_row t now sid reason row s logins (cache_revoked now sid row.expires_at s.cache) h g
      there (cache_revoked_new now sid row.expires_at s.cache)
Good-present_cache t now false sid reason row s logins h g there =
    Good-revoke_row t now sid reason row s logins s.cache h g there (λ x k. inl k)

pub Good-revokes :
    (t now : Instant) (redis : Bool) (sid reason : String) (s : State) (logins : Logins)
    → t ≤ now
    → Good t s logins
    → Good now
        (step (revokes now redis sid reason) s)
        (replay (revokes now redis sid reason) logins)
unfolding step
Good-revokes t now redis sid reason s logins h g = elim (Option-cases (session_by_sid sid s.db)) [
  | inl gone ↦
      subst (λ r. Good now (with_cache s.cache r.1) (set_login sid none logins))
        (sym (revoke_absent now sid reason s.db (reached redis s.cache) gone))
        (Good-absent_cache t now redis sid s logins h g gone)
  | inr (row, there) ↦
      subst (λ r. Good now (with_cache s.cache r.1) (set_login sid none logins))
        (sym (revoke_present now sid reason s.db (reached redis s.cache) row there))
        (Good-present_cache t now redis sid reason row s logins h g there)
]
