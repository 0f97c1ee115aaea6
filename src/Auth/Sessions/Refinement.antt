-- ===== src/Auth/Sessions/Refinement.antt =====
-- control_plane/auth_store.py: the sessions as a map, over any sequence of calls.
use auto_x.Prelude.{
  ℕ, ◌≤◌, String, ◌≡◌, refl, sym, ap, ◌∙◌, subst, inl, inr, Bool, true, false, ◌&&◌, ◌||◌, Option,
  none, some, List, [], ◌∷◌, ◌++◌, arith, str_eq, ltb, ◌==◌, if◌then◌else◌, str_eq_refl, Bool-cases,
  is_none, is_some, &&-left, any_true, find, Instant, keep_if, find-and,
}
use auto_x.Auth.{Admin, Session, CacheEntry, Cache, SessionDb, session_by_sid, is_denied}
use auto_x.Auth.Sessions.{validates, admit, validate_user_session, active_admin, is_cached}
use auto_x.Auth.Sessions.Rows.{sid_of}
use auto_x.Auth.Sessions.Spec.{
  Logins, Call, creates, checks, revokes, revokes_all, cleans, State, empty, reached, step, run,
  replay, replay_all, answer_of, instant_of,
}
use auto_x.Auth.Sessions.Live.{live, ended, ended-live, answer_of-alive}
use auto_x.Auth.Sessions.Denied.{in_cache}
use auto_x.Auth.Sessions.Reachable.{Good, none_not_some, some_same}
use auto_x.Auth.Sessions.Steps.{Good-checks, Good-cleans}
use auto_x.Auth.Sessions.Created.{Fresh, Good-creates}
use auto_x.Auth.Sessions.Revoked.{Good-revokes}
use auto_x.Auth.Sessions.RevokedAll.{Good-revokes_all}

-- Instants do not go back, and each login has identifiers of its own.
abbrev pub IsFreshCall : Call → State → Type 0
IsFreshCall (creates now sid jti admin_id lifetime) s = Fresh sid jti s
IsFreshCall _ s = Unit

abbrev pub IsHistory : Instant → List Call → State → Type 0
IsHistory t [] s = Unit
IsHistory t (c ∷ cs) s =
    (t ≤ instant_of c) × IsFreshCall c s × IsHistory (instant_of c) cs (step c s)

abbrev pub end_of_history : Instant → List Call → Instant
end_of_history t [] = t
end_of_history t (c ∷ cs) = end_of_history (instant_of c) cs

Good-step :
    (t : Instant) (c : Call) (s : State) (logins : Logins)
    → t ≤ instant_of c
    → IsFreshCall c s
    → Good t s logins
    → Good (instant_of c) (step c s) (replay c logins)
Good-step t (creates now sid jti admin_id lifetime) s logins h fresh g =
    Good-creates t now sid jti admin_id lifetime s logins h g fresh
Good-step t (checks now redis admins sid jti admin_id) s logins h fresh g =
    Good-checks t now redis admins sid jti admin_id s logins h g
Good-step t (revokes now redis sid reason) s logins h fresh g =
    Good-revokes t now redis sid reason s logins h g
Good-step t (revokes_all now later redis admin_id reason) s logins h fresh g =
    Good-revokes_all t now later redis admin_id reason s logins h g
Good-step t (cleans now) s logins h fresh g = Good-cleans t now s logins h g

Good-run :
    (t : Instant) (cs : List Call) (s : State) (logins : Logins)
    → IsHistory t cs s
    → Good t s logins
    → Good (end_of_history t cs) (run cs s) (replay_all cs logins)
unfolding run
Good-run t [] s logins h g = g
Good-run t (c ∷ cs) s logins (later, fresh, rest) g =
    Good-run (instant_of c) cs (step c s) (replay c logins) rest
      (Good-step t c s logins later fresh g)

Good-empty : (t : Instant) → Good t empty (λ _. none)
Good-empty t = record {
  table = tt;
  agrees = λ sid now h. refl;
  cached = λ sid h. refl;
  denied = λ sid jti r h there e. cc;
  tokens = λ sid sid' r r' there there' e. absurd (nothing r there);
}
  where
    nothing : (r : Session) → ◌≡◌ {A = Option Session} none (some r) → ⊥
    nothing r e = cc

-- The rest of the WHERE clause, once the row of the session id is found.
abbrev matches : Instant → String → ℕ → Session → Bool
matches now jti admin_id row =
    str_eq row.jti jti
    && ((row.admin_id == admin_id) && (is_none row.revoked_at && ltb now row.expires_at))

found :
    (now : Instant) (sid jti : String) (admin_id : ℕ) (t : Instant) (s : State) (logins : Logins)
    → Good t s logins
    → find (validates now sid jti admin_id) s.db.sessions
      ≡ keep_if (matches now jti admin_id) (session_by_sid sid s.db)
unfolding validates
found now sid jti admin_id t s logins g =
    find-and sid_of (matches now jti admin_id) s.db.sessions sid g.table

-- The answer that the row gives.
answer_of-live :
    (now : Instant) (admins : List Admin) (jti : String) (admin_id : ℕ) (o : Option Session)
    → answer_of now admins jti admin_id (live now o) ≡ (
        if is_none (keep_if (matches now jti admin_id) o)
        then none
        else active_admin admin_id admins)
answer_of-live now admins jti admin_id none = refl
answer_of-live now admins jti admin_id (some row) = ground arith

cached_ends :
    (t now : Instant) (redis : Bool) (sid : String) (s : State) (logins : Logins)
    → Good t s logins
    → is_cached now sid (reached redis s.cache) ≡ true
    → ended (session_by_sid sid s.db) ≡ true
cached_ends t now false sid s logins g h = absurd cc
cached_ends t now true sid s logins g h = g.cached sid (forget s.cache h)
  where
    forget :
        (cache : Cache)
        → any_true (λ (e : CacheEntry). str_eq e.sid sid && ltb now e.until) cache ≡ true
        → in_cache sid cache ≡ true
    forget [] k = k
    forget (e ∷ cache) k = ground (arith, forget cache)

kept_row :
    (now : Instant) (jti : String) (admin_id : ℕ) (o : Option Session) (r : Session)
    → keep_if (matches now jti admin_id) o ≡ some r
    → (o ≡ some r) × (str_eq r.jti jti ≡ true) × (is_some r.revoked_at ≡ false)
kept_row now jti admin_id none r h = absurd (none_not_some r h)
kept_row now jti admin_id (some row) r h = elim (Bool-cases (matches now jti admin_id row)) [
  | inr e ↦ absurd (none_not_some r (rw e at h))
  | inl e ↦
      let same : row ≡ r = some_same row r (rw e at h) in
      (
        ap some same,
        subst (λ (x : Session). str_eq x.jti jti ≡ true) same (&&-left (str_eq row.jti jti) _ e),
        subst (λ (x : Session). is_some x.revoked_at ≡ false) same (ground arith),
      )
]

admit_answer :
    (now : Instant) (sid jti : String) (admin_id : ℕ) (o : Option Admin) (db : SessionDb)
    → (admit now sid jti admin_id o db).0 ≡ o
unfolding admit
admit_answer now sid jti admin_id none db = refl
admit_answer now sid jti admin_id (some admin) db = refl

check_answer :
    (t now : Instant) (redis : Bool) (admins : List Admin) (sid jti : String) (admin_id : ℕ)
    (s : State) (logins : Logins)
    → Good t s logins
    → (validate_user_session now admins (reached redis s.cache) sid jti admin_id s.db).0
      ≡ answer_of now admins jti admin_id (live now (session_by_sid sid s.db))
unfolding validate_user_session
check_answer t now redis admins sid jti admin_id s logins g =
    elim (Bool-cases (is_cached now sid (reached redis s.cache))) [
      | inl e ↦ rw e (
          sym (
            ap (answer_of now admins jti admin_id) (
              ended-live now (session_by_sid sid s.db) (cached_ends t now redis sid s logins g e))))
      | inr e ↦ rw e (uncached (keep_if (matches now jti admin_id) (session_by_sid sid s.db)) refl)
    ]
  where
    not_denied :
        (r : Session)
        → session_by_sid sid s.db ≡ some r
        → str_eq r.jti jti ≡ true
        → is_some r.revoked_at ≡ false
        → is_denied jti s.db ≡ false
    not_denied r there same open_row = ground (arith, g.denied sid jti r)

    uncached :
        (o : Option Session)
        → keep_if (matches now jti admin_id) (session_by_sid sid s.db) ≡ o
        → (if is_none (find (validates now sid jti admin_id) s.db.sessions) || is_denied jti s.db
            then (none, s.db)
            else admit now sid jti admin_id (active_admin admin_id admins) s.db).0
          ≡ answer_of now admins jti admin_id (live now (session_by_sid sid s.db))
    uncached none e = rw (found now sid jti admin_id t s logins g, answer_of-live, e) refl
    uncached (some r) e =
        let (there, same, open_row) = kept_row now jti admin_id (session_by_sid sid s.db) r e in
        rw
          (
            found now sid jti admin_id t s logins g,
            answer_of-live,
            e,
            not_denied r there same open_row,
          )
          (admit_answer now sid jti admin_id (active_admin admin_id admins) s.db)

-- From empty tables, over any logins, checks, logouts and cleanups in the order of their instants,
-- where each login has identifiers that the tables and the cache do not have: a check at the end
-- accepts a token for exactly the administrator that the map of logins gives, in which a login
-- sets the entry of its id, a logout removes it, a logout of all removes the entries of the
-- administrator that have not expired, and a cleanup changes nothing; with Redis and without.
pub sessions_refine :
    (t now : Instant) (calls : List Call) (redis : Bool) (admins : List Admin) (sid jti : String)
    (admin_id : ℕ)
    → IsHistory t calls empty
    → end_of_history t calls ≤ now
    → (validate_user_session now admins
        (reached redis (run calls empty).cache)
        sid
        jti
        admin_id
        (run calls empty).db).0
      ≡ answer_of now admins jti admin_id (replay_all calls (λ _. none) sid)
sessions_refine t now calls redis admins sid jti admin_id h later =
    let g = Good-run t calls empty (λ _. none) h (Good-empty t) in
    check_answer (end_of_history t calls) now redis admins sid jti admin_id (run calls empty)
      (replay_all calls (λ _. none)) g
    ∙ ap (answer_of now admins jti admin_id) (g.agrees sid now later)
    ∙ sym (answer_of-alive now admins jti admin_id (replay_all calls (λ _. none) sid))

-- No login of this session id.
abbrev pub NoLogin : String → List Call → Type 0
NoLogin sid [] = Unit
NoLogin sid (creates now sid' jti admin_id lifetime ∷ cs) =
    (str_eq sid' sid ≡ false) × NoLogin sid cs
NoLogin sid (checks now redis admins sid' jti admin_id ∷ cs) = NoLogin sid cs
NoLogin sid (revokes now redis sid' reason ∷ cs) = NoLogin sid cs
NoLogin sid (revokes_all now later redis admin_id reason ∷ cs) = NoLogin sid cs
NoLogin sid (cleans now ∷ cs) = NoLogin sid cs

stays_out :
    (sid : String) (cs : List Call) (logins : Logins)
    → NoLogin sid cs
    → logins sid ≡ none
    → replay_all cs logins sid ≡ none
stays_out sid [] logins h k = k
stays_out sid (creates now sid' jti admin_id lifetime ∷ cs) logins h k =
    stays_out sid cs (replay (creates now sid' jti admin_id lifetime) logins) h.1 (rw h.0 k)
stays_out sid (checks now redis admins sid' jti admin_id ∷ cs) logins h k =
    stays_out sid cs logins h k
stays_out sid (revokes now redis sid' reason ∷ cs) logins h k =
    stays_out sid cs (replay (revokes now redis sid' reason) logins) h
      (elim (Bool-cases (str_eq sid' sid)) [ inl e ↦ rw e refl | inr e ↦ rw e k ])
stays_out sid (revokes_all now later redis admin_id reason ∷ cs) logins h k =
    stays_out sid cs (replay (revokes_all now later redis admin_id reason) logins) h (rw k refl)
stays_out sid (cleans now ∷ cs) logins h k = stays_out sid cs logins h k

replay_all-append :
    (cs ds : List Call) (logins : Logins)
    → replay_all (cs ++ ds) logins ≡ replay_all ds (replay_all cs logins)
replay_all-append [] ds logins = refl
replay_all-append (c ∷ cs) ds logins = replay_all-append cs ds (replay c logins)

-- From empty tables, over any logins, checks, logouts and cleanups in the order of their instants,
-- where each login has identifiers that the tables and the cache do not have, and with a logout
-- among them: as long as no login takes the session's id again, no later check accepts a token of
-- the session, whether Redis took note of the logout or not.
pub logout_is_final :
    (t now when : Instant) (before after : List Call) (told redis : Bool) (admins : List Admin)
    (sid reason jti : String) (admin_id : ℕ)
    → IsHistory t (before ++ revokes when told sid reason ∷ after) empty
    → end_of_history t (before ++ revokes when told sid reason ∷ after) ≤ now
    → NoLogin sid after
    → (validate_user_session now admins
        (reached redis (run (before ++ revokes when told sid reason ∷ after) empty).cache)
        sid
        jti
        admin_id
        (run (before ++ revokes when told sid reason ∷ after) empty).db).0
      ≡ none
logout_is_final t now when before after told redis admins sid reason jti admin_id h later out =
    sessions_refine t now (before ++ revokes when told sid reason ∷ after) redis admins sid jti
      admin_id h later
    ∙ ap (answer_of now admins jti admin_id) (
        ap (λ (l : Logins). l sid)
          (replay_all-append before (revokes when told sid reason ∷ after) (λ _. none))
        ∙ stays_out sid after
            (replay (revokes when told sid reason) (replay_all before (λ _. none))) out
            (rw (str_eq_refl sid) refl))
