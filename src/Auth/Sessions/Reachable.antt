-- ===== src/Auth/Sessions/Reachable.antt =====
-- control_plane/auth_store.py: the states that calls reach, and what it takes to stay among them.
use auto_x.Prelude.{
  String, ◌≡◌, refl, sym, ap, ◌∙◌, subst, ◌⊎◌, inl, inr, true, Option, none, some, str_eq,
  Bool-cases, Option-cases, is_some, Instant, keep_if,
}
use auto_x.Auth.{Session, SessionDb, session_by_sid, is_denied}
use auto_x.Auth.Sessions.{cleanup_sessions}
use auto_x.Auth.Sessions.Rows.{IsTable, mapped, unexpired, row-cleanup}
use auto_x.Auth.Sessions.Spec.{Logins, State}
use auto_x.Auth.Sessions.Live.{Agrees, ended}
use auto_x.Auth.Sessions.Denied.{in_cache}

-- The state of the tables and the cache after calls up to an instant.
pub record Good (t : Instant) (s : State) (logins : Logins) : Type 0 where
  pub table : IsTable s.db
  pub agrees : (sid : String) → Agrees t (session_by_sid sid s.db) (logins sid)
  pub cached : (sid : String) → in_cache sid s.cache ≡ true → ended (session_by_sid sid s.db) ≡ true
  pub denied :
      (sid jti : String) (r : Session)
      → is_denied jti s.db ≡ true
      → session_by_sid sid s.db ≡ some r
      → str_eq r.jti jti ≡ true
      → is_some r.revoked_at ≡ true
  pub tokens :
      (sid sid' : String) (r r' : Session)
      → session_by_sid sid s.db ≡ some r
      → session_by_sid sid' s.db ≡ some r'
      → str_eq r.jti r'.jti ≡ true
      → sid ≡ sid'

-- Each row of the later table was there before, of the same token, and a revocation stays.
abbrev pub Shrinks : SessionDb → SessionDb → Type 0
Shrinks db db' =
    (sid : String) (r' : Session)
    → session_by_sid sid db' ≡ some r'
    → (r : Session) × (session_by_sid sid db ≡ some r)
      × (r.jti ≡ r'.jti)
      × (is_some r.revoked_at ≡ true → is_some r'.revoked_at ≡ true)

pub none_not_some : (r : Session) → ◌≡◌ {A = Option Session} none (some r) → ⊥
none_not_some r e = cc

row_or : Session → Option Session → Session
row_or a none = a
row_or a (some b) = b

pub some_same : (a b : Session) → ◌≡◌ {A = Option Session} (some a) (some b) → a ≡ b
unfolding row_or
some_same a b e = ap (row_or a) e

pub Shrinks-mapped :
    (db db' : SessionDb) (f : Session → Session)
    → ((sid : String) → session_by_sid sid db' ≡ mapped f (session_by_sid sid db))
    → ((r : Session) → (f r).jti ≡ r.jti)
    → ((r : Session) → is_some r.revoked_at ≡ true → is_some (f r).revoked_at ≡ true)
    → Shrinks db db'
Shrinks-mapped db db' f h j k = λ sid r' e. elim (Option-cases (session_by_sid sid db)) [
  | inl gone ↦ absurd (none_not_some r' (sym (h sid ∙ ap (mapped f) gone) ∙ e))
  | inr (r, there) ↦
      let same = some_same (f r) r' (sym (h sid ∙ ap (mapped f) there) ∙ e) in
      (
        r,
        there,
        sym (j r) ∙ ap (λ (x : Session). x.jti) same,
        λ w. subst (λ (x : Session). is_some x.revoked_at ≡ true) same (k r w),
      )
]

pub Shrinks-cleanup :
    (now : Instant) (db : SessionDb) → IsTable db → Shrinks db (cleanup_sessions now db)
Shrinks-cleanup now db table sid r' e = (
  r',
  from_kept (session_by_sid sid db) r' (sym (row-cleanup now db sid table) ∙ e),
  refl,
  λ w. w,
)
  where
    from_kept : (o : Option Session) (r : Session) → keep_if (unexpired now) o ≡ some r → o ≡ some r
    from_kept none r h = cc
    from_kept (some x) r h = elim (Bool-cases (unexpired now x)) [
      | inl t ↦ rw t at h
      | inr f ↦ absurd (none_not_some r (rw f at h))
    ]

pub ended-Shrinks :
    (db db' : SessionDb) (sid : String)
    → Shrinks db db'
    → ended (session_by_sid sid db) ≡ true
    → ended (session_by_sid sid db') ≡ true
ended-Shrinks db db' sid shrinks h = elim (Option-cases (session_by_sid sid db')) [
  | inl gone ↦ rw gone refl
  | inr (r', there) ↦
      let (r, before, same, kept) = shrinks sid r' there in rw there (kept (rw before at h))
]

-- A call that adds no row: what it writes to the cache and the deny-list is of ended sessions.
pub Good-Shrinks :
    (t t' : Instant) (s s' : State) (logins logins' : Logins)
    → Good t s logins
    → Shrinks s.db s'.db
    → IsTable s'.db
    → ((sid : String) → Agrees t' (session_by_sid sid s'.db) (logins' sid))
    → ((sid : String)
        → in_cache sid s'.cache ≡ true
        → (in_cache sid s.cache ≡ true) ⊎ (ended (session_by_sid sid s'.db) ≡ true))
    → ((sid jti : String) (r : Session)
        → is_denied jti s'.db ≡ true
        → session_by_sid sid s'.db ≡ some r
        → str_eq r.jti jti ≡ true
        → (is_denied jti s.db ≡ true) ⊎ (is_some r.revoked_at ≡ true))
    → Good t' s' logins'
Good-Shrinks t t' s s' logins logins' g shrinks table agrees new_cached new_denied = record {
  table = table;
  agrees = agrees;
  cached = λ sid h. elim (new_cached sid h) [
    | inl old ↦ ended-Shrinks s.db s'.db sid shrinks (g.cached sid old)
    | inr done ↦ done
  ];
  denied = λ sid jti r' h there e. elim (new_denied sid jti r' h there e) [
    | inr done ↦ done
    | inl old ↦
        let (r, before, same, kept) = shrinks sid r' there in
        kept (g.denied sid jti r old before (subst (λ j. str_eq j jti ≡ true) (sym same) e))
  ];
  tokens = λ sid sid' r' q' there there' e.
      let (r, before, same, kept) = shrinks sid r' there in
      let (q, before', same', kept') = shrinks sid' q' there' in
      g.tokens sid sid' r q before before' (
        subst (λ j. str_eq j q.jti ≡ true) (sym same)
          (subst (λ j. str_eq r'.jti j ≡ true) (sym same') e));
}
