-- ===== src/Auth/Sessions/Rows.antt =====
-- control_plane/auth_store.py: what each call does to the row of a session id.
use auto_x.Prelude.{
  ℕ, ◌+◌, String, ◌≡◌, refl, sym, ap, ◌∙◌, inl, inr, Bool, true, false, not, ◌&&◌, ◌||◌, Option,
  none, some, List, str_eq, eq_iff, leb, if◌then◌else◌, Bool-cases, is_none, is_some, find, update,
  changed, find-update, find-append, Instant, keep_if, IsKeyed, find-where, IsKeyed-update,
}
use auto_x.Auth.{Admin, Session, Cache, SessionDb, has_sid, session_by_sid, is_denied}
use auto_x.Auth.Sessions.{
  create_user_session, validates, admit, validate_user_session, seen_at, revoked, revoke_row,
  is_open_of, revoke_admin_sessions_in_transaction, cleanup_sessions, active_admin, is_cached,
}

abbrev pub sid_of : Session → String
sid_of row = row.sid

-- Session ids are unique in the table.
abbrev pub IsTable : SessionDb → Type 0
IsTable db = IsKeyed sid_of db.sessions

abbrev pub mapped : (Session → Session) → Option Session → Option Session
mapped f none = none
mapped f (some row) = some (f row)

abbrev pub revoked_if : (Session → Bool) → Instant → String → Session → Session
revoked_if p now reason row = if p row then revoked now reason row else row

changed-mapped :
    (p : Session → Bool) (s : String) (f : Session → Session) (o : Option Session)
    → changed p (has_sid s) f o ≡ mapped (λ row. if p row then f row else row) o
changed-mapped p s f none = refl
changed-mapped p s f (some row) = refl

pub row-update :
    (p : Session → Bool) (f : Session → Session) (rows : List Session) (s : String)
    → ((row : Session) → (f row).sid ≡ row.sid)
    → find (has_sid s) (update p f rows)
      ≡ mapped (λ row. if p row then f row else row) (find (has_sid s) rows)
row-update p f rows s h =
    find-update p (has_sid s) f rows (λ row e. ap (λ x. str_eq x s) (h row))
    ∙ changed-mapped p s f (find (has_sid s) rows)

abbrev pub unexpired : Instant → Session → Bool
unexpired now row = not (leb row.expires_at now)

pub row-cleanup :
    (now : Instant) (db : SessionDb) (s : String)
    → IsTable db
    → session_by_sid s (cleanup_sessions now db) ≡ keep_if (unexpired now) (session_by_sid s db)
unfolding cleanup_sessions
row-cleanup now db s h = find-where sid_of (unexpired now) db.sessions s h

abbrev pub fresh_row : Instant → String → String → ℕ → ℕ → Session
fresh_row now sid jti admin_id lifetime = record {
  sid = sid;
  admin_id = admin_id;
  jti = jti;
  expires_at = now + lifetime;
  revoked_at = none;
  revoke_reason = none;
  created_at = now;
  last_seen_at = none;
}

added_row :
    (o : Option Session) (b : Bool) (row : Session)
    → (b ≡ true → o ≡ none)
    → (elim o [ none ↦ (if b then some row else none) | some other ↦ some other ])
      ≡ (if b then some row else o)
added_row none true row h = refl
added_row none false row h = refl
added_row (some other) true row h = absurd (some_not_none (h refl))
  where
    some_not_none : ◌≡◌ {A = Option Session} (some other) none → ⊥
    some_not_none e = cc
added_row (some other) false row h = refl

pub row-create :
    (now : Instant) (sid jti : String) (admin_id lifetime : ℕ) (db : SessionDb) (s : String)
    → session_by_sid sid db ≡ none
    → session_by_sid s (create_user_session now sid jti admin_id lifetime db) ≡ (
        if str_eq sid s
        then some (fresh_row now sid jti admin_id lifetime)
        else session_by_sid s db)
unfolding create_user_session
row-create now sid jti admin_id lifetime db s h =
    find-append (has_sid s) db.sessions (fresh_row now sid jti admin_id lifetime)
    ∙ added_row (session_by_sid s db) (str_eq sid s) (fresh_row now sid jti admin_id lifetime)
        (λ e. ap (λ x. session_by_sid x db) (sym ((eq_iff sid s).0 e)) ∙ h)

pub mapped_same :
    (f : Session → Session) (o : Option Session) → ((r : Session) → f r ≡ r) → mapped f o ≡ o
mapped_same f none h = refl
mapped_same f (some r) h = ap some (h r)

mapped_congr :
    (f g : Session → Session) (o : Option Session)
    → ((r : Session) → f r ≡ g r)
    → mapped f o ≡ mapped g o
mapped_congr f g none h = refl
mapped_congr f g (some r) h = ap some (h r)

kept : (f : Session → Session) (b : Bool) (r : Session) → (if b && false then f r else r) ≡ r
kept f true r = refl
kept f false r = refl

both_true :
    (f : Session → Session) (b : Bool) (r : Session)
    → (if b then f r else r) ≡ (if b && true then f r else r)
both_true f true r = refl
both_true f false r = refl

-- The row that a revocation by id leaves.
pub row-revoke :
    (now : Instant) (reason : String) (row : Session) (db : SessionDb) (s : String)
    → session_by_sid s (revoke_row now reason row db)
      ≡ mapped
          (λ r.
            if str_eq r.sid row.sid && not (is_some row.revoked_at)
            then revoked now reason r
            else r)
          (session_by_sid s db)
unfolding revoke_row
row-revoke now reason row db s = elim (Bool-cases (is_some row.revoked_at)) [
  | inl e ↦
      rw (e, revoke_row)
        (sym (
          mapped_same _ (session_by_sid s db)
            (λ r. kept (revoked now reason) (str_eq r.sid row.sid) r)))
  | inr e ↦
      rw (e, revoke_row)
        (row-update (has_sid row.sid) (revoked now reason) db.sessions s (λ r. refl)
          ∙ mapped_congr _ _ (session_by_sid s db)
              (λ r. both_true (revoked now reason) (str_eq r.sid row.sid) r))
]

pub row-revoke_admin :
    (now : Instant) (admin_id : ℕ) (reason : String) (db : SessionDb) (s : String)
    → session_by_sid s (revoke_admin_sessions_in_transaction now admin_id reason db).1
      ≡ mapped (revoked_if (is_open_of now admin_id) now reason) (session_by_sid s db)
unfolding revoke_admin_sessions_in_transaction
row-revoke_admin now admin_id reason db s =
    row-update (is_open_of now admin_id) (revoked now reason) db.sessions s (λ row. refl)

-- A check writes `last_seen_at` at most.
abbrev pub Seen : Instant → SessionDb → SessionDb → Type 0
Seen now db db' =
    (f : Session → Bool) × ((s : String)
      → session_by_sid s db'
        ≡ mapped (λ row. if f row then seen_at now row else row) (session_by_sid s db))
    × (db'.revocations ≡ db.revocations)
    × (IsTable db → IsTable db')

Seen-same : (now : Instant) (db : SessionDb) → Seen now db db
Seen-same now db =
    (λ _. false, λ s. sym (mapped_same _ (session_by_sid s db) (λ r. refl)), refl, λ h. h)

Seen-admit :
    (now : Instant) (sid jti : String) (admin_id : ℕ) (o : Option Admin) (db : SessionDb)
    → Seen now db (admit now sid jti admin_id o db).1
unfolding admit
Seen-admit now sid jti admin_id none db = Seen-same now db
Seen-admit now sid jti admin_id (some admin) db = (
  validates now sid jti admin_id,
  λ s. row-update (validates now sid jti admin_id) (seen_at now) db.sessions s (λ row. refl),
  refl,
  λ h.
      IsKeyed-update sid_of (validates now sid jti admin_id) (seen_at now) db.sessions (λ r. refl)
        h,
)

Seen-if :
    (now : Instant) (db : SessionDb) (b : Bool) (x y : Option Admin × SessionDb)
    → Seen now db x.1
    → Seen now db y.1
    → Seen now db (if b then x else y).1
Seen-if now db true x y h k = h
Seen-if now db false x y h k = k

pub Seen-validate :
    (now : Instant) (admins : List Admin) (redis : Option Cache) (sid jti : String) (admin_id : ℕ)
    (db : SessionDb)
    → Seen now db (validate_user_session now admins redis sid jti admin_id db).1
unfolding validate_user_session
Seen-validate now admins redis sid jti admin_id db =
    Seen-if now db (is_cached now sid redis) _ _ (Seen-same now db) (
      Seen-if now db
        (is_none (find (validates now sid jti admin_id) db.sessions) || is_denied jti db) _ _
        (Seen-same now db) (Seen-admit now sid jti admin_id (active_admin admin_id admins) db))
