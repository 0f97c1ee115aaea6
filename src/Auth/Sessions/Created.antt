-- ===== src/Auth/Sessions/Created.antt =====
-- control_plane/auth_store.py: a login keeps the states that calls reach.
use auto_x.Prelude.{
  ℕ, ◌+◌, ◌≤◌, String, ◌≡◌, refl, sym, ap, ◌∙◌, subst, ◌⊎◌, inl, inr, Bool, true, false, Option,
  some, List, [], ◌∷◌, arith, str_eq, eq_iff, if◌then◌else◌, Bool-cases, is_some, find, Instant,
  has_key_in, find_absent, IsKeyed-append,
}
use auto_x.Auth.{Session, SessionDb, has_sid, session_by_sid, is_denied}
use auto_x.Auth.Sessions.{create_user_session}
use auto_x.Auth.Sessions.Rows.{sid_of, fresh_row, row-create}
use auto_x.Auth.Sessions.Spec.{Logins, creates, State, step, replay, set_login}
use auto_x.Auth.Sessions.Live.{Agrees, ended}
use auto_x.Auth.Sessions.Denied.{in_cache, listed_jti}
use auto_x.Auth.Sessions.Reachable.{Good, none_not_some, some_same}

-- `uuid4` returned identifiers that the tables and the cache do not have.
pub record Fresh (sid jti : String) (s : State) : Type 0 where
  pub new_sid : has_key_in sid_of s.db.sessions sid ≡ false
  pub new_jti : listed_jti jti s.db.sessions ≡ false
  pub not_denied : is_denied jti s.db ≡ false
  pub not_cached : in_cache sid s.cache ≡ false

clash_bool : true ≡ false → ⊥
clash_bool k = cc

row_cases :
    (b : Bool) (a : Session) (o : Option Session) (r : Session)
    → (if b then some a else o) ≡ some r
    → ((b ≡ true) × (a ≡ r)) ⊎ ((b ≡ false) × (o ≡ some r))
row_cases true a o r h = inl (refl, some_same a r h)
row_cases false a o r h = inr (refl, h)

found_listed :
    (rows : List Session) (sid jti : String) (r : Session)
    → find (has_sid sid) rows ≡ some r
    → str_eq r.jti jti ≡ true
    → listed_jti jti rows ≡ true
found_listed [] sid jti r h e = absurd (none_not_some r h)
found_listed (x ∷ rows) sid jti r h e = elim (Bool-cases (has_sid sid x)) [
  | inl t ↦
      let same : x ≡ r = some_same x r (rw t at h) in
      rw (subst (λ (y : Session). str_eq y.jti jti ≡ true) (sym same) e) refl
  | inr f ↦ elim (Bool-cases (str_eq x.jti jti)) [
    | inl t ↦ rw t refl
    | inr n ↦ rw n (found_listed rows sid jti r (rw f at h) e)
  ]
]

swapped : (a b : String) → str_eq a b ≡ true → str_eq b a ≡ true
swapped a b h = ground (arith, eq_iff a b, eq_iff b a)

module _ (t now : Instant) (sid jti : String) (admin_id lifetime : ℕ) (s : State) (logins : Logins)
    (later : t ≤ now) (g : Good t s logins) (fresh : Fresh sid jti s) where
  row : Session
  row = fresh_row now sid jti admin_id lifetime

  db' : SessionDb
  unfolding create_user_session
  db' = create_user_session now sid jti admin_id lifetime s.db

  row_after :
      (x : String)
      → session_by_sid x db' ≡ (if str_eq sid x then some row else session_by_sid x s.db)
  unfolding db' row
  row_after x =
      row-create now sid jti admin_id lifetime s.db x
        (find_absent sid_of s.db.sessions sid fresh.new_sid)

  after_cases :
      (x : String) (r : Session)
      → session_by_sid x db' ≡ some r
      → ((sid ≡ x) × (row ≡ r)) ⊎ (session_by_sid x s.db ≡ some r)
  after_cases x r h =
      elim (row_cases (str_eq sid x) row (session_by_sid x s.db) r (sym (row_after x) ∙ h)) [
        | inl (e, same) ↦ inl ((eq_iff sid x).0 e, same)
        | inr (_, old) ↦ inr old
      ]

  logins_after :
      (x : String)
      → Agrees now (session_by_sid x db') (
          set_login sid
            (some (record { jti = jti; admin_id = admin_id; expires_at = now + lifetime }))
            logins
            x)
  unfolding row
  logins_after x = elim (Bool-cases (str_eq sid x)) [
    | inl e ↦ λ n h. rw (row_after x, e) refl
    | inr e ↦ λ n h. rw (row_after x, e) (g.agrees x n (omega (arith, later)))
  ]

  same_token :
      (x : String) (r : Session) → session_by_sid x s.db ≡ some r → str_eq r.jti jti ≡ true → ⊥
  same_token x r h e = clash_bool (sym (found_listed s.db.sessions x jti r h e) ∙ fresh.new_jti)

  tokens_after :
      (x x' : String) (r r' : Session)
      → session_by_sid x db' ≡ some r
      → session_by_sid x' db' ≡ some r'
      → str_eq r.jti r'.jti ≡ true
      → x ≡ x'
  unfolding row
  tokens_after x x' r r' h h' e = elim (after_cases x r h) [
    | inl (is_x, same) ↦ elim (after_cases x' r' h') [
      | inl (is_x', _) ↦ sym is_x ∙ is_x'
      | inr old ↦ absurd (
          same_token x' r' old
            (swapped jti r'.jti (subst (λ (y : Session). str_eq y.jti r'.jti ≡ true) (sym same) e)))
    ]
    | inr old ↦ elim (after_cases x' r' h') [
      | inl (_, same) ↦
          absurd
            (same_token x r old (subst (λ (y : Session). str_eq r.jti y.jti ≡ true) (sym same) e))
      | inr old' ↦ g.tokens x x' r r' old old' e
    ]
  ]

  ended_after : (x : String) → in_cache x s.cache ≡ true → ended (session_by_sid x db') ≡ true
  ended_after x h = elim (Bool-cases (str_eq sid x)) [
    | inl e ↦
        absurd (cached_clash (subst (λ y. in_cache y s.cache ≡ true) (sym ((eq_iff sid x).0 e)) h))
    | inr e ↦ rw (row_after x, e) (g.cached x h)
  ]
    where
      cached_clash : in_cache sid s.cache ≡ true → ⊥
      cached_clash k = clash_bool (sym k ∙ fresh.not_cached)

  denied_after :
      (x j : String) (r : Session)
      → is_denied j db' ≡ true
      → session_by_sid x db' ≡ some r
      → str_eq r.jti j ≡ true
      → is_some r.revoked_at ≡ true
  unfolding db' row create_user_session
  denied_after x j r h there e = elim (after_cases x r there) [
    | inr old ↦ g.denied x j r h old e
    | inl (_, same) ↦ absurd (
        clash_bool (
          sym (subst (λ k. is_denied k s.db ≡ true) (sym (own_jti r j same e)) h)
          ∙ fresh.not_denied))
  ]
    where
      own_jti : (r : Session) (j : String) → row ≡ r → str_eq r.jti j ≡ true → jti ≡ j
      own_jti r j same e = ap (λ (y : Session). y.jti) same ∙ (eq_iff r.jti j).0 e

  pub Good-creates :
      Good now
        (step (creates now sid jti admin_id lifetime) s)
        (replay (creates now sid jti admin_id lifetime) logins)
  unfolding step db' create_user_session
  Good-creates = record {
    table =
        IsKeyed-append sid_of s.db.sessions (fresh_row now sid jti admin_id lifetime) g.table
          fresh.new_sid;
    agrees = logins_after;
    cached = ended_after;
    denied = denied_after;
    tokens = tokens_after;
  }
