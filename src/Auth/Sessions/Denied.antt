-- ===== src/Auth/Sessions/Denied.antt =====
-- control_plane/auth_store.py: what the calls write to the deny-list and the cache.
use auto_x.Prelude.{
  String, ◌≡◌, ◌⊎◌, inl, inr, Bool, true, some, List, [], ◌∷◌, arith, str_eq, Bool-cases, any_true,
  any_true-append, Instant,
}
use auto_x.Auth.{Session, Revocation, CacheEntry, Cache, has_sid, has_jti}
use auto_x.Auth.Sessions.{deny, deny_all, cache_revoked, cache_revoked_sessions}

abbrev pub in_cache : String → Cache → Bool
in_cache sid cache = any_true (λ (e : CacheEntry). str_eq e.sid sid) cache

abbrev pub listed_jti : String → List Session → Bool
listed_jti jti rows = any_true (λ (r : Session). str_eq r.jti jti) rows

abbrev pub on_list : String → List Revocation → Bool
on_list jti revocations = any_true (has_jti jti) revocations

pub deny_new :
    (now : Instant) (reason : String) (row : Session) (revs : List Revocation) (jti : String)
    → on_list jti (deny now reason row revs) ≡ true
    → (on_list jti revs ≡ true) ⊎ (str_eq row.jti jti ≡ true)
unfolding deny
deny_new now reason row revs jti h = elim (Bool-cases (any_true (has_jti row.jti) revs)) [
  | inl e ↦ inl (rw e at h)
  | inr e ↦ ground (
    arith,
    any_true-append (has_jti jti) revs (
        record {
          jti = row.jti;
          sid = row.sid;
          expires_at = row.expires_at;
          revoked_at = now;
          reason = reason;
        }
        ∷ []),
  )
]

pub deny_all_new :
    (now : Instant) (reason : String) (rows : List Session) (revs : List Revocation) (jti : String)
    → on_list jti (deny_all now reason rows revs) ≡ true
    → (on_list jti revs ≡ true) ⊎ (listed_jti jti rows ≡ true)
unfolding deny_all
deny_all_new now reason [] revs jti h = inl h
deny_all_new now reason (row ∷ rows) revs jti h =
    elim (deny_all_new now reason rows (deny now reason row revs) jti h) [
      | inr e ↦ inr (ground arith)
      | inl e ↦ ground (arith, deny_new now reason row revs jti e)
    ]

pub cache_new :
    (now : Instant) (rows : List Session) (cache cache' : Cache) (sid : String)
    → cache_revoked_sessions now rows (some cache) ≡ some cache'
    → in_cache sid cache' ≡ true
    → (in_cache sid cache ≡ true) ⊎ (any_true (has_sid sid) rows ≡ true)
unfolding cache_revoked_sessions cache_revoked
cache_new now [] cache cache' sid e h = inl (ground (arith, e))
cache_new now (row ∷ rows) cache cache' sid e h =
    elim (cache_new now rows (cache_revoked now row.sid row.expires_at cache) cache' sid e h) [
      | inr k ↦ inr (ground arith)
      | inl k ↦ ground arith
    ]
