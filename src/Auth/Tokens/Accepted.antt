-- ===== src/Auth/Tokens/Accepted.antt =====
-- control_plane/auth_store.py: what a token that is accepted has passed.
use auto_x.Prelude.{
  ℕ, ◌≤◌, String, ◌≡◌, refl, sym, ap, ◌∙◌, subst, Bool, true, false, Option, none, some, List, [],
  if◌then◌else◌, any_true, Instant,
}
use auto_x.Auth.{Admin, Cache, SessionDb}
use auto_x.Auth.Sessions.{validate_user_session}
use auto_x.Auth.Sessions.Spec.{Call, empty, reached, run, replay_all, answer_of}
use auto_x.Auth.Sessions.Refinement.{IsHistory, end_of_history, sessions_refine}
use auto_x.Auth.Keys.{SigningKey, has_kid, verifies, key_by_kid, jwks}
use auto_x.Auth.Keys.Sound.{KeyCall}
use auto_x.Auth.Keys.Overlap.{published_keys_verify}
use auto_x.Auth.Keys.Overlap
use auto_x.Auth.Tokens.{
  Claims, is_user, with_claims, validate_claims, check_claims, public_key_of, check_kid,
  decode_and_validate_user_token,
}

nothing : (x : Claims × Admin) → ◌≡◌ {A = Option (Claims × Admin)} none (some x) → ⊥
nothing x c = cc

-- What stands behind a result: the claims, and the key.
abbrev ClaimsPass :
    Instant
    → List Admin
    → Option Cache
    → SessionDb
    → String
    → Option Claims
    → Admin
    → Claims
    → Type 0
ClaimsPass later admins redis db kid decoded admin claims =
    (decoded ≡ some claims)
    × (is_user kid claims ≡ true)
    × ((uid : ℕ) × (claims.uid ≡ some uid)
        × ((validate_user_session later admins redis claims.sid claims.jti uid db).0 ≡ some admin))

abbrev KidPasses :
    (String → Option Claims)
    → Instant
    → Instant
    → List Admin
    → Option Cache
    → Option String
    → List SigningKey
    → SessionDb
    → Admin
    → Claims
    → Type 0
KidPasses decode now later admins redis header keys db admin claims =
    (kid : String) × (header ≡ some kid)
    × (verifies now (key_by_kid kid keys) ≡ true)
    × ClaimsPass later admins redis db kid (decode (public_key_of (key_by_kid kid keys))) admin
        claims

first_of : Claims × Admin → Option (Claims × Admin) → Claims × Admin
first_of x none = x
first_of x (some y) = y

same_result : (x y : Claims × Admin) → ◌≡◌ {A = Option (Claims × Admin)} (some x) (some y) → x ≡ y
unfolding first_of
same_result x y e = ap (first_of x) e

with_claims_result :
    (claims claims' : Claims) (r : Option Admin × SessionDb) (admin : Admin)
    → (with_claims claims r).0 ≡ some (claims', admin)
    → (claims ≡ claims') × (r.0 ≡ some admin)
with_claims_result claims claims' (none, db) admin h = absurd (nothing (claims', admin) h)
with_claims_result claims claims' (some a, db) admin h =
    let same = same_result (claims, a) (claims', admin) h in
    (ap (λ (x : Claims × Admin). x.0) same, ap (λ (x : Claims × Admin). some x.1) same)

if_result :
    (b : Bool) (r : Option (Claims × Admin) × SessionDb) (db : SessionDb) (x : Claims × Admin)
    → (if b then r else (none, db)).0 ≡ some x
    → (b ≡ true) × (r.0 ≡ some x)
if_result true r db x h = (refl, h)
if_result false r db x h = absurd (nothing x h)

validate_claims_result :
    (later : Instant) (admins : List Admin) (redis : Option Cache) (claims claims' : Claims)
    (o : Option ℕ) (db : SessionDb) (admin : Admin)
    → (validate_claims later admins redis claims o db).0 ≡ some (claims', admin)
    → (uid : ℕ) × (o ≡ some uid)
      × (claims ≡ claims')
      × ((validate_user_session later admins redis claims.sid claims.jti uid db).0 ≡ some admin)
unfolding validate_claims
validate_claims_result later admins redis claims claims' none db admin h =
    absurd (nothing (claims', admin) h)
validate_claims_result later admins redis claims claims' (some uid) db admin h =
    let r =
      with_claims_result claims claims'
        (validate_user_session later admins redis claims.sid claims.jti uid db) admin h in
    (uid, refl, r.0, r.1)

check_claims-ClaimsPass :
    (later : Instant) (admins : List Admin) (redis : Option Cache) (kid : String)
    (decoded : Option Claims) (db : SessionDb) (claims : Claims) (admin : Admin)
    → (check_claims later admins redis kid decoded db).0 ≡ some (claims, admin)
    → ClaimsPass later admins redis db kid decoded admin claims
unfolding check_claims
check_claims-ClaimsPass later admins redis kid none db claims admin h =
    absurd (nothing (claims, admin) h)
check_claims-ClaimsPass later admins redis kid (some c) db claims admin h =
    let (user, rest) =
      if_result (is_user kid c) (validate_claims later admins redis c c.uid db) db (claims, admin)
        h in
    let (uid, is_uid, same, valid) =
      validate_claims_result later admins redis c claims c.uid db admin rest in
    subst (ClaimsPass later admins redis db kid (some c) admin) same
      (refl, user, (uid, is_uid, valid))

check_kid-KidPasses :
    (decode : String → Option Claims) (now later : Instant) (admins : List Admin)
    (redis : Option Cache) (header : Option String) (keys : List SigningKey) (db : SessionDb)
    (claims : Claims) (admin : Admin)
    → (check_kid decode now later admins redis header keys db).0 ≡ some (claims, admin)
    → KidPasses decode now later admins redis header keys db admin claims
unfolding check_kid
check_kid-KidPasses decode now later admins redis none keys db claims admin h =
    absurd (nothing (claims, admin) h)
check_kid-KidPasses decode now later admins redis (some kid) keys db claims admin h =
    let decoded = decode (public_key_of (key_by_kid kid keys)) in
    let (on, rest) =
      if_result (verifies now (key_by_kid kid keys))
        (check_claims later admins redis kid decoded db) db (claims, admin) h in
    (kid, refl, on, check_claims-ClaimsPass later admins redis kid decoded db claims admin rest)

-- The keys are as calls of replicas left them, with new keys that have ids of their own, and the
-- sessions as logins, checks, logouts and cleanups left them, each login with identifiers of its
-- own. A token that is accepted names a key that is published at that instant, yields its claims
-- under that key's text, and they are those of a user, name the same key and have the scope of
-- administrators; and by the map of logins its session is good for the administrator returned.
pub accepted_token :
    (decrypt : KeyCall → String → String → Option String) (rotation_after overlap : ℕ)
    (s t now later : Instant) (key_calls : List KeyCall) (calls : List Call)
    (header_kid : String → Option String) (decode : String → String → Option Claims)
    (admins : List Admin) (redis : Bool) (token : String) (claims : Claims) (admin : Admin)
    → Overlap.IsHistory decrypt rotation_after overlap s key_calls []
    → IsHistory t calls empty
    → end_of_history t calls ≤ later
    → (decode_and_validate_user_token header_kid decode now later admins
        (reached redis (run calls empty).cache)
        token
        (Overlap.run decrypt rotation_after overlap key_calls [])
        (run calls empty).db).0
      ≡ some (claims, admin)
    → (kid : String) × (header_kid token ≡ some kid)
      × (any_true (has_kid kid) (jwks now (Overlap.run decrypt rotation_after overlap key_calls []))
          ≡ true)
      × (decode token (
            public_key_of
              (key_by_kid kid (Overlap.run decrypt rotation_after overlap key_calls [])))
          ≡ some claims)
      × (is_user kid claims ≡ true)
      × ((uid : ℕ) × (claims.uid ≡ some uid)
          × (answer_of later admins claims.jti uid (replay_all calls (λ _. none) claims.sid)
              ≡ some admin))
unfolding decode_and_validate_user_token
accepted_token decrypt rotation_after overlap s t now later key_calls calls header_kid decode admins
      redis token claims admin key_history history order h =
    let keys = Overlap.run decrypt rotation_after overlap key_calls [] in
    let (kid, named, on, (decoded, user, (uid, is_uid, valid))) =
      check_kid-KidPasses (decode token) now later admins (reached redis (run calls empty).cache)
        (header_kid token) keys (run calls empty).db claims admin h in
    (
      kid,
      named,
      (published_keys_verify decrypt rotation_after overlap s now key_calls kid key_history).1 ∙ on,
      decoded,
      user,
      (
        uid,
        is_uid,
        sym (sessions_refine t later calls redis admins claims.sid claims.jti uid history order)
            ∙ valid,
      ),
    )
