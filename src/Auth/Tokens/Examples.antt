-- ===== src/Auth/Tokens/Examples.antt =====
-- A token and starts of replicas on concrete rows.
use auto_x.Prelude.{
  ℕ, String, ◌≡◌, refl, true, false, Option, none, some, List, [], ◌∷◌, arith, str_eq,
  if◌then◌else◌, length, any_true,
}
use auto_x.Auth.{Admin}
use auto_x.Auth.Sessions.{create_user_session, validates, admit, validate_user_session}
use auto_x.Auth.Sessions.Spec.{Call, creates, empty, reached, run, step, replay_all, answer_of}
use auto_x.Auth.Keys.{
  SigningKey, NewKey, material, new_row, ensure_active_signing_key, has_kid, jwks, verifies,
  key_by_kid,
}
use auto_x.Auth.Keys.Sound.{KeyCall, ensures}
use auto_x.Auth.Keys.Overlap
use auto_x.Auth.Clients.{
  ClientDb, LegacyClient, bootstrap_legacy_clients, import_clients, import_client, add_marker,
}
use auto_x.Auth.Tokens.{
  Claims, Replica, is_user, validate_claims, check_claims, check_kid, public_key_of,
  decode_and_validate_user_token, initialize,
}
use auto_x.Auth.Tokens.Accepted.{accepted_token}
use auto_x.Auth.Tokens.Started.{run_starts, failed_starts}

abbrev root : Admin
root = record { id = 1; is_active = true }

abbrev first_key : NewKey
first_key = record {
  material = record { kid = "k1"; private_key = "secret"; public_key = "public" };
  ciphertext = "sealed";
}

abbrev user_claims : Claims
user_claims = record {
  kind = "user";
  kid = "k1";
  scopes = "admin" ∷ [];
  sid = "s1";
  jti = "j1";
  uid = some 1;
}

abbrev reads : KeyCall → String → String → Option String
reads c ciphertext kid = some "secret"

abbrev key_calls : List KeyCall
key_calls = ensures 10 false first_key ∷ []

abbrev calls : List Call
calls = creates 20 "s1" "j1" 1 5000000 ∷ []

abbrev header_kid : String → Option String
header_kid token = some "k1"

abbrev decode : String → String → Option Claims
decode token key = if str_eq key "public" then some user_claims else none

accepted :
    (decode_and_validate_user_token header_kid decode 30 31
      (root ∷ [])
      (reached true (run calls empty).cache)
      "token"
      (Overlap.run reads 1000 100 key_calls [])
      (run calls empty).db).0
    ≡ some (user_claims, root)
unfolding decode_and_validate_user_token check_kid check_claims validate_claims is_user
    validate_user_session validates admit run step create_user_session verifies
    ensure_active_signing_key material Overlap.run Overlap.step
accepted = refl

accepted_token_example :
    (kid : String) × (header_kid "token" ≡ some kid)
    × (any_true (has_kid kid) (jwks 30 (Overlap.run reads 1000 100 key_calls [])) ≡ true)
    × (decode "token" (public_key_of (key_by_kid kid (Overlap.run reads 1000 100 key_calls [])))
        ≡ some user_claims)
    × (is_user kid user_claims ≡ true)
    × ((uid : ℕ) × (user_claims.uid ≡ some uid)
        × (answer_of 31 (root ∷ []) "j1" uid (replay_all calls (λ _. none) "s1") ≡ some root))
accepted_token_example =
    accepted_token reads 1000 100 0 0 30 31 key_calls calls header_kid decode (root ∷ []) true
      "token" user_claims root (omega arith, refl, tt)
      (
        omega arith,
        record { new_sid = refl; new_jti = refl; not_denied = refl; not_cached = refl },
        tt,
      )
      (omega arith) accepted

abbrev replica : (String → String → Option String) → Option (String × List LegacyClient) → Replica
replica decrypt file = record {
  decrypt = decrypt;
  rotation_after = 1000;
  overlap = 100;
  new_key = record {
    material = record { kid = "k2"; private_key = "other"; public_key = "other" };
    ciphertext = "sealed too";
  };
  label = "node";
  clients_file = file;
  grant_source = "x1";
  grant_fails = false;
  retires = λ kid. true;
}

-- It has another secret, and clients to import.
abbrev stranger : Replica
stranger = replica (λ ciphertext kid. none) (some ("f1", []))

-- The database fails after the first import.
abbrev cut_short : Replica
cut_short = record (replica (λ ciphertext kid. some "secret") (some ("f1", []))) {
  grant_fails = true;
}

-- Its file has an entry with no digest.
abbrev misfiled : Replica
misfiled =
    replica (λ ciphertext kid. some "secret")
      (some (
        "f1",
        record {
          client_id = "worker";
          name_fits = true;
          digest = "";
          is_digest = false;
          grants = [];
        }
            ∷ [],
      ))

abbrev no_clients : ClientDb
no_clients = record { clients = []; credentials = []; grants = []; markers = [] }

abbrev keys : List SigningKey
keys = new_row 10 first_key ∷ []

misfiled_fails : (initialize 50 misfiled (keys, no_clients)).0 ≡ false
unfolding initialize ensure_active_signing_key material bootstrap_legacy_clients import_clients
    import_client
misfiled_fails = refl

cannot_read : material stranger.decrypt (new_row 10 first_key) ≡ none
unfolding material
cannot_read = refl

-- Such a start fails, and the marker of the import stays.
cut_short_stays :
    let done = initialize 50 cut_short (keys, no_clients) in
    (done.0 ≡ false) × (length done.1.1.markers ≡ 1)
unfolding initialize ensure_active_signing_key material bootstrap_legacy_clients import_clients
    add_marker
cut_short_stays = (refl, refl)

failed_starts_example :
    (run_starts ((2000, stranger) ∷ (30, stranger) ∷ []) (keys, no_clients) ≡ (keys, no_clients))
    × ((initialize 40 stranger
          (run_starts ((2000, stranger) ∷ (30, stranger) ∷ []) (keys, no_clients))).0
        ≡ false)
failed_starts_example =
    failed_starts ((2000, stranger) ∷ (30, stranger) ∷ []) 40 stranger keys no_clients
      (new_row 10 first_key) refl (cannot_read, (cannot_read, (cannot_read, tt)))
