-- ===== src/Auth/Clients.antt =====
-- control_plane/auth_store.py: the clients of services, their credentials and grants, and the two
-- imports at start. `digest` is SHA-256 in hexadecimal; a clients file is what json.loads makes of
-- it, with its hash, its entries in the order of the sorted names and their grants likewise.
use auto_x.Prelude.{
  ◌+◌, ◌-◌, String, Bool, true, false, not, ◌&&◌, ◌||◌, Option, none, some, List, [], ◌∷◌, ◌++◌,
  str_eq, ltb, if◌then◌else◌, is_none, any_true, find, update, Instant,
}
pub mod Kept
pub mod Grants
pub mod Once

pub record Client : Type 0 where
  pub client_id : String
  pub is_active : Bool
  pub created_at : Instant
  pub last_authenticated_at : Option Instant

pub record Credential : Type 0 where
  pub client_id : String
  pub secret_sha256 : String
  pub label : String
  pub is_active : Bool
  pub created_at : Instant
  pub expires_at : Option Instant
  pub last_used_at : Option Instant

pub record Grant : Type 0 where
  pub client_id : String
  pub audience : String
  pub scopes : String
  pub created_at : Instant

-- A row of the bootstrap states, with its two keys.
pub record Marker : Type 0 where
  pub bootstrap_id : String
  pub source_sha256 : String

pub record ClientDb : Type 0 where
  pub clients : List Client
  pub credentials : List Credential
  pub grants : List Grant
  pub markers : List Marker

abbrev pub has_client_id : String → Client → Bool
has_client_id client_id client = str_eq client.client_id client_id

abbrev pub client_by_id : String → ClientDb → Option Client
client_by_id client_id db = find (has_client_id client_id) db.clients

abbrev pub is_grant : String → String → Grant → Bool
is_grant client_id audience grant =
    str_eq grant.client_id client_id && str_eq grant.audience audience

abbrev pub grant_of : String → String → ClientDb → Option Grant
grant_of client_id audience db = find (is_grant client_id audience) db.grants

abbrev pub not_over : Instant → Option Instant → Bool
not_over now none = true
not_over now (some t) = ltb now t

-- The WHERE clause of the credentials, and the comparison of the digests.
unfoldable pub is_usable : Instant → String → String → Credential → Bool
is_usable now client_id digest c =
    str_eq c.client_id client_id
    && (c.is_active && (not_over now c.expires_at && str_eq digest c.secret_sha256))

-- The first usable credential gets `last_used_at`.
unfoldable pub use_first : Instant → (Credential → Bool) → List Credential → List Credential
use_first now p [] = []
use_first now p (c ∷ cs) =
    let rest = use_first now p cs in
    if p c then record c { last_used_at = some now } ∷ cs else c ∷ rest

unfoldable pub used : Instant → String → String → ClientDb → ClientDb
used now client_id digest db = record db {
  credentials = use_first now (is_usable now client_id digest) db.credentials;
  clients =
      update (has_client_id client_id)
        (λ (c : Client). record c { last_authenticated_at = some now }) db.clients;
}

abbrev pub is_active_client : Option Client → Bool
is_active_client none = false
is_active_client (some client) = client.is_active

unfoldable pub granted :
    Instant
    → String
    → String
    → Option Credential
    → Option Grant
    → ClientDb
    → Option String × ClientDb
granted now client_id digest (some credential) (some grant) db =
    (some grant.scopes, used now client_id digest db)
granted now client_id digest _ _ db = (none, db)

unfoldable pub authenticate_client :
    (String → String) → Instant → String → String → String → ClientDb → Option String × ClientDb
authenticate_client digest now client_id secret audience db =
    if is_active_client (client_by_id client_id db)
    then granted now client_id (digest secret)
        (find (is_usable now client_id (digest secret)) db.credentials)
        (grant_of client_id audience db) db
    else (none, db)

-- An entry of the clients file: its name, stripped; the digest, in lower case and whether it is one;
-- and the grants, their audience and scopes stripped and without repetition.
pub record LegacyGrant : Type 0 where
  pub audience : String
  pub scopes : String

pub record LegacyClient : Type 0 where
  pub client_id : String
  pub name_fits : Bool
  pub digest : String
  pub is_digest : Bool
  pub grants : List LegacyGrant

abbrev pub is_marker : String → String → Marker → Bool
is_marker bootstrap_id source m =
    str_eq m.bootstrap_id bootstrap_id && str_eq m.source_sha256 source

abbrev pub is_credential : String → String → Credential → Bool
is_credential client_id digest c = str_eq c.client_id client_id && str_eq c.secret_sha256 digest

unfoldable pub add_client : Instant → String → ClientDb → ClientDb
add_client now client_id db = record db {
  clients =
      db.clients
      ++ record {
        client_id = client_id;
        is_active = true;
        created_at = now;
        last_authenticated_at = none;
      }
        ∷ [];
}

-- INSERT … ON CONFLICT DO NOTHING of a credential and of a grant.
unfoldable pub add_credential : Instant → String → String → String → ClientDb → ClientDb
add_credential now client_id digest label db =
    if any_true (is_credential client_id digest) db.credentials then db else record db {
      credentials =
          db.credentials
          ++ record {
            client_id = client_id;
            secret_sha256 = digest;
            label = label;
            is_active = true;
            created_at = now;
            expires_at = none;
            last_used_at = none;
          }
            ∷ [];
    }

unfoldable pub add_grant : Instant → String → String → String → ClientDb → ClientDb
add_grant now client_id audience scopes db =
    if any_true (is_grant client_id audience) db.grants then db else record db {
      grants =
          db.grants
          ++ record {
            client_id = client_id;
            audience = audience;
            scopes = scopes;
            created_at = now;
          }
            ∷ [];
    }

-- The loop over the grants of an entry; an empty audience or scope is an error.
unfoldable pub import_grants :
    Instant → String → Bool → List LegacyGrant → ClientDb → Option ClientDb
import_grants now client_id is_new [] db = some db
import_grants now client_id is_new (g ∷ grants) db =
    let rest =
      import_grants now client_id is_new grants
        (if is_new then add_grant now client_id g.audience g.scopes db else db) in
    if str_eq g.audience "" || str_eq g.scopes "" then none else rest

-- One entry of the file; `none` is one of its errors, for which the transaction is rolled back.
unfoldable pub import_client : Instant → String → LegacyClient → ClientDb → Option ClientDb
import_client now label entry db =
    let is_new = is_none (client_by_id entry.client_id db) in
    let named = if is_new then add_client now entry.client_id db else db in
    if not entry.name_fits || not entry.is_digest
    then none
    else import_grants now entry.client_id is_new entry.grants
        (add_credential now entry.client_id entry.digest label named)

abbrev pub then_db : Option ClientDb → (ClientDb → Option ClientDb) → Option ClientDb
then_db none f = none
then_db (some db) f = f db

unfoldable pub import_clients : Instant → String → List LegacyClient → ClientDb → Option ClientDb
import_clients now label [] db = some db
import_clients now label (entry ∷ entries) db =
    then_db (import_client now label entry db) (import_clients now label entries)

abbrev pub legacy_clients_bootstrap_id : String
legacy_clients_bootstrap_id = "legacy-clients-v1"

unfoldable pub add_marker : String → String → ClientDb → ClientDb
add_marker bootstrap_id source db = record db {
  markers = db.markers ++ record { bootstrap_id = bootstrap_id; source_sha256 = source } ∷ [];
}

-- `_bootstrap_legacy_clients` with the hash of the file and its entries, where there is a file.
unfoldable pub bootstrap_legacy_clients :
    Instant → String → Option (String × List LegacyClient) → ClientDb → Option ClientDb
bootstrap_legacy_clients now label none db = some db
bootstrap_legacy_clients now label (some (source, entries)) db =
    if any_true (is_marker legacy_clients_bootstrap_id source) db.markers
    then some db
    else then_db (import_clients now label entries db)
        (λ db'. some (add_marker legacy_clients_bootstrap_id source db'))

abbrev pub xhs_result_grant_bootstrap_id : String
xhs_result_grant_bootstrap_id = "xhs-result-grant-v1"

-- `_bootstrap_xhs_result_grant`; `source` is the hash of its fixed text.
unfoldable pub bootstrap_xhs_result_grant : Instant → String → ClientDb → ClientDb
bootstrap_xhs_result_grant now source db =
    if any_true (is_marker xhs_result_grant_bootstrap_id source) db.markers
      || is_none (client_by_id "xhs-worker" db)
    then db
    else add_marker xhs_result_grant_bootstrap_id source (
        if is_active_client (client_by_id "xhs-worker" db)
          && is_none (grant_of "xhs-worker" "backend" db)
        then add_grant now "xhs-worker" "backend" "xhs:result" db
        else db)
