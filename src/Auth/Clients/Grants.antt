-- ===== src/Auth/Clients/Grants.antt =====
-- control_plane/auth_store.py: an import of a clients file and the grants of operators.
use auto_x.Prelude.{
  String, ◌≡◌, refl, sym, ap, ◌∙◌, subst, inl, inr, true, Option, none, some, List, Bool-cases,
  is_some, find, Instant,
}
use auto_x.Auth.Clients.{
  Credential, Grant, ClientDb, client_by_id, grant_of, is_usable, granted, is_active_client,
  authenticate_client, LegacyClient, bootstrap_legacy_clients,
}
use auto_x.Auth.Clients.Kept.{Keeps, KeepsIf, KeepsIf-bootstrap}

nothing : (scopes : String) → ◌≡◌ {A = Option String} none (some scopes) → ⊥
nothing scopes c = cc

same : (a b : String) → ◌≡◌ {A = Option String} (some a) (some b) → a ≡ b
same a b e = ap (or_self a) e
  where
    or_self : String → Option String → String
    or_self x none = x
    or_self x (some y) = y

granted_scopes :
    (now : Instant) (client_id digest scopes : String) (credential : Option Credential)
    (grant : Option Grant) (db : ClientDb)
    → (granted now client_id digest credential grant db).0 ≡ some scopes
    → (g : Grant) × (grant ≡ some g) × (g.scopes ≡ scopes)
unfolding granted
granted_scopes now client_id digest scopes none none db h = absurd (nothing scopes h)
granted_scopes now client_id digest scopes none (some g) db h = absurd (nothing scopes h)
granted_scopes now client_id digest scopes (some c) none db h = absurd (nothing scopes h)
granted_scopes now client_id digest scopes (some c) (some g) db h =
    (g, refl, same g.scopes scopes h)

-- What `authenticate_client` returns are the scopes of the grant.
scopes_of_grant :
    (digest : String → String) (now : Instant) (client_id secret audience scopes : String)
    (db : ClientDb)
    → (authenticate_client digest now client_id secret audience db).0 ≡ some scopes
    → (g : Grant) × (grant_of client_id audience db ≡ some g) × (g.scopes ≡ scopes)
unfolding authenticate_client
scopes_of_grant digest now client_id secret audience scopes db h =
    elim (Bool-cases (is_active_client (client_by_id client_id db))) [
      | inl e ↦
          granted_scopes now client_id (digest secret) scopes
            (find (is_usable now client_id (digest secret)) db.credentials)
            (grant_of client_id audience db) db (rw e at h)
      | inr e ↦ absurd (nothing scopes (rw e at h))
    ]

-- A client was there when the import of a clients file ran through. Whatever it can authenticate
-- with afterwards, the scopes that it gets are those of a grant it had before the import.
pub import_never_widens :
    (digest : String → String) (now when : Instant) (label : String)
    (file : Option (String × List LegacyClient)) (db db' : ClientDb)
    (client_id secret audience scopes : String)
    → is_some (client_by_id client_id db) ≡ true
    → bootstrap_legacy_clients when label file db ≡ some db'
    → (authenticate_client digest now client_id secret audience db').0 ≡ some scopes
    → (g : Grant) × (grant_of client_id audience db ≡ some g) × (g.scopes ≡ scopes)
import_never_widens digest now when label file db db' client_id secret audience scopes here done h =
    let keeps : Keeps client_id db db' =
      subst (KeepsIf client_id db) done (KeepsIf-bootstrap client_id when label file db) in
    let (g, there, own) = scopes_of_grant digest now client_id secret audience scopes db' h in
    (g, sym (keeps.same here audience) ∙ there, own)
