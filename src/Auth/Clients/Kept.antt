-- ===== src/Auth/Clients/Kept.antt =====
-- control_plane/auth_store.py: what an import leaves alone.
use auto_x.Prelude.{
  String, ◌≡◌, refl, sym, ◌∙◌, subst, inl, inr, Bool, true, false, not, ◌||◌, Option, none, some,
  List, [], ◌∷◌, ◌++◌, arith, str_eq, eq_iff, if◌then◌else◌, Bool-cases, is_none, is_some, any_true,
  find, Instant,
}
use auto_x.Auth.Clients.{
  Client, Grant, ClientDb, has_client_id, client_by_id, is_grant, grant_of, LegacyGrant,
  LegacyClient, is_marker, is_credential, add_client, add_credential, add_grant, import_grants,
  import_client, then_db, import_clients, legacy_clients_bootstrap_id, add_marker,
  bootstrap_legacy_clients,
}

-- A client that is there stays, and its grants are the same.
pub record Keeps (client_id : String) (db db' : ClientDb) : Type 0 where
  pub stays :
      is_some (client_by_id client_id db) ≡ true → is_some (client_by_id client_id db') ≡ true
  pub same :
      is_some (client_by_id client_id db) ≡ true
      → (audience : String) → grant_of client_id audience db' ≡ grant_of client_id audience db

Keeps-same : (client_id : String) (db : ClientDb) → Keeps client_id db db
Keeps-same client_id db = record { stays = λ h. h; same = λ h audience. refl }

Keeps-trans :
    (client_id : String) (a b c : ClientDb)
    → Keeps client_id a b
    → Keeps client_id b c
    → Keeps client_id a c
Keeps-trans client_id a b c k l = record {
  stays = λ h. l.stays (k.stays h);
  same = λ h audience. l.same (k.stays h) audience ∙ k.same h audience;
}

Keeps-if :
    (client_id : String) (db : ClientDb) (b : Bool) (x y : ClientDb)
    → Keeps client_id db x
    → Keeps client_id db y
    → Keeps client_id db (if b then x else y)
Keeps-if client_id db true x y h k = h
Keeps-if client_id db false x y h k = k

found_append :
    (client_id : String) (clients : List Client) (c : Client)
    → is_some (find (has_client_id client_id) clients) ≡ true
    → is_some (find (has_client_id client_id) (clients ++ c ∷ [])) ≡ true
found_append client_id [] c h = cc
found_append client_id (x ∷ clients) c h = ground (arith, found_append client_id clients c)

Keeps-client :
    (client_id : String) (now : Instant) (name : String) (db : ClientDb)
    → Keeps client_id db (add_client now name db)
unfolding add_client
Keeps-client client_id now name db = record {
  stays = found_append client_id db.clients _;
  same = λ h audience. refl;
}

Keeps-credential :
    (client_id : String) (now : Instant) (name digest label : String) (db : ClientDb)
    → Keeps client_id db (add_credential now name digest label db)
unfolding add_credential
Keeps-credential client_id now name digest label db =
    Keeps-if client_id db (any_true (is_credential name digest) db.credentials) db _
      (Keeps-same client_id db) (record { stays = λ h. h; same = λ h audience. refl })

grant_append :
    (client_id audience : String) (grants : List Grant) (g : Grant)
    → str_eq g.client_id client_id ≡ false
    → find (is_grant client_id audience) (grants ++ g ∷ [])
      ≡ find (is_grant client_id audience) grants
grant_append client_id audience [] g h = rw h refl
grant_append client_id audience (x ∷ grants) g h =
    ground (arith, grant_append client_id audience grants g h)

Keeps-grant :
    (client_id : String) (now : Instant) (name audience scopes : String) (db : ClientDb)
    → str_eq name client_id ≡ false
    → Keeps client_id db (add_grant now name audience scopes db)
unfolding add_grant
Keeps-grant client_id now name audience scopes db h =
    Keeps-if client_id db (any_true (is_grant name audience) db.grants) db _
      (Keeps-same client_id db)
      (record {
        stays = λ k. k;
        same = λ k other.
            grant_append client_id other db.grants
              (record { client_id = name; audience = audience; scopes = scopes; created_at = now })
              h;
      })

-- The result of a transaction that may fail.
abbrev pub KeepsIf : String → ClientDb → Option ClientDb → Type 0
KeepsIf client_id db none = Unit
KeepsIf client_id db (some db') = Keeps client_id db db'

KeepsIf-trans :
    (client_id : String) (a b : ClientDb) (o : Option ClientDb)
    → Keeps client_id a b
    → KeepsIf client_id b o
    → KeepsIf client_id a o
KeepsIf-trans client_id a b none k l = tt
KeepsIf-trans client_id a b (some c) k l = Keeps-trans client_id a b c k l

KeepsIf-none :
    (client_id : String) (db : ClientDb) (b : Bool) (o : Option ClientDb)
    → KeepsIf client_id db o
    → KeepsIf client_id db (if b then none else o)
KeepsIf-none client_id db true o h = tt
KeepsIf-none client_id db false o h = h

KeepsIf-grants :
    (client_id : String) (now : Instant) (name : String) (is_new : Bool) (grants : List LegacyGrant)
    (db : ClientDb)
    → (is_new ≡ true → str_eq name client_id ≡ false)
    → KeepsIf client_id db (import_grants now name is_new grants db)
unfolding import_grants
KeepsIf-grants client_id now name is_new [] db h = Keeps-same client_id db
KeepsIf-grants client_id now name true (g ∷ grants) db h =
    let next = add_grant now name g.audience g.scopes db in
    KeepsIf-none client_id db (str_eq g.audience "" || str_eq g.scopes "")
      (import_grants now name true grants next)
      (KeepsIf-trans client_id db next (import_grants now name true grants next)
        (Keeps-grant client_id now name g.audience g.scopes db (h refl))
        (KeepsIf-grants client_id now name true grants next h))
KeepsIf-grants client_id now name false (g ∷ grants) db h =
    KeepsIf-none client_id db (str_eq g.audience "" || str_eq g.scopes "")
      (import_grants now name false grants db) (KeepsIf-grants client_id now name false grants db h)

KeepsIf-absent :
    (client_id : String) (db : ClientDb) (o : Option ClientDb)
    → is_some (client_by_id client_id db) ≡ false
    → KeepsIf client_id db o
KeepsIf-absent client_id db none h = tt
KeepsIf-absent client_id db (some db') h = record {
  stays = λ k. absurd (clash (sym h ∙ k));
  same = λ k audience. absurd (clash (sym h ∙ k));
}
  where
    clash : false ≡ true → ⊥
    clash c = cc

-- An entry for a client that is there is not for a new one.
not_new :
    (client_id name : String) (db : ClientDb)
    → is_some (client_by_id client_id db) ≡ true
    → is_none (client_by_id name db) ≡ true
    → str_eq name client_id ≡ false
not_new client_id name db here gone = elim (Bool-cases (str_eq name client_id)) [
  | inr e ↦ e
  | inl e ↦ absurd (
      clash (client_by_id name db) gone
        (subst (λ x. is_some (client_by_id x db) ≡ true) (sym ((eq_iff name client_id).0 e)) here))
]
  where
    clash : (o : Option Client) → is_none o ≡ true → is_some o ≡ true → ⊥
    clash none g h = cc
    clash (some c) g h = cc

KeepsIf-import_client :
    (client_id : String) (now : Instant) (label : String) (entry : LegacyClient) (db : ClientDb)
    → KeepsIf client_id db (import_client now label entry db)
unfolding import_client
KeepsIf-import_client client_id now label entry db =
    elim (Bool-cases (is_some (client_by_id client_id db))) [
      | inr gone ↦ KeepsIf-absent client_id db (import_client now label entry db) gone
      | inl here ↦
          let is_new = is_none (client_by_id entry.client_id db) in
          let named = if is_new then add_client now entry.client_id db else db in
          let credited = add_credential now entry.client_id entry.digest label named in
          let imported = import_grants now entry.client_id is_new entry.grants credited in
          KeepsIf-none client_id db (not entry.name_fits || not entry.is_digest) imported (
            KeepsIf-trans client_id db credited imported
              (Keeps-trans client_id db named credited
                (Keeps-if client_id db is_new (add_client now entry.client_id db) db
                  (Keeps-client client_id now entry.client_id db) (Keeps-same client_id db))
                (Keeps-credential client_id now entry.client_id entry.digest label named))
              (KeepsIf-grants client_id now entry.client_id is_new entry.grants credited
                (λ fresh. not_new client_id entry.client_id db here fresh)))
    ]

KeepsIf-then :
    (client_id : String) (db : ClientDb) (o : Option ClientDb) (f : ClientDb → Option ClientDb)
    → KeepsIf client_id db o
    → ((db' : ClientDb) → KeepsIf client_id db' (f db'))
    → KeepsIf client_id db (then_db o f)
KeepsIf-then client_id db none f h k = tt
KeepsIf-then client_id db (some db') f h k = KeepsIf-trans client_id db db' (f db') h (k db')

KeepsIf-import_clients :
    (client_id : String) (now : Instant) (label : String) (entries : List LegacyClient)
    (db : ClientDb)
    → KeepsIf client_id db (import_clients now label entries db)
unfolding import_clients
KeepsIf-import_clients client_id now label [] db = Keeps-same client_id db
KeepsIf-import_clients client_id now label (entry ∷ entries) db =
    KeepsIf-then client_id db (import_client now label entry db) (import_clients now label entries)
      (KeepsIf-import_client client_id now label entry db)
      (λ db'. KeepsIf-import_clients client_id now label entries db')

pub KeepsIf-bootstrap :
    (client_id : String) (now : Instant) (label : String)
    (file : Option (String × List LegacyClient)) (db : ClientDb)
    → KeepsIf client_id db (bootstrap_legacy_clients now label file db)
unfolding bootstrap_legacy_clients add_marker
KeepsIf-bootstrap client_id now label none db = Keeps-same client_id db
KeepsIf-bootstrap client_id now label (some (source, entries)) db =
    elim (Bool-cases (any_true (is_marker legacy_clients_bootstrap_id source) db.markers)) [
      | inl e ↦ rw (e, bootstrap_legacy_clients) (Keeps-same client_id db)
      | inr e ↦
          rw (e, bootstrap_legacy_clients)
            (KeepsIf-then client_id db (import_clients now label entries db) _
              (KeepsIf-import_clients client_id now label entries db)
              (λ db'. record { stays = λ h. h; same = λ h audience. refl }))
    ]
