-- ===== src/Auth/Clients/Once.antt =====
-- control_plane/auth_store.py: the markers of the imports at start.
use auto_x.Prelude.{
  String, ◌≡◌, refl, ap, subst, inl, inr, Bool, true, false, ◌&&◌, ◌||◌, Option, none, some, List,
  [], ◌∷◌, ◌++◌, arith, if◌then◌else◌, str_eq_refl, Bool-cases, is_none, any_true, any_true-append,
  Instant,
}
use auto_x.Auth.Clients.{
  ClientDb, Marker, LegacyClient, client_by_id, grant_of, is_grant, is_active_client, is_marker,
  add_marker, add_grant, then_db, import_clients, legacy_clients_bootstrap_id,
  bootstrap_legacy_clients, xhs_result_grant_bootstrap_id, bootstrap_xhs_result_grant,
}

marker_added :
    (bootstrap_id source : String) (markers : List Marker)
    → any_true
        (is_marker bootstrap_id source)
        (markers ++ record { bootstrap_id = bootstrap_id; source_sha256 = source } ∷ [])
      ≡ true
marker_added bootstrap_id source [] = rw (str_eq_refl bootstrap_id, str_eq_refl source) refl
marker_added bootstrap_id source (m ∷ markers) =
    ground (arith, marker_added bootstrap_id source markers)

-- A transaction that ends with a marker, and one that has nothing to do.
marks :
    (bootstrap_id source : String) (o : Option ClientDb) (db' : ClientDb)
    → then_db o (λ db. some (add_marker bootstrap_id source db)) ≡ some db'
    → any_true (is_marker bootstrap_id source) db'.markers ≡ true
unfolding add_marker
marks bootstrap_id source none db' done = absurd (nothing db' done)
  where
    nothing : (db : ClientDb) → ◌≡◌ {A = Option ClientDb} none (some db) → ⊥
    nothing db c = cc
marks bootstrap_id source (some db) db' done =
    subst (λ (o : Option ClientDb). any_true (is_marker bootstrap_id source) (or_none o) ≡ true)
      done (marker_added bootstrap_id source db.markers)
  where
    or_none : Option ClientDb → List Marker
    or_none none = []
    or_none (some x) = x.markers

same_markers :
    (db db' : ClientDb) → ◌≡◌ {A = Option ClientDb} (some db) (some db') → db.markers ≡ db'.markers
same_markers db db' e = ap or_none e
  where
    or_none : Option ClientDb → List Marker
    or_none none = []
    or_none (some x) = x.markers

imported_marker :
    (now : Instant) (label source : String) (entries : List LegacyClient) (db db' : ClientDb)
    → bootstrap_legacy_clients now label (some (source, entries)) db ≡ some db'
    → any_true (is_marker legacy_clients_bootstrap_id source) db'.markers ≡ true
unfolding bootstrap_legacy_clients
imported_marker now label source entries db db' done =
    elim (Bool-cases (any_true (is_marker legacy_clients_bootstrap_id source) db.markers)) [
      | inl e ↦
          subst (λ markers. any_true (is_marker legacy_clients_bootstrap_id source) markers ≡ true)
            (same_markers db db' (rw (e, bootstrap_legacy_clients) at done)) e
      | inr e ↦
          marks legacy_clients_bootstrap_id source (import_clients now label entries db) db'
            (rw (e, bootstrap_legacy_clients) at done)
    ]

-- What the import of the grant returns has its marker.
xhs_marker :
    (now : Instant) (source : String) (db : ClientDb)
    → is_none (client_by_id "xhs-worker" db) ≡ false
    → any_true
        (is_marker xhs_result_grant_bootstrap_id source)
        (bootstrap_xhs_result_grant now source db).markers
      ≡ true
unfolding bootstrap_xhs_result_grant add_marker
xhs_marker now source db there =
    elim (Bool-cases (any_true (is_marker xhs_result_grant_bootstrap_id source) db.markers)) [
      | inl e ↦ rw (e, bootstrap_xhs_result_grant) e
      | inr e ↦
          rw (e, there, bootstrap_xhs_result_grant)
            (marker_added xhs_result_grant_bootstrap_id source (granted_db now db).markers)
    ]
  where
    granted_db : Instant → ClientDb → ClientDb
    granted_db now db =
        if is_active_client (client_by_id "xhs-worker" db)
          && is_none (grant_of "xhs-worker" "backend" db)
        then add_grant now "xhs-worker" "backend" "xhs:result" db
        else db

more_markers :
    (id source : String) (markers others : List Marker)
    → any_true (is_marker id source) markers ≡ true
    → any_true (is_marker id source) (markers ++ others) ≡ true
more_markers id source markers others h = rw (any_true-append, h) refl

-- The marker of the file survives the import of the grant.
xhs_keeps_marker :
    (now : Instant) (text id source : String) (db : ClientDb)
    → any_true (is_marker id source) db.markers ≡ true
    → any_true (is_marker id source) (bootstrap_xhs_result_grant now text db).markers ≡ true
unfolding bootstrap_xhs_result_grant add_marker add_grant
xhs_keeps_marker now text id source db h =
    if_true
      (any_true (is_marker xhs_result_grant_bootstrap_id text) db.markers
        || is_none (client_by_id "xhs-worker" db))
      db _ h
      (more_markers id source _ _ (
        if_true
          (is_active_client (client_by_id "xhs-worker" db)
            && is_none (grant_of "xhs-worker" "backend" db))
          (add_grant now "xhs-worker" "backend" "xhs:result" db) db
          (if_true (any_true (is_grant "xhs-worker" "backend") db.grants) db _ h h) h))
  where
    if_true :
        (b : Bool) (x y : ClientDb)
        → any_true (is_marker id source) x.markers ≡ true
        → any_true (is_marker id source) y.markers ≡ true
        → any_true (is_marker id source) (if b then x else y).markers ≡ true
    if_true true x y k l = k
    if_true false x y k l = l

-- Both imports of a start, of the legacy clients and of the grant, have run through, with the client
-- "xhs-worker" there. Whatever operators then do to clients, credentials and grants, both imports
-- again, of the same file and text, change nothing and do not fail.
pub bootstraps_once :
    (now later : Instant) (label source text : String) (entries others : List LegacyClient)
    (db db' db'' : ClientDb)
    → bootstrap_legacy_clients now label (some (source, entries)) db ≡ some db'
    → is_none (client_by_id "xhs-worker" db') ≡ false
    → db''.markers ≡ (bootstrap_xhs_result_grant now text db').markers
    → then_db
        (bootstrap_legacy_clients later label (some (source, others)) db'')
        (λ next. some (bootstrap_xhs_result_grant later text next))
      ≡ some db''
unfolding bootstrap_legacy_clients bootstrap_xhs_result_grant
bootstraps_once now later label source text entries others db db' db'' done there kept =
    rw
      (
        bootstrap_legacy_clients,
        bootstrap_xhs_result_grant,
        kept,
        xhs_keeps_marker now text legacy_clients_bootstrap_id source db'
            (imported_marker now label source entries db db' done),
        xhs_marker now text db' there,
      )
      refl
