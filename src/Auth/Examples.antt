-- ===== src/Auth/Examples.antt =====
-- The authentication center on concrete rows.
use auto_x.Prelude.{◌≡◌, refl, true, false, none, some, List, [], ◌∷◌, arith}
use auto_x.Auth.{Admin}
use auto_x.Auth.Sessions.{create_user_session, validate_user_session}
use auto_x.Auth.Sessions.Spec.{Call, creates, checks, revokes, cleans, empty, reached, step, run}
use auto_x.Auth.Sessions.Refinement.{sessions_refine, logout_is_final, IsHistory}
use auto_x.Auth.Clients.{
  Grant, ClientDb, LegacyClient, authenticate_client, grant_of, is_usable, granted,
  bootstrap_legacy_clients, bootstrap_xhs_result_grant, import_clients, import_client,
  import_grants, add_client, add_credential, add_grant, add_marker, then_db,
}
use auto_x.Auth.Clients.Grants.{import_never_widens}
use auto_x.Auth.Clients.Once.{bootstraps_once}

abbrev root : Admin
root = record { id = 1; is_active = true }

-- Two logins, a check, a logout that Redis does not hear of, and a cleanup.
abbrev day : List Call
day =
    creates 100 "s1" "j1" 1 5000000
    ∷ creates 200 "s2" "j2" 1 9000000
    ∷ checks 300 true (root ∷ []) "s1" "j1" 1
    ∷ revokes 400 false "s1" "logout"
    ∷ cleans 500
    ∷ []

day-IsHistory : IsHistory 0 day empty
unfolding step create_user_session
day-IsHistory = (
  omega arith,
  record { new_sid = refl; new_jti = refl; not_denied = refl; not_cached = refl },
  (
    omega arith,
    record { new_sid = refl; new_jti = refl; not_denied = refl; not_cached = refl },
    (omega arith, tt, (omega arith, tt, (omega arith, tt, tt))),
  ),
)

sessions_refine_example :
    (validate_user_session 600
      (root ∷ [])
      (reached true (run day empty).cache)
      "s2"
      "j2"
      1
      (run day empty).db).0
    ≡ some root
sessions_refine_example =
    sessions_refine 0 600 day true (root ∷ []) "s2" "j2" 1 day-IsHistory (omega arith)

logout_is_final_example :
    (validate_user_session 600
      (root ∷ [])
      (reached true (run day empty).cache)
      "s1"
      "j1"
      1
      (run day empty).db).0
    ≡ none
logout_is_final_example =
    logout_is_final 0 600 400
      (creates 100 "s1" "j1" 1 5000000
        ∷ creates 200 "s2" "j2" 1 9000000
        ∷ checks 300 true (root ∷ []) "s1" "j1" 1
        ∷ [])
      (cleans 500 ∷ []) false true (root ∷ []) "s1" "logout" "j1" 1 day-IsHistory (omega arith) tt

-- A worker whose grant an operator has taken away, and a file that would give it back.
abbrev before : ClientDb
before = record {
  clients =
      record {
        client_id = "worker";
        is_active = true;
        created_at = 10;
        last_authenticated_at = none;
      }
      ∷ [];
  credentials = [];
  grants =
      record { client_id = "worker"; audience = "skill"; scopes = "run"; created_at = 10 } ∷ [];
  markers = [];
}

abbrev entries : List LegacyClient
entries =
    record {
      client_id = "worker";
      name_fits = true;
      digest = "d1";
      is_digest = true;
      grants =
          record { audience = "backend"; scopes = "all" }
          ∷ record { audience = "skill"; scopes = "all" }
          ∷ [];
    }
    ∷ record {
      client_id = "xhs-worker";
      name_fits = true;
      digest = "d2";
      is_digest = true;
      grants = record { audience = "skill"; scopes = "run" } ∷ [];
    }
    ∷ []

abbrev after : ClientDb
after = record {
  clients =
      record {
        client_id = "worker";
        is_active = true;
        created_at = 10;
        last_authenticated_at = none;
      }
      ∷ record {
        client_id = "xhs-worker";
        is_active = true;
        created_at = 20;
        last_authenticated_at = none;
      }
      ∷ [];
  credentials =
      record {
        client_id = "worker";
        secret_sha256 = "d1";
        label = "legacy";
        is_active = true;
        created_at = 20;
        expires_at = none;
        last_used_at = none;
      }
      ∷ record {
        client_id = "xhs-worker";
        secret_sha256 = "d2";
        label = "legacy";
        is_active = true;
        created_at = 20;
        expires_at = none;
        last_used_at = none;
      }
      ∷ [];
  grants =
      record { client_id = "worker"; audience = "skill"; scopes = "run"; created_at = 10 }
      ∷ record { client_id = "xhs-worker"; audience = "skill"; scopes = "run"; created_at = 20 }
      ∷ [];
  markers = record { bootstrap_id = "legacy-clients-v1"; source_sha256 = "f1" } ∷ [];
}

imported : bootstrap_legacy_clients 20 "legacy" (some ("f1", entries)) before ≡ some after
unfolding bootstrap_legacy_clients import_clients import_client import_grants add_client
    add_credential add_grant add_marker
imported = refl

authenticated :
    (authenticate_client (λ secret. secret) 30 "worker" "d1" "skill" after).0 ≡ some "run"
unfolding authenticate_client granted is_usable
authenticated = refl

import_never_widens_example :
    (g : Grant) × (grant_of "worker" "skill" before ≡ some g) × (g.scopes ≡ "run")
import_never_widens_example =
    import_never_widens (λ secret. secret) 30 20 "legacy" (some ("f1", entries)) before after
      "worker" "d1" "skill" "run" refl imported authenticated

-- An operator switches all clients off and removes the grants.
abbrev operated : ClientDb
operated = record {
  clients = [];
  credentials = [];
  grants = [];
  markers =
      record { bootstrap_id = "legacy-clients-v1"; source_sha256 = "f1" }
      ∷ record { bootstrap_id = "xhs-result-grant-v1"; source_sha256 = "x1" }
      ∷ [];
}

operated_kept : operated.markers ≡ (bootstrap_xhs_result_grant 20 "x1" after).markers
unfolding bootstrap_xhs_result_grant add_marker add_grant
operated_kept = refl

bootstraps_once_example :
    then_db
      (bootstrap_legacy_clients 90 "legacy" (some ("f1", entries)) operated)
      (λ next. some (bootstrap_xhs_result_grant 90 "x1" next))
    ≡ some operated
bootstraps_once_example =
    bootstraps_once 20 90 "legacy" "f1" "x1" entries entries before after operated imported refl
      operated_kept
