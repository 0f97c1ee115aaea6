-- ===== src/Auth/Keys/Examples.antt =====
-- The signing keys on a concrete table.
use auto_x.Prelude.{
  ◌≤◌, String, ◌≡◌, refl, true, false, Option, some, List, [], ◌∷◌, arith, length, where_true,
  any_true,
}
use auto_x.Auth.Keys.{
  SigningKey, NewKey, has_kid, is_active, material, retire, new_row, rotate,
  ensure_active_signing_key, jwks, verifies, key_by_kid, is_stale, cleanup_keys,
}
use auto_x.Auth.Keys.Sound.{KeyCall, ensures, activates, cleans}
use auto_x.Auth.Keys.Overlap.{step, run, IsHistory, published_keys_verify}
use auto_x.Auth.Keys.Rotation.{key_overlap}

abbrev new_key : String → NewKey
new_key kid = record {
  material = record { kid = kid; private_key = "secret"; public_key = "public" };
  ciphertext = "sealed";
}

-- A replica that reads every key.
abbrev reads : String → String → Option String
reads ciphertext kid = some "secret"

abbrev all_read : KeyCall → String → String → Option String
all_read c = reads

abbrev calls : List KeyCall
calls = ensures 10 false (new_key "k1") ∷ ensures 20 true (new_key "k2") ∷ cleans 30 ∷ []

calls-IsHistory : IsHistory all_read 1000 100 0 calls []
unfolding step ensure_active_signing_key rotate material
calls-IsHistory = (omega arith, refl, (omega arith, refl, (omega arith, tt, tt)))

published_keys_verify_example :
    (length (where_true is_active (run all_read 1000 100 calls [])) ≤ 1)
    × (any_true (has_kid "k1") (jwks 40 (run all_read 1000 100 calls []))
        ≡ verifies 40 (key_by_kid "k1" (run all_read 1000 100 calls [])))
published_keys_verify_example =
    published_keys_verify all_read 1000 100 0 40 calls "k1" calls-IsHistory

abbrev old_key : SigningKey
old_key = new_row 10 (new_key "k1")

abbrev rotated : List SigningKey
rotated = retire 20 100 old_key ∷ new_row 20 (new_key "k2") ∷ []

rotates :
    ensure_active_signing_key reads 1000 100 20 true (new_key "k2") (old_key ∷ [])
    ≡ some ((new_key "k2").material, rotated)
unfolding ensure_active_signing_key rotate material
rotates = refl

later-IsHistory :
    IsHistory all_read 1000 100 20 (cleans 60 ∷ activates 90 (new_key "k3") ∷ []) rotated
unfolding step cleanup_keys is_stale
later-IsHistory = (omega arith, tt, (omega arith, refl, tt))

key_overlap_example :
    verifies 119 (
      key_by_kid "k1"
        (run all_read 1000 100 (cleans 60 ∷ activates 90 (new_key "k3") ∷ []) rotated))
    ≡ true
key_overlap_example =
    key_overlap all_read 1000 100 reads 20 119 (new_key "k2") (old_key ∷ []) "k1" old_key
      (new_key "k2").material rotated (cleans 60 ∷ activates 90 (new_key "k3") ∷ []) refl refl
      rotates later-IsHistory (omega arith)
