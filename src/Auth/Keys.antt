-- ===== src/Auth/Keys.antt =====
-- control_plane/auth_store.py: the signing keys. What a key is encrypted to, and whether a replica
-- can decrypt it, are arguments; a key that is made or imported comes with its row's texts.
use auto_x.Prelude.{
  ℕ, ◌+◌, String, Bool, true, false, not, ◌&&◌, ◌||◌, Option, none, some, List, [], ◌∷◌, ◌++◌,
  str_eq, ltb, leb, if◌then◌else◌, where_true, find, update, Instant, order_by,
}
pub mod Sound
pub mod Overlap
pub mod Rotation
mod Examples

pub data KeyStatus : Type 0 where
  active retired revoked : KeyStatus

abbrev pub status_eq : KeyStatus → KeyStatus → Bool
status_eq active active = true
status_eq retired retired = true
status_eq revoked revoked = true
status_eq _ _ = false

pub record SigningKey : Type 0 where
  pub kid : String
  pub private_key_ciphertext : String
  pub public_key_pem : String
  pub status : KeyStatus
  pub not_before : Instant
  pub expires_at : Option Instant
  pub retired_at : Option Instant
  pub created_at : Instant

pub record SigningMaterial : Type 0 where
  pub kid : String
  pub private_key : String
  pub public_key : String

-- `generate_signing_key` or `load_signing_key`, with what `encrypt_private_key` makes of it.
pub record NewKey : Type 0 where
  pub material : SigningMaterial
  pub ciphertext : String

abbrev pub has_kid : String → SigningKey → Bool
has_kid kid key = str_eq key.kid kid

abbrev pub is_active : SigningKey → Bool
is_active key = status_eq key.status active

-- `_material`: `none` for the error of a replica with another key-encryption key.
unfoldable pub material : (String → String → Option String) → SigningKey → Option SigningMaterial
material decrypt key = elim (decrypt key.private_key_ciphertext key.kid) [
  | none ↦ none
  | some private_key ↦
      some (record { kid = key.kid; private_key = private_key; public_key = key.public_key_pem })
]

abbrev pub retire : Instant → ℕ → SigningKey → SigningKey
retire now overlap key = record key {
  status = retired;
  retired_at = some now;
  expires_at = some (now + overlap);
}

abbrev pub new_row : Instant → NewKey → SigningKey
new_row now new = record {
  kid = new.material.kid;
  private_key_ciphertext = new.ciphertext;
  public_key_pem = new.material.public_key;
  status = active;
  not_before = now;
  expires_at = none;
  retired_at = none;
  created_at = now;
}

-- `active.created_at <= now - rotation_after`.
abbrev pub is_old : Instant → ℕ → SigningKey → Bool
is_old now rotation_after key = leb (key.created_at + rotation_after) now

-- The replacement of the active key, after the proof that this replica can read it.
unfoldable pub rotate :
    Instant
    → ℕ
    → NewKey
    → Option SigningMaterial
    → List SigningKey
    → Option (SigningMaterial × List SigningKey)
rotate now overlap new none keys = none
rotate now overlap new (some _) keys =
    some (new.material, update is_active (retire now overlap) keys ++ new_row now new ∷ [])

-- The partial index on the status admits one active key, which the query finds.
unfoldable pub ensure_active_signing_key :
    (String → String → Option String)
    → ℕ
    → ℕ
    → Instant
    → Bool
    → NewKey
    → List SigningKey
    → Option (SigningMaterial × List SigningKey)
ensure_active_signing_key decrypt rotation_after overlap now force_rotate new keys =
    elim (find is_active keys) [
      | none ↦ some (new.material, keys ++ new_row now new ∷ [])
      | some key ↦
          if force_rotate || is_old now rotation_after key
          then rotate now overlap new (material decrypt key) keys
          else (elim (material decrypt key) [ none ↦ none | some m ↦ some (m, keys) ])
    ]

-- `active_signing_material`: a young key is returned as it is, else `ensure_active_signing_key`.
unfoldable pub active_signing_material :
    (String → String → Option String)
    → ℕ
    → ℕ
    → Instant
    → NewKey
    → List SigningKey
    → Option (SigningMaterial × List SigningKey)
active_signing_material decrypt rotation_after overlap now new keys =
    let ensured = ensure_active_signing_key decrypt rotation_after overlap now false new keys in
    elim (find is_active keys) [
      | none ↦ ensured
      | some key ↦
          if ltb now (key.created_at + rotation_after)
          then (elim (material decrypt key) [ none ↦ none | some m ↦ some (m, keys) ])
          else ensured
    ]

abbrev pub after_now : Instant → Option Instant → Bool
after_now now none = false
after_now now (some t) = ltb now t

-- The WHERE clause of `jwks`, and its rows, the newest first.
unfoldable pub is_published : Instant → SigningKey → Bool
is_published now key =
    is_active key || (status_eq key.status retired && after_now now key.expires_at)

unfoldable pub jwks : Instant → List SigningKey → List SigningKey
jwks now keys =
    order_by (λ (a b : SigningKey). leb b.created_at a.created_at)
      (where_true (is_published now) keys)

abbrev pub has_expired : Instant → Option Instant → Bool
has_expired now none = false
has_expired now (some t) = leb t now

-- The early returns of `decode_and_validate_user_token` on the key of the token's header.
unfoldable pub verifies : Instant → Option SigningKey → Bool
verifies now none = false
verifies now (some key) = not (status_eq key.status revoked) && not (has_expired now key.expires_at)

abbrev pub key_by_kid : String → List SigningKey → Option SigningKey
key_by_kid kid keys = find (has_kid kid) keys

-- `cleanup_expired` on the keys.
unfoldable pub is_stale : Instant → SigningKey → Bool
is_stale now key = status_eq key.status retired && has_expired now key.expires_at

unfoldable pub cleanup_keys : Instant → List SigningKey → List SigningKey
cleanup_keys now keys =
    update (is_stale now) (λ (k : SigningKey). record k { status = revoked }) keys
