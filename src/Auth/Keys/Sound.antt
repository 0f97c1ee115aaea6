-- ===== src/Auth/Keys/Sound.antt =====
-- control_plane/auth_store.py: what holds of the keys after each call of a replica.
use auto_x.Prelude.{
  ℕ, suc, ◌+◌, ◌≤◌, String, ◌≡◌, refl, ◌∙◌, inl, inr, Bool, true, false, ◌||◌, Option, none, some,
  List, [], ◌∷◌, ◌++◌, arith, ltb, Bool-cases, Option-cases, is_some, length, All, where_true, find,
  update, Instant, has_key_in, IsKeyed, IsKeyed-append, has_key_in-update, IsKeyed-update, All-snoc,
  All-update,
}
use auto_x.Auth.Keys.{
  retired, revoked, status_eq, SigningKey, SigningMaterial, NewKey, is_active, material, retire,
  new_row, is_old, rotate, ensure_active_signing_key, active_signing_material, is_stale,
  cleanup_keys,
}

-- What a replica does, with the key that it would make.
pub data KeyCall : Type 0 where
  ensures : Instant → Bool → NewKey → KeyCall
  activates : Instant → NewKey → KeyCall
  cleans : Instant → KeyCall

abbrev pub instant_of : KeyCall → Instant
instant_of (ensures now force new) = now
instant_of (activates now new) = now
instant_of (cleans now) = now

-- A call that raises leaves the table as it was.
abbrev pub keys_after :
    List SigningKey → Option (SigningMaterial × List SigningKey) → List SigningKey
keys_after keys none = keys
keys_after keys (some (m, keys')) = keys'

abbrev pub kid_of : SigningKey → String
kid_of key = key.kid

abbrev pub IsFreshKey : NewKey → List SigningKey → Type 0
IsFreshKey new keys = has_key_in kid_of keys new.material.kid ≡ false

-- An active key has no end, and a retired one has.
abbrev pub IsSound : SigningKey → Type 0
IsSound key =
    (is_active key ≡ true → is_some key.expires_at ≡ false)
    × (status_eq key.status retired ≡ true → is_some key.expires_at ≡ true)

pub record Ok (keys : List SigningKey) : Type 0 where
  pub keyed : IsKeyed kid_of keys
  pub sound : All IsSound keys
  pub single : length (where_true is_active keys) ≤ 1

count_snoc :
    (keys : List SigningKey) (key : SigningKey)
    → length (where_true is_active (keys ++ key ∷ [])) ≤ suc (length (where_true is_active keys))
count_snoc [] key = ground arith
count_snoc (x ∷ keys) key = ground (arith, count_snoc keys key)

count_retired :
    (now : Instant) (overlap : ℕ) (keys : List SigningKey)
    → length (where_true is_active (update is_active (retire now overlap) keys)) ≡ 0
count_retired now overlap [] = refl
count_retired now overlap (x ∷ keys) = elim (Bool-cases (is_active x)) [
  | inl e ↦ rw e (count_retired now overlap keys)
  | inr e ↦ rw (e, e) (count_retired now overlap keys)
]

count_none :
    (keys : List SigningKey) → find is_active keys ≡ none → length (where_true is_active keys) ≡ 0
count_none [] h = refl
count_none (x ∷ keys) h = ground (arith, count_none keys)

count_cleaned :
    (now : Instant) (keys : List SigningKey)
    → length (where_true is_active (cleanup_keys now keys)) ≡ length (where_true is_active keys)
unfolding cleanup_keys is_stale
count_cleaned now [] = refl
count_cleaned now (x ∷ keys) = ground (arith, count_cleaned now keys)

IsSound-new : (now : Instant) (new : NewKey) → IsSound (new_row now new)
IsSound-new now new = (λ e. refl, λ e. cc)

pub Ok-add :
    (now : Instant) (new : NewKey) (keys : List SigningKey)
    → Ok keys
    → IsFreshKey new keys
    → length (where_true is_active keys) ≡ 0
    → Ok (keys ++ new_row now new ∷ [])
Ok-add now new keys ok fresh h = record {
  keyed = IsKeyed-append kid_of keys (new_row now new) ok.keyed fresh;
  sound = All-snoc IsSound keys (new_row now new) ok.sound (IsSound-new now new);
  single = omega (arith, count_snoc keys (new_row now new));
}

pub Ok-retired :
    (now : Instant) (overlap : ℕ) (keys : List SigningKey)
    → Ok keys
    → Ok (update is_active (retire now overlap) keys)
Ok-retired now overlap keys ok = record {
  keyed = IsKeyed-update kid_of is_active (retire now overlap) keys (λ k. refl) ok.keyed;
  sound =
      All-update IsSound is_active (retire now overlap) keys (λ k s e. (λ h. cc, λ h. refl))
        ok.sound;
  single = omega (arith, count_retired now overlap keys);
}

pub Ok-cleanup : (now : Instant) (keys : List SigningKey) → Ok keys → Ok (cleanup_keys now keys)
unfolding cleanup_keys
Ok-cleanup now keys ok = record {
  keyed =
      IsKeyed-update kid_of (is_stale now) (λ (k : SigningKey). record k { status = revoked }) keys
        (λ k. refl) ok.keyed;
  sound =
      All-update IsSound (is_stale now) (λ (k : SigningKey). record k { status = revoked }) keys
        (λ k s e. (λ h. cc, λ h. cc)) ok.sound;
  single = omega (arith, count_cleaned now keys, ok.single);
}

-- The three tables that `ensure_active_signing_key` may leave.
pub ensure_cases :
    (P : List SigningKey → Type 0) (decrypt : String → String → Option String)
    (rotation_after overlap : ℕ) (now : Instant) (force : Bool) (new : NewKey)
    (keys : List SigningKey)
    → P keys
    → (find is_active keys ≡ none → P (keys ++ new_row now new ∷ []))
    → P (update is_active (retire now overlap) keys ++ new_row now new ∷ [])
    → P (
        keys_after keys
          (ensure_active_signing_key decrypt rotation_after overlap now force new keys))
unfolding ensure_active_signing_key
ensure_cases P decrypt rotation_after overlap now force new keys same added rotated =
    elim (Option-cases (find is_active keys)) [
      | inl gone ↦ rw (gone, ensure_active_signing_key) (added gone)
      | inr (key, there) ↦
          rw (there, ensure_active_signing_key)
            (elim (Bool-cases (force || is_old now rotation_after key)) [
              | inl e ↦ rw e (rotated_or_same (material decrypt key))
              | inr e ↦ rw e (read_or_same (material decrypt key))
            ])
    ]
  where
    rotated_or_same :
        (o : Option SigningMaterial) → P (keys_after keys (rotate now overlap new o keys))
    rotated_or_same none = unfold rotate in same
    rotated_or_same (some m) = unfold rotate in rotated

    read_or_same :
        (o : Option SigningMaterial)
        → P (keys_after keys (elim o [ none ↦ none | some m ↦ some (m, keys) ]))
    read_or_same none = same
    read_or_same (some m) = same

pub Ok-ensure :
    (decrypt : String → String → Option String) (rotation_after overlap : ℕ) (now : Instant)
    (force : Bool) (new : NewKey) (keys : List SigningKey)
    → Ok keys
    → IsFreshKey new keys
    → Ok (
        keys_after keys
          (ensure_active_signing_key decrypt rotation_after overlap now force new keys))
Ok-ensure decrypt rotation_after overlap now force new keys ok fresh =
    ensure_cases Ok decrypt rotation_after overlap now force new keys ok
      (λ gone. Ok-add now new keys ok fresh (count_none keys gone))
      (Ok-add now new (update is_active (retire now overlap) keys) (Ok-retired now overlap keys ok)
        (has_key_in-update kid_of is_active (retire now overlap) keys new.material.kid (λ k. refl)
          ∙ fresh)
        (count_retired now overlap keys))

pub activate_cases :
    (P : List SigningKey → Type 0) (decrypt : String → String → Option String)
    (rotation_after overlap : ℕ) (now : Instant) (new : NewKey) (keys : List SigningKey)
    → P keys
    → P (
        keys_after keys
          (ensure_active_signing_key decrypt rotation_after overlap now false new keys))
    → P (keys_after keys (active_signing_material decrypt rotation_after overlap now new keys))
unfolding active_signing_material
activate_cases P decrypt rotation_after overlap now new keys same ensured =
    elim (Option-cases (find is_active keys)) [
      | inl gone ↦ rw (gone, active_signing_material) ensured
      | inr (key, there) ↦
          rw (there, active_signing_material)
            (elim (Bool-cases (ltb now (key.created_at + rotation_after))) [
              | inl e ↦ rw e (read_or_same (material decrypt key))
              | inr e ↦ rw e ensured
            ])
    ]
  where
    read_or_same :
        (o : Option SigningMaterial)
        → P (keys_after keys (elim o [ none ↦ none | some m ↦ some (m, keys) ]))
    read_or_same none = same
    read_or_same (some m) = same
