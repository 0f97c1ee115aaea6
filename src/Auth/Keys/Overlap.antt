-- ===== src/Auth/Keys/Overlap.antt =====
-- control_plane/auth_store.py: which keys a token may be signed with, over the calls of replicas.
use auto_x.Prelude.{
  ℕ, ◌≤◌, String, ◌≡◌, refl, sym, ap, ◌∙◌, inl, inr, false, Option, none, some, List, [], ◌∷◌,
  arith, leb, Bool-cases, is_some, length, where_true, any_true, Instant, any_true-order_by,
  keep_if, find-where, has_key_in-find, find-All,
}
use auto_x.Auth.Keys.{
  SigningKey, has_kid, is_active, ensure_active_signing_key, active_signing_material, is_published,
  jwks, verifies, key_by_kid, cleanup_keys,
}
use auto_x.Auth.Keys.Sound.{
  KeyCall, ensures, activates, cleans, instant_of, keys_after, kid_of, IsFreshKey, IsSound, Ok,
  Ok-ensure, Ok-cleanup, activate_cases,
}

-- The replicas may differ in what they can decrypt, not in the periods.
module _ (decrypt : KeyCall → String → String → Option String) (rotation_after overlap : ℕ) where
  unfoldable pub step : KeyCall → List SigningKey → List SigningKey
  step (ensures now force new) keys = keys_after keys (
      ensure_active_signing_key (decrypt (ensures now force new)) rotation_after overlap now force
        new keys)
  step (activates now new) keys =
      keys_after keys
        (active_signing_material (decrypt (activates now new)) rotation_after overlap now new keys)
  step (cleans now) keys = cleanup_keys now keys

  unfoldable pub run : List KeyCall → List SigningKey → List SigningKey
  run [] keys = keys
  run (c ∷ cs) keys = run cs (step c keys)

  abbrev pub IsFreshCall : KeyCall → List SigningKey → Type 0
  IsFreshCall (ensures now force new) keys = IsFreshKey new keys
  IsFreshCall (activates now new) keys = IsFreshKey new keys
  IsFreshCall (cleans now) keys = Unit

  -- Instants do not go back, and a key that is made has an id of its own.
  abbrev pub IsHistory : Instant → List KeyCall → List SigningKey → Type 0
  IsHistory t [] keys = Unit
  IsHistory t (c ∷ cs) keys =
      (t ≤ instant_of c) × IsFreshCall c keys × IsHistory (instant_of c) cs (step c keys)

  abbrev pub end_of_history : Instant → List KeyCall → Instant
  end_of_history t [] = t
  end_of_history t (c ∷ cs) = end_of_history (instant_of c) cs

  Ok-step : (c : KeyCall) (keys : List SigningKey) → IsFreshCall c keys → Ok keys → Ok (step c keys)
  unfolding step
  Ok-step (ensures now force new) keys fresh ok =
      Ok-ensure (decrypt (ensures now force new)) rotation_after overlap now force new keys ok fresh
  Ok-step (activates now new) keys fresh ok =
      activate_cases Ok (decrypt (activates now new)) rotation_after overlap now new keys ok
        (Ok-ensure (decrypt (activates now new)) rotation_after overlap now false new keys ok fresh)
  Ok-step (cleans now) keys fresh ok = Ok-cleanup now keys ok

  Ok-run :
      (t : Instant) (cs : List KeyCall) (keys : List SigningKey)
      → IsHistory t cs keys
      → Ok keys
      → Ok (run cs keys)
  unfolding run
  Ok-run t [] keys h ok = ok
  Ok-run t (c ∷ cs) keys (later, fresh, rest) ok =
      Ok-run (instant_of c) cs (step c keys) rest (Ok-step c keys fresh ok)

  sound_verifies :
      (now : Instant) (key : SigningKey)
      → IsSound key
      → is_published now key ≡ verifies now (some key)
  unfolding is_published verifies
  sound_verifies now key s = ground (arith, s.0, s.1)

  some_kept :
      (now : Instant) (o : Option SigningKey)
      → ((key : SigningKey) → o ≡ some key → IsSound key)
      → is_some (keep_if (is_published now) o) ≡ verifies now o
  some_kept now none s = unfold verifies in refl
  some_kept now (some key) s = elim (Bool-cases (is_published now key)) [
    | inl e ↦ rw e (sym e ∙ sound_verifies now key (s key refl))
    | inr e ↦ rw e (sym e ∙ sound_verifies now key (s key refl))
  ]

  -- From an empty table, over any calls of replicas that make keys with ids of their own and that
  -- may fail to decrypt: there is at most one active key, and the keys that are published at an
  -- instant are exactly those by which tokens verify then.
  pub published_keys_verify :
      (t now : Instant) (calls : List KeyCall) (kid : String)
      → IsHistory t calls []
      → (length (where_true is_active (run calls [])) ≤ 1)
        × (any_true (has_kid kid) (jwks now (run calls []))
            ≡ verifies now (key_by_kid kid (run calls [])))
  unfolding jwks
  published_keys_verify t now calls kid h =
      let ok = Ok-run t calls [] h (record { keyed = tt; sound = tt; single = omega arith }) in
      let keys = run calls [] in
      (
        ok.single,
        any_true-order_by (λ (a b : SigningKey). leb b.created_at a.created_at) (has_kid kid)
              (where_true (is_published now) keys)
            ∙ has_key_in-find kid_of (where_true (is_published now) keys) kid
            ∙ ap is_some (find-where kid_of (is_published now) keys kid ok.keyed)
            ∙ some_kept now (key_by_kid kid keys)
                (λ key e. find-All IsSound (has_kid kid) keys key ok.sound e),
      )
