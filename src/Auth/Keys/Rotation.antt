-- ===== src/Auth/Keys/Rotation.antt =====
-- control_plane/auth_store.py: how long a replaced key is good for.
use auto_x.Prelude.{
  ℕ, ◌+◌, ◌≤◌, String, ◌≡◌, refl, sym, ap, ◌∙◌, subst, inl, inr, Bool, true, false, Option, none,
  some, List, [], ◌∷◌, ◌++◌, arith, str_eq, ltb, if◌then◌else◌, Bool-cases, Option-cases, is_some,
  find, update, changed, find-update, find-append, Instant,
}
use auto_x.Auth.Keys.{
  revoked, SigningKey, SigningMaterial, NewKey, has_kid, is_active, material, retire, new_row,
  rotate, ensure_active_signing_key, verifies, key_by_kid, is_stale, cleanup_keys,
}
use auto_x.Auth.Keys.Sound.{
  KeyCall, ensures, activates, cleans, instant_of, keys_after, ensure_cases, activate_cases,
}
use auto_x.Auth.Keys.Overlap.{step, run, IsHistory, end_of_history}

-- A key that is no longer active and that verifies before an instant only.
pub record Until (end t : Instant) (o : Option SigningKey) : Type 0 where
  pub key : SigningKey
  pub there : o ≡ some key
  pub replaced : is_active key ≡ false
  pub until : (now : Instant) → t ≤ now → verifies now (some key) ≡ ltb now end

row_update :
    (p : SigningKey → Bool) (f : SigningKey → SigningKey) (keys : List SigningKey) (kid : String)
    (key : SigningKey)
    → ((k : SigningKey) → (f k).kid ≡ k.kid)
    → key_by_kid kid keys ≡ some key
    → key_by_kid kid (update p f keys) ≡ some (if p key then f key else key)
row_update p f keys kid key same there =
    find-update p (has_kid kid) f keys (λ k e. ap (λ x. str_eq x kid) (same k))
    ∙ ap (changed p (has_kid kid) f) there

row_add :
    (now : Instant) (new : NewKey) (keys : List SigningKey) (kid : String) (key : SigningKey)
    → key_by_kid kid keys ≡ some key
    → key_by_kid kid (keys ++ new_row now new ∷ []) ≡ some key
row_add now new keys kid key there =
    find-append (has_kid kid) keys (new_row now new) ∙ rw there refl

Until-add :
    (end t now : Instant) (new : NewKey) (keys : List SigningKey) (kid : String)
    → Until end t (key_by_kid kid keys)
    → Until end t (key_by_kid kid (keys ++ new_row now new ∷ []))
Until-add end t now new keys kid u = record {
  key = u.key;
  there = row_add now new keys kid u.key u.there;
  replaced = u.replaced;
  until = u.until;
}

Until-retired :
    (end t now : Instant) (overlap : ℕ) (keys : List SigningKey) (kid : String)
    → Until end t (key_by_kid kid keys)
    → Until end t (key_by_kid kid (update is_active (retire now overlap) keys))
Until-retired end t now overlap keys kid u = record {
  key = u.key;
  there =
      row_update is_active (retire now overlap) keys kid u.key (λ k. refl) u.there
      ∙ rw u.replaced refl;
  replaced = u.replaced;
  until = u.until;
}

Until-ensure :
    (decrypt : String → String → Option String) (rotation_after overlap : ℕ) (end t now : Instant)
    (force : Bool) (new : NewKey) (keys : List SigningKey) (kid : String)
    → Until end t (key_by_kid kid keys)
    → Until end t (
        key_by_kid kid (
          keys_after keys
            (ensure_active_signing_key decrypt rotation_after overlap now force new keys)))
Until-ensure decrypt rotation_after overlap end t now force new keys kid u =
    ensure_cases (λ ks. Until end t (key_by_kid kid ks)) decrypt rotation_after overlap now force
      new keys u (λ _. Until-add end t now new keys kid u)
      (Until-add end t now new (update is_active (retire now overlap) keys) kid
        (Until-retired end t now overlap keys kid u))

stale_end :
    (end t : Instant) (key : SigningKey)
    → is_stale t key ≡ true
    → ((now : Instant) → t ≤ now → verifies now (some key) ≡ ltb now end)
    → (now : Instant) → t ≤ now
    → verifies now (some (record key { status = revoked })) ≡ ltb now end
unfolding is_stale verifies
stale_end end t key stale until now h = ground (arith, until t (omega arith), until now h)

Until-cleanup :
    (end t now : Instant) (keys : List SigningKey) (kid : String)
    → t ≤ now
    → Until end t (key_by_kid kid keys)
    → Until end now (key_by_kid kid (cleanup_keys now keys))
unfolding cleanup_keys
Until-cleanup end t now keys kid h u = elim (Bool-cases (is_stale now u.key)) [
  | inl e ↦ record {
    key = record u.key { status = revoked };
    there = moved ∙ rw e refl;
    replaced = refl;
    until = stale_end end now u.key e (λ n k. u.until n (omega arith));
  }
  | inr e ↦ record {
    key = u.key;
    there = moved ∙ rw e refl;
    replaced = u.replaced;
    until = λ n k. u.until n (omega arith);
  }
]
  where
    moved :
        key_by_kid kid
          (update (is_stale now) (λ (k : SigningKey). record k { status = revoked }) keys)
        ≡ some (if is_stale now u.key then record u.key { status = revoked } else u.key)
    moved =
        row_update (is_stale now) (λ (k : SigningKey). record k { status = revoked }) keys kid u.key
          (λ k. refl) u.there

Until-later : (end t t' : Instant) (o : Option SigningKey) → t ≤ t' → Until end t o → Until end t' o
Until-later end t t' o h u = record {
  key = u.key;
  there = u.there;
  replaced = u.replaced;
  until = λ n k. u.until n (omega arith);
}

module _ (decrypt : KeyCall → String → String → Option String) (rotation_after overlap : ℕ) where
  Until-step :
      (end t : Instant) (c : KeyCall) (keys : List SigningKey) (kid : String)
      → t ≤ instant_of c
      → Until end t (key_by_kid kid keys)
      → Until end (instant_of c) (key_by_kid kid (step decrypt rotation_after overlap c keys))
  unfolding step
  Until-step end t (ensures now force new) keys kid h u =
      Until-ensure (decrypt (ensures now force new)) rotation_after overlap end now now force new
        keys kid (Until-later end t now (key_by_kid kid keys) h u)
  Until-step end t (activates now new) keys kid h u =
      let v = Until-later end t now (key_by_kid kid keys) h u in
      activate_cases (λ ks. Until end now (key_by_kid kid ks)) (decrypt (activates now new))
        rotation_after overlap now new keys v
        (Until-ensure (decrypt (activates now new)) rotation_after overlap end now now false new
          keys kid v)
  Until-step end t (cleans now) keys kid h u = Until-cleanup end t now keys kid h u

  Until-run :
      (end t : Instant) (cs : List KeyCall) (keys : List SigningKey) (kid : String)
      → IsHistory decrypt rotation_after overlap t cs keys
      → Until end t (key_by_kid kid keys)
      → Until end
          (end_of_history decrypt rotation_after overlap t cs)
          (key_by_kid kid (run decrypt rotation_after overlap cs keys))
  unfolding run
  Until-run end t [] keys kid h u = u
  Until-run end t (c ∷ cs) keys kid (later, fresh, rest) u =
      Until-run end (instant_of c) cs (step decrypt rotation_after overlap c keys) kid rest
        (Until-step end t c keys kid later u)

  rotated-Until :
      (t : Instant) (new : NewKey) (keys : List SigningKey) (kid : String) (key : SigningKey)
      → key_by_kid kid keys ≡ some key
      → is_active key ≡ true
      → Until
          (t + overlap)
          t
          (key_by_kid kid (update is_active (retire t overlap) keys ++ new_row t new ∷ []))
  unfolding verifies
  rotated-Until t new keys kid key there is_on =
      Until-add (t + overlap) t t new (update is_active (retire t overlap) keys) kid (record {
        key = retire t overlap key;
        there =
            row_update is_active (retire t overlap) keys kid key (λ k. refl) there ∙ rw is_on refl;
        replaced = refl;
        until = λ now h. ground arith;
      })

  active_found :
      (keys : List SigningKey) (kid : String) (key : SigningKey)
      → key_by_kid kid keys ≡ some key
      → is_active key ≡ true
      → is_some (find is_active keys) ≡ true
  active_found [] kid key there is_on = absurd (nothing key there)
    where
      nothing : (k : SigningKey) → ◌≡◌ {A = Option SigningKey} none (some k) → ⊥
      nothing k e = cc
  active_found (x ∷ keys) kid key there is_on = elim (Bool-cases (is_active x)) [
    | inl e ↦ rw e refl
    | inr e ↦ elim (Bool-cases (has_kid kid x)) [
      | inl own ↦ absurd (differs x key (rw own at there) e is_on)
      | inr other ↦ rw e (active_found keys kid key (rw other at there) is_on)
    ]
  ]
    where
      differs :
          (a b : SigningKey)
          → ◌≡◌ {A = Option SigningKey} (some a) (some b)
          → is_active a ≡ false
          → is_active b ≡ true
          → ⊥
      differs a b e off on = clash (sym off ∙ ap or_off e ∙ on)
        where
          or_off : Option SigningKey → Bool
          or_off none = false
          or_off (some k) = is_active k

          clash : false ≡ true → ⊥
          clash c = cc

  rotated_table :
      (read : String → String → Option String) (t : Instant) (new : NewKey) (keys : List SigningKey)
      (m : SigningMaterial) (keys' : List SigningKey)
      → is_some (find is_active keys) ≡ true
      → ensure_active_signing_key read rotation_after overlap t true new keys ≡ some (m, keys')
      → update is_active (retire t overlap) keys ++ new_row t new ∷ [] ≡ keys'
  unfolding ensure_active_signing_key rotate
  rotated_table read t new keys m keys' h e = elim (Option-cases (find is_active keys)) [
    | inl gone ↦ absurd (clash (sym (ap is_some gone) ∙ h))
    | inr (key, there) ↦ rotated (material read key) (rw (there, ensure_active_signing_key) at e)
  ]
    where
      clash : false ≡ true → ⊥
      clash c = cc

      table_or : List SigningKey → Option (SigningMaterial × List SigningKey) → List SigningKey
      table_or ks none = ks
      table_or ks (some (x, ks')) = ks'

      rotated :
          (o : Option SigningMaterial)
          → rotate t overlap new o keys ≡ some (m, keys')
          → update is_active (retire t overlap) keys ++ new_row t new ∷ [] ≡ keys'
      rotated none k = absurd (nothing k)
        where
          nothing : ◌≡◌ {A = Option (SigningMaterial × List SigningKey)} none (some (m, keys')) → ⊥
          nothing c = cc
      rotated (some x) k = ap (table_or keys) k

  -- A key was active when a forced rotation succeeded at an instant. Whatever calls of replicas
  -- follow, with new keys that have ids of their own, the key stays in the table, and at any later
  -- instant tokens verify by it exactly if the overlap after the rotation is not over.
  pub key_overlap :
      (read : String → String → Option String) (t now : Instant) (new : NewKey)
      (keys : List SigningKey) (kid : String) (key : SigningKey) (m : SigningMaterial)
      (keys' : List SigningKey) (calls : List KeyCall)
      → key_by_kid kid keys ≡ some key
      → is_active key ≡ true
      → ensure_active_signing_key read rotation_after overlap t true new keys ≡ some (m, keys')
      → IsHistory decrypt rotation_after overlap t calls keys'
      → end_of_history decrypt rotation_after overlap t calls ≤ now
      → verifies now (key_by_kid kid (run decrypt rotation_after overlap calls keys'))
        ≡ ltb now (t + overlap)
  key_overlap read t now new keys kid key m keys' calls there is_on done history later =
      let table =
        rotated_table read t new keys m keys' (active_found keys kid key there is_on) done in
      let u = Until-run (t + overlap) t calls keys' kid history (
        subst (λ ks. Until (t + overlap) t (key_by_kid kid ks)) table
          (rotated-Until t new keys kid key there is_on)) in
      ap (verifies now) u.there ∙ u.until now later
