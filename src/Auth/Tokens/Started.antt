-- ===== src/Auth/Tokens/Started.antt =====
-- control_plane/auth_store.py: a replica that starts.
use auto_x.Prelude.{
  ℕ, String, ◌≡◌, refl, ap, ◌∙◌, inl, inr, Bool, false, ◌||◌, Option, none, some, List, [], ◌∷◌,
  Bool-cases, All, find, Instant,
}
use auto_x.Auth.Keys.{
  SigningKey, NewKey, is_active, is_old, material, rotate, ensure_active_signing_key,
}
use auto_x.Auth.Clients.{ClientDb}
use auto_x.Auth.Tokens.{Replica, start_after, initialize}

-- The replica cannot read the active key, whether it is due for rotation or not.
unreadable :
    (decrypt : String → String → Option String) (rotation_after overlap : ℕ) (now : Instant)
    (force : Bool) (new : NewKey) (keys : List SigningKey) (key : SigningKey)
    → find is_active keys ≡ some key
    → material decrypt key ≡ none
    → ensure_active_signing_key decrypt rotation_after overlap now force new keys ≡ none
unfolding ensure_active_signing_key rotate
unreadable decrypt rotation_after overlap now force new keys key there fails =
    elim (Bool-cases (force || is_old now rotation_after key)) [
      | inl e ↦ rw (there, e, fails, ensure_active_signing_key, rotate) refl
      | inr e ↦ rw (there, e, fails, ensure_active_signing_key) refl
    ]

-- Starts of replicas, one after another.
unfoldable pub run_starts :
    List (Instant × Replica) → List SigningKey × ClientDb → List SigningKey × ClientDb
run_starts [] state = state
run_starts ((now, r) ∷ starts) state = run_starts starts (initialize now r state).1

abbrev pub CannotRead : SigningKey → Instant × Replica → Type 0
CannotRead key (now, r) = material r.decrypt key ≡ none

unreadable_start :
    (now : Instant) (r : Replica) (keys : List SigningKey) (db : ClientDb) (key : SigningKey)
    → find is_active keys ≡ some key
    → material r.decrypt key ≡ none
    → initialize now r (keys, db) ≡ (false, (keys, db))
unfolding initialize
unreadable_start now r keys db key there fails =
    ap (start_after now r keys db)
      (unreadable r.decrypt r.rotation_after r.overlap now false r.new_key keys key there fails)

unreadable_starts :
    (starts : List (Instant × Replica)) (keys : List SigningKey) (db : ClientDb) (key : SigningKey)
    → find is_active keys ≡ some key
    → All (CannotRead key) starts
    → run_starts starts (keys, db) ≡ (keys, db)
unfolding run_starts
unreadable_starts [] keys db key there fail = refl
unreadable_starts ((now, r) ∷ starts) keys db key there (fails, rest) =
    ap (λ (x : Bool × (List SigningKey × ClientDb)). run_starts starts x.1)
      (unreadable_start now r keys db key there fails)
    ∙ unreadable_starts starts keys db key there rest

-- However many replicas start that cannot decrypt the active key, of whatever age it is and
-- whatever files they bring: keys, clients, credentials, grants and markers stay as they were, and
-- one more of them fails.
pub failed_starts :
    (starts : List (Instant × Replica)) (now : Instant) (r : Replica) (keys : List SigningKey)
    (db : ClientDb) (key : SigningKey)
    → find is_active keys ≡ some key
    → All (CannotRead key) ((now, r) ∷ starts)
    → (run_starts starts (keys, db) ≡ (keys, db))
      × ((initialize now r (run_starts starts (keys, db))).0 ≡ false)
failed_starts starts now r keys db key there (fails, rest) =
    let same = unreadable_starts starts keys db key there rest in
    (
      same,
      ap (λ (x : List SigningKey × ClientDb). (initialize now r x).0) same
          ∙ ap (λ (x : Bool × (List SigningKey × ClientDb)). x.0)
              (unreadable_start now r keys db key there fails),
    )
