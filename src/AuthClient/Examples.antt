-- ===== src/AuthClient/Examples.antt =====
-- services/auth_center.py on a concrete cache.
use auto_x.Prelude.{◌+◌, ◌≤◌, ◌≡◌, refl, true, none, some, [], ◌∷◌, arith, length, Instant}
use auto_x.AuthClient.{Fetched, unchanged, refresh_jwks, Lookup}
use auto_x.AuthClient.Bounds.{empty, find_keys, unknown_kids_bounded}
use auto_x.AuthClient.Cooldown.{asked, unknown_refresh_cooldown}

abbrev answer : Instant → Fetched
answer now = record {
  keys = record { kid = "k1"; public_key = "public" } ∷ [];
  refreshed_at = now;
  ttl = 60000000;
}

abbrev check_at : Instant → Lookup
check_at now = record {
  now = now;
  answer = some (answer now);
  later = now + 10;
  second_answer = some (answer (now + 20));
  at_end = now + 30;
}

unknown_kids_bounded_example :
    length (find_keys ((check_at 0, "x1") ∷ (check_at 100, "x2") ∷ []) empty).unknown_kids ≤ 256
unknown_kids_bounded_example = unknown_kids_bounded ((check_at 0, "x1") ∷ (check_at 100, "x2") ∷ [])

did_ask : asked (refresh_jwks true 1000 (some "x1") none empty).0 ≡ true
unfolding refresh_jwks
did_ask = refl

unknown_refresh_cooldown_example :
    refresh_jwks true 4000000
      (some "x2")
      (some (answer 4000000))
      (find_keys ((check_at 2000000, "x3") ∷ []) (refresh_jwks true 1000 (some "x1") none empty).1)
    ≡ (
      unchanged,
      find_keys ((check_at 2000000, "x3") ∷ []) (refresh_jwks true 1000 (some "x1") none empty).1,
    )
unknown_refresh_cooldown_example =
    unknown_refresh_cooldown 1000 4000000 "x1" "x2" none (some (answer 4000000)) empty
      ((check_at 2000000, "x3") ∷ []) tt did_ask ((omega arith, omega arith), tt) (omega arith)
