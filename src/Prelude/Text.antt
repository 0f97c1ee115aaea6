-- ===== src/Prelude/Text.antt =====
-- Python's `text[:n]`, which counts code points.
use Prim.Native.Nat.{ℕ, zero, suc}
use Prim.Native.String.{String}

unfoldable pub truncate : ℕ → String → String
truncate zero text = ""
truncate (suc n) String.[] = ""
truncate (suc n) (String.◌∷◌ c text) = String.◌∷◌ c (truncate n text)
