-- ===== src/Base/Bytes.antt =====
-- Lists of bytes.
use Prim.Native.Nat.{ℕ, ◌<◌}
use mathlib.Core.List.{List, [], ◌∷◌}

abbrev pub IsBytes : List ℕ → Type 0
IsBytes [] = Unit {0}
IsBytes (x ∷ xs) = (x < 256) × IsBytes xs
