-- ===== src/Base/Maps.antt =====
-- An unordered map as an association list, and a variable that a read may leave unset.
use Prim.Native.Nat.{ℕ}
use mathlib.Core.Option.{Option, none, some}
use mathlib.Core.List.{List, [], ◌∷◌}
use game_programmer_portfoli.Base.Tests.{◌==◌, if◌then◌else◌}

abbrev pub find : List (ℕ × ℕ) → ℕ → Option ℕ
find [] k = none
find ((a, v) ∷ m) k = if a == k then some v else find m k

abbrev pub erase : List (ℕ × ℕ) → ℕ → List (ℕ × ℕ)
erase [] k = []
erase ((a, v) ∷ m) k = let rest = erase m k in if a == k then m else (a, v) ∷ rest

abbrev pub read_or : Option ℕ → ℕ → ℕ
read_or none unset = unset
read_or (some v) unset = v
