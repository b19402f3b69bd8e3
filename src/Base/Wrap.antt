-- ===== src/Base/Wrap.antt =====
-- Indices that go round: `%` on a sum of two numbers below the modulus.
use Prim.Native.Nat.{ℕ, ◌+◌, ◌-◌, ◌%◌, ◌≤◌, ◌<◌}
use mathlib.Core.Path.{◌≡◌, ◌∙◌}
use native.Mathlib.Nat.{mod-eq_of_lt, mod-eq-sub-mod}
use native.Mathlib.Omega.{arith}

pub mod-below : (x s : ℕ) → x < s → x % s ≡ x
mod-below x s h = mod-eq_of_lt h

pub mod-above : (x s : ℕ) → s ≤ x → x < s + s → x % s ≡ x - s
mod-above x s h k =
    mod-eq-sub-mod {n = x} {m = s} h ∙ mod-eq_of_lt {n = x - s} {m = s} (omega arith)
