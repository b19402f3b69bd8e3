-- ===== src/Base/Counts.antt =====
-- How often a number stands in a list, and sums over a list.
use Prim.Native.Nat.{ℕ, ◌+◌, ◌≤◌}
use mathlib.Core.Path.{◌≡◌}
use mathlib.Core.Bool.{Bool, true}
use mathlib.Core.List.{List, [], ◌∷◌, ◌++◌}
use native.Mathlib.Omega.{arith}
use game_programmer_portfoli.Base.Tests.{◌==◌, if◌then◌else◌}
use game_programmer_portfoli.Base.Lists.{length}

abbrev pub one_if : Bool → ℕ
one_if b = if b then 1 else 0

pub one_if-le : (b : Bool) → one_if b ≤ 1
one_if-le b = ground arith

pub one_if-true : (b : Bool) → 1 ≤ one_if b → b ≡ true
one_if-true b e = ground (arith, e)

-- How often a number stands in a list.
unfoldable pub count : ℕ → List ℕ → ℕ
count q [] = 0
count q (p ∷ ps) = one_if (p == q) + count q ps

pub count-append : (q : ℕ) (ps rs : List ℕ) → count q (ps ++ rs) ≡ count q ps + count q rs
unfolding count
count-append q [] rs = omega arith
count-append q (p ∷ ps) rs = omega (arith, count-append q ps rs)

-- The sum of a weight over a list.
unfoldable pub weight : (ℕ → ℕ) → List ℕ → ℕ
weight w [] = 0
weight w (x ∷ xs) = w x + weight w xs

pub weight-append : (w : ℕ → ℕ) (xs ys : List ℕ) → weight w (xs ++ ys) ≡ weight w xs + weight w ys
unfolding weight
weight-append w [] ys = omega arith
weight-append w (x ∷ xs) ys = omega (arith, weight-append w xs ys)

pub weight-length : (xs : List ℕ) → weight (λ x. 1) xs ≡ length xs
unfolding weight
weight-length [] = omega arith
weight-length (x ∷ xs) = omega (arith, weight-length xs)

pub weight-count : (q : ℕ) (xs : List ℕ) → weight (λ x. one_if (x == q)) xs ≡ count q xs
unfolding weight count
weight-count q [] = omega arith
weight-count q (x ∷ xs) = omega (arith, weight-count q xs)
