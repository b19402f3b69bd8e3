-- ===== src/Encryption/CheckSum.antt =====
-- What the checksum tells of a payload.
use game_programmer_portfoli.Base.{ℕ, ◌+◌, ◌%◌, ◌<◌, ◌≡◌, List, [], ◌∷◌, ◌++◌, arith}
use game_programmer_portfoli.Encryption.{check_sum_from, calculate_check_sum}

pub sum : List ℕ → ℕ
sum [] = 0
sum (x ∷ xs) = x + sum xs

sum-append : (xs ys : List ℕ) → sum (xs ++ ys) ≡ sum xs + sum ys
unfolding sum
sum-append [] ys = omega arith
sum-append (x ∷ xs) ys = omega (arith, sum-append xs ys)

check_sum_from-eq-sum : (s : ℕ) (xs : List ℕ) → s < 256 → check_sum_from s xs ≡ (s + sum xs) % 256
unfolding check_sum_from sum
check_sum_from-eq-sum s [] h = omega arith
check_sum_from-eq-sum s (x ∷ xs) h =
    omega (arith, check_sum_from-eq-sum ((s + x) % 256) xs (omega arith))

pub calculate_check_sum-eq-sum : (xs : List ℕ) → calculate_check_sum xs ≡ sum xs % 256
unfolding calculate_check_sum
calculate_check_sum-eq-sum xs = omega (arith, check_sum_from-eq-sum 0 xs (omega arith))

pub calculate_check_sum-lt : (xs : List ℕ) → calculate_check_sum xs < 256
calculate_check_sum-lt xs = omega (arith, calculate_check_sum-eq-sum xs)

-- Two payloads that agree but for one byte have the same checksum only if they agree in that byte
-- too.
pub calculate_check_sum_detects :
    (xs ys : List ℕ) (a b : ℕ)
    → a < 256
    → b < 256
    → calculate_check_sum (xs ++ (a ∷ ys)) ≡ calculate_check_sum (xs ++ (b ∷ ys))
    → a ≡ b
unfolding sum
calculate_check_sum_detects xs ys a b ha hb e = omega (
  arith,
  calculate_check_sum-eq-sum (xs ++ (a ∷ ys)),
  calculate_check_sum-eq-sum (xs ++ (b ∷ ys)),
  sum-append xs (a ∷ ys),
  sum-append xs (b ∷ ys),
)
