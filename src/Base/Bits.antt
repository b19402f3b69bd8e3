-- ===== src/Base/Bits.antt =====
-- `^` on bytes and words: undoing it, at every width.
use Prim.Native.Nat.{
  ℕ, zero, suc, ◌+◌, ◌*◌, ◌/◌, ◌%◌, ◌^◌, ◌≤◌, ◌<◌, bit_xor, differ, digits, bitwise,
  bit_xor-bitwise,
}
use mathlib.Core.Path.{◌≡◌, refl, ap, ◌∙◌}
use native.Mathlib.Nat.{pow-suc, mul_comm, one-le-pow, le_refl}
use native.Mathlib.Omega.{arith}

module _ (z : ℕ → ℕ) (f : ℕ → ℕ → ℕ) where
  -- The digits of `a` do not depend on how much fuel is left over.
  digits_enough : (n m a b : ℕ) → a ≤ n → a ≤ m → digits z f n a b ≡ digits z f m a b
  digits_enough zero zero a b p q = refl
  digits_enough zero (suc m) zero b p q = refl
  digits_enough zero (suc m) (suc a) b p q = absurd (omega arith)
  digits_enough (suc n) zero zero b p q = refl
  digits_enough (suc n) zero (suc a) b p q = absurd (omega arith)
  digits_enough (suc n) (suc m) zero b p q = refl
  digits_enough (suc n) (suc m) (suc a) b p q =
      rw (digits_enough n m (suc a / 2) (b / 2) (omega arith) (omega arith))

  bitwise-digit :
      (a b : ℕ)
      → bitwise z f (suc a) b ≡ bitwise z f (suc a / 2) (b / 2) * 2 + f (suc a % 2) (b % 2)
  bitwise-digit a b =
      omega (arith, digits_enough a (suc a / 2) (suc a / 2) (b / 2) (omega arith) (le_refl _))

-- Where the lowest digits differ.
abbrev pub odd_sum : ℕ → ℕ → ℕ
odd_sum a b = (a + b) % 2

differ_bits : (x y : ℕ) → x < 2 → y < 2 → differ x y ≡ (x + y) % 2
differ_bits zero y h k = omega arith
differ_bits (suc zero) zero h k = refl
differ_bits (suc zero) (suc zero) h k = refl
differ_bits (suc zero) (suc (suc y)) h k = absurd (omega arith)
differ_bits (suc (suc x)) y h k = absurd (omega arith)

differ-odd_sum : (a b : ℕ) → differ (a % 2) (b % 2) ≡ odd_sum a b
differ-odd_sum a b = omega (arith, differ_bits (a % 2) (b % 2) (omega arith) (omega arith))

pub bit_xor-digit : (a b : ℕ) → bit_xor a b ≡ bit_xor (a / 2) (b / 2) * 2 + odd_sum a b
bit_xor-digit zero b = simp bit_xor-bitwise (omega arith)
bit_xor-digit (suc a) b =
    rw (← differ-odd_sum (suc a) b) (simp bit_xor-bitwise (bitwise-digit (λ y. y) differ a b))

mod-double : (x m : ℕ) → 0 < m → x % (2 * m) ≡ x / 2 % m * 2 + x % 2
mod-double x m h = grind arith

-- Cutting a sum of a low bit and twice the rest.
mod_digits : (q b m : ℕ) → b < 2 → 0 < m → (q * 2 + b) % (2 * m) ≡ q % m * 2 + b
mod_digits q b m h k =
    let low : (q * 2 + b) % 2 ≡ b = omega arith in
    let high : (q * 2 + b) / 2 ≡ q = omega arith in rw (mod-double (q * 2 + b) m k, low, high)

-- Cutting to `k` bits, applying the same mask again and cutting once more gives back the low bits.
pub bit_xor-cancel : (k a s : ℕ) → bit_xor (bit_xor a s % 2 ^ k) s % 2 ^ k ≡ a % 2 ^ k
bit_xor-cancel zero a s = omega arith
bit_xor-cancel (suc k) a s =
    let m : ℕ = 2 ^ k in
    let p : 0 < m = one-le-pow k 2 (omega arith) in
    let q : ℕ = bit_xor (a / 2) (s / 2) in
    let e₁ : bit_xor a s % (2 * m) ≡ q % m * 2 + odd_sum a s =
      rw (bit_xor-digit a s) (mod_digits q (odd_sum a s) m (omega arith) p) in
    let half : (q % m * 2 + odd_sum a s) / 2 ≡ q % m = omega arith in
    let e₂ : bit_xor (q % m * 2 + odd_sum a s) s % (2 * m)
        ≡ bit_xor (q % m) (s / 2) % m * 2 + a % 2 =
      rw (bit_xor-digit (q % m * 2 + odd_sum a s) s, half)
        (mod_digits (bit_xor (q % m) (s / 2)) (odd_sum (q % m * 2 + odd_sum a s) s) m (omega arith)
            p
          ∙ ap (λ t. bit_xor (q % m) (s / 2) % m * 2 + t) (omega arith)) in
    let ih : bit_xor (q % m) (s / 2) % m ≡ a / 2 % m = bit_xor-cancel k (a / 2) (s / 2) in
    rw (pow-suc 2 k, mul_comm m 2, e₁, e₂, ih) (rw (mod-double a m p))
