-- ===== src/Packet/Bytes.antt =====
-- Unsigned integers in memory, low byte first.
use native.Mathlib.Nat.{pow-suc}
use game_programmer_portfoli.Base.{
  ℕ, zero, suc, ◌+◌, ◌*◌, ◌/◌, ◌%◌, ◌^◌, ◌<◌, ◌≡◌, refl, ap, ap₂, ◌∙◌, List, [], ◌∷◌, length,
  IsBytes, arith,
}

unfoldable pub to_bytes : ℕ → ℕ → List ℕ
to_bytes zero v = []
to_bytes (suc n) v = (v % 256) ∷ to_bytes n (v / 256)

unfoldable pub from_bytes : List ℕ → ℕ
from_bytes [] = 0
from_bytes (b ∷ bs) = b + 256 * from_bytes bs

pub length-to_bytes : (n v : ℕ) → length (to_bytes n v) ≡ n
unfolding to_bytes
length-to_bytes zero v = refl
length-to_bytes (suc n) v = ap suc (length-to_bytes n (v / 256))

pub to_bytes-IsBytes : (n v : ℕ) → IsBytes (to_bytes n v)
unfolding to_bytes
to_bytes-IsBytes zero v = tt
to_bytes-IsBytes (suc n) v = (omega arith, to_bytes-IsBytes n (v / 256))

-- A value that fits `n` bytes comes back.
pub from_bytes-to_bytes : (n v : ℕ) → v < 256 ^ n → from_bytes (to_bytes n v) ≡ v
unfolding to_bytes from_bytes
from_bytes-to_bytes zero v h = omega arith
from_bytes-to_bytes (suc n) v h =
    let fits : v / 256 < 256 ^ n = div_fits n v h in
    omega (arith, from_bytes-to_bytes n (v / 256) fits)
  where
    div_fits : (n v : ℕ) → v < 256 ^ suc n → v / 256 < 256 ^ n
    div_fits n v h = omega (arith, pow-suc 256 n)

-- And bytes come back from the value they stand for.
pub to_bytes-from_bytes : (bs : List ℕ) → IsBytes bs → to_bytes (length bs) (from_bytes bs) ≡ bs
unfolding to_bytes from_bytes
to_bytes-from_bytes [] h = refl
to_bytes-from_bytes (b ∷ bs) h =
    let low : (b + 256 * from_bytes bs) % 256 ≡ b = omega arith in
    let high : (b + 256 * from_bytes bs) / 256 ≡ from_bytes bs = omega arith in
    ap₂ ◌∷◌ low (ap (to_bytes (length bs)) high ∙ to_bytes-from_bytes bs h.1)
