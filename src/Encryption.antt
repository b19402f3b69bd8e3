-- ===== src/Encryption.antt =====
-- Encryption.h (projects/multithread-chat-server/Server/NetLib): the checksum and the two chained
-- xor ciphers over the payload. A byte is a number below 256; `unsigned char` results are cut by
-- `% 256`, and the sums inside `^` are of type `int`, so they are not.
pub mod RoundTrip
pub mod CheckSum
mod Examples
use Prim.Native.Nat.{bit_xor}
use game_programmer_portfoli.Base.{ℕ, ◌+◌, ◌%◌, List, [], ◌∷◌}

-- `PACKET_KEY` of Define.h.
abbrev pub packet_key : ℕ
packet_key = 0x32

-- The loop of `CalculateCheckSum`, with `checkSum` so far.
check_sum_from : ℕ → List ℕ → ℕ
check_sum_from sum [] = sum
check_sum_from sum (x ∷ xs) = check_sum_from ((sum + x) % 256) xs

unfoldable pub calculate_check_sum : List ℕ → ℕ
unfolding check_sum_from
calculate_check_sum payload = check_sum_from 0 payload

-- The loop of `Encode`, with `rk`, `k`, `currentP` and `currentE` before the round.
encode_from : ℕ → ℕ → ℕ → ℕ → List ℕ → List ℕ
encode_from rk k p e [] = []
encode_from rk k p e (raw ∷ rest) =
    let rk' = (rk + 1) % 256 in
    let k' = (k + 1) % 256 in
    let p' = bit_xor raw (p + rk') % 256 in
    let e' = bit_xor p' (e + k') % 256 in e' ∷ encode_from rk' k' p' e' rest

unfoldable pub encode : ℕ → List ℕ → List ℕ
unfolding encode_from
encode dynamic_key plain = encode_from dynamic_key packet_key 0 0 plain

-- The loop of `Decode`.
decode_from : ℕ → ℕ → ℕ → ℕ → List ℕ → List ℕ
decode_from rk k p e [] = []
decode_from rk k p e (encrypted ∷ rest) =
    let rk' = (rk + 1) % 256 in
    let k' = (k + 1) % 256 in
    let p' = bit_xor encrypted (e + k') % 256 in
    let raw = bit_xor p' (p + rk') % 256 in raw ∷ decode_from rk' k' p' encrypted rest

unfoldable pub decode : ℕ → List ℕ → List ℕ
unfolding decode_from
decode dynamic_key secret = decode_from dynamic_key packet_key 0 0 secret
