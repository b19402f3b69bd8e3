-- ===== src/Encryption/RoundTrip.antt =====
-- The two ciphers undo each other.
use Prim.Native.Nat.{bit_xor}
use game_programmer_portfoli.Base.{
  ℕ, suc, ◌+◌, ◌%◌, ◌<◌, ◌≡◌, refl, ap, ◌∙◌, List, [], ◌∷◌, length, IsBytes, arith,
}
use game_programmer_portfoli.Base.Bits.{bit_xor-cancel}
use game_programmer_portfoli.Encryption.{encode_from, encode, decode_from, decode}

-- One byte, masked twice by the same sum.
byte-cancel : (a s : ℕ) → a < 256 → bit_xor (bit_xor a s % 256) s % 256 ≡ a
byte-cancel a s h = bit_xor-cancel 8 a s ∙ omega arith

decode_from-encode_from :
    (rk k p e : ℕ) (xs : List ℕ) → IsBytes xs → decode_from rk k p e (encode_from rk k p e xs) ≡ xs
unfolding encode_from decode_from
decode_from-encode_from rk k p e [] h = refl
decode_from-encode_from rk k p e (x ∷ xs) h =
    let rk' : ℕ = (rk + 1) % 256 in
    let k' : ℕ = (k + 1) % 256 in
    let p' : ℕ = bit_xor x (p + rk') % 256 in
    let e' : ℕ = bit_xor p' (e + k') % 256 in
    rw (byte-cancel p' (e + k') (omega arith), byte-cancel x (p + rk') h.0)
      (ap (◌∷◌ x) (decode_from-encode_from rk' k' p' e' xs h.1))

encode_from-decode_from :
    (rk k p e : ℕ) (xs : List ℕ) → IsBytes xs → encode_from rk k p e (decode_from rk k p e xs) ≡ xs
unfolding encode_from decode_from
encode_from-decode_from rk k p e [] h = refl
encode_from-decode_from rk k p e (x ∷ xs) h =
    let rk' : ℕ = (rk + 1) % 256 in
    let k' : ℕ = (k + 1) % 256 in
    let p' : ℕ = bit_xor x (e + k') % 256 in
    rw (byte-cancel p' (p + rk') (omega arith), byte-cancel x (e + k') h.0)
      (ap (◌∷◌ x) (encode_from-decode_from rk' k' p' x xs h.1))

encode_from-IsBytes : (xs : List ℕ) (rk k p e : ℕ) → IsBytes (encode_from rk k p e xs)
unfolding encode_from
encode_from-IsBytes [] rk k p e = tt
encode_from-IsBytes (x ∷ xs) rk k p e = (omega arith, encode_from-IsBytes xs _ _ _ _)

decode_from-IsBytes : (xs : List ℕ) (rk k p e : ℕ) → IsBytes (decode_from rk k p e xs)
unfolding decode_from
decode_from-IsBytes [] rk k p e = tt
decode_from-IsBytes (x ∷ xs) rk k p e = (omega arith, decode_from-IsBytes xs _ _ _ _)

length-encode_from : (xs : List ℕ) (rk k p e : ℕ) → length (encode_from rk k p e xs) ≡ length xs
unfolding encode_from
length-encode_from [] rk k p e = refl
length-encode_from (x ∷ xs) rk k p e = ap suc (length-encode_from xs _ _ _ _)

length-decode_from : (xs : List ℕ) (rk k p e : ℕ) → length (decode_from rk k p e xs) ≡ length xs
unfolding decode_from
length-decode_from [] rk k p e = refl
length-decode_from (x ∷ xs) rk k p e = ap suc (length-decode_from xs _ _ _ _)

-- For every key and every list of bytes, `Decode` undoes `Encode` and `Encode` undoes `Decode`.
pub decode-encode :
    (key : ℕ) (xs : List ℕ)
    → IsBytes xs
    → (decode key (encode key xs) ≡ xs) × (encode key (decode key xs) ≡ xs)
unfolding encode decode
decode-encode key xs h =
    (decode_from-encode_from key _ 0 0 xs h, encode_from-decode_from key _ 0 0 xs h)

-- Neither changes the number of bytes, and both yield bytes.
pub encode-IsBytes : (key : ℕ) (xs : List ℕ) → IsBytes (encode key xs)
unfolding encode
encode-IsBytes key xs = encode_from-IsBytes xs key _ 0 0

pub length-encode : (key : ℕ) (xs : List ℕ) → length (encode key xs) ≡ length xs
unfolding encode
length-encode key xs = length-encode_from xs key _ 0 0

pub length-decode : (key : ℕ) (xs : List ℕ) → length (decode key xs) ≡ length xs
unfolding decode
length-decode key xs = length-decode_from xs key _ 0 0
