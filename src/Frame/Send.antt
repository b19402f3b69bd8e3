-- ===== src/Frame/Send.antt =====
-- The encryption step of `SendPacket`.
use game_programmer_portfoli.Base.{
  ℕ, ◌+◌, ◌-◌, ◌%◌, ◌^◌, ◌≤◌, ◌<◌, ◌≡◌, refl, sym, ap, ◌∙◌, true, false, List, [], ◌∷◌, ◌++◌,
  length, set, blit, slice, if◌then◌else◌, arith, length-blit, length-slice, slice-add,
  slice-blit_self, slice-blit_before, slice-blit_after, blit_one, length-set,
}
use game_programmer_portfoli.Packet.{Packet, set_is_encoding, buffer_default}
use game_programmer_portfoli.Packet.Bounds.{IsValid}
use game_programmer_portfoli.Packet.Bytes.{to_bytes, length-to_bytes}
use game_programmer_portfoli.Encryption.{calculate_check_sum, encode}
use game_programmer_portfoli.Encryption.RoundTrip.{length-encode}
use game_programmer_portfoli.Frame.{packet_code, frame}

-- The storage once the checksum, the cipher and the header are written. `payloadSize` is
-- `data_size - 5`; a packet of fewer bytes has no payload and nothing to encrypt.
seal_storage : ℕ → List ℕ → ℕ → List ℕ
seal_storage key storage data_size =
    let payload_size = data_size - 5 in
    let check_sum = calculate_check_sum (slice storage 5 payload_size) in
    let summed = set storage 4 check_sum in
    let encrypted = blit summed 4 (encode key (slice summed 4 (data_size - 4))) in
    let coded = set encrypted 0 packet_code in
    let sized = blit coded 1 (to_bytes 2 ((data_size + 2 ^ 16 - 5) % 2 ^ 16)) in set sized 3 key

-- The double-checked step: a packet that is sent to several sessions is encrypted once. The key is
-- the low byte of the thread's random number.
pub encode_packet : ℕ → Packet → Packet
encode_packet key p =
    if p.is_encoding
    then p
    else set_is_encoding (record p { storage = seal_storage key p.storage p.data_size }) true

-- What a packet puts on the wire: `mStorage[0 .. mDataSize)`.
abbrev pub wire : Packet → List ℕ
wire p = slice p.storage 0 p.data_size

-- The payload that a packet's maker wrote behind the header.
abbrev pub payload : Packet → List ℕ
payload p = slice p.storage 5 (p.data_size - 5)

slice-set_self : (xs : List ℕ) (i v : ℕ) → i < length xs → slice (set xs i v) i 1 ≡ v ∷ []
slice-set_self xs i v h = rw (← blit_one xs i v) (slice-blit_self xs (v ∷ []) i (omega arith))

slice-set_before : (xs : List ℕ) (i n j v : ℕ) → i + n ≤ j → slice (set xs j v) i n ≡ slice xs i n
slice-set_before xs i n j v h = rw (← blit_one xs j v) (slice-blit_before xs (v ∷ []) i n j h)

slice-set_after : (xs : List ℕ) (i n j v : ℕ) → j + 1 ≤ i → slice (set xs j v) i n ≡ slice xs i n
slice-set_after xs i n j v h =
    rw (← blit_one xs j v) (slice-blit_after xs (v ∷ []) i n j (omega arith))

-- The five pieces of the wire bytes.
slice_header :
    (xs : List ℕ) (n : ℕ)
    → 5 ≤ n
    → slice xs 0 n ≡ slice xs 0 1 ++ (slice xs 1 2 ++ (slice xs 3 1 ++ slice xs 4 (n - 4)))
slice_header xs n h =
    let e : n ≡ 1 + (2 + (1 + (n - 4))) = omega arith in
    ap (slice xs 0) e
    ∙ slice-add xs 0 1 (2 + (1 + (n - 4)))
    ∙ ap (◌++◌ (slice xs 0 1))
        (slice-add xs 1 2 (1 + (n - 4)) ∙ ap (◌++◌ (slice xs 1 2)) (slice-add xs 3 1 (n - 4)))

module _ (key : ℕ) (storage : List ℕ) (n : ℕ) (full : length storage ≡ buffer_default) (low : 5 ≤ n)
    (high : n ≤ buffer_default) where
  abbrev body : List ℕ
  body = slice storage 5 (n - 5)

  length-body : length body ≡ n - 5
  length-body = length-slice storage 5 (n - 5) (omega arith)

  -- The checksum stands in front of the payload when both are encrypted.
  summed_lem :
      slice (set storage 4 (calculate_check_sum body)) 4 (n - 4) ≡ calculate_check_sum body ∷ body
  summed_lem =
      let e : n - 4 ≡ 1 + (n - 5) = omega arith in
      let sum : ℕ = calculate_check_sum body in
      rw (e, slice-add (set storage 4 sum) 4 1 (n - 5), slice-set_self storage 4 sum (omega arith))
        (ap (◌∷◌ sum) (slice-set_after storage 5 (n - 5) 4 sum (omega arith)))

  -- What the writes of the header leave of each other, over any encrypted body.
  module _ (encrypted size_bytes : List ℕ) (len_e : length encrypted ≡ buffer_default)
      (len_s : length size_bytes ≡ 2) where
    abbrev coded : List ℕ
    coded = set encrypted 0 packet_code

    abbrev sized : List ℕ
    sized = blit coded 1 size_bytes

    header_first : slice (set sized 3 key) 0 1 ≡ packet_code ∷ []
    header_first =
        slice-set_before sized 0 1 3 key (omega arith)
        ∙ slice-blit_before coded size_bytes 0 1 1 (omega arith)
        ∙ slice-set_self encrypted 0 packet_code (omega arith)

    header_size : slice (set sized 3 key) 1 2 ≡ size_bytes
    header_size =
        slice-set_before sized 1 2 3 key (omega arith)
        ∙ ap (slice sized 1) (sym len_s)
        ∙ slice-blit_self coded size_bytes 1 (omega (arith, length-set encrypted 0 packet_code))

    header_key : slice (set sized 3 key) 3 1 ≡ key ∷ []
    header_key =
        slice-set_self sized 3 key
          (omega (arith, length-blit coded 1 size_bytes, length-set encrypted 0 packet_code))

    header_body : slice (set sized 3 key) 4 (n - 4) ≡ slice encrypted 4 (n - 4)
    header_body =
        slice-set_after sized 4 (n - 4) 3 key (omega arith)
        ∙ slice-blit_after coded size_bytes 4 (n - 4) 1 (omega arith)
        ∙ slice-set_after encrypted 4 (n - 4) 0 packet_code (omega arith)

  seal_storage-frame : slice (seal_storage key storage n) 0 n ≡ frame key body
  unfolding seal_storage
  seal_storage-frame =
      let sum : ℕ = calculate_check_sum body in
      let summed : List ℕ = set storage 4 sum in
      let secret : List ℕ = encode key (slice summed 4 (n - 4)) in
      let encrypted : List ℕ = blit summed 4 secret in
      let size : ℕ = (n + 2 ^ 16 - 5) % 2 ^ 16 in
      let size_lem : size ≡ length body = omega (arith, length-body) in
      let len_0 : length summed ≡ buffer_default = length-set storage 4 sum ∙ full in
      let len_1 : length encrypted ≡ buffer_default = length-blit summed 4 secret ∙ len_0 in
      let len_2 : length (to_bytes 2 size) ≡ 2 = length-to_bytes 2 size in
      let len_3 : length secret ≡ n - 4 =
        length-encode key (slice summed 4 (n - 4)) ∙ length-slice summed 4 (n - 4) (omega arith) in
      let body_4 : slice encrypted 4 (n - 4) ≡ encode key (sum ∷ body) =
        ap (slice encrypted 4) (sym len_3)
        ∙ slice-blit_self summed secret 4 (omega arith)
        ∙ ap (encode key) summed_lem in
      rw (
        slice_header (seal_storage key storage n) n low,
        header_first encrypted (to_bytes 2 size) len_1 len_2,
        header_size encrypted (to_bytes 2 size) len_1 len_2,
        header_key encrypted (to_bytes 2 size) len_1 len_2,
        header_body encrypted (to_bytes 2 size) len_1 len_2,
        body_4,
        size_lem,
      )

-- For a valid packet of at least five bytes that is not encrypted yet, the encryption step of
-- `SendPacket` leaves in its buffer exactly the frame of the payload that stood behind the header:
-- code, size, key, and the checksum and the payload encrypted under the key; and it marks the
-- packet as encrypted.
pub encode_packet-frame :
    (key : ℕ) (p : Packet)
    → IsValid p
    → 5 ≤ p.data_size
    → p.is_encoding ≡ false
    → (wire (encode_packet key p) ≡ frame key (payload p))
      × ((encode_packet key p).is_encoding ≡ true)
unfolding encode_packet set_is_encoding
encode_packet-frame key p v low e =
    rw e (seal_storage-frame key p.storage p.data_size v.storage low v.written, refl)
