-- ===== src/Frame/Deliver.antt =====
-- A frame at the front of the ring becomes one packet with its payload to read.
use game_programmer_portfoli.Base.{
  ℕ, ◌+◌, ◌-◌, ◌≤◌, ◌≡◌, refl, sym, ap, ◌∙◌, true, false, some, List, [], ◌∷◌, ◌++◌, length, blit,
  slice, get_or, arith, ==_iff, le→ltb_false, IsBytes, length-blit, slice-blit_self, slice_head,
  append_assoc,
}
use game_programmer_portfoli.RingBuffer.{RingBuffer, dequeue, move_front}
use game_programmer_portfoli.RingBuffer.Bounds
use game_programmer_portfoli.RingBuffer.Put.{contents}
use game_programmer_portfoli.Packet.{
  Packet, buffer_default, clear, init, set_session_id, set_data_size, move_read_pos,
}
use game_programmer_portfoli.Packet.Bounds.{IsValid}
use game_programmer_portfoli.Packet.Bytes.{to_bytes, length-to_bytes}
use game_programmer_portfoli.Packet.Unread.{unread}
use game_programmer_portfoli.Encryption.{calculate_check_sum, decode, encode}
use game_programmer_portfoli.Encryption.CheckSum.{calculate_check_sum-lt}
use game_programmer_portfoli.Encryption.RoundTrip.{length-encode, decode-encode}
use game_programmer_portfoli.Frame.{packet_code, frame}
use game_programmer_portfoli.Frame.Receive.{delivers, fill_packet, read_packet}
use game_programmer_portfoli.Frame.Parse.{dequeue_front, move_front_front}

-- What `OnRecv` gets of a session `id` for a payload, and what the ring is left with.
pub record Delivered (id : ℕ) (payload rest : List ℕ) (r : RingBuffer ℕ) (p : Packet)
    (s : RingBuffer ℕ) : Type 0 where
  pub to_read : unread p ≡ payload
  pub session : p.session_id ≡ id
  pub held : p.ref_cnt ≡ 1
  pub packet : IsValid p
  pub left : contents s ≡ rest
  pub ring : Bounds.IsValid s
  pub buffer_size : s.buffer_size ≡ r.buffer_size

module _ (id key : ℕ) (payload rest : List ℕ) (fresh : Packet)
    (fits : length payload ≤ buffer_default - 5) (bytes : IsBytes payload)
    (full : length fresh.storage ≡ buffer_default) where
  abbrev summed : List ℕ
  summed = calculate_check_sum payload ∷ payload

  abbrev secret : List ℕ
  secret = encode key summed

  length-secret : length secret ≡ 1 + length payload
  length-secret = omega (arith, length-encode key summed)

  abbrev copied : List ℕ
  copied = blit fresh.storage 4 secret

  abbrev plain : List ℕ
  plain = blit copied 4 summed

  decoded : decode key (slice copied 4 (1 + length payload)) ≡ summed
  decoded =
      ap (λ n. decode key (slice copied 4 n)) (sym length-secret)
      ∙ ap (decode key) (slice-blit_self fresh.storage secret 4 (omega (arith, length-secret)))
      ∙ (decode-encode key summed (calculate_check_sum-lt payload, bytes)).0

  opened :
      (get_or plain 4 0 ≡ calculate_check_sum payload) × (slice plain 5 (length payload) ≡ payload)
  opened =
      let len_0 : length copied ≡ buffer_default = length-blit fresh.storage 4 secret ∙ full in
      let len_1 : length plain ≡ buffer_default = length-blit copied 4 summed ∙ len_0 in
      let count : 1 + length payload ≡ length summed = omega arith in
      let e : slice plain 4 (1 + length payload) ≡ summed =
        ap (slice plain 4) count ∙ slice-blit_self copied summed 4 (omega arith) in
      slice_head plain 4 (length payload) (calculate_check_sum payload) 0 payload e refl
        (omega arith)

  abbrev received : Packet
  received = record {
    session_id = id;
    storage = plain;
    data_size = 5 + length payload;
    read_pos = 5;
    ref_cnt = 1;
    is_encoding = false;
  }

  received-IsValid : IsValid received
  received-IsValid = record {
    storage = length-blit copied 4 summed ∙ length-blit fresh.storage 4 secret ∙ full;
    written = omega arith;
    unread = omega arith;
  }

  received_to_read : unread received ≡ payload
  received_to_read =
      let n : 5 + length payload - 5 ≡ length payload = omega arith in
      ap (slice plain 5) n ∙ opened.1

  fill_packet-received :
      {r : RingBuffer ℕ}
      → Bounds.IsValid r
      → contents r ≡ secret ++ rest
      → fill_packet id key (length payload) fresh r
        ≡ delivers received (dequeue r true (1 + length payload)).2
  unfolding fill_packet init clear set_session_id set_data_size move_read_pos
  fill_packet-received {r} v e =
      let (f, left, ring, buffer_size) =
        dequeue_front secret rest (1 + length payload) v e length-secret in
      rw (
        f,
        decoded,
        opened.0,
        opened.1,
        (==_iff (calculate_check_sum payload) (calculate_check_sum payload)).1 refl,
        le→ltb_false buffer_default (5 + length payload) (omega arith),
        le→ltb_false (5 + length payload) 5 (omega arith),
      )

  fill_packet-Delivered :
      {r : RingBuffer ℕ}
      → Bounds.IsValid r
      → contents r ≡ secret ++ rest
      → Delivered id payload rest r received (dequeue r true (1 + length payload)).2
  fill_packet-Delivered {r} v e =
      let (f, left, ring, buffer_size) =
        dequeue_front secret rest (1 + length payload) v e length-secret in
      record {
        to_read = received_to_read;
        session = refl;
        held = refl;
        packet = received-IsValid;
        left = left;
        ring = ring;
        buffer_size = buffer_size;
      }

  -- The bytes of a whole frame at the front of the ring: `MoveFront` past the code and the size, the
  -- key, then the rest.
  pub read_packet-Delivered :
      {r : RingBuffer ℕ}
      → Bounds.IsValid r
      → contents r ≡ frame key payload ++ rest
      → (p : Packet) × (s : RingBuffer ℕ) × (read_packet id (length payload) (some fresh) r
          ≡ delivers p s)
        × Delivered id payload rest r p s
  unfolding read_packet
  read_packet-Delivered {r} v e =
      let head : List ℕ = packet_code ∷ to_bytes 2 (length payload) in
      let n : length head ≡ 3 = omega (arith, length-to_bytes 2 (length payload)) in
      let split : contents r ≡ head ++ (key ∷ secret ++ rest) =
        e ∙ append_assoc head (key ∷ secret) rest in
      let (e₁, v₁, b₁) = move_front_front head (key ∷ secret ++ rest) 3 v split n in
      let (k, e₂, v₂, b₂) = dequeue_front (key ∷ []) (secret ++ rest) 1 v₁ e₁ refl in
      let d = fill_packet-Delivered v₂ e₂ in
      (
        received,
        _,
        ap
              (λ ks.
                fill_packet id (get_or ks 0 0) (length payload) fresh
                  (dequeue (move_front r 3).1 true 1).2)
              k
            ∙ fill_packet-received v₂ e₂,
        record {
          to_read = d.to_read;
          session = d.session;
          held = d.held;
          packet = d.packet;
          left = d.left;
          ring = d.ring;
          buffer_size = d.buffer_size ∙ b₂ ∙ b₁;
        },
      )
