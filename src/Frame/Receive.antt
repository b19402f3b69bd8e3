-- ===== src/Frame/Receive.antt =====
-- The RECV case of `workerThread`: the loop that cuts the session's ring into packets.
use game_programmer_portfoli.Base.{
  ℕ, zero, suc, ◌+◌, ◌-◌, Bool, true, false, not, Option, none, some, List, [], ◌∷◌, blit, slice,
  get_or, ltb, ◌==◌, if◌then◌else◌,
}
use game_programmer_portfoli.RingBuffer.{
  RingBuffer, get_use_size, get_buffer_size, peek, move_front, dequeue,
}
use game_programmer_portfoli.Packet.{
  Packet, buffer_default, init, set_session_id, set_data_size, move_read_pos,
}
use game_programmer_portfoli.Packet.Bytes.{from_bytes}
use game_programmer_portfoli.Encryption.{calculate_check_sum, decode}
use game_programmer_portfoli.Frame.{packet_code}

-- What one round of the `while (true)` does: it breaks, with `parseError` or without, or it hands a
-- packet to `OnRecv` and goes on.
pub data Round : Type 0 where
  breaks : Bool → RingBuffer ℕ → Round
  delivers : Packet → RingBuffer ℕ → Round

-- The part of the round that fills the packet from the pool, `len` being the payload's length:
-- `Dequeue` into `mStorage + 4`, `Decode` in place, the checksum.
-- A packet with a wrong checksum goes back to its pool, which is not part of this state.
unfoldable pub fill_packet : ℕ → ℕ → ℕ → Packet → RingBuffer ℕ → Round
fill_packet id key len fresh r =
    let p = set_session_id (init fresh) id in
    let (n, secret, r') = dequeue r true (1 + len) in
    let copied = blit p.storage 4 secret in
    let plain = blit copied 4 (decode key (slice copied 4 (1 + len))) in
    let received = get_or plain 4 0 in
    let calculated = calculate_check_sum (slice plain 5 len) in
    if not (received == calculated)
    then breaks true r'
    else delivers (move_read_pos (set_data_size (record p { storage = plain }) (5 + len)) 5) r'

-- The part behind the checks of the header.
unfoldable pub read_packet : ℕ → ℕ → Option Packet → RingBuffer ℕ → Round
read_packet id len alloc r =
    let r₁ = (move_front r 3).1 in
    let (n, key, r₂) = dequeue r₁ true 1 in
    elim alloc [ none ↦ breaks true r₂ | some fresh ↦ fill_packet id (get_or key 0 0) len fresh r₂ ]

-- One round, for the session `id`; `alloc` is what `packetMemoryPool.Alloc()` returns if it is
-- called.
unfoldable pub parse_round : ℕ → Option Packet → RingBuffer ℕ → Round
parse_round id alloc r =
    let header = (peek r true 3).1 in
    let len = from_bytes (slice header 1 2) in
    let total = 3 + 1 + 1 + len in
    if ltb (get_use_size r) 3
    then breaks false r
    else if not (get_or header 0 0 == packet_code)
    then breaks true r
    else if len == 0
    then breaks true r
    else if ltb (buffer_default - 5) len
    then breaks true r
    else if ltb (get_buffer_size r) total
    then breaks true r
    else if ltb (get_use_size r) total
    then breaks false r
    else read_packet id len alloc r

-- What the loop has done when it ends: the packets given to `OnRecv`, `parseError` and the ring.
pub record Parsed : Type 0 where
  pub delivered : List Packet
  pub parse_error : Bool
  pub ring : RingBuffer ℕ

abbrev pub deliver : Packet → Option Parsed → Option Parsed
deliver p none = none
deliver p (some s) = some (record s { delivered = p ∷ s.delivered })

-- The loop on fuel; `alloc k` is the result of the k-th allocation. `none`: the fuel ran out.
unfoldable pub parse : ℕ → ℕ → (ℕ → Option Packet) → ℕ → RingBuffer ℕ → Option Parsed
parse zero id alloc k r = none
parse (suc fuel) id alloc k r = elim (parse_round id (alloc k) r) [
  | breaks error r' ↦ some (record { delivered = []; parse_error = error; ring = r' })
  | delivers p r' ↦ deliver p (parse fuel id alloc (k + 1) r')
]
