-- ===== src/Packet.antt =====
-- Packet.h (projects/multithread-chat-server/Server/NetLib): a fixed buffer with a write and a read
-- position and a reference count. The `assert`s are those of a release build: the call returns and
-- leaves the packet. `int` sizes are natural numbers; no caller passes a negative one.
pub mod Bytes
pub mod Bounds
pub mod Unread
pub mod Fields
mod Examples
use game_programmer_portfoli.Base.{
  ℕ, ◌+◌, ◌-◌, ◌%◌, ◌^◌, Bool, true, false, Option, none, some, List, [], length, blit, slice, ltb,
  leb, ◌==◌, if◌then◌else◌,
}
use Bytes.{to_bytes, from_bytes}

-- `BUFFER_DEFAULT`.
abbrev pub buffer_default : ℕ
buffer_default = 2048

-- The fields that the code reads; the critical section has no content of its own.
pub record Packet : Type 0 where
  pub session_id : ℕ
  pub storage : List ℕ
  pub data_size : ℕ
  pub read_pos : ℕ
  -- `mRefCnt` as the 32 bits of an `int`.
  pub ref_cnt : ℕ
  pub is_encoding : Bool

-- `Clear` keeps the storage and the reference count.
unfoldable pub clear : Packet → Packet
clear p = record p { data_size = 0; read_pos = 0; session_id = 0; is_encoding = false }

unfoldable pub init : Packet → Packet
unfolding clear
init p = record (clear p) { ref_cnt = 1 }

unfoldable pub set_session_id : Packet → ℕ → Packet
set_session_id p id = record p { session_id = id }

unfoldable pub set_data_size : Packet → ℕ → Packet
set_data_size p size = if ltb buffer_default size then p else record p { data_size = size }

pub set_read_pos : Packet → ℕ → Packet
set_read_pos p pos = if ltb p.data_size pos then p else record p { read_pos = pos }

unfoldable pub move_read_pos : Packet → ℕ → Packet
move_read_pos p size =
    if ltb p.data_size (p.read_pos + size) then p else record p { read_pos = p.read_pos + size }

unfoldable pub set_is_encoding : Packet → Bool → Packet
set_is_encoding p b = record p { is_encoding = b }

pub add_ref : Packet → Packet
add_ref p = record p { ref_cnt = (p.ref_cnt + 1) % 2 ^ 32 }

-- `SubRef`: the new count, whether the packet went back to its pool, and the packet.
pub sub_ref : Packet → ℕ × Bool × Packet
sub_ref p =
    let cnt = (p.ref_cnt + 2 ^ 32 - 1) % 2 ^ 32 in (cnt, cnt == 0, record p { ref_cnt = cnt })

-- `operator<<` for the bytes of a value in memory.
unfoldable pub put_value : Packet → List ℕ → Packet
put_value p value = if ltb buffer_default (p.data_size + length value) then p else record p {
  storage = blit p.storage p.data_size value;
  data_size = p.data_size + length value;
}

-- `operator>>` into a variable of `size` bytes; `none` leaves the variable as it was.
unfoldable pub get_value : Packet → ℕ → Option (List ℕ) × Packet
get_value p size =
    if ltb p.data_size (p.read_pos + size)
    then (none, p)
    else (some (slice p.storage p.read_pos size), record p { read_pos = p.read_pos + size })

-- The two for an unsigned integer of `n` bytes, low byte first as on x64.
unfoldable pub put_int : Packet → ℕ → ℕ → Packet
unfolding put_value
put_int p n v = put_value p (to_bytes n v)

unfoldable pub get_int : Packet → ℕ → Option ℕ × Packet
get_int p n =
    let (bytes, q) = get_value p n in
    elim bytes [ none ↦ (none, q) | some bs ↦ (some (from_bytes bs), q) ]

-- `GetData(dest, size)`: the number returned, what `dest` receives and the packet.
unfoldable pub get_data : Packet → ℕ → ℕ × List ℕ × Packet
get_data p size =
    let rest = p.data_size - p.read_pos in
    if ltb p.data_size (p.read_pos + size)
    then (if leb rest 0
        then (0, [], p)
        else (rest, slice p.storage p.read_pos rest, record p { read_pos = p.read_pos + rest }))
    else (size, slice p.storage p.read_pos size, record p { read_pos = p.read_pos + size })

-- `PutData(src, size)`.
unfoldable pub put_data : Packet → List ℕ → ℕ × Packet
put_data p src =
    let room = buffer_default - p.data_size in
    if ltb buffer_default (p.data_size + length src)
    then (if leb room 0 then (0, p) else (
      room,
      record p {
        storage = blit p.storage p.data_size (slice src 0 room);
        data_size = p.data_size + room;
      },
    ))
    else (
      length src,
      record p { storage = blit p.storage p.data_size src; data_size = p.data_size + length src },
    )
