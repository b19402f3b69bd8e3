-- ===== src/Packet/Bounds.antt =====
-- The positions of a packet stay inside its buffer.
use game_programmer_portfoli.Base.{ℕ, ◌-◌, ◌≤◌, ◌≡◌, List, length, length-blit, slice, arith}
use game_programmer_portfoli.Packet.{
  Packet, buffer_default, clear, init, set_session_id, set_read_pos, move_read_pos, add_ref,
  sub_ref, put_value, get_value, get_data, put_data,
}

-- What `Clear` sets up and every call below keeps.
pub record IsValid (p : Packet) : Type 0 where
  pub storage : length p.storage ≡ buffer_default
  pub written : p.data_size ≤ buffer_default
  pub unread : p.read_pos ≤ p.data_size

-- The calls of a packet's user.
pub data Call : Type 0 where
  clears inits : Call
  sets_session_id sets_read_pos moves_read_pos gets_value gets_data : ℕ → Call
  puts_value puts_data : List ℕ → Call
  adds_ref subs_ref : Call

pub step : Packet → Call → Packet
step p clears = clear p
step p inits = init p
step p (sets_session_id id) = set_session_id p id
step p (sets_read_pos pos) = set_read_pos p pos
step p (moves_read_pos n) = move_read_pos p n
step p (gets_value n) = (get_value p n).1
step p (gets_data n) = (get_data p n).2
step p (puts_value bs) = put_value p bs
step p (puts_data bs) = (put_data p bs).1
step p adds_ref = add_ref p
step p subs_ref = (sub_ref p).2

pub put_value-IsValid : {p : Packet} (bs : List ℕ) → IsValid p → IsValid (put_value p bs)
unfolding put_value
put_value-IsValid {p} bs v = ground (arith, length-blit p.storage p.data_size bs)

pub put_data-IsValid : {p : Packet} (bs : List ℕ) → IsValid p → IsValid (put_data p bs).1
unfolding put_data
put_data-IsValid {p} bs v = ground (
  arith,
  length-blit p.storage p.data_size bs,
  length-blit p.storage p.data_size (slice bs 0 (buffer_default - p.data_size)),
)

-- Each call of a packet (`Clear`, `Init`, `SetSessionID`, `SetReadPos`, `MoveReadPos`, `>>`,
-- `GetData`, `<<`, `PutData`, `AddRef`, `SubRef`) keeps the storage at `BUFFER_DEFAULT` bytes, the
-- write position within it and the read position at or before the write position.
pub step-IsValid : {p : Packet} (c : Call) → IsValid p → IsValid (step p c)
unfolding step clear init set_session_id set_read_pos move_read_pos get_value get_data add_ref
    sub_ref
step-IsValid clears v = ground arith
step-IsValid inits v = ground arith
step-IsValid (sets_session_id id) v = ground arith
step-IsValid (sets_read_pos pos) v = ground arith
step-IsValid (moves_read_pos n) v = ground arith
step-IsValid (gets_value n) v = ground arith
step-IsValid (gets_data n) v = ground arith
step-IsValid (puts_value bs) v = put_value-IsValid bs v
step-IsValid (puts_data bs) v = put_data-IsValid bs v
step-IsValid adds_ref v = ground arith
step-IsValid subs_ref v = ground arith
