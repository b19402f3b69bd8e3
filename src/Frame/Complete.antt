-- ===== src/Frame/Complete.antt =====
-- A receive that completes: the RECV case of `workerThread` as a whole, and `postRecv`, in BaseServer.cpp.
use game_programmer_portfoli.Base.{
  ℕ, ◌+◌, Bool, true, false, not, Option, none, some, List, ◌∷◌, ◌++◌, ◌==◌, if◌then◌else◌, one_if,
  [],
}
use game_programmer_portfoli.RingBuffer.{RingBuffer, WsaBuf, move_rear, get_enqueue_segments}
use game_programmer_portfoli.Packet.{Packet}
use game_programmer_portfoli.Session.{
  SessionControl, increase_io_count, decrease_session_io_count, request_release,
}
use game_programmer_portfoli.Frame.Receive.{Parsed, parse}

-- The fields of a session that a receive uses. `posted` are the calls of `WSARecv`, last first, with the
-- number of buffers; `received` are the packets that went to `OnRecv`, in order.
pub record RecvSession : Type 0 where
  pub id : ℕ
  pub control : SessionControl
  pub ring : RingBuffer ℕ
  pub first_buf : WsaBuf
  pub second_buf : WsaBuf
  pub posted : List (ℕ × WsaBuf × WsaBuf)
  pub received : List Packet
  pub releases : ℕ

-- What `WSARecv` answers: 0 or `ERROR_IO_PENDING`, or another error.
pub data RecvResult : Type 0 where
  under_way failed : RecvResult

unfoldable pub decrease_count : RecvSession → RecvSession
decrease_count s =
    let (posts, c) = decrease_session_io_count s.control in
    record s { control = c; releases = s.releases + one_if posts }

unfoldable pub request_end : RecvSession → RecvSession
request_end s =
    let (posts, c) = request_release s.control in
    record s { control = c; releases = s.releases + one_if posts }

-- `postRecv` from `WSARecv` on.
unfoldable pub wsa_recv : RecvResult → ℕ → RecvSession → Bool × RecvSession
unfolding decrease_count request_end
wsa_recv under_way n s = (true, record s { posted = (n, s.first_buf, s.second_buf) ∷ s.posted })
wsa_recv failed n s = (false, decrease_count (request_end s))

-- `postRecv`.
unfoldable pub post_recv : RecvResult → RecvSession → Bool × RecvSession
unfolding wsa_recv decrease_count request_end
post_recv r s =
    let (counted, c) = increase_io_count s.control in
    let (n, w0, w1) = get_enqueue_segments s.ring s.first_buf s.second_buf in
    let s' = record s { control = c; first_buf = w0; second_buf = w1 } in
    if not counted
    then (false, s)
    else if n == 0
    then (false, decrease_count (request_end s'))
    else wsa_recv r n s'

-- How a `SendPacket` on the session goes: the packet is not put into the ring or waits there, its send
-- is started, the ring is full, or `WSASend` fails.
pub data SendOutcome : Type 0 where
  waits starts full fails : SendOutcome

-- The calls that `OnRecv` makes on the session of its packet.
pub data SessionCall : Type 0 where
  disconnects : SessionCall
  sends : SendOutcome → SessionCall

unfoldable pub begin_operation : RecvSession → RecvSession
begin_operation s = record s { control = (increase_io_count s.control).1 }

-- `DisConnect` and `SendPacket` between their `IncreaseIoCount` and their `decreaseSessionIoCount`.
unfoldable pub within : SessionCall → RecvSession → RecvSession
unfolding request_end decrease_count begin_operation
within disconnects s = request_end s
within (sends waits) s = s
within (sends starts) s = begin_operation s
within (sends full) s = request_end s
within (sends fails) s = decrease_count (request_end (begin_operation s))

unfoldable pub on_call : SessionCall → RecvSession → RecvSession
unfolding within decrease_count
on_call call s =
    let (counted, c) = increase_io_count s.control in
    if not counted then s else decrease_count (within call (record s { control = c }))

unfoldable pub on_calls : List SessionCall → RecvSession → RecvSession
unfolding on_call
on_calls [] s = s
on_calls (call ∷ calls) s = on_calls calls (on_call call s)

-- What `OnRecv` calls for the packets of the loop, the first being the one at `k`.
unfoldable pub all_calls : (ℕ → Packet → List SessionCall) → ℕ → List Packet → List SessionCall
all_calls on_recv k [] = []
all_calls on_recv k (p ∷ ps) = on_recv k p ++ all_calls on_recv (k + 1) ps

-- The RECV case behind `MoveRear`, where the loop has gone as `p` says. `OnRecv` leaves the ring alone,
-- and the loop the control word, so that the calls stand behind the loop here.
unfoldable pub finish_recv : RecvResult → List SessionCall → Parsed → RecvSession → RecvSession
unfolding on_calls post_recv request_end decrease_count
finish_recv r calls p s =
    let s' = on_calls calls (record s { ring = p.ring; received = s.received ++ p.delivered }) in
    let (ok, s₁) = post_recv r s' in
    decrease_count (if p.parse_error then request_end s' else if not ok then request_end s₁ else s₁)

-- A completion of `size` bytes, or an error (`none`), with fuel for the loop.
unfoldable pub on_recv_completion :
    ℕ
    → (ℕ → Option Packet)
    → (ℕ → Packet → List SessionCall)
    → RecvResult
    → Option ℕ
    → RecvSession
    → Option RecvSession
unfolding finish_recv request_end decrease_count
on_recv_completion fuel alloc on_recv r none s = some (decrease_count (request_end s))
on_recv_completion fuel alloc on_recv r (some size) s =
    let parsed = parse fuel s.id alloc 0 (move_rear s.ring size).1 in
    if size == 0 then some (decrease_count (request_end s)) else elim parsed [
      | none ↦ none
      | some p ↦ some (finish_recv r (all_calls on_recv 0 p.delivered) p s)
    ]
