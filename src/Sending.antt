-- ===== src/Sending.antt =====
-- `SendPacket`, `postSend`, the SEND case of `workerThread` and the end of `releaseSession` in
-- BaseServer.cpp (projects/multithread-chat-server/Server/NetLib): how a packet waits, is sent and is
-- released. A `Packet*` is a number. The ring of packets is the bounded queue that RingBuffer.Queue shows
-- it to be, so that the queue is what the model keeps. Encryption is the part of Frame.
pub mod Refs
pub mod Flow
mod Examples
use game_programmer_portfoli.Base.{
  ℕ, zero, suc, ◌+◌, ◌-◌, Bool, true, false, not, ◌||◌, Option, none, some, List, [], ◌∷◌, ◌++◌,
  length, take, drop, is_null, one_if, leb, ltb, ◌==◌, if◌then◌else◌,
}
use game_programmer_portfoli.Session.{
  SessionControl, increase_io_count, decrease_session_io_count, request_release,
}
use game_programmer_portfoli.Session.Pool.{
  SessionState, free, connected, disconnecting, is_connected,
}

-- `MAX_SEND_PACKET` and `SEND_RINGBUFFER_SIZE` of Define.h: a ring made with a size has one cell more,
-- which it keeps empty.
abbrev pub max_send_packet : ℕ
max_send_packet = 64

abbrev pub send_ring_room : ℕ
send_ring_room = 128

-- The fields of a session that a send uses. `sent_packets` is `sentPackets[0 .. packetCount)`. The calls of
-- `AddRef` and `SubRef`, the packets handed to `WSASend` and those that were put into the ring are
-- logged, and the RELEASE completions posted are counted.
pub record SendSession : Type 0 where
  pub id : ℕ
  pub state : SessionState
  pub control : SessionControl
  pub ring : List ℕ
  pub send_flag : ℕ
  pub sent_packets : List ℕ
  pub add_refs : List ℕ
  pub sub_refs : List ℕ
  pub queued : List ℕ
  pub posted : List ℕ
  pub releases : ℕ

-- What `WSASend` answers: 0, an error that says that it is under way, or another.
pub data SendResult : Type 0 where
  ok pending failed : SendResult

-- `decreaseSessionIoCount` and `requestRelease` on the session.
unfoldable pub decrease : SendSession → SendSession
decrease s =
    let (posts, c) = decrease_session_io_count s.control in
    record s { control = c; releases = s.releases + one_if posts }

unfoldable pub release : SendSession → SendSession
release s =
    let (posts, c) = request_release s.control in
    record s { control = c; releases = s.releases + one_if posts }

-- `sendFlag.exchange(1) != 0`, negated.
unfoldable pub try_send_flag : SendSession → Bool × SendSession
try_send_flag s = (s.send_flag == 0, record s { send_flag = 1 })

-- The section of `postSend` under the lock.
unfoldable pub fill_send : SendSession → SendSession
fill_send s = record s {
  ring = drop max_send_packet s.ring;
  sent_packets = take max_send_packet s.ring;
}

-- `SubRef` of the sent packets, and `packetCount = 0`.
unfoldable pub sub_ref_sent : SendSession → SendSession
sub_ref_sent s = record s { sub_refs = s.sent_packets ++ s.sub_refs; sent_packets = [] }

-- `postSend` from `WSASend` on.
unfoldable pub wsa_send : SendResult → SendSession → Bool × SendSession
wsa_send ok s = (true, record s { posted = s.posted ++ s.sent_packets })
wsa_send pending s = (true, record s { posted = s.posted ++ s.sent_packets })
wsa_send failed s = (false, record (decrease (release (sub_ref_sent s))) { send_flag = 0 })

-- `postSend` behind its lock.
unfoldable pub finish_send : SendResult → SendSession → Bool × SendSession
finish_send r s =
    let (counted, c) = increase_io_count s.control in
    if is_null s.sent_packets
    then (true, record s { send_flag = 0 })
    else if not counted
    then (false, record (sub_ref_sent s) { send_flag = 0 })
    else wsa_send r (record s { control = c })

-- `postSend` with no other step in between.
unfoldable pub post_send : SendResult → SendSession → Bool × SendSession
post_send r s =
    let (taken, s') = try_send_flag s in
    let rest = finish_send r (fill_send s') in if not taken then (true, s) else rest

-- `AddRef`, and `EnqueueItem` under its lock with the way back: whether it is in the ring.
unfoldable pub enqueue_packet : SendSession → ℕ → Bool × SendSession
enqueue_packet s p =
    let s₁ = record s { add_refs = p ∷ s.add_refs } in
    if leb send_ring_room (length s.ring)
    then (false, decrease (release (record s₁ { sub_refs = p ∷ s₁.sub_refs })))
    else (true, record s₁ { ring = s₁.ring ++ (p ∷ []); queued = s₁.queued ++ (p ∷ []) })

-- `SendPacket` on the session that `findSession` has returned, before `postSend`: whether it goes on.
unfoldable pub begin_send : SendSession → ℕ → ℕ → Bool × SendSession
begin_send s session_id p =
    let (counted, c) = increase_io_count s.control in
    let s' = record s { control = c } in
    if not counted
    then (false, s)
    else if not (s.id == session_id) || not (is_connected s.state)
    then (false, decrease s')
    else enqueue_packet s' p

-- `SendPacket` with no other step in between.
pub send_packet : SendResult → SendSession → ℕ → ℕ → Bool × SendSession
send_packet r s session_id p =
    let (goes_on, s₁) = begin_send s session_id p in
    let (sent, s₂) = post_send r s₁ in if not goes_on then (false, s₁) else (sent, decrease s₂)

-- The SEND case of `workerThread` up to `sendFlag.store(0)`.
unfoldable pub complete_send : SendSession → SendSession
complete_send s = record (sub_ref_sent s) { send_flag = 0 }

-- The SEND case with no other step in between, and the count of the operation given back.
unfoldable pub on_send_completion : SendResult → SendSession → SendSession
on_send_completion r s = decrease (post_send r (complete_send s)).1

-- An operation that has ended with an error.
unfoldable pub on_failed_completion : SendSession → SendSession
on_failed_completion s = decrease (release s)

-- `releaseSession` on these fields, once it has claimed the clean-up.
unfoldable pub clean_up : SendSession → SendSession
clean_up s = record s {
  sub_refs = s.ring ++ s.sub_refs;
  ring = [];
  id = 0;
  state = free;
  send_flag = 0;
}

-- `DisConnect` on the session that `findSession` has returned.
unfoldable pub dis_connect : SendSession → ℕ → Bool × SendSession
dis_connect s session_id =
    let (counted, c) = increase_io_count s.control in
    let s' = record s { control = c } in
    if not counted
    then (false, s)
    else if not (s.id == session_id)
    then (false, decrease s')
    else (true, decrease (release s'))
