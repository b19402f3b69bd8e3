-- ===== src/Chat/Dispatch.antt =====
-- `packetProc` of ChatServer.cpp (projects/multithread-chat-server/Server/ChatingServer): which handler
-- a packet goes to.
pub mod Guards
use game_programmer_portfoli.Base.{
  ℕ, ◌+◌, Bool, not, ◌&&◌, Option, none, some, ltb, ◌==◌, if◌then◌else◌,
}
use game_programmer_portfoli.Packet.{Packet, get_int}

-- `en_PACKET_TYPE` of Utils/CommonProtocol.h.
abbrev pub req_login : ℕ
req_login = 1

abbrev pub req_sector_move : ℕ
req_sector_move = 3

abbrev pub req_message : ℕ
req_message = 5

abbrev pub req_heartbeat : ℕ
req_heartbeat = 7

pub data Handler : Type 0 where
  login sector_move send_chat_message heart_beat : Handler

-- The switch; `payloadSize` is `size - 5 - 2`, so that each test is one of `size`.
unfoldable pub select : ℕ → ℕ → Option Handler
select header size =
    if header == req_login
    then (if not (size == 152 + 7) then none else some login)
    else if header == req_sector_move
    then (if not (size == 12 + 7) then none else some sector_move)
    else if header == req_message
    then (if ltb size (10 + 7) then none else some send_chat_message)
    else if header == req_heartbeat
    then (if not (size == 7) then none else some heart_beat)
    else none

-- The handler, if there is one (else the function returns false), and the packet behind its type.
-- `unset` is what the type's variable holds before it is read.
unfoldable pub packet_proc : ℕ → Bool → Packet → Option Handler × Packet
unfolding select
packet_proc unset logged_in p =
    let (value, q) = get_int p 2 in
    let header : ℕ = elim value [ none ↦ unset | some v ↦ v ] in
    (if not logged_in && not (header == req_login) then none else select header q.data_size, q)
