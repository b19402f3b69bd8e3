-- ===== src/Frame.antt =====
-- The wire format that BaseServer.cpp (projects/multithread-chat-server/Server/NetLib) writes in
-- `SendPacket` and reads in the RECV case of `workerThread`: the five bytes of `PACKET_HEADER`, of
-- which the checksum is encrypted together with the payload, then the payload.
pub mod Send
pub mod Receive
pub mod Complete
pub mod Calls
pub mod Posting
pub mod Receiving
pub mod Parse
pub mod Deliver
pub mod Stream
pub mod Total
mod Examples
use game_programmer_portfoli.Base.{ℕ, List, [], ◌∷◌, ◌++◌, length}
use game_programmer_portfoli.Packet.Bytes.{to_bytes}
use game_programmer_portfoli.Encryption.{calculate_check_sum, encode}

-- `PACKET_CODE` of Define.h.
abbrev pub packet_code : ℕ
packet_code = 0x77

-- A payload under a key, as it stands on the wire.
abbrev pub frame : ℕ → List ℕ → List ℕ
frame key payload =
    packet_code ∷ to_bytes 2 (length payload)
    ++ key ∷ encode key (calculate_check_sum payload ∷ payload)
