-- ===== src/Chat/Handlers.antt =====
-- The packet handlers of ChatServer.cpp, ChatPacketGenerator.h and the map of players
-- (projects/multithread-chat-server/Server/ChatingServer). The times of a player are the part of Timeout,
-- the session key is not read again. A call runs as one step.
pub mod Guarded
use game_programmer_portfoli.Base.{
  find, erase, read_or, ℕ, zero, suc, ◌+◌, ◌-◌, ◌%◌, Bool, true, false, not, ◌&&◌, ◌||◌, Option,
  none, some, List, [], ◌∷◌, ◌++◌, length, replicate, slice, leb, ltb, ◌==◌, if◌then◌else◌,
}
use game_programmer_portfoli.Packet.{Packet, init, get_int, get_data, put_int, put_data}
use game_programmer_portfoli.Chat.{
  Player, cleared, Field, sector_cnt_x, sector_cnt_y, update, erase_player_from_sector,
  move_player_sector, broadcast,
}
use game_programmer_portfoli.Chat.Dispatch.{
  Handler, login, sector_move, send_chat_message, heart_beat, req_login, select,
}

abbrev pub res_login : ℕ
res_login = 2

abbrev pub res_sector_move : ℕ
res_sector_move = 4

abbrev pub res_message : ℕ
res_message = 6

-- `mID` and `mNickName`, 40 bytes each.
pub record Names : Type 0 where
  pub id : List ℕ
  pub nick_name : List ℕ

-- The server: the field, `mPlayerMap` and `mPlayerCount`, the names; the calls of
-- `playerMemoryPool.Free`, `DisConnect` and `SendPacket`, and of `SubRef` on a packet received, are
-- kept, last first.
pub record ChatServer : Type 0 where
  pub field : Field
  pub player_map : List (ℕ × ℕ)
  pub player_count : ℕ
  pub names : ℕ → Names
  pub freed : List ℕ
  pub disconnects : List ℕ
  pub sent : List (ℕ × Packet)
  pub sub_refs : List ℕ

-- What a call finds outside: the packet that `packetMemoryPool.Alloc` returns, what `SendPacket`
-- answers for a session, `wcsncpy_s` into 20 characters, what `CompareAndDel` of the Redis client
-- answers, and what a variable holds before it is read.
pub record Context : Type 0 where
  pub allocated : Option Packet
  pub sends : ℕ → Bool
  pub copy_name : List ℕ → List ℕ
  pub compare_and_del : ℕ → List ℕ → Bool
  pub unset : ℕ

abbrev pub use_redis_auth : Bool
use_redis_auth = false

-- `std::find` of a zero in an array of `WCHAR`.
unfoldable pub has_nul : List ℕ → Bool
has_nul [] = false
has_nul (a ∷ []) = false
has_nul (a ∷ b ∷ rest) = let behind = has_nul rest in (a == 0) && (b == 0) || behind

-- `InitPacket` and the makers of ChatPacketGenerator.h.
init_packet : Packet → ℕ → Packet
init_packet p type = put_int (put_data p (replicate 5 0)).1 2 type

pub make_chat_res_login : Packet → ℕ → ℕ → Packet
unfolding init_packet
make_chat_res_login p status account_no =
    put_int (put_int (init_packet p res_login) 1 status) 8 account_no

pub make_chat_sector_move : Packet → ℕ → ℕ → ℕ → Packet
unfolding init_packet
make_chat_sector_move p account_no x y =
    put_int (put_int (put_int (init_packet p res_sector_move) 8 account_no) 2 x) 2 y

pub make_chat_res_message : (List ℕ → List ℕ) → Packet → ℕ → Names → List ℕ → Packet
unfolding init_packet
make_chat_res_message copy_name p account_no names message =
    let p₁ = put_int (init_packet p res_message) 8 account_no in
    let p₂ = (put_data p₁ (copy_name names.id)).1 in
    let p₃ = (put_data p₂ (copy_name names.nick_name)).1 in
    (put_data (put_int p₃ 2 (length message)) message).1

abbrev pub player_at : ChatServer → ℕ → Player
player_at s p = s.field.players p

abbrev pub set_player : ChatServer → ℕ → Player → ChatServer
set_player s p x = record s { field = record (s.field) { players = update s.field.players p x } }

abbrev pub dis_connect : ChatServer → ℕ → ChatServer
dis_connect s session_id = record s { disconnects = session_id ∷ s.disconnects }

-- `reserveDeletePlayer`.
unfoldable pub reserve_delete_player : ChatServer → ℕ → ChatServer
reserve_delete_player s p =
    let x = player_at s p in
    let s' = set_player s p (record x { will_delete = true }) in
    if x.will_delete then s else dis_connect s' x.session_id

-- `SendPacket` to one session, and to each of several.
unfoldable pub send : Context → ChatServer → ℕ → Packet → ChatServer
send c s session_id p =
    if c.sends session_id then record s { sent = (session_id, p) ∷ s.sent } else s

unfoldable pub send_all : Context → ChatServer → List ℕ → Packet → ChatServer
send_all c s [] p = s
send_all c s (id ∷ ids) p = send_all c (send c s id p) ids p

-- The first other session with the account logged in; the order of an unordered map is that of the list.
unfoldable pub find_duplicate : (ℕ → Player) → List (ℕ × ℕ) → ℕ → ℕ → Option ℕ
find_duplicate players [] account_no session_id = none
find_duplicate players ((sid, p) ∷ m) account_no session_id =
    let rest = find_duplicate players m account_no session_id in
    if (players p).is_logged_in && ((players p).account_no == account_no) && not (sid == session_id)
    then some sid
    else rest

-- The session of a duplicate login cut off.
abbrev pub drop_duplicate : ChatServer → Option ℕ → ChatServer
drop_duplicate s none = s
drop_duplicate s (some sid) = dis_connect s sid

-- `login`.
unfoldable pub handle_login : Context → ChatServer → ℕ → Packet → Bool × ChatServer
unfolding has_nul find_duplicate send
handle_login c s p request =
    let x = player_at s p in
    let (account, r₁) = get_int request 8 in
    let account_no = read_or account c.unset in
    let (_, id, r₂) = get_data r₁ 40 in
    let (_, nick_name, r₃) = get_data r₂ 40 in
    let (_, session_key, _) = get_data r₃ 64 in
    let s₁ =
      drop_duplicate s (find_duplicate s.field.players s.player_map account_no x.session_id) in
    let s₂ = set_player s₁ p (record x { account_no = account_no; is_logged_in = true }) in
    let named : Names = record { id = c.copy_name id; nick_name = c.copy_name nick_name } in
    let s₃ = record s₂ { names = update s₂.names p named } in
    if x.is_logged_in || not (has_nul id) || not (has_nul nick_name)
    then (false, s)
    else elim (c.allocated) [
      | none ↦ (false, s)
      | some res ↦
          if use_redis_auth && not (c.compare_and_del account_no session_key) then (false, s) else (
            c.sends x.session_id,
            send c s₃ x.session_id (make_chat_res_login (init res) 1 account_no),
          )
    ]

-- `sectorMove`.
unfoldable pub handle_sector_move : Context → ChatServer → ℕ → Packet → Bool × ChatServer
unfolding send
handle_sector_move c s p request =
    let x = player_at s p in
    let (account, r₁) = get_int request 8 in
    let (sector_x, r₂) = get_int r₁ 2 in
    let (sector_y, _) = get_int r₂ 2 in
    let account_no = read_or account c.unset in
    let new_x = read_or sector_x c.unset in
    let new_y = read_or sector_y c.unset in
    let s' = record s { field = move_player_sector s.field p new_x new_y } in
    if not (x.account_no == account_no) || leb sector_cnt_x new_x || leb sector_cnt_y new_y
    then (false, s)
    else elim (c.allocated) [
      | none ↦ (false, s')
      | some res ↦ (
        c.sends x.session_id,
        send c s' x.session_id (make_chat_sector_move (init res) account_no new_x new_y),
      )
    ]

-- `sendChatMessage`.
unfoldable pub handle_chat_message : Context → ChatServer → ℕ → Packet → Bool × ChatServer
unfolding send_all
handle_chat_message c s p request =
    let x = player_at s p in
    let (account, r₁) = get_int request 8 in
    let (len, r₂) = get_int r₁ 2 in
    let account_no = read_or account c.unset in
    let message_len = read_or len c.unset in
    let (_, message, _) = get_data r₂ message_len in
    let bad_len = ltb 1024 message_len || leb message_len 0 || not (message_len % 2 == 0) in
    let bad_size = not (request.data_size == message_len + (5 + 2 + 8 + 2)) in
    let no_sector = leb sector_cnt_x x.sector_x || leb sector_cnt_y x.sector_y in
    if not x.is_logged_in || not (x.account_no == account_no) || bad_len || bad_size || no_sector
    then (false, s)
    else elim (c.allocated) [
      | none ↦ (false, s)
      | some res ↦ (
        true,
        send_all c s (broadcast s.field p)
            (make_chat_res_message c.copy_name (init res) account_no (s.names p) message),
      )
    ]

-- The handler of the switch.
unfoldable pub handle : Context → ChatServer → ℕ → Packet → Option Handler → Bool × ChatServer
unfolding handle_login handle_sector_move handle_chat_message
handle c s p request none = (false, s)
handle c s p request (some login) = handle_login c s p request
handle c s p request (some sector_move) = handle_sector_move c s p request
handle c s p request (some send_chat_message) = handle_chat_message c s p request
handle c s p request (some heart_beat) = (true, s)

-- `packetProc` with what it does.
unfoldable pub process : Context → ChatServer → ℕ → Packet → Bool × ChatServer
process c s p request =
    let (value, r) = get_int request 2 in
    let header = read_or value c.unset in
    if not (player_at s p).is_logged_in && not (header == req_login)
    then (false, reserve_delete_player s p)
    else handle c s p r (select header r.data_size)

-- `OnClientJoin` with the player that the pool returns.
unfoldable pub on_client_join : ChatServer → ℕ → ℕ → ChatServer
on_client_join s p session_id =
    let s₁ = set_player s p (record cleared { session_id = session_id }) in
    elim (find s.player_map session_id) [
      | none ↦ record s₁ {
        player_map = (session_id, p) ∷ s₁.player_map;
        player_count = s₁.player_count + 1;
      }
      | some other ↦ record s₁ { freed = p ∷ s₁.freed }
    ]

-- `OnClientLeave`.
unfoldable pub on_client_leave : ChatServer → ℕ → ChatServer
on_client_leave s session_id = elim (find s.player_map session_id) [
  | none ↦ s
  | some p ↦
      let x = player_at s p in
      let s₁ = record (set_player s p (record x { will_delete = true })) {
        player_map = erase s.player_map session_id;
        player_count = s.player_count - 1;
      } in
      let s₂ = record s₁ { field = erase_player_from_sector s₁.field p } in
      let s₃ = set_player s₂ p (record (player_at s₂ p) { is_logged_in = false }) in
      record s₃ { freed = p ∷ s₃.freed }
]

-- `OnRecv`, with the address of the packet.
unfoldable pub on_recv : Context → ChatServer → ℕ → ℕ → Packet → ChatServer
on_recv c s session_id h request =
    let processed : ChatServer = elim (find s.player_map session_id) [
      | none ↦ dis_connect s session_id
      | some p ↦
          let (done, s') = process c s p request in if done then s' else reserve_delete_player s' p
    ] in
    record processed { sub_refs = h ∷ processed.sub_refs }
