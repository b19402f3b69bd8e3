-- ===== src/Chat/Examples.antt =====
-- Two players in neighbouring sectors.
use game_programmer_portfoli.Base.{
  none, read_or, ◌≢◌, count, one_if, ℕ, ◌≤◌, ◌<◌, ◌≡◌, refl, true, [], ◌∷◌, length, ◌==◌, ==_iff,
  ◌&&◌, ltb, if◌then◌else◌, arith, blit, replicate, length-blit, length-replicate, ◌∙◌, Bool, false,
  some,
}
use game_programmer_portfoli.Chat.{
  Player, Field, cleared, sector_cnt_x, sector_cnt_y, erase_player, move_player_sector,
  sector_around, collect, broadcast_targets, broadcast,
}
use game_programmer_portfoli.Packet.{Packet, get_int, get_value}
use game_programmer_portfoli.Packet.Bounds.{IsValid}
use game_programmer_portfoli.Packet.Bytes.{from_bytes}
use game_programmer_portfoli.Packet.Unread.{unread}
use game_programmer_portfoli.Chat.Dispatch.{heart_beat, login, packet_proc, select}
use game_programmer_portfoli.Chat.Dispatch.Guards.{fixed_size, packet_proc_lem}
use game_programmer_portfoli.Chat.Handlers.{ChatServer, Context, on_recv}
use game_programmer_portfoli.Chat.Handlers.Guarded.{on_recv-IsPlaced, on_recv_refuses}
use game_programmer_portfoli.Chat.Move.{IsPlaced, stands, move_player_sector-IsPlaced}
use game_programmer_portfoli.Chat.Broadcast.{is_listening, near, count-broadcast_targets}

erase_middle : erase_player 2 (1 ∷ 2 ∷ 3 ∷ 4 ∷ []) ≡ 1 ∷ 4 ∷ 3 ∷ []
unfolding erase_player
erase_middle = refl

corner : length (sector_around 0 0) ≡ 4
unfolding sector_around
corner = refl

abbrev player : ℕ → ℕ → ℕ → Player
player id x y = record cleared { session_id = id; sector_x = x; sector_y = y; is_logged_in = true }

-- Player 0 stands at (1, 1), player 1 at (2, 2), the others nowhere.
abbrev field : Field
field = record {
  players = λ p. if p == 0 then player 100 1 1 else if p == 1 then player 200 2 2 else cleared;
  sectors =
      λ y x. if (x == 1) && (y == 1) then 0 ∷ [] else if (x == 2) && (y == 2) then 1 ∷ [] else [];
}

field-IsPlaced : IsPlaced field
unfolding IsPlaced count
field-IsPlaced q x y hx hy = ground (
  arith,
  ==_iff q 0,
  ==_iff q 1,
  ==_iff x 1,
  ==_iff y 1,
  ==_iff x 2,
  ==_iff y 2,
  ==_iff 0 q,
  ==_iff 1 q,
)

reached : broadcast field 0 ≡ 100 ∷ 200 ∷ []
unfolding broadcast broadcast_targets sector_around collect
reached = refl

count-broadcast_targets_example :
    count 1 (broadcast_targets field 0)
    ≡ one_if (
        is_listening (player 200 2 2)
        && ((ltb 2 sector_cnt_x && near 1 2) && (ltb 2 sector_cnt_y && near 1 2)))
count-broadcast_targets_example =
    count-broadcast_targets field 0 1 field-IsPlaced (omega arith) (omega arith)

move_player_sector_example :
    let g = move_player_sector field 0 5 6 in
    IsPlaced g
    × (5 < sector_cnt_x → 6 < sector_cnt_y → stands (g.players 0) 5 6 ≡ true)
    × ((q : ℕ) → (q ≡ 0 → ⊥) → g.players q ≡ field.players q)
move_player_sector_example = move_player_sector-IsPlaced field 0 5 6 field-IsPlaced

-- A heartbeat of a player that is logged in.
abbrev heartbeat : Packet
heartbeat = record {
  session_id = 100;
  storage = blit (replicate 2048 0) 5 (7 ∷ 0 ∷ []);
  data_size = 7;
  read_pos = 5;
  ref_cnt = 1;
  is_encoding = false;
}

heartbeat-IsValid : IsValid heartbeat
heartbeat-IsValid = record {
  storage = length-blit {A = ℕ} (replicate 2048 0) 5 (7 ∷ 0 ∷ []) ∙ length-replicate {A = ℕ} 2048 0;
  written = omega arith;
  unread = omega arith;
}

heartbeat_goes : (packet_proc 0 true heartbeat).0 ≡ some heart_beat
unfolding packet_proc select get_int get_value from_bytes
heartbeat_goes = refl

packet_proc_example :
    (fixed_size heart_beat ≤ length (unread (packet_proc 0 true heartbeat).1))
    × (◌≡◌ {A = Bool} true false → heart_beat ≡ login)
packet_proc_example =
    packet_proc_lem 0 true heartbeat heart_beat heartbeat-IsValid refl heartbeat_goes

-- The server with these players; the sessions 100 and 300 are in the map, 300 with a player that is
-- not logged in.
abbrev server : ChatServer
server = record {
  field = field;
  player_map = (100, 0) ∷ (300, 2) ∷ [];
  player_count = 2;
  names = λ p. record { id = []; nick_name = [] };
  freed = [];
  disconnects = [];
  sent = [];
  sub_refs = [];
}

abbrev context : Context
context = record {
  allocated = none;
  sends = λ id. true;
  copy_name = λ name. name;
  compare_and_del = λ account_no key. true;
  unset = 0;
}

on_recv-IsPlaced_example :
    let s' = on_recv context server 100 9 heartbeat in
    IsPlaced s'.field × (s'.sub_refs ≡ 9 ∷ []) × (s'.player_map ≡ server.player_map)
on_recv-IsPlaced_example = on_recv-IsPlaced context server 100 9 heartbeat field-IsPlaced

not_login : read_or (get_int heartbeat 2).0 0 ≢ 1
unfolding get_int get_value from_bytes
not_login e = absurd (omega (arith, e))

on_recv_refuses_example :
    let s' = on_recv context server 300 9 heartbeat in
    (s'.sent ≡ [])
    × (s'.field.sectors ≡ field.sectors)
    × ((s'.field.players 2).will_delete ≡ true)
    × (s'.disconnects ≡ 0 ∷ [])
on_recv_refuses_example = on_recv_refuses context server 300 9 2 heartbeat refl refl not_login
