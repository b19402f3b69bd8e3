-- ===== src/GroupServer/Examples.antt =====
-- A run of the group server at concrete values.
use game_programmer_portfoli.Base.{
  ◌≡◌, refl, true, false, none, some, arith, [], ◌∷◌, ◌++◌, replicate, count,
}
use game_programmer_portfoli.Packet.{Packet, get_int, get_value}
use game_programmer_portfoli.Packet.Bytes.{from_bytes}
use game_programmer_portfoli.GroupServer.{
  cleared, Server, create_groups, get_echo_group_for, enqueue, enqueue_job, drain_to,
  on_client_join, on_client_join_clear, on_client_join_store, on_client_join_insert,
  on_client_leave, on_client_leave_locked, on_client_leave_check, post_leave, free_if_none, on_recv,
  reserve_disconnect,
}
use game_programmer_portfoli.GroupServer.Handlers.{
  Context, on_enter, remove_player, on_leave, move_to_echo, handle_login, login_on_recv,
  handle_packet, handle_job, handle_front, handle_next, drain,
}
use game_programmer_portfoli.GroupServer.Steps.{lost_by, unowned}
use game_programmer_portfoli.GroupServer.Worlds.{
  World, Reaches, here, next, clears, stores, inserts, leaves, receives, put, Accounts, start,
}
use game_programmer_portfoli.GroupServer.Owners.{Reaches-Accounts}

-- A packet of type 1001 with 72 bytes behind it, at its type.
abbrev login_packet : Packet
login_packet = record {
  session_id = 0;
  storage = replicate 5 0 ++ (233 ∷ 3 ∷ replicate 72 1);
  data_size = 79;
  read_pos = 5;
  ref_cnt = 1;
  is_encoding = false;
}

-- The session 11 has the player 7 first.
abbrev context : Context
context = record { now = 100; allocated = none; sends = true; unset = 0 }

-- The answer's packet is there, but not sent.
abbrev answering : Context
answering = record {
  now = 100;
  allocated = some (record login_packet { data_size = 0; read_pos = 0 });
  sends = false;
  unset = 0;
}

abbrev begun : World
begun = start (λ p. cleared) (λ h. login_packet) 1

-- The player 7 joins as the session 11, a packet comes, and the session leaves.
abbrev joined_once : World
joined_once = record begun { server = on_client_join begun.server 7 11 100; joined = 7 ∷ [] }

abbrev waiting : World
waiting = record joined_once { server = on_recv joined_once.server 11 3; received = 3 ∷ [] }

abbrev locked : World
locked = record waiting { server = (on_client_leave_locked waiting.server 11).1; leaving = 7 ∷ [] }

locked-Reaches : Reaches begun locked
unfolding count on_client_join on_client_join_clear on_client_join_store on_client_join_insert
    on_recv enqueue enqueue_job on_client_leave_locked post_leave lost_by unowned put create_groups
locked-Reaches =
    next
      (next
        (next (next (next here (clears 7 11 100 (omega arith))) (stores 7 11 [] [] refl))
          (inserts 7 11 [] [] refl))
        (receives 11 3))
      (leaves 11)

Reaches-Accounts_example : Accounts locked
Reaches-Accounts_example =
    Reaches-Accounts (λ p. cleared) (λ h. login_packet) 1 locked (λ p. refl) locked-Reaches

-- Two packets of the session 11 are in the login group when the first moves the player 7 to a shard.
abbrev two_packets : Server
two_packets = on_recv (on_recv (on_client_join begun.server 7 11 100) 11 3) 11 4

abbrev logged_in : Server
logged_in = handle_next answering (handle_next answering (drain two_packets 0) 0) 0

-- The session leaves, and the shard frees the player while the second packet waits.
abbrev left : Server
left = handle_next context (handle_next context (drain (on_client_leave logged_in 11) 1) 1) 1

freed_once : left.freed ≡ 7 ∷ []
unfolding on_client_join on_recv enqueue enqueue_job drain drain_to handle_next handle_front
    handle_job handle_packet login_on_recv handle_login move_to_echo remove_player
    get_echo_group_for on_enter on_leave on_client_leave on_client_leave_locked
    on_client_leave_check post_leave free_if_none create_groups get_int get_value from_bytes
freed_once = refl

-- The player goes to the session 12; then the login group handles the packet of the session 11 as one
-- of the session 12.
abbrev late : Server
late = handle_next context (on_client_join left 7 12 200) 0

late_disconnect : late.disconnects ≡ 12 ∷ []
unfolding reserve_disconnect on_client_join on_recv enqueue enqueue_job drain drain_to handle_next
    handle_front handle_job handle_packet login_on_recv handle_login move_to_echo remove_player
    get_echo_group_for on_enter on_leave on_client_leave on_client_leave_locked
    on_client_leave_check post_leave free_if_none create_groups get_int get_value from_bytes
late_disconnect = refl

-- `OnClientLeave` behind its lock, once the login group has freed the player and the pool has handed it
-- out again: the player that `Clear` of the next session leaves is freed a second time.
abbrev leave_posted : Server
leave_posted = (on_client_leave_locked (on_client_join begun.server 7 11 100) 11).1

abbrev handled : Server
handled = handle_next context (handle_next context (drain leave_posted 0) 0) 0

freed_twice :
    (on_client_leave_check (on_client_join_clear handled 7 12 200) (some 7)).freed ≡ 7 ∷ 7 ∷ []
unfolding on_client_join on_client_join_clear on_client_join_store on_client_join_insert on_recv
    enqueue enqueue_job drain drain_to handle_next handle_front handle_job handle_packet
    login_on_recv handle_login move_to_echo remove_player get_echo_group_for on_enter on_leave
    on_client_leave on_client_leave_locked on_client_leave_check post_leave free_if_none
    create_groups get_int get_value from_bytes
freed_twice = refl
