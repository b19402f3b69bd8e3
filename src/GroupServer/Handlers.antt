-- ===== src/GroupServer/Handlers.antt =====
-- Group.h, LoginGroup.cpp, EchoGroup.cpp and GroupPacketGenerator.h
-- (projects/group-echo-server/Server/GroupServer): what a group does with the jobs of its mailbox. The
-- packets of this project hold 512 bytes in place of 2048; the answers made here have at most 23.
use game_programmer_portfoli.Base.{
  find, erase, read_or, ℕ, zero, suc, ◌+◌, ◌-◌, Bool, true, false, not, Option, none, some, List,
  [], ◌∷◌, replicate, length, ◌==◌, if◌then◌else◌,
}
use game_programmer_portfoli.Packet.{Packet, init, get_int, put_int, put_data}
use game_programmer_portfoli.GroupServer.{
  JobType, join, leave, packet, group_enter, Job, drain_to, Player, on_login, update_heartbeat,
  Server, get_echo_group_for, group_at, set_group, set_player, enqueue, free_player, sub_ref_packet,
  reserve_disconnect,
}

-- The packet types of Utils/CommonProtocol.h.
abbrev pub game_req_login : ℕ
game_req_login = 1001

abbrev pub game_res_login : ℕ
game_res_login = 1002

abbrev pub game_req_echo : ℕ
game_req_echo = 5000

abbrev pub game_res_echo : ℕ
game_res_echo = 5001

abbrev pub game_req_heartbeat : ℕ
game_req_heartbeat = 5002

-- What the calls of one job find outside: the time, the packet that `packetMemoryPool.Alloc`
-- returns, what `SendPacket` answers, and what `type` and the numbers hold before they are read.
pub record Context : Type 0 where
  pub now : ℕ
  pub allocated : Option Packet
  pub sends : Bool
  pub unset : ℕ

-- `InitPacket` of GroupPacketGenerator.h: five bytes of header and the type.
init_packet : Packet → ℕ → Packet
init_packet p type = put_int (put_data p (replicate 5 0)).1 2 type

pub make_game_res_login : Packet → ℕ → ℕ → Packet
unfolding init_packet
make_game_res_login p status account_no =
    put_int (put_int (init_packet p game_res_login) 1 status) 8 account_no

pub make_game_res_echo : Packet → ℕ → ℕ → Packet
unfolding init_packet
make_game_res_echo p account_no send_tick =
    put_int (put_int (init_packet p game_res_echo) 8 account_no) 8 send_tick

-- `SendPacket` to a session.
abbrev pub send_packet : Server → ℕ → Packet → Server
send_packet s session_id p = record s { sent = (session_id, p) ∷ s.sent }

-- `Group::onEnter`.
unfoldable pub on_enter : Server → ℕ → Option ℕ → Server
on_enter s g none = s
on_enter s g (some p) =
    let x = group_at s g in
    let id = (s.players p).session_id in
    set_group s g
      (record x { players = (id, p) ∷ erase x.players id; player_count = x.player_count + 1 })

-- The entry of a session taken out of the map of the group.
unfoldable pub remove_player : Server → ℕ → ℕ → Server
remove_player s g session_id =
    let x = group_at s g in
    elim (find x.players session_id) [
      | none ↦ s
      | some p ↦
          set_group s g
            (record x { players = erase x.players session_id; player_count = x.player_count - 1 })
    ]

-- `Group::onLeave`: a player that has moved is sent on to its group, else it is freed.
unfoldable pub on_leave : Server → ℕ → Option ℕ → Server
on_leave s g none = s
on_leave s g (some p) =
    let job : Job = record { type = JobType.leave; player = some p; packet = none } in
    let s' = remove_player s g (s.players p).session_id in
    elim ((s.players p).group) [
      | none ↦ free_player s p
      | some cur ↦ if cur == g then free_player s' p else enqueue s cur job
    ]

-- The move of the player `p`, of the content `x`, from the group `g` to its shard: GROUP_ENTER goes
-- before the new group is stored.
unfoldable pub move_to_echo : Server → ℕ → ℕ → Player → Server
move_to_echo s g p x =
    let target = get_echo_group_for s.groups x.session_id in
    let enter : Job = record { type = JobType.group_enter; player = some p; packet = none } in
    let s' = set_player (enqueue s target enter) p (record x { group = some target }) in
    remove_player s' g x.session_id

-- `LoginGroup::handleLogin`: the answer and the server.
unfoldable pub handle_login : Context → Server → ℕ → ℕ → Packet → Bool × Server
handle_login c s g p request =
    let (account, _) = get_int request 8 in
    let account_no = read_or account c.unset in
    let x = record (on_login (s.players p) c.now) { account_no = account_no } in
    let s' = move_to_echo (set_player s p x) g p x in
    elim (c.allocated) [
      | none ↦ (false, s)
      | some res ↦
          let answer = make_game_res_login (init res) 1 account_no in
          (true, if c.sends then send_packet s' x.session_id answer else s')
    ]

-- `LoginGroup::OnRecv`.
unfoldable pub login_on_recv : Context → Server → ℕ → ℕ → Packet → Server
unfolding handle_login
login_on_recv c s g p request =
    let (value, request') = get_int request 2 in
    let type = read_or value c.unset in
    let refused = reserve_disconnect s p in
    let (done, s') = handle_login c s g p request' in
    let here : Bool = elim ((s.players p).group) [ none ↦ false | some cur ↦ cur == g ] in
    if not here
    then s
    else if not (type == game_req_login)
    then refused
    else if not (request.data_size == 72 + 7)
    then refused
    else if done
    then s'
    else reserve_disconnect s' p

-- `EchoGroup::handleEcho`.
unfoldable pub handle_echo : Context → Server → ℕ → Packet → Bool × Server
handle_echo c s p request =
    let (account, request') = get_int request 8 in
    let (tick, _) = get_int request' 8 in
    elim (c.allocated) [
      | none ↦ (false, s)
      | some res ↦
          let answer =
            make_game_res_echo (init res) (read_or account c.unset) (read_or tick c.unset) in
          (c.sends, if c.sends then send_packet s (s.players p).session_id answer else s)
    ]

-- `EchoGroup::OnRecv`; a size that does not fit the type is only logged.
unfoldable pub echo_on_recv : Context → Server → ℕ → Packet → Server
unfolding handle_echo
echo_on_recv c s p request =
    let (value, request') = get_int request 2 in
    let type = read_or value c.unset in
    let s₁ = set_player s p (update_heartbeat (s.players p) c.now) in
    let (sent, s₂) = handle_echo c s₁ p request' in
    if type == game_req_echo
    then (if sent then s₂ else reserve_disconnect s₂ p)
    else if type == game_req_heartbeat
    then s₁
    else reserve_disconnect s₁ p

-- The PACKET case of `Update`, where `OnRecv` is the group's own: the login group is the first.
unfoldable pub handle_packet : Context → Server → ℕ → Option ℕ → Option ℕ → Server
unfolding login_on_recv echo_on_recv
handle_packet c s g player none = s
handle_packet c s g none (some h) = sub_ref_packet s h
handle_packet c s g (some p) (some h) =
    let by_login = login_on_recv c s g p (s.packets h) in
    let by_echo = echo_on_recv c s p (s.packets h) in
    sub_ref_packet (if g == 0 then by_login else by_echo) h

-- The switch of `Update` on the type of a job, with its player and packet.
unfoldable pub handle_job : Context → Server → ℕ → JobType → Option ℕ → Option ℕ → Server
unfolding on_enter on_leave handle_packet
handle_job c s g join p h = on_enter s g p
handle_job c s g group_enter p h = on_enter s g p
handle_job c s g leave p h = on_leave s g p
handle_job c s g packet p h = handle_packet c s g p h

-- A turn of the loop of `Update` at what `local` holds: the front popped and handled.
unfoldable pub handle_front : Context → Server → ℕ → List Job → Server
handle_front c s g [] = s
handle_front c s g (job ∷ rest) =
    handle_job c (set_group s g (record (group_at s g) { local = rest })) g job.type job.player
      job.packet

unfoldable pub handle_next : Context → Server → ℕ → Server
handle_next c s g = handle_front c s g (group_at s g).local

-- The jobs of the mailbox taken over, at the start of `Update`.
unfoldable pub drain : Server → ℕ → Server
drain s g =
    let x = group_at s g in
    let (out, m) = drain_to x.mailbox in set_group s g (record x { mailbox = m; local = out })

-- The loop of `Update` over `n` jobs, the turn `i` with the context `cs i`: the number processed and the
-- server.
unfoldable pub update_loop : ℕ → (ℕ → Context) → Server → ℕ → ℕ × Server
update_loop zero cs s g = (0, s)
update_loop (suc n) cs s g =
    let (processed, s') = update_loop n (λ i. cs (suc i)) (handle_next (cs 0) s g) g in
    (1 + processed, s')

-- `Update` with no other step in between: the loop ends when the jobs drained are handled.
pub update : (ℕ → Context) → Server → ℕ → ℕ × Server
update cs s g = let s' = drain s g in update_loop (length (group_at s' g).local) cs s' g
