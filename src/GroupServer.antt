-- ===== src/GroupServer.antt =====
-- GroupServer.cpp, Group.h, GroupManager and Player.h (projects/group-echo-server/Server/GroupServer):
-- the players of the sessions, and the groups that own them, each with a mailbox and a thread. A
-- `Player*` and a `Packet*` are numbers, a `Group*` is the index of its thread; a null pointer is
-- `none`. What the monitor counts and logs is left out, and so is the session key, which nothing reads.
pub mod Handlers
pub mod Mail
pub mod Turns
pub mod Steps
pub mod Worlds
pub mod Owners
mod Examples
use game_programmer_portfoli.Base.{
  find, erase, ℕ, zero, suc, ◌+◌, ◌-◌, ◌%◌, Bool, true, false, not, Option, none, some, List, [],
  ◌∷◌, ◌++◌, length, get_or, set, replicate, ltb, leb, ◌==◌, if◌then◌else◌,
}
use game_programmer_portfoli.Packet.{Packet}

pub data JobType : Type 0 where
  join leave packet group_enter : JobType

pub record Job : Type 0 where
  pub type : JobType
  pub player : Option ℕ
  pub packet : Option ℕ

-- `JobMailbox`: the queue, front first, and `mApproxSize`.
pub record Mailbox : Type 0 where
  pub queue : List Job
  pub approx_size : ℕ

pub enqueue_job : Mailbox → Job → Mailbox
enqueue_job m j =
    let queue' = m.queue ++ (j ∷ []) in record { queue = queue'; approx_size = length queue' }

-- `DrainTo` with an empty `out`: what `out` holds then, and the mailbox.
pub drain_to : Mailbox → List Job × Mailbox
drain_to m = (m.queue, record { queue = []; approx_size = 0 })

pub record Player : Type 0 where
  pub session_id : ℕ
  pub account_no : ℕ
  pub will_delete : Bool
  pub is_logged_in : Bool
  pub connect_time : ℕ
  pub last_active_time : ℕ
  pub timeout_logged : Bool
  -- `mGroup`.
  pub group : Option ℕ

-- `Clear`.
abbrev pub cleared : Player
cleared = record {
  session_id = 0;
  account_no = 0;
  will_delete = false;
  is_logged_in = false;
  connect_time = 0;
  last_active_time = 0;
  timeout_logged = false;
  group = none;
}

abbrev pub on_connect : Player → ℕ → Player
on_connect p now = record p { connect_time = now; timeout_logged = false }

abbrev pub on_login : Player → ℕ → Player
on_login p now = record p { last_active_time = now; is_logged_in = true }

abbrev pub update_heartbeat : Player → ℕ → Player
update_heartbeat p now = record p { last_active_time = now }

-- A group: `mMailbox`, `mPlayers`, `mPlayerCount`, and the jobs that its thread has drained and not
-- yet handled (`local` of `Update`).
pub record Group : Type 0 where
  pub mailbox : Mailbox
  pub players : List (ℕ × ℕ)
  pub player_count : ℕ
  pub local : List Job

abbrev pub empty_group : Group
empty_group = record {
  mailbox = record { queue = []; approx_size = 0 };
  players = [];
  player_count = 0;
  local = [];
}

-- The server. `players` is the memory of the players and `packets` that of the packets; the calls of
-- `playerMemoryPool.Free`, `SubRef`, `DisConnect` and `SendPacket` are kept in order, last first.
pub record Server : Type 0 where
  pub players : ℕ → Player
  pub packets : ℕ → Packet
  pub player_map : List (ℕ × ℕ)
  pub groups : List Group
  pub freed : List ℕ
  pub sub_refs : List ℕ
  pub disconnects : List ℕ
  pub sent : List (ℕ × Packet)

-- The constructor of `GroupManager`: the login group and the shards.
unfoldable pub create_groups : ℕ → List Group
create_groups echo_shard_count =
    let shards : ℕ = if ltb echo_shard_count 1 then 1 else echo_shard_count in
    empty_group ∷ replicate shards empty_group

-- `GetEchoGroupFor`, as the index of the shard's thread.
unfoldable pub get_echo_group_for : List Group → ℕ → ℕ
get_echo_group_for groups session_id = 1 + session_id % (length groups - 1)

-- `GetGroupByThreadIdx`.
pub get_group_by_thread_idx : List Group → ℕ → Option ℕ
get_group_by_thread_idx groups idx =
    if idx == 0 then some 0 else if leb (length groups - 1) (idx - 1) then none else some idx

abbrev pub group_at : Server → ℕ → Group
group_at s g = get_or s.groups g empty_group

abbrev pub set_group : Server → ℕ → Group → Server
set_group s g x = record s { groups = set s.groups g x }

abbrev pub set_player : Server → ℕ → Player → Server
set_player s p x = record s { players = λ q. if q == p then x else s.players q }

-- `Group::Enqueue` on the group `g`.
unfoldable pub enqueue : Server → ℕ → Job → Server
unfolding enqueue_job
enqueue s g j =
    let x = group_at s g in set_group s g (record x { mailbox = enqueue_job x.mailbox j })

abbrev pub free_player : Server → ℕ → Server
free_player s p = record s { freed = p ∷ s.freed }

abbrev pub sub_ref_packet : Server → ℕ → Server
sub_ref_packet s h = record s { sub_refs = h ∷ s.sub_refs }

-- `OnClientJoin` at the time `now`, with the player that the pool returns: `Clear` and what is set behind
-- it, which leaves it in no group; the store of `mGroup`; the section under the lock, and the way back.
unfoldable pub on_client_join_clear : Server → ℕ → ℕ → ℕ → Server
on_client_join_clear s p session_id now =
    set_player s p (on_connect (record cleared { session_id = session_id }) now)

unfoldable pub on_client_join_store : Server → ℕ → Server
on_client_join_store s p = set_player s p (record (s.players p) { group = some 0 })

unfoldable pub on_client_join_insert : Server → ℕ → ℕ → Server
on_client_join_insert s p session_id =
    let s' = record s { player_map = (session_id, p) ∷ s.player_map } in
    let job : Job = record { type = JobType.join; player = some p; packet = none } in
    elim (find s.player_map session_id) [ none ↦ enqueue s' 0 job | some other ↦ free_player s p ]

-- `OnClientJoin` with no other step in between.
unfoldable pub on_client_join : Server → ℕ → ℕ → ℕ → Server
unfolding on_client_join_clear on_client_join_store on_client_join_insert
on_client_join s p session_id now =
    let s₁ = on_client_join_clear s p session_id now in
    on_client_join_insert (on_client_join_store s₁ p) p session_id

-- A LEAVE to the group of the player `p`, if it has one.
unfoldable pub post_leave : Server → ℕ → Option ℕ → Server
post_leave s p none = s
post_leave s p (some g) =
    enqueue s g record { type = JobType.leave; player = some p; packet = none }

-- The section of `OnClientLeave` under the lock: the player found, taken out of the map.
unfoldable pub on_client_leave_locked : Server → ℕ → Option ℕ × Server
on_client_leave_locked s session_id =
    let s' = record s { player_map = erase s.player_map session_id } in
    elim (find s.player_map session_id) [
      | none ↦ (none, s)
      | some p ↦ (some p, post_leave s' p (s.players p).group)
    ]

unfoldable pub free_if_none : Server → ℕ → Option ℕ → Server
free_if_none s p none = free_player s p
free_if_none s p (some g) = s

-- What `OnClientLeave` does behind the lock.
unfoldable pub on_client_leave_check : Server → Option ℕ → Server
on_client_leave_check s none = s
on_client_leave_check s (some p) = free_if_none s p (s.players p).group

-- `OnClientLeave` with no other step in between.
pub on_client_leave : Server → ℕ → Server
on_client_leave s session_id =
    let (player, s') = on_client_leave_locked s session_id in on_client_leave_check s' player

-- `OnRecv` of the server; the caller hands over one reference to the packet.
unfoldable pub on_recv : Server → ℕ → ℕ → Server
on_recv s session_id h = elim (find s.player_map session_id) [
  | none ↦ sub_ref_packet s h
  | some p ↦
      let job : Job = record { type = JobType.packet; player = some p; packet = some h } in
      elim ((s.players p).group) [ none ↦ sub_ref_packet s h | some g ↦ enqueue s g job ]
]

-- `ReserveDisconnect`.
unfoldable pub reserve_disconnect : Server → ℕ → Server
reserve_disconnect s p =
    let x = s.players p in
    let s' = set_player s p (record x { will_delete = true }) in
    if x.will_delete then s else record s' { disconnects = x.session_id ∷ s'.disconnects }
