-- ===== src/GroupServer/Worlds.antt =====
-- The group server with the calls of its threads under way, and their steps.
use game_programmer_portfoli.Base.{
  ℕ, ◌+◌, ◌≤◌, ◌<◌, ◌≡◌, none, Option, some, ◌++◌, List, [], ◌∷◌, length, ◌==◌, count, one_if,
}
use game_programmer_portfoli.Packet.{Packet}
use game_programmer_portfoli.GroupServer.{
  Player, Server, create_groups, group_at, on_client_join_clear, on_client_join_store,
  on_client_join_insert, on_client_leave_locked, on_client_leave_check, on_recv,
}
use game_programmer_portfoli.GroupServer.Handlers.{Context, handle_next, drain}
use game_programmer_portfoli.GroupServer.Mail.{mail, map_weight, IsValid}
use game_programmer_portfoli.GroupServer.Steps.{lost_by}

-- The server and the calls under way. A call of `OnClientJoin`, by its session and player, has cleared
-- the player (`clearing`) or stored its group too (`storing`); a call of `OnClientLeave` has left its
-- lock with a player (`leaving`). In all, last first: the players handed to `OnClientJoin`, the packets
-- that came with `OnRecv`, the players taken out of the map without a LEAVE, and those that
-- `OnClientLeave` freed behind its lock.
pub record World : Type 0 where
  pub server : Server
  pub clearing : List (ℕ × ℕ)
  pub storing : List (ℕ × ℕ)
  pub leaving : List ℕ
  pub joined : List ℕ
  pub received : List ℕ
  pub lost : List ℕ
  pub checked : List ℕ

-- The list with the player, if there is one.
unfoldable pub put : Option ℕ → List ℕ → List ℕ
put none xs = xs
put (some p) xs = p ∷ xs

-- 1 at the number `n`, and 0.
abbrev pub is : ℕ → ℕ → ℕ
is n m = one_if (m == n)

abbrev pub never : ℕ → ℕ
never m = 0

-- How often a player stands in the map or in a LEAVE.
abbrev pub owned : Server → ℕ → ℕ
owned s p = map_weight (is p) s.player_map + mail (is p) never s.groups

-- How often a packet stands in a PACKET.
abbrev pub queued : Server → ℕ → ℕ
queued s h = mail never (is h) s.groups

-- How often a call of `OnClientJoin` holds a player.
abbrev pub entering : World → ℕ → ℕ
entering w p = map_weight (is p) w.clearing + map_weight (is p) w.storing

-- The pool hands out a player that was freed at least as often as it was handed out. A thread drains its mailbox
-- when it has handled all it drained before.
pub data Step (w : World) : World → Type 0 where
  clears :
      (p id now : ℕ)
      → count p w.joined ≤ count p w.server.freed
      → Step w (record w {
        server = on_client_join_clear w.server p id now;
        clearing = (id, p) ∷ w.clearing;
        joined = p ∷ w.joined;
      })
  stores :
      (p id : ℕ) (xs ys : List (ℕ × ℕ))
      → w.clearing ≡ xs ++ (id, p) ∷ ys
      → Step w (record w {
        server = on_client_join_store w.server p;
        clearing = xs ++ ys;
        storing = (id, p) ∷ w.storing;
      })
  inserts :
      (p id : ℕ) (xs ys : List (ℕ × ℕ))
      → w.storing ≡ xs ++ (id, p) ∷ ys
      → Step w (record w { server = on_client_join_insert w.server p id; storing = xs ++ ys })
  leaves :
      (id : ℕ)
      → Step w (
          let (found, s') = on_client_leave_locked w.server id in
          record w {
            server = s';
            leaving = put found w.leaving;
            lost = put (lost_by w.server found) w.lost;
          })
  checks :
      (p : ℕ) (xs ys : List ℕ)
      → w.leaving ≡ xs ++ p ∷ ys
      → Step w (record w {
        server = on_client_leave_check w.server (some p);
        leaving = xs ++ ys;
        checked = put (lost_by w.server (some p)) w.checked;
      })
  receives :
      (id h : ℕ) → Step w (record w { server = on_recv w.server id h; received = h ∷ w.received })
  drains :
      (g : ℕ) → (group_at w.server g).local ≡ [] → Step w (record w { server = drain w.server g })
  handles :
      (g : ℕ) (c : Context)
      → g < length w.server.groups
      → Step w (record w { server = handle_next c w.server g })

pub data Reaches (w : World) : World → Type 0 where
  here : Reaches w w
  next : {u v : World} → Reaches w u → Step u v → Reaches w v

pub record Accounts (w : World) : Type 0 where
  pub valid : IsValid w.server
  pub players :
      (p : ℕ)
      → owned w.server p + entering w p + count p w.lost + count p w.server.freed
        ≡ count p w.joined + count p w.checked
  pub packets : (h : ℕ) → queued w.server h + count h w.server.sub_refs ≡ count h w.received
  pub once : (p : ℕ) → owned w.server p + entering w p + count p w.lost ≤ 1 + count p w.checked
  pub handed : (p : ℕ) → count p w.joined ≤ 1 + count p w.server.freed

-- The server as it starts, with the memory of its pools.
abbrev pub start : (ℕ → Player) → (ℕ → Packet) → ℕ → World
start players packets echo_shard_count = record {
  server = record {
    players = players;
    packets = packets;
    player_map = [];
    groups = create_groups echo_shard_count;
    freed = [];
    sub_refs = [];
    disconnects = [];
    sent = [];
  };
  clearing = [];
  storing = [];
  leaving = [];
  joined = [];
  received = [];
  lost = [];
  checked = [];
}
